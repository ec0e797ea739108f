-- ===== src/WebClient/Refresh.antt =====
-- A request with an access token that has expired.
use powergas.Base.{◌*◌, ◌≡◌, refl, ap, ◌∙◌, false, Option, none, some, List, arith, ltb}
use powergas.Enums.{UserRole}
use powergas.Table.{Uuid, find_by_id, find_one}
use powergas.Entities.{Text, Time, User, RefreshToken}
use powergas.World.{World, Result, Action, ok, err, unauthorized}
use powergas.Users.{find_user}
use powergas.Guards.{JwtPayload, guarded}
use powergas.Auth.{Libraries, has_live_token, refresh_tokens, rotate, generate_tokens}
use powergas.AuthApi.{post_refresh, to_answer, SessionAnswer}
use powergas.WebClient.{WebClient, authorized, set_session, retry, send}

-- The payload of the token that is signed in an exchange.
abbrev pub fresh_payload : User → Uuid → Uuid → JwtPayload
fresh_payload u user_id jti = record { sub = user_id; email = u.email; role = u.role; jti = jti }

module _ (lib : Libraries) (ip : Text) {A : Type 0} (request : Option Text → Action A) where
  send-retry :
      (c : WebClient) (w : World)
      → request c.access_token w ≡ (err unauthorized, w)
      → c.refreshing ≡ false
      → send lib ip request c w ≡ retry lib ip request unauthorized c w
  unfolding send
  send-retry c w refused idle = ground arith

  retry_ok :
      (c : WebClient) (w : World) {s : SessionAnswer}
      → (post_refresh lib c.cookie none ip w).0 ≡ ok s
      → let a = request (some s.access_token) (post_refresh lib c.cookie none ip w).1 in
        retry lib ip request unauthorized c w ≡ ((a.0, set_session s c), a.1)
  unfolding retry
  retry_ok c w exchanged = ground arith

module _ (lib : Libraries) (ip : Text) (payload_of : Text → Time → Option JwtPayload) where
  post_refresh_ok :
      (token : Text) (w : World) {id : Uuid} {r : RefreshToken} {u : User}
      → find_one (has_live_token token) w.refresh_tokens ≡ some (id, r)
      → ltb r.expires_at w.now ≡ false
      → find_by_id r.user_id w.users ≡ some u
      → ((post_refresh lib (some token) none ip w).0
          ≡ ok (record {
            access_token = lib.sign r.user_id u.email u.role w.next_id;
            expires_in = 15 * 60;
            cookie = lib.sign_refresh r.user_id w.next_id;
          }))
        × ((post_refresh lib (some token) none ip w).1.now ≡ w.now)
  unfolding post_refresh refresh_tokens rotate generate_tokens find_user to_answer
  post_refresh_ok token w held current known = (ground arith, ground arith)

  authorized_expired :
      {A : Type 0} (roles : List UserRole) (handler : Uuid × User → Action A) (old : Text)
      (w : World)
      → payload_of old w.now ≡ none
      → authorized payload_of roles handler (some old) w ≡ (err unauthorized, w)
  unfolding authorized guarded
  authorized_expired roles handler old w expired = rw expired refl

  authorized_good :
      {A : Type 0} (roles : List UserRole) (handler : Uuid × User → Action A) (token : Text)
      (w : World) {p : JwtPayload}
      → payload_of token w.now ≡ some p
      → authorized payload_of roles handler (some token) w ≡ guarded roles (some p) handler w
  unfolding authorized
  authorized_good roles handler token w good = rw good refl

  -- An access token that has expired does not show: while the session of the cookie is live, the request is
  -- answered as one with the payload of a fresh token is, right after the exchange, and the client
  -- goes on with the new token and the new cookie. It is supposed that a token just signed is good.
  pub send_refreshes :
      {A : Type 0} (roles : List UserRole) (handler : Uuid × User → Action A) (c : WebClient)
      (old token : Text) (w : World) {id : Uuid} {r : RefreshToken} {u : User}
      → c.refreshing ≡ false
      → c.access_token ≡ some old
      → payload_of old w.now ≡ none
      → c.cookie ≡ some token
      → find_one (has_live_token token) w.refresh_tokens ≡ some (id, r)
      → ltb r.expires_at w.now ≡ false
      → find_by_id r.user_id w.users ≡ some u
      → payload_of (lib.sign r.user_id u.email u.role w.next_id) w.now
        ≡ some (fresh_payload u r.user_id w.next_id)
      → let s = send lib ip (authorized payload_of roles handler) c w in
        let exchanged = (post_refresh lib (some token) none ip w).1 in
        let direct = guarded roles (some (fresh_payload u r.user_id w.next_id)) handler exchanged in
        (s.0.0 ≡ direct.0)
        × (s.1 ≡ direct.1)
        × (s.0.1.access_token ≡ some (lib.sign r.user_id u.email u.role w.next_id))
        × (s.0.1.cookie ≡ some (lib.sign_refresh r.user_id w.next_id))
  unfolding set_session
  send_refreshes {A} roles handler c old token w {r = r} {u = u} idle has_token expired has_cookie
        held current known good =
      let (answer, same_time) = post_refresh_ok token w held current known in
      let fresh = lib.sign r.user_id u.email u.role w.next_id in
      let exchanged = (post_refresh lib (some token) none ip w).1 in
      let refused : authorized payload_of roles handler c.access_token w ≡ (err unauthorized, w) =
        rw has_token (authorized_expired roles handler old w expired) in
      let again =
        authorized_good roles handler fresh exchanged (ap (payload_of fresh) same_time ∙ good) in
      let tried = send-retry lib ip (authorized payload_of roles handler) c w refused idle in
      let ended =
        retry_ok lib ip (authorized payload_of roles handler) (record c { cookie = some token }) w
          {s = _} answer in
      let same_client : c ≡ record c { cookie = some token } =
        ap (λ (x : Option Text). record c { cookie = x }) has_cookie in
      let whole =
        tried
        ∙ ap
            (λ (v : WebClient). retry lib ip (authorized payload_of roles handler) unauthorized v w)
            same_client
        ∙ ended in
      (
        ap (λ (x : (Result A × WebClient) × World). x.0.0) whole
            ∙ ap (λ (x : Result A × World). x.0) again,
        ap (λ (x : (Result A × WebClient) × World). x.1) whole
            ∙ ap (λ (x : Result A × World). x.1) again,
        ap (λ (x : (Result A × WebClient) × World). x.0.1.access_token) whole,
        ap (λ (x : (Result A × WebClient) × World). x.0.1.cookie) whole,
      )
