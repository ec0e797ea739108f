-- ===== src/AuthApi/Cookie.antt =====
-- What is left of a cookie after its session.
use powergas.Base.{◌≡◌, refl, Option, none, some, [], ◌∷◌, ◌==◌, arith}
use powergas.Table.{Table, find_one, find_by_id, update_where}
use powergas.Entities.{Text, Time, User, RefreshToken}
use powergas.World.{World, err, unauthorized}
use powergas.Guards.{JwtPayload, guarded_lem}
use powergas.Auth.{Libraries, has_live_token, revoke, refresh_tokens, logout}
use powergas.AuthApi.{post_logout, post_refresh}

find_one-revoked :
    (token : Text) (now : Time) (t : Table RefreshToken)
    → find_one (has_live_token token) (update_where (λ r. r.token == token) (revoke now) t) ≡ none
unfolding has_live_token revoke
find_one-revoked token now [] = refl
find_one-revoked token now ((j, r) ∷ t) = ground (arith, find_one-revoked token now t)

module _ (lib : Libraries) where
  -- After a logout with a cookie the cookie is exchanged no more: the exchange is refused and changes
  -- nothing, however much later it is asked for and whatever its body says.
  pub post_refresh-post_logout :
      (p : JwtPayload) (token : Text) (in_body : Option Text) (ip : Text) (later : Time) (w : World)
      {u : User}
      → find_by_id p.sub w.users ≡ some u
      → let w' = record (post_logout (some p) (some token) w).1 { now = later } in
        post_refresh lib (some token) in_body ip w' ≡ (err unauthorized, w')
  unfolding post_logout post_refresh logout refresh_tokens
  post_refresh-post_logout p token in_body ip later w known =
      let gone = find_one-revoked token w.now w.refresh_tokens in
      let runs = guarded_lem [] (some p) (λ (id, _). logout id (some token)) w in ground arith
