-- ===== src/WebClient.antt =====
-- frontend/src/services/api.ts and the store of frontend/src/store/auth.ts: the web client's requests, and the
-- exchange of its refresh token when a request is refused. The browser keeps the cookie; `payload_of` is
-- JwtService.verify, the payload of a token that is good at a time.
pub mod Refresh
use powergas.Base.{Bool, true, false, Option, none, some, List, ◌&&◌, not, if◌then◌else◌}
use powergas.Enums.{UserRole}
use powergas.Table.{Uuid}
use powergas.Entities.{Text, Time, User}
use powergas.World.{
  World, Result, ok, err, Action, HttpException, bad_request, unauthorized, forbidden, not_found,
  conflict, entity_not_found, internal_error,
}
use powergas.Guards.{JwtPayload, guarded}
use powergas.Auth.{Libraries}
use powergas.AuthApi.{SessionAnswer, post_refresh}

pub record WebClient : Type 0 where
  pub access_token : Option Text
  pub refreshing : Bool
  pub cookie : Option Text

-- `error.response?.status === 401`
abbrev pub is_unauthorized : HttpException → Bool
is_unauthorized unauthorized = true
is_unauthorized _ = false

-- A route behind the guards, of the token in the header of the request.
unfoldable pub authorized :
    {A : Type 0}
    → (Text → Time → Option JwtPayload)
    → List UserRole
    → (Uuid × User → Action A)
    → Option Text
    → Action A
authorized payload_of roles handler none w = guarded roles none handler w
authorized payload_of roles handler (some token) w =
    guarded roles (payload_of token w.now) handler w

unfoldable pub set_session : SessionAnswer → WebClient → WebClient
set_session s c = record c { access_token = some s.access_token; cookie = some s.cookie }

module _ (lib : Libraries) (ip_address : Text) {A : Type 0} (request : Option Text → Action A) where
  -- The exchange, and the request once more: what it is answered then is not looked at again. Where the
  -- exchange fails the client is logged out, and the first refusal is the answer.
  unfoldable pub retry : HttpException → WebClient → World → (Result A × WebClient) × World
  retry e c w =
      let (r, w') = post_refresh lib c.cookie none ip_address w in
      elim r [
        | ok s ↦
            let (answer, w'') = request (some s.access_token) w' in ((answer, set_session s c), w'')
        | err _ ↦ ((err e, record c { access_token = none }), w')
      ]

  unfoldable pub send : WebClient → World → (Result A × WebClient) × World
  send c w =
      let (r, w') = request c.access_token w in
      elim r [
        | ok a ↦ ((ok a, c), w')
        | err e ↦ if is_unauthorized e && not c.refreshing then retry e c w' else ((err e, c), w')
      ]
