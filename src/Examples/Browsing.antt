-- ===== src/Examples/Browsing.antt =====
-- A page of the web client whose access token has expired.
use powergas.Base.{◌+◌, ◌==◌, ◌≡◌, refl, false, Option, none, some, [], if◌then◌else◌}
use powergas.Enums.{customer}
use powergas.Table.{Uuid}
use powergas.Entities.{Text, Time, User}
use powergas.World.{Action, pure}
use powergas.Guards.{JwtPayload, guarded}
use powergas.AuthApi.{post_refresh}
use powergas.WebClient.{WebClient, authorized, send}
use powergas.WebClient.Refresh.{send_refreshes, fresh_payload}
use powergas.Auth.{
  login, validate_user, check_password, admit, generate_tokens, has_live_token, new_token,
  refresh_lifetime_ms,
}
use powergas.Users.{
  find_by_email, is_locked, reset_failed_logins, update_last_login, seen_at, clear_failures,
}
use powergas.Examples.Signing.{lib, the_user, logged_in}

-- The token 0 is not good any more.
abbrev payload_of : Text → Time → Option JwtPayload
payload_of token now =
    if token == 0 then none else some (record { sub = 7; email = 70; role = customer; jti = token })

abbrev page : WebClient
page = record { access_token = some 0; refreshing = false; cookie = some 100 }

abbrev who : Uuid × User → Action Uuid
who (id, _) = pure id

abbrev seen : User
seen = record the_user {
  failed_login_attempts = 0;
  last_login_at = some 5000;
  last_login_ip = some 1;
}

send_refreshes_example :
    let s = send lib 1 (authorized payload_of [] who) page logged_in in
    let exchanged = (post_refresh lib (some 100) none 1 logged_in).1 in
    let direct = guarded [] (some (fresh_payload seen 7 102)) who exchanged in
    (s.0.0 ≡ direct.0)
    × (s.1 ≡ direct.1)
    × (s.0.1.access_token ≡ some 102)
    × (s.0.1.cookie ≡ some 102)
unfolding login validate_user find_by_email check_password is_locked admit reset_failed_logins
    update_last_login generate_tokens has_live_token new_token seen_at clear_failures
send_refreshes_example =
    send_refreshes lib 1 payload_of [] who page 0 100 logged_in {id = 101}
      {r = record {
        user_id = 7;
        token = 100;
        device_id = none;
        user_agent = none;
        ip_address = some 1;
        expires_at = 5000 + refresh_lifetime_ms;
        is_revoked = false;
        revoked_at = none;
      }}
      {u = seen} refl refl refl refl refl refl refl refl
