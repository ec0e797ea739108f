-- ===== src/Examples/Calling.antt =====
-- Requests to the routes, of senders who may and who may not.
use powergas.Base.{pos, ◌≡◌, ◌⊎◌, refl, true, Option, none, some, List, [], ◌∷◌, arith}
use powergas.Enums.{UserRole, OrderStatus, RiderStatus}
use powergas.Table.{Uuid, find_by_id, insert}
use powergas.Entities.{Order}
use powergas.World.{World, HttpException, ok, err, unauthorized}
use powergas.Guards.{JwtPayload}
use powergas.Users.{
  find_by_email, is_locked, reset_failed_logins, update_last_login, seen_at, clear_failures,
}
use powergas.Auth.{login, validate_user, check_password, admit, generate_tokens}
use powergas.Stations.{resolve_station_for_user}
use powergas.ChangeRequests.{CreateChangeRequestDto, new_request}
use powergas.ChangeRequestsApi.{post_request}
use powergas.ChangeRequestsApi.Station.{post_request_own}
use powergas.RidersApi.{post_withdrawal}
use powergas.RidersApi.Own.{post_withdrawal-other}
use powergas.AuthApi.{post_logout, post_refresh}
use powergas.AuthApi.Cookie.{post_refresh-post_logout}
use powergas.AdminApi.Privileges.{
  AdminCall, sets_commission, assigns_staff, suspends, serve_all, serve_all_refused,
}
use powergas.Examples.Data.{world, the_rider, the_wallet}
use powergas.Examples.Signing.{lib, the_user, logged_in}

-- User 7 is a customer, user 9 a second rider and user 11 works at station 3.
abbrev start : World
start =
    let w = world OrderStatus.pending none RiderStatus.available in
    record w {
      users =
          (7, the_user)
          ∷ (9, record the_user { role = UserRole.rider })
          ∷ (11, record the_user { role = UserRole.station_staff })
          ∷ [];
      riders =
          (5, the_rider RiderStatus.available)
          ∷ (15, record (the_rider RiderStatus.available) { user_id = 9 })
          ∷ [];
      wallets =
          (6, the_wallet)
          ∷ (16, record the_wallet { rider_id = 15; available_balance = pos 800 })
          ∷ [];
      station_staff =
          (
            40,
            record {
              user_id = 11;
              station_id = 3;
              role = UserRole.station_staff;
              is_active = true;
            },
          )
          ∷ [];
    }

abbrev pass_of : Uuid → JwtPayload
pass_of id = record { sub = id; email = 70; role = UserRole.super_admin; jti = 1 }

post_withdrawal-other_example :
    find_by_id 6 (post_withdrawal (some (pass_of 9)) (pos 300) start).1.wallets ≡ some the_wallet
post_withdrawal-other_example =
    post_withdrawal-other (pass_of 9) (pos 300) start 6 {v = the_wallet}
      {r = the_rider RiderStatus.available} (refl, (refl, tt)) (refl, (refl, tt)) refl refl
      (λ same. absurd (omega (arith, same)))

abbrev the_request : CreateChangeRequestDto
the_request = record { order_id = 1; photo_url = 5; additional_amount = 700 }

post_request_own_example :
    let r = post_request (some (pass_of 11)) the_request start in
    ((e : HttpException) × (r ≡ (err e, start)))
    ⊎ ((station_id : Uuid) × (o : Order) × (resolve_station_for_user 11 start ≡ some station_id)
        × (find_by_id 1 start.orders ≡ some o)
        × (o.station_id ≡ station_id)
        × (r.0 ≡ ok 100)
        × (r.1.change_requests
            ≡ insert 100 (new_request the_request station_id 11) start.change_requests))
post_request_own_example = post_request_own (pass_of 11) the_request start

-- The user is logged in with the cookie 100.
post_refresh-post_logout_example :
    let w' = record (post_logout (some (pass_of 7)) (some 100) logged_in).1 { now = 9000 } in
    post_refresh lib (some 100) none 1 w' ≡ (err unauthorized, w')
unfolding login validate_user find_by_email check_password is_locked admit reset_failed_logins
    update_last_login generate_tokens seen_at clear_failures
post_refresh-post_logout_example =
    post_refresh-post_logout lib (pass_of 7) 100 none 1 9000 logged_in
      {u = record the_user {
        failed_login_attempts = 0;
        last_login_at = some 5000;
        last_login_ip = some 1;
      }}
      refl

abbrev prefix_of : Option Uuid → Uuid
prefix_of city = 0

-- A rider, and someone without a token.
abbrev attempts : List (Option JwtPayload × AdminCall)
attempts =
    (some (pass_of 9), sets_commission (pos 0) none)
    ∷ (some (pass_of 9), assigns_staff 3 9 UserRole.station_manager)
    ∷ (none, suspends 7)
    ∷ []

serve_all_refused_example : serve_all prefix_of 0 attempts start ≡ start
serve_all_refused_example = serve_all_refused prefix_of 0 attempts start (refl, (refl, (refl, tt)))
