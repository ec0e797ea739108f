-- ===== src/Examples/Serving.antt =====
-- Rules, assignments, reviews, addresses, notifications, guards, answers and sockets.
use powergas.Base.{◌⊎◌, ◌≢◌, ◌≡◌, refl, true, false, none, some, [], ◌∷◌, arith}
use powergas.Enums.{UserRole, OrderStatus, RiderStatus}
use powergas.Table.{insert, find_newest}
use powergas.Entities.{phone_verification}
use powergas.World.{World, ok, err, conflict, forbidden}
use powergas.Pagination.{PaginationDto}
use powergas.Stations.{
  works_for_user, find_station, assign, is_assignment, rehire, assign_staff,
  resolve_station_for_user,
}
use powergas.Stations.Staff.{resolve_station_for_user-assign_staff}
use powergas.Customers.{UpdateAddressDto, update_address}
use powergas.Customers.Addresses.{HasOneDefault, update_address-HasOneDefault}
use powergas.Guards.{JwtPayload, guarded, guarded_lem}
use powergas.OrdersApi.{find_one_order, find_mine, show_order}
use powergas.OrdersApi.Hidden.{hidden, customer_answers_hidden}
use powergas.Tracking.Gateway.{Gateway, handle_connection, handle_disconnect}
use powergas.Tracking.Sockets.{handle_disconnect-handle_connection}
use powergas.Auth.{register, RegisterDto, new_user, new_otp, is_active_of}
use powergas.Users.{find_by_email_or_phone}
use powergas.Auth.Accounts.{register_lem}
use powergas.Examples.Data.{world}
use powergas.Examples.Signing.{lib, env, the_user}

-- User 7 is a customer, with order 1.
abbrev start : World
start = record (world OrderStatus.pending none RiderStatus.available) { users = (7, the_user) ∷ [] }

abbrev newcomer : RegisterDto
newcomer = record { email = 80; phone = 81; password = 82; role = some UserRole.rider }

register_lem_example :
    let r = register lib env newcomer start in
    ((find_by_email_or_phone 80 81 start ≢ none) × (r ≡ (err conflict, start)))
    ⊎ ((find_by_email_or_phone 80 81 start ≡ none)
        × (r.0 ≡ ok tt)
        × (r.1.users ≡ insert 101 (new_user newcomer (lib.hash 100 82)) start.users)
        × (find_newest (is_active_of 101 phone_verification) r.1.otp_records
            ≡ some (103, new_otp lib env (some 101) 81 phone_verification 102 5000)))
register_lem_example = register_lem lib env newcomer start

-- User 9 worked at station 3 before.
abbrev left : World
left = record start {
  station_staff =
      (40, record { user_id = 9; station_id = 3; role = UserRole.station_staff; is_active = false })
      ∷ [];
}

resolve_station_for_user-assign_staff_example :
    resolve_station_for_user 9 (assign_staff 3 9 UserRole.station_manager left).1 ≡ some 3
unfolding resolve_station_for_user works_for_user assign_staff find_station assign is_assignment
    rehire
resolve_station_for_user-assign_staff_example =
    resolve_station_for_user-assign_staff 3 9 UserRole.station_manager left
      (assign_staff 3 9 UserRole.station_manager left).1
      {s = record {
        user_id = 9;
        station_id = 3;
        role = UserRole.station_manager;
        is_active = true;
      }}
      (refl, tt) refl refl

-- Two addresses of user 7, the first of them the default.
abbrev housed : World
housed = record start {
  addresses =
      (50, record { user_id = 7; full_address = 0; is_default = true })
      ∷ (51, record { user_id = 7; full_address = 1; is_default = false })
      ∷ [];
}

abbrev prefer : UpdateAddressDto
prefer = record { user_id = none; full_address = none; is_default = some true; deleted_at = none }

housed-HasOneDefault : HasOneDefault housed.addresses
housed-HasOneDefault user_id = ground arith

update_address-HasOneDefault_example : HasOneDefault (update_address 7 51 prefer housed).1.addresses
update_address-HasOneDefault_example =
    update_address-HasOneDefault 7 51 prefer housed refl housed-HasOneDefault

abbrev pass : JwtPayload
pass = record { sub = 7; email = 70; role = UserRole.super_admin; jti = 1 }

guarded_lem_example :
    guarded (UserRole.super_admin ∷ []) (some pass) (show_order 1) start ≡ (err forbidden, start)
guarded_lem_example = guarded_lem (UserRole.super_admin ∷ []) (some pass) (show_order 1) start

abbrev first_page : PaginationDto
first_page = record { page = 1; limit = 20 }

customer_answers_hidden_example :
    ((find_one_order (some pass) 1 (hidden start)).0 ≡ (find_one_order (some pass) 1 start).0)
    × ((find_mine (some pass) first_page (hidden start)).0
        ≡ (find_mine (some pass) first_page start).0)
customer_answers_hidden_example = customer_answers_hidden pass the_user start 1 first_page refl refl

-- User 7 is connected by socket 60.
abbrev connected : Gateway
connected = record {
  user_sockets = (7, 60 ∷ []) ∷ [];
  clients = (60, record { user_id = 7; role = UserRole.customer; rooms = [] }) ∷ [];
}

handle_disconnect-handle_connection_example :
    handle_disconnect 61 (handle_connection 61 (some (7, UserRole.customer)) connected) ≡ connected
handle_disconnect-handle_connection_example =
    handle_disconnect-handle_connection 61 7 UserRole.customer connected (λ empty. absurd (cc), tt)
      refl refl
