-- ===== src/OrdersApi.antt =====
-- backend/src/orders/orders.controller.ts, and the lists of orders of backend/src/orders/orders.service.ts: who may
-- call what, and what the answer shows. The feed of nearby orders is raw SQL and is left out; so is the
-- manual run of the batching.
pub mod Hidden
use powergas.Base.{
  ℕ, ℤ, Bool, true, Option, none, some, List, [], ◌∷◌, ◌==◌, ◌||◌, same, select, if◌then◌else◌,
}
use powergas.Enums.{
  UserRole, customer, rider, station_staff, station_manager, admin, super_admin, OrderStatus,
  role_eq,
}
use powergas.Geo.{Floats}
use powergas.Table.{Uuid, Table, find_by_id}
use powergas.Entities.{Text, Order, OrderStatusHistory, User}
use powergas.Pagination.{PaginationDto, PaginatedResult}
use powergas.Queries.{find_page}
use powergas.World.{World, ok, Action, entity_not_found, pure, gets, or_raise, ◌>>=◌, ◌>>◌}
use powergas.Guards.{JwtPayload, guarded}
use powergas.Riders.{find_by_user_id}
use powergas.OrderViews.{
  CustomerOrderView, StationOrderView, to_customer_order_view, to_customer_order_views,
  to_station_order_view, to_station_order_views,
}
use powergas.Orders.Store.{find_order}
use powergas.Orders.Pricing.{CreateOrderDto}
use powergas.Orders.Create
use powergas.Orders.Status
use powergas.Orders.Confirm
use powergas.Orders.Cancel
use powergas.Orders.Accept
use powergas.Orders.Assign

-- What is answered of an order.
pub data OrderAnswer : Type 0 where
  to_customer : CustomerOrderView → OrderAnswer
  to_station : StationOrderView → OrderAnswer
  whole : Order → OrderAnswer

-- What is answered of a page of orders, with its data.
pub data PageAnswer : Type 0 where
  customer_page : PaginatedResult (Uuid × CustomerOrderView) → PageAnswer
  station_page : PaginatedResult (Uuid × StationOrderView) → PageAnswer
  whole_page : PaginatedResult (Uuid × Order) → PageAnswer
  use_role_endpoints : PageAnswer

-- `{ ...result, items: f(result.items) }`
abbrev pub with_items : {A B : Type 0} → (List A → List B) → PaginatedResult A → PaginatedResult B
with_items f r = record {
  items = f r.items;
  total = r.total;
  page = r.page;
  limit = r.limit;
  total_pages = r.total_pages;
  has_next = r.has_next;
  has_prev = r.has_prev;
}

unfoldable pub find_by_customer : Uuid → PaginationDto → World → PaginatedResult (Uuid × Order)
find_by_customer customer_id pagination w =
    find_page (λ o. o.customer_id == customer_id) pagination w.orders

unfoldable pub find_by_station : Uuid → PaginationDto → World → PaginatedResult (Uuid × Order)
find_by_station station_id pagination w =
    find_page (λ o. o.station_id == station_id) pagination w.orders

unfoldable pub find_by_rider : Uuid → PaginationDto → World → PaginatedResult (Uuid × Order)
find_by_rider rider_id pagination w =
    find_page (λ o. same o.rider_id (some rider_id)) pagination w.orders

unfoldable pub get_order_status_history : Uuid → World → List OrderStatusHistory
get_order_status_history order_id w = select (λ h. h.order_id == order_id) w.status_history

abbrev pub is_station_role : UserRole → Bool
is_station_role role = role_eq role station_staff || role_eq role station_manager

-- The rest of `findMine`, for its user.
unfoldable pub mine : PaginationDto → Uuid × User → Action PageAnswer
mine pagination (id, user) w =
    if role_eq user.role customer
    then (
      ok (customer_page (with_items to_customer_order_views (find_by_customer id pagination w))),
      w,
    )
    else if role_eq user.role rider
    then (do
      row ← find_by_user_id id
      page ← gets (find_by_rider row.0 pagination)
      pure (whole_page page))
        w
    else (ok use_role_endpoints, w)

unfoldable pub find_mine : Option JwtPayload → PaginationDto → Action PageAnswer
find_mine payload pagination = guarded [] payload (mine pagination)

-- What a user is answered of an order.
unfoldable pub answer : UserRole → Order → OrderAnswer
answer role order =
    if role_eq role customer
    then to_customer (to_customer_order_view order)
    else if is_station_role role
    then to_station (to_station_order_view order)
    else whole order

unfoldable pub show_order : Uuid → Uuid × User → Action OrderAnswer
show_order order_id (id, user) = do order ← find_order order_id; pure (answer user.role order)

unfoldable pub find_one_order : Option JwtPayload → Uuid → Action OrderAnswer
find_one_order payload order_id = guarded [] payload (show_order order_id)

unfoldable pub find_station_orders : Option JwtPayload → Uuid → PaginationDto → Action PageAnswer
find_station_orders payload station_id pagination =
    guarded (station_staff ∷ station_manager ∷ admin ∷ super_admin ∷ []) payload λ (_, user). do
      page ← gets (find_by_station station_id pagination)
      pure (
          if is_station_role user.role
          then station_page (with_items to_station_order_views page)
          else whole_page page)

unfoldable pub get_history : Option JwtPayload → Uuid → Action (List OrderStatusHistory)
get_history payload order_id = guarded [] payload λ _. gets (get_order_status_history order_id)

unfoldable pub post_order : Option JwtPayload → CreateOrderDto → ℕ → ℕ → Action OrderAnswer
post_order payload dto random date = guarded (customer ∷ []) payload λ (id, _). do
  order_id ← Create.create id dto random date
  order ← or_raise (← gets (λ w. find_by_id order_id w.orders)) entity_not_found
  pure (to_customer (to_customer_order_view order))

unfoldable pub patch_status :
    (ℤ → ℤ → ℤ → ℤ → ℕ) → Option JwtPayload → Uuid → OrderStatus → Action OrderAnswer
patch_status get_distance payload order_id status =
    guarded (station_staff ∷ station_manager ∷ rider ∷ admin ∷ super_admin ∷ []) payload
      λ (id, _). do order ← Status.update_status get_distance order_id status id; pure (whole order)

unfoldable pub post_confirmation :
    Option JwtPayload → Uuid → Text → Option Text → Action OrderAnswer
post_confirmation payload order_id otp proof_url =
    guarded (customer ∷ []) payload
      λ (id, _). do order ← Confirm.confirm_delivery order_id id otp proof_url; pure (whole order)

unfoldable pub post_acceptance : Floats → Option JwtPayload → Uuid → Action OrderAnswer
post_acceptance m payload order_id = guarded (rider ∷ []) payload λ (id, _). do
  row ← find_by_user_id id
  order ← Accept.accept_order m order_id row.0
  pure (whole order)

unfoldable pub post_cancellation : Option JwtPayload → Uuid → Text → Action OrderAnswer
post_cancellation payload order_id reason =
    guarded [] payload
      λ (id, user). do order ← Cancel.cancel order_id id reason user.role; pure (whole order)

unfoldable pub patch_rider : Option JwtPayload → Uuid → Uuid → Action OrderAnswer
patch_rider payload order_id rider_id =
    guarded (station_staff ∷ station_manager ∷ admin ∷ []) payload
      λ (id, _). do order ← Assign.assign_rider order_id rider_id (some id) true; pure (whole order)
