-- ===== src/Orders/Cancel.antt =====
-- `cancel` of backend/src/orders/orders.service.ts.
pub mod Effects
pub mod RoundTrip
use powergas.Base.{ℕ, Bool, Option, some, List, [], ◌∷◌, ◌==◌, not, ◌&&◌, select}
use powergas.Enums.{
  UserRole, OrderStatus, accepted, inventory_reserved, preparing, rider_assigned,
  rider_en_route_pickup, rider_arrived_pickup, role_eq,
}
use powergas.Table.{Uuid}
use powergas.Entities.{Text, Order, OrderItem}
use powergas.World.{
  World, Action, bad_request, forbidden, order_status, pure, raise_if, emit, outside, transaction,
  ◌>>=◌, ◌>>◌,
}
use powergas.Orders.Lifecycle.{includes}
use powergas.Orders.Store.{find_order, update_order, save_history}
use powergas.Orders.Reservation.{release_items}

abbrev pub cancellable_statuses : List OrderStatus
cancellable_statuses =
    OrderStatus.pending ∷ accepted ∷ inventory_reserved ∷ preparing ∷ rider_assigned
    ∷ rider_en_route_pickup ∷ rider_arrived_pickup ∷ []

-- `orderItemRepo.find({ where: { orderId } })`
abbrev pub items_of : Uuid → List OrderItem → List OrderItem
items_of order_id = select (λ i. i.order_id == order_id)

unfoldable pub release_inventory_reservation : Uuid → Order → Action (Unit {0})
release_inventory_reservation order_id order w =
    release_items order.station_id (items_of order_id w.order_items) w

unfoldable pub close : Text → Order → Order
close reason o = record o { status = OrderStatus.cancelled; cancellation_reason = some reason }

unfoldable pub is_not_own : Uuid → UserRole → Order → Bool
is_not_own user_id user_role order =
    role_eq user_role UserRole.customer && not (order.customer_id == user_id)

-- The body of the transaction. `this.findById` does not go through the transaction's manager, so the
-- order that it returns, and that the event carries, is the one from before.
unfoldable pub call_off : Uuid → Uuid → Text → Order → Action Order
call_off order_id user_id reason order w =
    (do
      release_inventory_reservation order_id order
      update_order order_id (close reason)
      save_history order_id (some order.status) OrderStatus.cancelled (some user_id)
      updated ← outside w (find_order order_id)
      emit (order_status OrderStatus.cancelled order_id updated)
      pure updated)
      w

unfoldable pub cancel : Uuid → Uuid → Text → UserRole → Action Order
cancel order_id user_id reason user_role = do
  order ← find_order order_id
  raise_if (not (includes cancellable_statuses order.status)) bad_request
  raise_if (is_not_own user_id user_role order) forbidden
  transaction (call_off order_id user_id reason order)
