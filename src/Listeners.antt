-- ===== src/Listeners.antt =====
-- backend/src/orders/events: what the listeners do when an event of an order or a payment is
-- handled. A handler runs as one action, after the operation that emitted its event.
pub mod Delivery
use powergas.Base.{ℕ, Option, none, some}
use powergas.Enums.{OrderStatus, PaymentStatus, delivered, customer_confirmed}
use powergas.Table.{Uuid}
use powergas.Entities.{Order}
use powergas.World.{
  World, Result, ok, err, Action, Event, order_created, order_status, low_stock, pure,
}
use powergas.Orders.Store.{update_order}
use powergas.Orders.Assign.{release_rider_if_free}
use powergas.Settlement.{NullWhere, settle}

-- `try { await m; } catch { log }`: what was written before the exception stays written.
unfoldable pub attempt : Action (Unit {0}) → Action (Unit {0})
attempt m w = let (r, w') = m w in (ok tt, w')

unfoldable pub release_rider_of : Order → Action (Unit {0})
release_rider_of order w = elim order.rider_id [
  | none ↦ (ok tt, w)
  | some rider_id ↦ release_rider_if_free rider_id w
]

unfoldable pub handle_delivered : Order → Action (Unit {0})
handle_delivered order = release_rider_of order

unfoldable pub handle_confirmed : NullWhere → ℕ → Uuid → Action (Unit {0})
handle_confirmed nulls fallback order_id = attempt (settle nulls fallback order_id)

unfoldable pub handle_cancelled : Order → Action (Unit {0})
handle_cancelled order = release_rider_of order

-- The handler of an event of an order; those that only log are passed over.
unfoldable pub handle : NullWhere → ℕ → Event → Action (Unit {0})
handle nulls fallback (order_status delivered _ order) = handle_delivered order
handle nulls fallback (order_status customer_confirmed order_id _) =
    handle_confirmed nulls fallback order_id
handle nulls fallback (order_status OrderStatus.cancelled _ order) = handle_cancelled order
handle nulls fallback _ = pure tt

unfoldable pub set_payment_status : PaymentStatus → Order → Order
set_payment_status s o = record o { payment_status = s }

unfoldable pub handle_payment_completed : Uuid → Action (Unit {0})
handle_payment_completed order_id =
    update_order order_id (set_payment_status PaymentStatus.completed)

unfoldable pub handle_payment_failed : Uuid → Action (Unit {0})
handle_payment_failed order_id = update_order order_id (set_payment_status PaymentStatus.failed)
