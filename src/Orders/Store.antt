-- ===== src/Orders/Store.antt =====
-- Reads and writes of the order tables that the operations share: `findById`, the status history,
-- and the tracked position (`getLatestPosition` of backend/src/tracking/tracking.service.ts).
use powergas.Base.{Option, none, some, List, [], ◌∷◌, ◌++◌, ◌==◌, if◌then◌else◌, is_some}
use powergas.Enums.{OrderStatus}
use powergas.Table.{Uuid, find_by_id, update}
use powergas.Entities.{Order, OrderTrackingEvent}
use powergas.World.{Action, not_found, gets, or_raise, modify, ◌>>=◌}

-- `OrdersService.findById`
abbrev pub find_order : Uuid → Action Order
find_order id = do or_raise (← gets (λ w. find_by_id id w.orders)) not_found

abbrev pub update_order : Uuid → (Order → Order) → Action (Unit {0})
update_order id f = modify (λ w. record w { orders = update id f w.orders })

-- A row of the history, the newest last.
abbrev pub save_history : Uuid → Option OrderStatus → OrderStatus → Option Uuid → Action (Unit {0})
save_history id from to changed_by = modify λ w. record w {
  status_history =
      w.status_history
      ++ record { order_id = id; from_status = from; to_status = to; changed_by = changed_by } ∷ [];
}

-- The last tracking event of an order, rows being saved in the order of their creation.
unfoldable pub get_latest_position : Uuid → List OrderTrackingEvent → Option OrderTrackingEvent
get_latest_position id [] = none
get_latest_position id (e ∷ es) =
    let later = get_latest_position id es in
    if is_some later then later else if e.order_id == id then some e else none
