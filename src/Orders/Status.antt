-- ===== src/Orders/Status.antt =====
-- `updateStatus` of backend/src/orders/orders.service.ts with its proximity checks. The distance in
-- metres (`getDistance` of geolib) is a parameter.
pub mod Effects
pub mod Shortcuts
use powergas.Base.{ℕ, ℤ, Bool, Option, none, some, List, [], ◌∷◌, if◌then◌else◌, ltb, not, ◌||◌}
use powergas.Enums.{
  OrderStatus, rider_arrived_pickup, at_station, rider_arrived_delivery, delivered, status_eq,
}
use powergas.Table.{Uuid, find_by_id}
use powergas.Entities.{Order, GasStation, OrderTrackingEvent, Time}
use powergas.World.{
  World, Action, bad_request, forbidden, order_status, pure, raise, gets, or_raise, raise_if,
  modify, emit, ◌>>=◌, ◌>>◌,
}
use powergas.Orders.Lifecycle.{is_valid_transition, stamp}
use powergas.Orders.Store.{find_order, update_order, save_history, get_latest_position}

abbrev pub proximity_threshold_meters : ℕ
proximity_threshold_meters = 100

-- The checkpoints that are checked against the place of delivery.
abbrev pub is_delivery_checkpoint : OrderStatus → Bool
is_delivery_checkpoint s =
    status_eq s rider_arrived_pickup || status_eq s rider_arrived_delivery || status_eq s delivered

-- `{ status: newStatus, ...timestamps }`
unfoldable pub advance : OrderStatus → Time → Order → Order
advance s now o = record (stamp s now o) { status = s }

module _ (get_distance : ℤ → ℤ → ℤ → ℤ → ℕ) where
  unfoldable pub verify_proximity : Uuid → ℤ → ℤ → Action (Unit {0})
  verify_proximity order_id target_lat target_lng = do
    latest ← or_raise (← gets (λ w. get_latest_position order_id w.tracking_events)) forbidden
    raise_if
        (ltb proximity_threshold_meters
          (get_distance latest.latitude latest.longitude target_lat target_lng))
        forbidden

  -- The check against a place that may have no coordinates.
  unfoldable pub verify_at : Uuid → Option ℤ → Option ℤ → Action (Unit {0})
  unfolding verify_proximity
  verify_at order_id none lng = raise bad_request
  verify_at order_id (some lat) none = raise bad_request
  verify_at order_id (some lat) (some lng) = verify_proximity order_id lat lng

  unfoldable pub verify_at_station : Uuid → Option GasStation → Action (Unit {0})
  unfolding verify_at
  verify_at_station order_id none = raise bad_request
  verify_at_station order_id (some station) = verify_at order_id station.latitude station.longitude

  unfoldable pub enforce_proximity_if_required : Uuid → Order → OrderStatus → Action (Unit {0})
  unfolding verify_at_station verify_at
  enforce_proximity_if_required order_id order new_status =
      if is_delivery_checkpoint new_status
      then verify_at order_id order.delivery_lat order.delivery_lng
      else if status_eq new_status at_station
      then (λ w. verify_at_station order_id (find_by_id order.station_id w.stations) w)
      else pure tt

  unfoldable pub update_status : Uuid → OrderStatus → Uuid → Action Order
  update_status order_id new_status changed_by = do
    order ← find_order order_id
    raise_if (not (is_valid_transition order.status new_status)) bad_request
    enforce_proximity_if_required order_id order new_status
    now ← gets (λ w. w.now)
    update_order order_id (advance new_status now)
    save_history order_id (some order.status) new_status (some changed_by)
    updated ← find_order order_id
    emit (order_status new_status order_id updated)
    pure updated
