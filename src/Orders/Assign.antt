-- ===== src/Orders/Assign.antt =====
-- `assignRider` and `releaseRiderIfFree` of backend/src/orders/orders.service.ts. Both claims are
-- conditional updates (`UPDATE … WHERE … AND status = …`), so each tests and writes in one step.
pub mod Claim
use powergas.Base.{
  ℕ, Bool, true, false, Option, none, some, List, [], ◌∷◌, ◌==◌, not, ◌&&◌, same, is_some,
  if◌then◌else◌,
}
use powergas.Enums.{
  OrderStatus, preparing, rider_assigned, rider_en_route_pickup, rider_arrived_pickup,
  cylinder_picked_up, rider_en_route_station, at_station, rider_en_route_delivery,
  rider_arrived_delivery, RiderStatus, status_eq, rider_status_eq,
}
use powergas.Table.{Uuid, Table, find_by_id, count, update}
use powergas.Entities.{Order, Rider, Time}
use powergas.World.{
  World, Action, conflict, not_found, order_status, pure, gets, or_raise, raise_if, modify, emit,
  perform_if, transaction, ◌>>=◌, ◌>>◌,
}
use powergas.Riders.{update_rider, set_rider_status, set_availability}
use powergas.Orders.Lifecycle.{includes}
use powergas.Orders.Store.{find_order, update_order, save_history}

-- Whether the row at a key exists and passes a test: `affected` is 1 then, and 0 otherwise.
abbrev pub matches : {V : Type 0} → (V → Bool) → Option V → Bool
matches p none = false
matches p (some v) = p v

abbrev pub is_available : Rider → Bool
is_available r = rider_status_eq r.status RiderStatus.available

-- `status = 'PREPARING' AND rider_id IS NULL`
abbrev pub is_open : Order → Bool
is_open o = status_eq o.status preparing && not (is_some o.rider_id)

unfoldable pub claim_rider : Uuid → Action (Unit {0})
claim_rider rider_id = do
  row ← gets (λ w. find_by_id rider_id w.riders)
  raise_if (not (matches is_available row)) conflict
  update_rider rider_id (set_rider_status RiderStatus.busy)

unfoldable pub take_on : Uuid → Time → Order → Order
take_on rider_id now o = record o {
  rider_id = some rider_id;
  status = rider_assigned;
  assigned_at = some now;
}

unfoldable pub claim_order : Uuid → Uuid → Action (Unit {0})
claim_order order_id rider_id = do
  row ← gets (λ w. find_by_id order_id w.orders)
  raise_if (not (matches is_open row)) conflict
  now ← gets (λ w. w.now)
  update_order order_id (take_on rider_id now)

-- `claim` is `options.claimRider`.
unfoldable pub assign_rider : Uuid → Uuid → Option Uuid → Bool → Action Order
unfolding claim_rider claim_order
assign_rider order_id rider_id assigned_by claim = transaction (do
  perform_if claim (claim_rider rider_id)
  claim_order order_id rider_id
  save_history order_id (some preparing) rider_assigned assigned_by
  updated ← find_order order_id
  emit (order_status rider_assigned order_id updated)
  pure updated)

abbrev pub active_statuses : List OrderStatus
active_statuses =
    rider_assigned ∷ rider_en_route_pickup ∷ rider_arrived_pickup ∷ cylinder_picked_up
    ∷ rider_en_route_station ∷ at_station ∷ rider_en_route_delivery ∷ rider_arrived_delivery ∷ []

-- An order that a rider is carrying out.
abbrev pub is_active_for : Uuid → Order → Bool
is_active_for rider_id o = same o.rider_id (some rider_id) && includes active_statuses o.status

unfoldable pub release_rider_if_free : Uuid → Action (Unit {0})
unfolding set_availability
release_rider_if_free rider_id = do
  still_active ← gets (λ w. count (is_active_for rider_id) w.orders)
  perform_if (still_active == 0) (set_availability rider_id RiderStatus.available >> pure tt)
