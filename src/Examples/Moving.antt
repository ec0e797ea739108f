-- ===== src/Examples/Moving.antt =====
-- Orders moved from one status to the next.
use powergas.Base.{ℕ, ℤ, ◌≡◌, refl, true, none, some, arith}
use powergas.Enums.{
  accepted, inventory_reserved, preparing, at_station, rider_arrived_delivery, delivered,
  RiderStatus,
}
use powergas.Table.{find_by_id}
use powergas.Entities.{Order, GasStation}
use powergas.World.{World, err, conflict}
use powergas.Orders.Lifecycle.{is_valid_transition}
use powergas.Orders.Lifecycle.Graph.{◌⟶*◌, here, then, Visits, ⟶*-Visits}
use powergas.Orders.Store.{get_latest_position}
use powergas.Orders.Status.{
  is_delivery_checkpoint, advance, enforce_proximity_if_required, update_status,
}
use powergas.Orders.Status.Effects.{IsNear, checkpoint_IsNear}
use powergas.Orders.Assign.{take_on, assign_rider}
use powergas.Orders.Assign.Claim.{assign_rider_excludes}
use powergas.Examples.Data.{the_order, world}

-- A distance for the runs: zero everywhere.
abbrev flat : ℤ → ℤ → ℤ → ℤ → ℕ
flat _ _ _ _ = 0

abbrev waiting : World
waiting = world preparing none RiderStatus.available

abbrev claimed : World
claimed = (assign_rider 1 5 none true waiting).1

abbrev arriving : World
arriving = world rider_arrived_delivery (some 5) RiderStatus.busy

abbrev arrived : World
arrived = (update_status flat 1 delivered 5 arriving).1

abbrev two_steps : accepted ⟶* preparing
unfolding is_valid_transition
two_steps = then {t = inventory_reserved} (then {t = accepted} here refl) refl

⟶*-Visits_example : Visits inventory_reserved two_steps
⟶*-Visits_example = ⟶*-Visits two_steps inventory_reserved (omega arith) (omega arith) (omega arith)

checkpoint_IsNear_example :
    (o : Order) × (find_by_id 1 arriving.orders ≡ some o)
    × (is_delivery_checkpoint delivered ≡ true
        → IsNear flat 1 arriving o.delivery_lat o.delivery_lng)
    × (delivered ≡ at_station
        → (station : GasStation) × (find_by_id o.station_id arriving.stations ≡ some station)
          × IsNear flat 1 arriving station.latitude station.longitude)
unfolding update_status is_valid_transition enforce_proximity_if_required get_latest_position
checkpoint_IsNear_example =
    checkpoint_IsNear flat 1 delivered 5 arriving arrived
      {u = advance delivered 5000 (the_order rider_arrived_delivery (some 5))} refl

assign_rider_excludes_example : assign_rider 1 9 none true claimed ≡ (err conflict, claimed)
unfolding assign_rider
assign_rider_excludes_example =
    (assign_rider_excludes 1 5 none waiting claimed {u = take_on 5 5000 (the_order preparing none)}
        refl).0
      9 none true
