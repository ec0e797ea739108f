-- ===== src/Orders/Accept.antt =====
-- `acceptOrder` and `attachNearbySameStationOrders` of backend/src/orders/orders.service.ts: a rider
-- takes an order and, with a standard one, others of the same station.
pub mod Bundle
pub mod Effects
pub mod Guarantees
use powergas.Base.{
  ℕ, zero, suc, ◌-◌, Bool, true, false, Option, none, some, List, [], ◌∷◌, map, ◌==◌, not, ◌&&◌,
  same, is_some, if◌then◌else◌, select,
}
use powergas.Enums.{
  standard, preparing, rider_assigned, verified, status_eq, tier_eq, verification_eq,
}
use powergas.Table.{Uuid, Table, count, find}
use powergas.Entities.{Order}
use powergas.World.{
  World, Action, ok, err, forbidden, pure, gets, raise_if, perform_if, ◌>>=◌, ◌>>◌,
}
use powergas.Geo.{Floats, to_number, haversine_km}
use powergas.Riders.{find_rider}
use powergas.Orders.Assign.{assign_rider}

abbrev pub max_orders_per_rider_batch : ℕ
max_orders_per_rider_batch = 3

-- `where: { riderId, status: RIDER_ASSIGNED }`
abbrev pub is_assigned_to : Uuid → Order → Bool
is_assigned_to rider_id o = same o.rider_id (some rider_id) && status_eq o.status rider_assigned

-- `where: { stationId, deliveryTier: STANDARD, status: PREPARING }`
abbrev pub is_candidate : Uuid → Order → Bool
is_candidate station_id o =
    o.station_id == station_id && (tier_eq o.delivery_tier standard && status_eq o.status preparing)

abbrev pub has_place : Order → Bool
has_place o = is_some o.delivery_lat && is_some o.delivery_lng

-- The loop over the candidates: one that cannot be claimed is passed over.
unfoldable pub bundle : Uuid → ℕ → List Uuid → Action (Unit {0})
bundle rider_id zero ids w = (ok tt, w)
bundle rider_id (suc slots) [] w = (ok tt, w)
bundle rider_id (suc slots) (id ∷ ids) w =
    let (r, w') = assign_rider id rider_id none false w in
    elim r [ ok _ ↦ bundle rider_id slots ids w' | err _ ↦ bundle rider_id (suc slots) ids w' ]

module _ (m : Floats) where
  -- `sort((a, b) => a.distanceKm - b.distanceKm)`, which keeps the order of equals.
  abbrev insert_by_distance : m.F × Uuid → List (m.F × Uuid) → List (m.F × Uuid)
  insert_by_distance x [] = x ∷ []
  insert_by_distance x (y ∷ ys) = if m.le x.0 y.0 then x ∷ y ∷ ys else y ∷ insert_by_distance x ys

  abbrev sort_by_distance : List (m.F × Uuid) → List (m.F × Uuid)
  sort_by_distance [] = []
  sort_by_distance (x ∷ xs) = insert_by_distance x (sort_by_distance xs)

  abbrev with_distance : Order → Table Order → List (m.F × Uuid)
  with_distance anchor [] = []
  with_distance anchor ((id, o) ∷ t) =
      (
        haversine_km m (to_number m anchor.delivery_lat) (to_number m anchor.delivery_lng)
            (to_number m o.delivery_lat) (to_number m o.delivery_lng),
        id,
      )
      ∷ with_distance anchor t

  -- The keys of the eligible candidates, the nearest first.
  unfoldable pub eligible : Uuid → Order → Table Order → List Uuid
  eligible anchor_id anchor t =
      map (λ (x : m.F × Uuid). x.1)
        (sort_by_distance (
          with_distance anchor (
            select (λ (r : Uuid × Order). not (r.0 == anchor_id) && has_place r.1)
              (find (is_candidate anchor.station_id) t))))

  -- The slots left are counted after the anchor is taken; none are left where the difference is not
  -- positive.
  unfoldable pub attach_nearby_same_station_orders : Uuid → Order → Uuid → Action (Unit {0})
  attach_nearby_same_station_orders anchor_id anchor rider_id w =
      bundle rider_id (max_orders_per_rider_batch - count (is_assigned_to rider_id) w.orders)
        (eligible anchor_id anchor w.orders) w

  unfoldable pub accept_order : Uuid → Uuid → Action Order
  accept_order order_id rider_id = do
    rider ← find_rider rider_id
    raise_if (not (verification_eq rider.verification_status verified)) forbidden
    order ← assign_rider order_id rider_id none true
    perform_if (tier_eq order.delivery_tier standard)
        (attach_nearby_same_station_orders order_id order rider_id)
    pure order
