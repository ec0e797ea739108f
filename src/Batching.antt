-- ===== src/Batching.antt =====
-- backend/src/orders/batching.service.ts: standard orders that nobody has accepted are grouped by
-- station and distance, and the groups are given to riders. The search for riders, a query in SQL, is
-- a parameter.
pub mod Groups
pub mod Cycle
use powergas.Base.{
  ℕ, zero, suc, ◌+◌, ℤ, Bool, true, false, Option, none, some, List, [], ◌∷◌, ◌++◌, map, length,
  ltb, ◌==◌, not, ◌&&◌, same, is_some, if◌then◌else◌, select,
}
use powergas.Enums.{BatchStatus, standard, preparing, status_eq, tier_eq, batch_status_eq}
use powergas.Table.{Uuid, Table, find, insert, update}
use powergas.Entities.{Order, DeliveryBatch}
use powergas.World.{World, Result, ok, err, Action, pure, gets, modify, fresh_id, ◌>>=◌, ◌>>◌}
use powergas.Geo.{Floats, to_number, haversine_km}
use powergas.Orders.Assign.{assign_rider}

abbrev pub max_batch_size : ℕ
max_batch_size = 3

abbrev pub cluster_radius_km : ℕ
cluster_radius_km = 3

abbrev pub Row : Type 0
Row = Uuid × Order

-- `where: { deliveryTier: STANDARD, status: PREPARING, batchId: IsNull(), riderId: IsNull() }`, and the
-- filter on coordinates.
abbrev pub is_unclaimed : Order → Bool
is_unclaimed o =
    tier_eq o.delivery_tier standard
    && (status_eq o.status preparing && (not (is_some o.batch_id) && not (is_some o.rider_id)))

abbrev pub has_coords : Row → Bool
has_coords r = is_some r.1.delivery_lat && is_some r.1.delivery_lng

unfoldable pub candidates : Table Order → List Row
candidates t = select has_coords (find is_unclaimed t)

-- `byStation`: a map keeps its keys in the order of their first entry.
abbrev pub add_to_station : Row → List (Uuid × List Row) → List (Uuid × List Row)
add_to_station r [] = (r.1.station_id, r ∷ []) ∷ []
add_to_station r ((s, rows) ∷ rest) =
    if s == r.1.station_id then (s, rows ++ r ∷ []) ∷ rest else (s, rows) ∷ add_to_station r rest

unfoldable pub by_station : List (Uuid × List Row) → List Row → List (Uuid × List Row)
by_station acc [] = acc
by_station acc (r ∷ rows) = by_station (add_to_station r acc) rows

-- A batch before it is saved: its seed, and the others.
abbrev pub Group : Type 0
Group = Row × List Row

abbrev pub members : Group → List Row
members (seed, others) = seed ∷ others

module _ (near : Row → Row → Bool) where
  -- The loop over the pool from its end: what it adds to the group, and what it leaves in the pool.
  unfoldable pub collect : Row → List Row → List Row × List Row
  collect seed [] = ([], [])
  collect seed (r ∷ pool) =
      let (group, rest) = collect seed pool in
      if ltb (length group + 1) max_batch_size && near seed r
      then (group ++ r ∷ [], rest)
      else (group, r ∷ rest)

  -- `while (pool.length > 0)`, on fuel.
  unfoldable pub groups : ℕ → List Row → List Group
  groups zero pool = []
  groups (suc fuel) [] = []
  groups (suc fuel) (seed ∷ pool) =
      let (group, rest) = collect seed pool in (seed, group) ∷ groups fuel rest

  abbrev pub groups_of_stations : List (Uuid × List Row) → List Group
  groups_of_stations [] = []
  groups_of_stations ((_, rows) ∷ rest) = groups (length rows) rows ++ groups_of_stations rest

module _ (m : Floats) where
  abbrev pub is_near : Row → Row → Bool
  is_near seed r =
      m.le
        (haversine_km m (to_number m seed.1.delivery_lat) (to_number m seed.1.delivery_lng)
          (to_number m r.1.delivery_lat) (to_number m r.1.delivery_lng))
        (m.number cluster_radius_km)

  -- `group.reduce((sum, o) => sum + Number(…), 0) / group.length`
  abbrev mean : (Order → Option ℤ) → m.F → ℕ → List Row → m.F
  mean coordinate sum n [] = m.div sum (m.number n)
  mean coordinate sum n (r ∷ rows) =
      mean coordinate (m.add sum (to_number m (coordinate r.1))) n rows

  unfoldable pub new_batch : List Row → DeliveryBatch
  new_batch group = record {
    rider_id = none;
    status = BatchStatus.pending;
    centroid_lat = m.stored (mean (λ o. o.delivery_lat) (m.number 0) (length group) group);
    centroid_lng = m.stored (mean (λ o. o.delivery_lng) (m.number 0) (length group) group);
    order_count = length group;
  }

unfoldable pub set_batch : Uuid → Order → Order
set_batch batch_id o = record o { batch_id = some batch_id }

-- `orderRepo.update(group.map((o) => o.id), { batchId })`
abbrev pub update_all : (Order → Order) → List Row → Table Order → Table Order
update_all f [] t = t
update_all f ((id, _) ∷ rows) t = update_all f rows (update id f t)

module _ (m : Floats) where
  unfoldable pub save_batch : Group → Action (Unit {0})
  save_batch group = do
    batch_id ← fresh_id
    modify λ w. record w { batches = insert batch_id (new_batch m (members group)) w.batches }
    modify λ w. record w { orders = update_all (set_batch batch_id) (members group) w.orders }

  unfoldable pub save_batches : List Group → Action (Unit {0})
  save_batches [] = pure tt
  save_batches (group ∷ rest) = save_batch group >> save_batches rest

  unfoldable pub cluster_pending_orders : Action (Unit {0})
  cluster_pending_orders w =
      save_batches (groups_of_stations (is_near m) (by_station [] (candidates w.orders))) w

-- The loop over the orders of a batch. The first claim that succeeds claims the rider too; an order
-- that cannot be claimed is passed over.
unfoldable pub claim_orders : Uuid → Bool → List Row → Action (Unit {0})
claim_orders rider_id rider_claimed [] w = (ok tt, w)
claim_orders rider_id rider_claimed ((id, _) ∷ rows) w =
    let (r, w') = assign_rider id rider_id none (not rider_claimed) w in
    elim r [
      | ok _ ↦ claim_orders rider_id true rows w'
      | err _ ↦ claim_orders rider_id rider_claimed rows w'
    ]

abbrev pub is_in_batch : Uuid → Order → Bool
is_in_batch batch_id o = same o.batch_id (some batch_id)

unfoldable pub assign_batch : Uuid → DeliveryBatch → DeliveryBatch
assign_batch rider_id b = record b { rider_id = some rider_id; status = BatchStatus.assigned }

-- What is done for a batch, with the nearest rider found for it, if any.
unfoldable pub match_batch : Option Uuid → Uuid → Action (Unit {0})
match_batch none batch_id w = (ok tt, w)
match_batch (some rider_id) batch_id w =
    (do
      claim_orders rider_id false (find (is_in_batch batch_id) w.orders)
      modify λ v. record v { batches = update batch_id (assign_batch rider_id) v.batches })
      w

abbrev pub is_pending : DeliveryBatch → Bool
is_pending b = batch_status_eq b.status BatchStatus.pending

module _ (find_nearest_available : ℤ → ℤ → World → Option Uuid) where
  unfoldable pub match_batches : Table DeliveryBatch → Action (Unit {0})
  match_batches [] w = (ok tt, w)
  match_batches ((id, b) ∷ rest) w =
      (match_batch (find_nearest_available b.centroid_lat b.centroid_lng w) id
          >> match_batches rest)
        w

  unfoldable pub match_riders_to_batches : Action (Unit {0})
  match_riders_to_batches w = match_batches (find is_pending w.batches) w

module _ (m : Floats) (find_nearest_available : ℤ → ℤ → World → Option Uuid) where
  unfoldable pub run_batching_cycle : Action (Unit {0})
  run_batching_cycle = do cluster_pending_orders m; match_riders_to_batches find_nearest_available
