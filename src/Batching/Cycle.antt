-- ===== src/Batching/Cycle.antt =====
-- The clustering over all stations, and a batch whose rider is taken.
use powergas.Base.{
  ℕ, zero, suc, ◌+◌, ◌≡◌, ◌≢◌, refl, subst, sym, Bool, false, some, List, [], ◌∷◌, ◌++◌, length,
  All, All-append, arith, ◌&&◌, ◌==◌, inl, inr, Bool-cases, if◌then◌else◌, ltb,
}
use powergas.Enums.{RiderStatus}
use powergas.Table.{Uuid, find_by_id, update, find}
use powergas.Entities.{Order, Rider, DeliveryBatch}
use powergas.World.{World, ok, modify, >>-ok}
use powergas.Orders.Assign.{assign_rider}
use powergas.Batching.{
  Row, Group, members, collect, groups, groups_of_stations, add_to_station, by_station,
  max_batch_size, claim_orders, match_batch, assign_batch, is_in_batch, is_pending, is_unclaimed,
}
use powergas.Batching.Groups.{
  occurrences, occurrences-append, all_members, IsGroup, groups_partition,
}

all_members-append :
    (k : Uuid) (gs hs : List Group)
    → occurrences k (all_members (gs ++ hs))
      ≡ occurrences k (all_members gs) + occurrences k (all_members hs)
all_members-append k [] hs = omega arith
all_members-append k (g ∷ gs) hs = omega (
  arith,
  all_members-append k gs hs,
  occurrences-append k (members g) (all_members (gs ++ hs)),
  occurrences-append k (members g) (all_members gs),
)

-- How often a key stands under the stations.
abbrev listed : Uuid → List (Uuid × List Row) → ℕ
listed k [] = 0
listed k ((_, rows) ∷ rest) = occurrences k rows + listed k rest

listed-add_to_station :
    (k : Uuid) (r : Row) (acc : List (Uuid × List Row))
    → listed k (add_to_station r acc) ≡ listed k acc + (if r.0 == k then 1 else 0)
listed-add_to_station k r [] = omega arith
listed-add_to_station k r ((s, rows) ∷ rest) =
    ground (arith, listed-add_to_station k r rest, occurrences-append k rows (r ∷ []))

listed-by_station :
    (k : Uuid) (acc : List (Uuid × List Row)) (rows : List Row)
    → listed k (by_station acc rows) ≡ listed k acc + occurrences k rows
unfolding by_station
listed-by_station k acc [] = omega arith
listed-by_station k acc (r ∷ rows) =
    omega (arith, listed-by_station k (add_to_station r acc) rows, listed-add_to_station k r acc)

-- Every order of a station is listed under it.
abbrev IsListed : Uuid × List Row → Type 0
IsListed (s, rows) = All (λ (r : Row). r.1.station_id ≡ s) rows

add_to_station-IsListed :
    (r : Row) (acc : List (Uuid × List Row))
    → All IsListed acc
    → All IsListed (add_to_station r acc)
add_to_station-IsListed r [] h = ((refl, tt), tt)
add_to_station-IsListed r ((s, rows) ∷ rest) h = elim (Bool-cases (s == r.1.station_id)) [
  | inl own ↦
      rw own
        (All-append (λ (x : Row). x.1.station_id ≡ s) rows (r ∷ []) h.0 (ground arith, tt), h.1)
  | inr other ↦ rw other (h.0, add_to_station-IsListed r rest h.1)
]

by_station-IsListed :
    (acc : List (Uuid × List Row)) (rows : List Row)
    → All IsListed acc
    → All IsListed (by_station acc rows)
unfolding by_station
by_station-IsListed acc [] h = h
by_station-IsListed acc (r ∷ rows) h =
    by_station-IsListed (add_to_station r acc) rows (add_to_station-IsListed r acc h)

module _ (near : Row → Row → Bool) where
  collect-All :
      (P : Row → Type 0) (seed : Row) (pool : List Row)
      → All P pool
      → All P (collect near seed pool).0 × All P (collect near seed pool).1
  unfolding collect
  collect-All P seed [] h = (tt, tt)
  collect-All P seed (r ∷ pool) h =
      let (group, rest) = collect-All P seed pool h.1 in
      elim (Bool-cases
        (ltb (length (collect near seed pool).0 + 1) max_batch_size && near seed r)) [
          | inl taken ↦
              rw taken (All-append P (collect near seed pool).0 (r ∷ []) group (h.0, tt), rest)
          | inr left ↦ rw left (group, (h.0, rest))
        ]

  -- The orders of a group are of one station.
  abbrev pub IsOneStation : Group → Type 0
  IsOneStation (seed, others) = All (λ (x : Row). x.1.station_id ≡ seed.1.station_id) others

  groups-IsOneStation :
      (s : Uuid) (fuel : ℕ) (pool : List Row)
      → All (λ (x : Row). x.1.station_id ≡ s) pool
      → All IsOneStation (groups near fuel pool)
  unfolding groups
  groups-IsOneStation s zero pool h = tt
  groups-IsOneStation s (suc fuel) [] h = tt
  groups-IsOneStation s (suc fuel) (seed ∷ pool) h =
      let (group, rest) = collect-All (λ (x : Row). x.1.station_id ≡ s) seed pool h.1 in
      (
        subst (λ (x : Uuid). All (λ (y : Row). y.1.station_id ≡ x) (collect near seed pool).0)
            (sym h.0) group,
        groups-IsOneStation s fuel (collect near seed pool).1 rest,
      )

  of_stations :
      (stations : List (Uuid × List Row))
      → All IsListed stations
      → ((k : Uuid)
          → occurrences k (all_members (groups_of_stations near stations)) ≡ listed k stations)
        × All (IsGroup near) (groups_of_stations near stations)
        × All IsOneStation (groups_of_stations near stations)
  of_stations [] h = ((λ k. refl), tt, tt)
  of_stations ((s, rows) ∷ rest) h =
      let (shared, good) = groups_partition near (length rows) rows (omega arith) in
      let (shared', good', one') = of_stations rest h.1 in
      let here = groups near (length rows) rows in
      let there = groups_of_stations near rest in
      (
        (λ k. omega (arith, all_members-append k here there, shared k, shared' k)),
        All-append (IsGroup near) here there good good',
        All-append IsOneStation here there (groups-IsOneStation s (length rows) rows h.0) one',
      )

  -- The clustering shares all orders out: every order stands in the groups as often as in the list that
  -- is clustered. A group has at most three orders, of one station, all within the radius of its seed.
  pub groups_of_stations_partition :
      (rows : List Row)
      → let gs = groups_of_stations near (by_station [] rows) in
        ((k : Uuid) → occurrences k (all_members gs) ≡ occurrences k rows)
        × All (IsGroup near) gs
        × All IsOneStation gs
  groups_of_stations_partition rows =
      let (shared, good, one) = of_stations (by_station [] rows) (by_station-IsListed [] rows tt) in
      ((λ k. omega (arith, shared k, listed-by_station k [] rows)), good, one)

no_claim :
    (rider_id : Uuid) (rows : List Row) (w : World) {r : Rider}
    → find_by_id rider_id w.riders ≡ some r
    → r.status ≢ RiderStatus.available
    → claim_orders rider_id false rows w ≡ (ok tt, w)
unfolding claim_orders assign_rider
no_claim rider_id [] w there busy = refl
no_claim rider_id ((id, _) ∷ rows) w {r} there busy =
    ground (arith, no_claim rider_id rows w there busy)

-- Where the rider found for a batch is taken before the batch's orders are claimed, none of them is, but
-- the batch counts as assigned all the same: it is not matched again, and its orders, which keep their
-- batch, are not clustered again.
pub match_batch_stranded :
    (rider_id batch_id : Uuid) (w : World) {r : Rider}
    → find_by_id rider_id w.riders ≡ some r
    → r.status ≢ RiderStatus.available
    → (match_batch (some rider_id) batch_id w
        ≡ (ok tt, record w { batches = update batch_id (assign_batch rider_id) w.batches }))
      × ((b : DeliveryBatch) → is_pending (assign_batch rider_id b) ≡ false)
      × ((o : Order) → o.batch_id ≡ some batch_id → is_unclaimed o ≡ false)
unfolding match_batch assign_batch
match_batch_stranded rider_id batch_id w there busy = (
  >>-ok (claim_orders rider_id false (find (is_in_batch batch_id) w.orders))
      (modify λ v. record v { batches = update batch_id (assign_batch rider_id) v.batches })
      (no_claim rider_id (find (is_in_batch batch_id) w.orders) w there busy),
  (λ b. refl),
  λ o in_batch. ground arith,
)
