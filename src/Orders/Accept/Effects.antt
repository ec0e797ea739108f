-- ===== src/Orders/Accept/Effects.antt =====
-- What an acceptance does.
use powergas.Base.{
  ℕ, ◌-◌, ◌≡◌, ◌≢◌, refl, ap, subst, sym, ◌∙◌, inl, inr, Bool, true, none, some, List, [], ◌∷◌, map,
  All, All-mono, All-select, arith, ◌==◌, not, ◌&&◌, Bool-cases, Option-cases,
}
use powergas.Enums.{standard, verified, tier_eq, verification_eq}
use powergas.Table.{Uuid, Table, IsKeyed, find_by_id, find, count, update-IsKeyed}
use powergas.Entities.{Order}
use powergas.World.{World, Result, HttpException, ok, err, forbidden, not_found, Result-cases}
use powergas.Geo.{Floats}
use powergas.Orders.Assign.{take_on, assign_rider}
use powergas.Orders.Assign.Claim.{after_assign, assign_rider_ok, assign_rider_error}
use powergas.Orders.Accept.Bundle.{IsFrom, Bundles, bundle-Bundles}
use powergas.Orders.Accept.{
  is_assigned_to, is_candidate, has_place, max_orders_per_rider_batch, insert_by_distance,
  sort_by_distance, with_distance, eligible, attach_nearby_same_station_orders, accept_order,
  bundle,
}

-- A row of a table that passes a test.
abbrev IsRow : (Order → Bool) → Table Order → Uuid × Order → Type 0
IsRow p t r = (find_by_id r.0 t ≡ some r.1) × (p r.1 ≡ true)

IsRow-later :
    (p : Order → Bool) (j : Uuid) (v : Order) (t : Table Order)
    → find_by_id j t ≡ none
    → (r : Uuid × Order) → IsRow p t r
    → IsRow p ((j, v) ∷ t) r
IsRow-later p j v t free (id, o) (found, passes) = elim (Bool-cases (j == id)) [
  | inl own ↦ absurd (ground arith)
  | inr other ↦ (ground arith, passes)
]

-- What a query finds are rows of the table that pass its test.
find-IsRow : (p : Order → Bool) (t : Table Order) → IsKeyed t → All (IsRow p t) (find p t)
find-IsRow p [] keyed = tt
find-IsRow p ((j, v) ∷ t) keyed =
    let rest = All-mono (find p t) (IsRow-later p j v t keyed.0) (find-IsRow p t keyed.1) in
    elim (Bool-cases (p v)) [
      | inl passes ↦ rw passes ((ground arith, passes), rest)
      | inr fails ↦ rw fails rest
    ]

IsRow-IsFrom :
    (s : Uuid) (t : Table Order) (r : Uuid × Order) → IsRow (is_candidate s) t r → IsFrom s t r.0
IsRow-IsFrom s t (id, v) (found, passes) o found' =
    let same_order : o ≡ v = cc in (ground arith, ground arith)

module _ (m : Floats) where
  insert-All :
      (P : Uuid → Type 0) (x : m.F × Uuid) (xs : List (m.F × Uuid))
      → P x.1
      → All (λ (y : m.F × Uuid). P y.1) xs
      → All (λ (y : m.F × Uuid). P y.1) (insert_by_distance m x xs)
  insert-All P x [] p h = (p, tt)
  insert-All P x (y ∷ ys) p h = elim (Bool-cases (m.le x.0 y.0)) [
    | inl before ↦ rw before (p, h)
    | inr after ↦ rw after (h.0, insert-All P x ys p h.1)
  ]

  sort-All :
      (P : Uuid → Type 0) (xs : List (m.F × Uuid))
      → All (λ (y : m.F × Uuid). P y.1) xs
      → All (λ (y : m.F × Uuid). P y.1) (sort_by_distance m xs)
  sort-All P [] h = tt
  sort-All P (x ∷ xs) h = insert-All P x (sort_by_distance m xs) h.0 (sort-All P xs h.1)

  with_distance-All :
      (P : Uuid → Type 0) (anchor : Order) (t : Table Order)
      → All (λ (r : Uuid × Order). P r.0) t
      → All (λ (y : m.F × Uuid). P y.1) (with_distance m anchor t)
  with_distance-All P anchor [] h = tt
  with_distance-All P anchor ((id, o) ∷ t) h = (h.0, with_distance-All P anchor t h.1)

  keys-All :
      (P : Uuid → Type 0) (xs : List (m.F × Uuid))
      → All (λ (y : m.F × Uuid). P y.1) xs
      → All P (map (λ (x : m.F × Uuid). x.1) xs)
  keys-All P [] h = tt
  keys-All P (x ∷ xs) h = (h.0, keys-All P xs h.1)

  eligible-IsFrom :
      (anchor_id : Uuid) (anchor : Order) (t : Table Order)
      → IsKeyed t
      → All (IsFrom anchor.station_id t) (eligible m anchor_id anchor t)
  unfolding eligible
  eligible-IsFrom anchor_id anchor t keyed =
      let s = anchor.station_id in
      let rows = find (is_candidate s) t in
      let from = All-mono rows (IsRow-IsFrom s t) (find-IsRow (is_candidate s) t keyed) in
      let kept =
        All-select (λ (r : Uuid × Order). IsFrom s t r.0)
          (λ (r : Uuid × Order). not (r.0 == anchor_id) && has_place r.1) rows from in
      keys-All (IsFrom s t) _
        (sort-All (IsFrom s t) _ (with_distance-All (IsFrom s t) anchor _ kept))

  -- How an acceptance ends: it is refused and changes nothing, or a verified and available rider
  -- takes the order, and with it others of the same station.
  pub data Accepts (id rider_id : Uuid) (w : World) (r : Result Order × World) : Type 0 where
    refused : {e : HttpException} → r ≡ (err e, w) → Accepts id rider_id w r
    alone :
        (o : Order)
        → find_by_id id w.orders ≡ some o
        → o.delivery_tier ≢ standard
        → r ≡ (ok (take_on rider_id w.now o), after_assign id rider_id none true o w)
        → Accepts id rider_id w r
    bundled :
        (o : Order)
        → find_by_id id w.orders ≡ some o
        → o.delivery_tier ≡ standard
        → r.0 ≡ ok (take_on rider_id w.now o)
        → Bundles o.station_id rider_id
            (max_orders_per_rider_batch
              - count (is_assigned_to rider_id) (after_assign id rider_id none true o w).orders)
            (after_assign id rider_id none true o w)
            (ok tt, r.1)
        → Accepts id rider_id w r

  pub accept_order-Accepts :
      (id rider_id : Uuid) (w : World)
      → IsKeyed w.orders
      → Accepts id rider_id w (accept_order m id rider_id w)
  unfolding accept_order attach_nearby_same_station_orders take_on
  accept_order-Accepts id rider_id w keyed = elim (Option-cases (find_by_id rider_id w.riders)) [
    | inl no_rider ↦ refused {e = not_found} (ground arith)
    | inr (rider, there) ↦ elim (Bool-cases (verification_eq rider.verification_status verified)) [
      | inr unverified ↦ refused {e = forbidden} (ground arith)
      | inl checked ↦ elim (Result-cases (assign_rider id rider_id none true w)) [
        | inr (x, e) ↦
            let stays =
              assign_rider_error id rider_id none true w (assign_rider id rider_id none true w).1
                e in
            refused {e = x} (ground arith)
        | inl (u, e) ↦
            let (o, found, _, _, _, taken, final) =
              assign_rider_ok id rider_id none true w (assign_rider id rider_id none true w).1 e in
            let run : assign_rider id rider_id none true w
                ≡ (ok (take_on rider_id w.now o), after_assign id rider_id none true o w) =
              e
              ∙ ap (λ (x : Order). (ok x, (assign_rider id rider_id none true w).1)) taken
              ∙ ap (λ (v : World). (ok (take_on rider_id w.now o), v)) final in
            elim (Bool-cases (tier_eq o.delivery_tier standard)) [
              | inr other ↦ alone o found (ground arith) (ground arith)
              | inl slow ↦
                  let keyed' = update-IsKeyed id (take_on rider_id w.now) w.orders keyed in
                  let b =
                    bundle-Bundles o.station_id rider_id (slots o) (others o) (after o) keyed'
                      (eligible-IsFrom id (take_on rider_id w.now o) (after o).orders keyed') in
                  let whole : accept_order m id rider_id w ≡ (
                    ok (take_on rider_id w.now o),
                    (bundle rider_id (slots o) (others o) (after o)).1,
                  ) =
                    ground (arith, b.returns) in
                  bundled o found (ground arith) (ap (λ (r : Result Order × World). r.0) whole) (
                    subst
                      (λ (v : World). Bundles o.station_id rider_id (slots o) (after o) (ok tt, v))
                      (sym (ap (λ (r : Result Order × World). r.1) whole))
                      (record { returns = refl; within = b.within; taken = b.taken }))
            ]
      ]
    ]
  ]
    where
      after : Order → World
      after o = after_assign id rider_id none true o w

      slots : Order → ℕ
      slots o = max_orders_per_rider_batch - count (is_assigned_to rider_id) (after o).orders

      others : Order → List Uuid
      others o = eligible m id (take_on rider_id w.now o) (after o).orders
