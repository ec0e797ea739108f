-- ===== src/Orders/Accept/Bundle.antt =====
-- What the bundling of orders onto a rider does.
use powergas.Base.{
  ℕ, zero, suc, ◌+◌, ◌≤◌, ◌≡◌, refl, ap, subst, sym, ◌∙◌, ◌⊎◌, inl, inr, Bool, true, false, Option,
  none, some, List, [], ◌∷◌, All, arith, ◌==◌, Bool-cases,
}
use powergas.Enums.{standard, preparing}
use powergas.Table.{
  Uuid, Table, IsKeyed, find_by_id, count, update, update-IsKeyed, find_by_id-update_self,
  find_by_id-update_ne,
}
use powergas.Entities.{Order, Time}
use powergas.World.{World, Result, ok, err, Result-cases}
use powergas.Orders.Assign.{take_on, assign_rider}
use powergas.Orders.Assign.Claim.{after_assign, assign_rider_ok, assign_rider_error}
use powergas.Orders.Accept.{is_assigned_to, bundle}

-- An order is as it was, or was free for a rider at a station and is now theirs.
abbrev pub LeftOrTaken : Uuid → Uuid → Time → Option Order → Option Order → Type 0
LeftOrTaken s rider_id now before after =
    (after ≡ before)
    ⊎ ((o : Order) × (before ≡ some o)
        × (o.status ≡ preparing)
        × (o.rider_id ≡ none)
        × (o.station_id ≡ s)
        × (o.delivery_tier ≡ standard)
        × (after ≡ some (take_on rider_id now o)))

abbrev pub IsLeftOrTaken : Uuid → Uuid → Time → Uuid → Table Order → Table Order → Type 0
IsLeftOrTaken s rider_id now j t t' = LeftOrTaken s rider_id now (find_by_id j t) (find_by_id j t')

-- The order at a key is a standard one of a station.
abbrev pub IsFrom : Uuid → Table Order → Uuid → Type 0
IsFrom s t id =
    (o : Order) → find_by_id id t ≡ some o → (o.station_id ≡ s) × (o.delivery_tier ≡ standard)

-- An update of one row raises a count by at most one.
pub count-update-le :
    (p : Order → Bool) (k : Uuid) (f : Order → Order) (t : Table Order)
    → count p (update k f t) ≤ count p t + 1
count-update-le p k f [] = omega arith
count-update-le p k f ((j, v) ∷ t) = ground (arith, count-update-le p k f t)

-- A row that begins to pass a test is counted once more.
pub count-update :
    (p : Order → Bool) (k : Uuid) (f : Order → Order) (t : Table Order) {o : Order}
    → IsKeyed t
    → find_by_id k t ≡ some o
    → p o ≡ false
    → p (f o) ≡ true
    → count p (update k f t) ≡ count p t + 1
count-update p k f [] keyed found old new = cc
count-update p k f ((j, v) ∷ t) {o} keyed found old new =
    ground (arith, count-update p k f t {o = o} keyed.1)

IsFrom-take_on :
    (s rider_id : Uuid) (now : Time) (k : Uuid) (t : Table Order) {o : Order}
    → find_by_id k t ≡ some o
    → (id : Uuid) → IsFrom s t id
    → IsFrom s (update k (take_on rider_id now) t) id
unfolding take_on
IsFrom-take_on s rider_id now k t {o} found id from o' found' = elim (Bool-cases (k == id)) [
  | inl own ↦
      let same_order : o' ≡ take_on rider_id now o =
        ground (arith, find_by_id-update_self k (take_on rider_id now) t found) in
      let (station, tier) = from o (ground arith) in rw same_order (station, tier)
  | inr other ↦ from o' (ground (arith, find_by_id-update_ne k id (take_on rider_id now) t))
]

All-IsFrom-take_on :
    (s rider_id : Uuid) (now : Time) (k : Uuid) (t : Table Order) (ids : List Uuid) {o : Order}
    → find_by_id k t ≡ some o
    → All (IsFrom s t) ids
    → All (IsFrom s (update k (take_on rider_id now) t)) ids
All-IsFrom-take_on s rider_id now k t [] found h = tt
All-IsFrom-take_on s rider_id now k t (id ∷ ids) found h = (
  IsFrom-take_on s rider_id now k t found id h.0,
  All-IsFrom-take_on s rider_id now k t ids found h.1,
)

-- What the loop does with a number of slots: it always returns, takes at most as many orders as there
-- are slots, and takes free standard orders of the station only.
pub record Bundles (s rider_id : Uuid) (slots : ℕ) (w : World) (r : Result (Unit {0}) × World)
    : Type 0 where
  pub returns : r.0 ≡ ok tt
  pub within :
      count (is_assigned_to rider_id) r.1.orders ≤ count (is_assigned_to rider_id) w.orders + slots
  pub taken : (j : Uuid) → IsLeftOrTaken s rider_id w.now j w.orders r.1.orders

nothing_taken : (s rider_id : Uuid) (slots : ℕ) (w : World) → Bundles s rider_id slots w (ok tt, w)
nothing_taken s rider_id slots w = record {
  returns = refl;
  within = omega arith;
  taken = λ j. inl refl;
}

-- One order taken, and then what the rest of the loop does.
take_first :
    (s rider_id : Uuid) (slots : ℕ) (id : Uuid) (w : World) {o : Order}
    {r : Result (Unit {0}) × World}
    → IsKeyed w.orders
    → IsFrom s w.orders id
    → find_by_id id w.orders ≡ some o
    → o.status ≡ preparing
    → o.rider_id ≡ none
    → Bundles s rider_id slots (after_assign id rider_id none false o w) r
    → Bundles s rider_id (suc slots) w r
unfolding take_on
take_first s rider_id slots id w {o} {r} keyed from found at free rest = record {
  returns = rest.returns;
  within =
      let one_more =
        count-update (is_assigned_to rider_id) id (take_on rider_id w.now) w.orders keyed found
          (ground arith) (ground arith) in
      omega (arith, one_more, rest.within);
  taken = λ j. elim (Bool-cases (id == j)) [
    | inl own ↦ at_first j own (rest.taken j)
    | inr other ↦ elsewhere j other (rest.taken j)
  ];
}
  where
    after : Table Order
    after = update id (take_on rider_id w.now) w.orders

    at_first :
        (j : Uuid)
        → (id == j) ≡ true
        → IsLeftOrTaken s rider_id w.now j after r.1.orders
        → IsLeftOrTaken s rider_id w.now j w.orders r.1.orders
    at_first j own (inl left) =
        let (station, tier) = from o found in
        let found_j : find_by_id j w.orders ≡ some o = ground arith in
        let taken_j = find_by_id-update_self id (take_on rider_id w.now) w.orders found in
        inr (o, found_j, at, free, station, tier, left ∙ ground arith)
    at_first j own (inr (o', found', at', _, _, _, _)) =
        absurd (ground (arith, find_by_id-update_self id (take_on rider_id w.now) w.orders found))

    elsewhere :
        (j : Uuid)
        → (id == j) ≡ false
        → IsLeftOrTaken s rider_id w.now j after r.1.orders
        → IsLeftOrTaken s rider_id w.now j w.orders r.1.orders
    elsewhere j other h =
        subst (λ (x : Option Order). LeftOrTaken s rider_id w.now x (find_by_id j r.1.orders))
          (find_by_id-update_ne id j (take_on rider_id w.now) w.orders (ground arith)) h

pub bundle-Bundles :
    (s rider_id : Uuid) (slots : ℕ) (ids : List Uuid) (w : World)
    → IsKeyed w.orders
    → All (IsFrom s w.orders) ids
    → Bundles s rider_id slots w (bundle rider_id slots ids w)
unfolding bundle
bundle-Bundles s rider_id zero ids w keyed from = nothing_taken s rider_id 0 w
bundle-Bundles s rider_id (suc slots) [] w keyed from = nothing_taken s rider_id (suc slots) w
bundle-Bundles s rider_id (suc slots) (id ∷ ids) w keyed from =
    elim (Result-cases (assign_rider id rider_id none false w)) [
      | inl (u, e) ↦
          let (o, found, at, free, _, _, final) =
            assign_rider_ok id rider_id none false w (assign_rider id rider_id none false w).1 e in
          let after : World = after_assign id rider_id none false o w in
          subst (Bundles s rider_id (suc slots) w)
            (sym (ap continue (e ∙ ap (λ (v : World). (ok u, v)) final)))
            (take_first s rider_id slots id w keyed from.0 found at free (
              bundle-Bundles s rider_id slots ids after
                (update-IsKeyed id (take_on rider_id w.now) w.orders keyed)
                (All-IsFrom-take_on s rider_id w.now id w.orders ids found from.1)))
      | inr (x, e) ↦
          let stays =
            assign_rider_error id rider_id none false w (assign_rider id rider_id none false w).1
              e in
          subst (Bundles s rider_id (suc slots) w)
            (sym (ap continue (e ∙ ap (λ (v : World). (err x, v)) stays)))
            (bundle-Bundles s rider_id (suc slots) ids w keyed from.1)
    ]
  where
    continue : Result Order × World → Result (Unit {0}) × World
    continue p = elim p.0 [
      | ok _ ↦ bundle rider_id slots ids p.1
      | err _ ↦ bundle rider_id (suc slots) ids p.1
    ]
