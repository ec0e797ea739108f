-- ===== src/Orders/Assign/Claim.antt =====
-- Who gets an order, and what a failed claim leaves behind.
use powergas.Base.{
  ◌≡◌, refl, ap, ◌∙◌, Bool, true, false, Option, none, some, [], ◌∷◌, ◌++◌, arith, ◌==◌, inl, inr,
  Option-cases, if◌then◌else◌,
}
use powergas.Enums.{preparing, rider_assigned, RiderStatus}
use powergas.Table.{Uuid, find_by_id, update, count, find_by_id-update_self}
use powergas.Entities.{Order, Rider}
use powergas.World.{World, HttpException, conflict, ok, err, order_status}
use powergas.Riders.{set_rider_status}
use powergas.Orders.Assign.{is_open, take_on, assign_rider, is_active_for, release_rider_if_free}

-- The state after the assignment of an order, which was `o`.
abbrev pub after_assign : Uuid → Uuid → Option Uuid → Bool → Order → World → World
after_assign order_id rider_id by claim o w = record w {
  riders = if claim then update rider_id (set_rider_status RiderStatus.busy) w.riders else w.riders;
  orders = update order_id (take_on rider_id w.now) w.orders;
  status_history =
      w.status_history
      ++ record {
        order_id = order_id;
        from_status = some preparing;
        to_status = rider_assigned;
        changed_by = by;
      }
        ∷ [];
  emitted = order_status rider_assigned order_id (take_on rider_id w.now o) ∷ w.emitted;
}

-- An order is assigned only while it is prepared and has no rider, and a rider is claimed only while
-- available: both claims go through together.
pub assign_rider_ok :
    (order_id rider_id : Uuid) (by : Option Uuid) (claim : Bool) (w w' : World) {u : Order}
    → assign_rider order_id rider_id by claim w ≡ (ok u, w')
    → (o : Order) × (find_by_id order_id w.orders ≡ some o)
      × (o.status ≡ preparing)
      × (o.rider_id ≡ none)
      × (claim ≡ true
          → (r : Rider) × (find_by_id rider_id w.riders ≡ some r)
            × (r.status ≡ RiderStatus.available))
      × (u ≡ take_on rider_id w.now o)
      × (w' ≡ after_assign order_id rider_id by claim o w)
unfolding assign_rider
assign_rider_ok order_id rider_id by true w w' {u} h =
    elim (Option-cases (find_by_id order_id w.orders)) [
      | inl missing ↦ ground arith
      | inr (o, found) ↦ elim (Option-cases (find_by_id rider_id w.riders)) [
        | inl no_rider ↦ ground arith
        | inr (r, rider) ↦
            let later = find_by_id-update_self order_id (take_on rider_id w.now) w.orders found in
            (
              o,
              found,
              ground arith,
              ground arith,
              (λ _. (r, rider, ground arith)),
              ground arith,
              ground arith,
            )
      ]
    ]
assign_rider_ok order_id rider_id by false w w' {u} h =
    elim (Option-cases (find_by_id order_id w.orders)) [
      | inl missing ↦ ground arith
      | inr (o, found) ↦
          let later = find_by_id-update_self order_id (take_on rider_id w.now) w.orders found in
          (o, found, ground arith, ground arith, (λ e. cc), ground arith, ground arith)
    ]

-- A claim that fails leaves everything as it was, the rider's status too.
pub assign_rider_error :
    (order_id rider_id : Uuid) (by : Option Uuid) (claim : Bool) (w w' : World) {e : HttpException}
    → assign_rider order_id rider_id by claim w ≡ (err e, w')
    → w' ≡ w
unfolding assign_rider
assign_rider_error order_id rider_id by true w w' {e} h =
    elim (Option-cases (find_by_id order_id w.orders)) [
      | inl missing ↦ ground arith
      | inr (o, found) ↦
          ground (arith, find_by_id-update_self order_id (take_on rider_id w.now) w.orders found)
    ]
assign_rider_error order_id rider_id by false w w' {e} h =
    elim (Option-cases (find_by_id order_id w.orders)) [
      | inl missing ↦ ground arith
      | inr (o, found) ↦
          ground (arith, find_by_id-update_self order_id (take_on rider_id w.now) w.orders found)
    ]

-- A claim that meets its conditions succeeds.
pub assign_rider_succeeds :
    (order_id rider_id : Uuid) (by : Option Uuid) (w : World) {o : Order} {r : Rider}
    → find_by_id order_id w.orders ≡ some o
    → o.status ≡ preparing
    → o.rider_id ≡ none
    → find_by_id rider_id w.riders ≡ some r
    → r.status ≡ RiderStatus.available
    → assign_rider order_id rider_id by true w
      ≡ (ok (take_on rider_id w.now o), after_assign order_id rider_id by true o w)
unfolding assign_rider
assign_rider_succeeds order_id rider_id by w {o} {r} found at free rider idle =
    ground (arith, find_by_id-update_self order_id (take_on rider_id w.now) w.orders found)

taken_order :
    (order_id rider' : Uuid) (by' : Option Uuid) (claim : Bool) (w : World) {o : Order}
    → find_by_id order_id w.orders ≡ some o
    → is_open o ≡ false
    → assign_rider order_id rider' by' claim w ≡ (err conflict, w)
unfolding assign_rider
taken_order order_id rider' by' true w found shut = ground arith
taken_order order_id rider' by' false w found shut = ground arith

taken_rider :
    (order' rider_id : Uuid) (by : Option Uuid) (w : World) {r : Rider}
    → find_by_id rider_id w.riders ≡ some r
    → r.status ≡ RiderStatus.busy
    → assign_rider order' rider_id by true w ≡ (err conflict, w)
unfolding assign_rider
taken_rider order' rider_id by w found busy = ground arith

-- No double booking: in the state that the assignment of a new job leaves, nobody is given that order
-- again, and its rider is given no other new job; both attempts are conflicts that change nothing.
pub assign_rider_excludes :
    (order_id rider_id : Uuid) (by : Option Uuid) (w w' : World) {u : Order}
    → assign_rider order_id rider_id by true w ≡ (ok u, w')
    → ((rider' : Uuid) (by' : Option Uuid) (claim : Bool)
        → assign_rider order_id rider' by' claim w' ≡ (err conflict, w'))
      × ((order' : Uuid) (by' : Option Uuid)
          → assign_rider order' rider_id by' true w' ≡ (err conflict, w'))
unfolding take_on set_rider_status
assign_rider_excludes order_id rider_id by w w' {u} h =
    let (o, found, _, _, rider, _, final) = assign_rider_ok order_id rider_id by true w w' h in
    let (r, there, _) = rider refl in
    let order_after : find_by_id order_id w'.orders ≡ some (take_on rider_id w.now o) =
      ap (λ (v : World). find_by_id order_id v.orders) final
      ∙ find_by_id-update_self order_id (take_on rider_id w.now) w.orders found in
    let rider_after : find_by_id rider_id w'.riders ≡ some (set_rider_status RiderStatus.busy r) =
      ap (λ (v : World). find_by_id rider_id v.riders) final
      ∙ find_by_id-update_self rider_id (set_rider_status RiderStatus.busy) w.riders there in
    (
      (λ rider' by' claim. taken_order order_id rider' by' claim w' order_after refl),
      λ order' by'. taken_rider order' rider_id by' w' rider_after refl,
    )

-- `releaseRiderIfFree` makes a rider available exactly when no order of theirs is under way, and
-- touches nothing but that rider's row. It does so whatever the rider's status was.
pub release_rider_if_free_lem :
    (rider_id : Uuid) (w : World) {r : Rider}
    → find_by_id rider_id w.riders ≡ some r
    → release_rider_if_free rider_id w ≡ (
      ok tt,
      if count (is_active_for rider_id) w.orders == 0
          then record w {
            riders = update rider_id (set_rider_status RiderStatus.available) w.riders;
          }
          else w,
    )
unfolding release_rider_if_free
release_rider_if_free_lem rider_id w {r} found =
    ground (
      arith,
      find_by_id-update_self rider_id (set_rider_status RiderStatus.available) w.riders found,
    )
