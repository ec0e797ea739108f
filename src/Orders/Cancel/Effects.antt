-- ===== src/Orders/Cancel/Effects.antt =====
-- What a cancellation does, on every branch.
use powergas.Base.{
  ◌+◌, ◌≤◌, ◌<◌, ◌≡◌, ◌↔◌, ap, ◌∙◌, inl, inr, true, false, none, some, [], ◌∷◌, ◌++◌, arith, ◌==◌,
  if◌then◌else◌, Bool-cases, Option-cases,
}
use powergas.Enums.{UserRole, OrderStatus, ordinal}
use powergas.Table.{Uuid, Table, IsKeyed, find_by_id, update, find_by_id-update_self}
use powergas.Entities.{Text, Order, CylinderInventory}
use powergas.World.{
  World, Result, bad_request, forbidden, not_found, ok, err, order_status, transaction-ok,
}
use powergas.Orders.Lifecycle.{includes}
use powergas.Orders.Reservation.{release_items}
use powergas.Orders.Reservation.Outcome.{release_items_total}
use powergas.Orders.Reservation.Demand.{reserved, demand, ordered, Covers, reserved-release_items}
use powergas.Orders.Cancel.{
  cancellable_statuses, items_of, release_inventory_reservation, close, is_not_own, call_off,
  cancel,
}

-- An order can be cancelled exactly up to the arrival of the rider at the customer.
pub cancellable_iff :
    (s : OrderStatus)
    → (includes cancellable_statuses s ≡ true)
      ↔ (ordinal s ≤ ordinal OrderStatus.rider_arrived_pickup)
cancellable_iff s = (λ h. ground arith, λ h. ground arith)

-- The state after the cancellation, with the inventory `t`.
abbrev pub after_cancel : Uuid → Uuid → Text → Order → Table CylinderInventory → World → World
after_cancel id by reason o t w = record w {
  inventory = t;
  orders = update id (close reason) w.orders;
  status_history =
      w.status_history
      ++ record {
        order_id = id;
        from_status = some o.status;
        to_status = OrderStatus.cancelled;
        changed_by = some by;
      }
        ∷ [];
  emitted = order_status OrderStatus.cancelled id o ∷ w.emitted;
}

call_off_ok :
    (id by : Uuid) (reason : Text) (o : Order) (w : World) (t : Table CylinderInventory)
    → find_by_id id w.orders ≡ some o
    → release_items o.station_id (items_of id w.order_items) w ≡ (ok tt, record w { inventory = t })
    → call_off id by reason o w ≡ (ok o, after_cancel id by reason o t w)
unfolding call_off release_inventory_reservation
call_off_ok id by reason o w t found e = ground arith

-- How a cancellation ends: the order is missing, too far on, not the own one of a caller with the role of
-- a customer, or cancelled.
pub data Cancels (id by : Uuid) (reason : Text) (role : UserRole) (w : World)
    (r : Result Order × World) : Type 0 where
  missing : find_by_id id w.orders ≡ none → r ≡ (err not_found, w) → Cancels id by reason role w r
  too_late :
      (o : Order)
      → find_by_id id w.orders ≡ some o
      → ordinal OrderStatus.rider_arrived_pickup < ordinal o.status
      → r ≡ (err bad_request, w)
      → Cancels id by reason role w r
  not_own :
      (o : Order)
      → find_by_id id w.orders ≡ some o
      → is_not_own by role o ≡ true
      → r ≡ (err forbidden, w)
      → Cancels id by reason role w r
  done :
      (o : Order) (t : Table CylinderInventory)
      → find_by_id id w.orders ≡ some o
      → ordinal o.status ≤ ordinal OrderStatus.rider_arrived_pickup
      → is_not_own by role o ≡ false
      → release_items o.station_id (items_of id w.order_items) w
        ≡ (ok tt, record w { inventory = t })
      → r ≡ (ok o, after_cancel id by reason o t w)
      → Cancels id by reason role w r

-- A cancellation fails and changes nothing where the order is missing, where it is past the arrival of the
-- rider at the customer, and where the caller's role is CUSTOMER and the order another's. In every other
-- case it succeeds, so also for a rider or an employee of any station: it closes the order, gives its items
-- back to the stock, and adds one row of history and one event. What it returns and the event carries is the
-- order as it was before.
pub cancel-Cancels :
    (id by : Uuid) (reason : Text) (role : UserRole) (w : World)
    → Cancels id by reason role w (cancel id by reason role w)
unfolding cancel
cancel-Cancels id by reason role w = elim (Option-cases (find_by_id id w.orders)) [
  | inl none_found ↦ missing none_found (ground arith)
  | inr (o, found) ↦ elim (Bool-cases (includes cancellable_statuses o.status)) [
    | inr late ↦ too_late o found (ground (arith, cancellable_iff o.status)) (ground arith)
    | inl early ↦ elim (Bool-cases (is_not_own by role o)) [
      | inl other ↦ not_own o found other (ground arith)
      | inr own ↦
          let (t, e) = release_items_total o.station_id (items_of id w.order_items) w in
          let body =
            transaction-ok (call_off id by reason o) (call_off_ok id by reason o w t found e) in
          done o t found ((cancellable_iff o.status).0 early) own e (ground arith)
    ]
  ]
]

-- Past the arrival of the rider a cancellation is refused, whoever asks.
pub cancel_refused :
    (id by : Uuid) (reason : Text) (role : UserRole) (w : World) {o : Order}
    → find_by_id id w.orders ≡ some o
    → ordinal OrderStatus.rider_arrived_pickup < ordinal o.status
    → cancel id by reason role w ≡ (err bad_request, w)
unfolding cancel
cancel_refused id by reason role w {o} found late = ground (arith, cancellable_iff o.status)

-- A cancellation that is allowed, of an order whose items the station's reservations cover, succeeds:
-- it closes the order, takes exactly its items off the reserved counts, and leaves all others. What it
-- returns is the order as it was before.
pub cancel_gives_back :
    (id by : Uuid) (reason : Text) (role : UserRole) (w : World) {o : Order}
    → find_by_id id w.orders ≡ some o
    → ordinal o.status ≤ ordinal OrderStatus.rider_arrived_pickup
    → is_not_own by role o ≡ false
    → IsKeyed w.inventory
    → Covers o.station_id w.inventory (ordered (items_of id w.order_items))
    → ((cancel id by reason role w).0 ≡ ok o)
      × (find_by_id id (cancel id by reason role w).1.orders ≡ some (close reason o))
      × ((s c : Uuid)
          → reserved s c (cancel id by reason role w).1.inventory
              + (if o.station_id == s then demand c (ordered (items_of id w.order_items)) else 0)
            ≡ reserved s c w.inventory)
cancel_gives_back id by reason role w {o} found early own keyed covers =
    elim (cancel-Cancels id by reason role w) [
      | missing none_found e ↦ absurd (cc)
      | too_late o' found' late e ↦ absurd (ground arith)
      | not_own o' found' other e ↦ absurd (ground (arith, not_both o' found' other))
      | done o' t found' early' own' release e ↦
          let same : o' ≡ o = cc in
          (
            ap (λ (r : Result Order × World). r.0) e ∙ ap (λ (x : Order). ok x) same,
            ap (λ (r : Result Order × World). find_by_id id r.1.orders) e
                ∙ find_by_id-update_self id (close reason) w.orders found,
            λ s c. rw e (
                reserved-release_items o.station_id s c (items_of id w.order_items) w
                  (record w { inventory = t }) keyed covers (rw same at release)),
          )
    ]
  where
    not_both : (o' : Order) → find_by_id id w.orders ≡ some o' → is_not_own by role o' ≡ true → ⊥
    not_both o' found' other = cc
