-- ===== src/Orders/Status/Shortcuts.antt =====
-- What an update of the status leaves undone, against the operation made for the same step.
use powergas.Base.{ℕ, ℤ, ◌≡◌, refl, true, some, arith}
use powergas.Enums.{UserRole, OrderStatus, delivered, customer_confirmed}
use powergas.Table.{Uuid, find_by_id, find_by_id-update_self}
use powergas.Entities.{Text, Order}
use powergas.World.{World, ok, err, bad_request}
use powergas.Orders.Lifecycle.{is_valid_transition, stamp}
use powergas.Orders.Status.Effects.{after_update}
use powergas.Orders.Status.{advance, enforce_proximity_if_required, update_status}
use powergas.Orders.Cancel.{cancel}
use powergas.Orders.Cancel.Effects.{cancel_refused}
use powergas.Settlement.{NullWhere, settle}
use powergas.Settlement.Completion.{settle_completed}

module _ (d : ℤ → ℤ → ℤ → ℤ → ℕ) where
  -- A transition to a status that is no checkpoint is made by anybody.
  pub update_status_free :
      (id : Uuid) (s : OrderStatus) (by : Uuid) (w : World) {o : Order}
      → find_by_id id w.orders ≡ some o
      → is_valid_transition o.status s ≡ true
      → enforce_proximity_if_required d id o s w ≡ (ok tt, w)
      → update_status d id s by w ≡ (ok (advance s w.now o), after_update id s by o w)
  unfolding update_status
  update_status_free id s by w {o} found valid passed =
      ground (arith, find_by_id-update_self id (advance s w.now) w.orders found)

  -- A pending order that is set to CANCELLED by an update of its status keeps its reservations: the
  -- update writes nothing to the inventory, and a cancellation is refused from then on.
  pub update_status_cancelled :
      (id by by' : Uuid) (reason : Text) (role : UserRole) (w : World) {o : Order}
      → find_by_id id w.orders ≡ some o
      → o.status ≡ OrderStatus.pending
      → let w' = (update_status d id OrderStatus.cancelled by w).1 in
        ((update_status d id OrderStatus.cancelled by w).0
          ≡ ok (advance OrderStatus.cancelled w.now o))
        × (w'.inventory ≡ w.inventory)
        × (cancel id by' reason role w' ≡ (err bad_request, w'))
  unfolding is_valid_transition enforce_proximity_if_required advance stamp
  update_status_cancelled id by by' reason role w {o} found at =
      let e = update_status_free id OrderStatus.cancelled by w found (rw at refl) refl in
      let w' : World = after_update id OrderStatus.cancelled by o w in
      let later = find_by_id-update_self id (advance OrderStatus.cancelled w.now) w.orders found in
      rw e (refl, refl, cancel_refused id by' reason role w' later (omega arith))

  -- A confirmed order that is set to COMPLETED by an update of its status is not settled: the update
  -- writes nothing to the stations' revenue, the stock or the wallets, and a settlement passes over
  -- the order from then on.
  pub update_status_completed :
      (nulls : NullWhere) (fallback : ℕ) (id by : Uuid) (w : World) {o : Order}
      → find_by_id id w.orders ≡ some o
      → o.status ≡ customer_confirmed
      → let w' = (update_status d id OrderStatus.completed by w).1 in
        ((update_status d id OrderStatus.completed by w).0
          ≡ ok (advance OrderStatus.completed w.now o))
        × (w'.stations ≡ w.stations)
        × (w'.inventory ≡ w.inventory)
        × (w'.wallets ≡ w.wallets)
        × (settle nulls fallback id w' ≡ (ok tt, w'))
  unfolding is_valid_transition enforce_proximity_if_required advance stamp
  update_status_completed nulls fallback id by w {o} found at =
      let e = update_status_free id OrderStatus.completed by w found (rw at refl) refl in
      let later = find_by_id-update_self id (advance OrderStatus.completed w.now) w.orders found in
      rw e (
        refl,
        refl,
        refl,
        refl,
        settle_completed nulls fallback id (after_update id OrderStatus.completed by o w) later
            refl,
      )

  -- A delivered order is set to CUSTOMER_CONFIRMED by an update of its status without the code of its
  -- delivery, whoever makes the update.
  update_status_confirmed :
      (id by : Uuid) (w : World) {o : Order}
      → find_by_id id w.orders ≡ some o
      → o.status ≡ delivered
      → update_status d id customer_confirmed by w
        ≡ (ok (advance customer_confirmed w.now o), after_update id customer_confirmed by o w)
  unfolding is_valid_transition enforce_proximity_if_required
  update_status_confirmed id by w found at =
      update_status_free id customer_confirmed by w found (rw at refl) refl
