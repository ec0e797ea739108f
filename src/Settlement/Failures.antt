-- ===== src/Settlement/Failures.antt =====
-- What a settlement that fails leaves behind.
use powergas.Base.{ℕ, ◌<◌, ◌≡◌, refl, ap, subst, sym, ◌∙◌, inl, inr, none, some, List, ◌∷◌, arith}
use powergas.Enums.{customer_confirmed}
use powergas.Table.{Uuid, Table, find_by_id, find_one, update, find_by_id-update_self}
use powergas.Entities.{Order, CylinderInventory, OrderItem, RiderWallet}
use powergas.World.{World, Result, not_found, ok, err, >>-ok, >>-err}
use powergas.Inventory.{is_for, commit, commit_reservation}
use powergas.Orders.Cancel.{items_of}
use powergas.Riders.{wallet_of}
use powergas.Settlement.Stock.{Stocks}
use powergas.Settlement.Effects.{split_of, after_book, book-commit_items}
use powergas.Settlement.{
  NullWhere, complete, commit_items, transaction_keeping_inventory, book, pay_rider, settle_order,
  settle_found, settle,
}
use powergas.Settlement.Outcome.{
  Pays, nothing, no_wallet, paid, missing, not_due, unstocked, settled, settle-Settles,
}
use powergas.Settlement.Completion.{Pays-orders, settle_completed}
use powergas.Settlement.Stock.{no_stock, taken, commit_reservation-Commits, found-commit}

-- Where a confirmed order's rider has no wallet and is due a payment, the settlement fails after the
-- order is completed. A later one, with the wallet in place, passes over the order: it returns and
-- writes nothing, so that the rider is never paid.
pub settle_unpaid :
    (nulls : NullWhere) (fallback : ℕ) (id rider_id : Uuid) (w : World) (t : Table RiderWallet)
    {o : Order}
    → find_by_id id w.orders ≡ some o
    → o.status ≡ customer_confirmed
    → Stocks o.station_id w.inventory (items_of id w.order_items)
    → o.rider_id ≡ some rider_id
    → 0 < (split_of nulls fallback o w).rider_earning
    → wallet_of rider_id w.wallets ≡ none
    → let w' : World = record (settle nulls fallback id w).1 { wallets = t } in
      ((settle nulls fallback id w).0 ≡ err not_found) × (settle nulls fallback id w' ≡ (ok tt, w'))
unfolding complete
settle_unpaid nulls fallback id rider_id w t {o} found confirmed stocks rider due no_row =
    elim (settle-Settles nulls fallback id w) [
      | missing none_found e ↦ absurd (cc)
      | not_due o' found' other e ↦ absurd (ground arith)
      | unstocked o' _ x found' _ lacking e ↦ absurd (
          lacking (
            subst (λ (x : Order). Stocks x.station_id w.inventory (items_of id w.order_items))
              (same o' found') stocks))
      | settled o' t' found' confirmed' _ whole pays ↦ (
        unpaid (
            subst
              (λ (x : Order).
                Pays id x.rider_id (split_of nulls fallback x w).rider_earning
                  (after_book id x (split_of nulls fallback x w) t' w) (settle nulls fallback id w))
              (sym (same o' found')) pays),
        settle_completed nulls fallback id (record (settle nulls fallback id w).1 { wallets = t })
            (ap (find_by_id id) (Pays-orders pays).0
              ∙ find_by_id-update_self id (complete (split_of nulls fallback o' w) w.now) w.orders
                  found')
            refl,
      )
    ]
  where
    same : (o' : Order) → find_by_id id w.orders ≡ some o' → o ≡ o'
    same o' found' = cc

    unpaid :
        {t' : Table CylinderInventory} {r : Result (Unit {0}) × World}
        → Pays id o.rider_id
            (split_of nulls fallback o w).rider_earning
            (after_book id o (split_of nulls fallback o w) t' w)
            r
        → r.0 ≡ err not_found
    unpaid (nothing (inl no_rider) e) = absurd (ground arith)
    unpaid (nothing (inr free) e) = absurd (omega arith)
    unpaid (no_wallet _ _ _ _ e) = rw e refl
    unpaid (paid rider_id' k v at _ has_row e) = absurd (ground arith)

commit_items_stops :
    (s k : Uuid) (first second : OrderItem) (items : List OrderItem) (w : World)
    {i : CylinderInventory}
    → find_one (is_for s first.cylinder_type_id) w.inventory ≡ some (k, i)
    → find_one (is_for s second.cylinder_type_id) w.inventory ≡ none
    → commit_items s (first ∷ second ∷ items) w
      ≡ (err not_found, record w { inventory = update k (commit first.quantity) w.inventory })
unfolding commit_items
commit_items_stops s k first second items w row no_row =
    elim (commit_reservation-Commits s first.cylinder_type_id first.quantity w) [
      | no_stock none_found e ↦ absurd (cc)
      | taken k' i' found e ↦
          let same : k' ≡ k = cc in
          let mid : World = record w {
            inventory = update k' (commit first.quantity) w.inventory;
          } in
          >>-ok (commit_reservation s first.cylinder_type_id first.quantity)
            (commit_items s (second ∷ items)) e
          ∙ stops mid (no_row' k')
          ∙ ap
              (λ (j : Uuid). (
                err not_found,
                record w { inventory = update j (commit first.quantity) w.inventory },
              ))
              same
    ]
  where
    no_row' :
        (j : Uuid)
        → find_one (is_for s second.cylinder_type_id) (update j (commit first.quantity) w.inventory)
          ≡ none
    no_row' j = ground (arith, found-commit s second.cylinder_type_id j first.quantity w.inventory)

    stops :
        (v : World)
        → find_one (is_for s second.cylinder_type_id) v.inventory ≡ none
        → commit_items s (second ∷ items) v ≡ (err not_found, v)
    stops v h = elim (commit_reservation-Commits s second.cylinder_type_id second.quantity v) [
      | no_stock _ e ↦
          >>-err (commit_reservation s second.cylinder_type_id second.quantity)
            (commit_items s items) e
      | taken k' i' found e ↦ absurd (cc)
    ]

-- Where the first item of a confirmed order has a row of stock and the second has none, the settlement
-- fails and the order is not completed, but the first item is taken off its row all the same.
pub settle_loses_stock :
    (nulls : NullWhere) (fallback : ℕ) (id k : Uuid) (w : World) {o : Order} {i : CylinderInventory}
    {first second : OrderItem} {items : List OrderItem}
    → find_by_id id w.orders ≡ some o
    → o.status ≡ customer_confirmed
    → items_of id w.order_items ≡ first ∷ second ∷ items
    → find_one (is_for o.station_id first.cylinder_type_id) w.inventory ≡ some (k, i)
    → find_one (is_for o.station_id second.cylinder_type_id) w.inventory ≡ none
    → settle nulls fallback id w
      ≡ (err not_found, record w { inventory = update k (commit first.quantity) w.inventory })
unfolding settle settle_found settle_order
settle_loses_stock nulls fallback id k w {o} {i} {first} {second} {items} found confirmed has row
      no_row =
    let split = split_of nulls fallback o w in
    let runs : settle nulls fallback id w ≡ settle_order id o split w = ground arith in
    let stops =
      commit_items_stops o.station_id k first second items (after_book id o split w.inventory w) row
        no_row in
    let whole =
      book-commit_items id o split w
      ∙ ap
          (λ (xs : List OrderItem).
            commit_items o.station_id xs (after_book id o split w.inventory w))
          has
      ∙ stops in
    let body : transaction_keeping_inventory (book id o split) w
        ≡ (err not_found, record w { inventory = update k (commit first.quantity) w.inventory }) =
      ground arith in
    runs
    ∙ >>-err (transaction_keeping_inventory (book id o split))
        (pay_rider id o.rider_id split.rider_earning) body
