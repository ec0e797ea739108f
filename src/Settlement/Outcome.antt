-- ===== src/Settlement/Outcome.antt =====
-- How a settlement ends.
use powergas.Base.{
  ℕ, pos, ◌<◌, ◌≡◌, ◌≢◌, refl, subst, sym, ◌∙◌, ◌⊎◌, inl, inr, Option, none, some, arith, ltb,
  Bool-cases, Option-cases,
}
use powergas.Enums.{customer_confirmed, delivery_earning, status_eq, status_eq_iff}
use powergas.Table.{Uuid, Table, find_by_id}
use powergas.Entities.{Cents, Order, CylinderInventory, RiderWallet}
use powergas.World.{World, HttpException, Result, not_found, ok, err, >>-ok, >>-err}
use powergas.Orders.Cancel.{items_of}
use powergas.Riders.{wallet_of, earn, credit_entry}
use powergas.Riders.Wallet.{booked, credit_wallet_cases}
use powergas.Settlement.Stock.{Stocks}
use powergas.Settlement.Effects.{split_of, after_book, done, undone, book-Books}
use powergas.Settlement.{
  NullWhere, commit_items, transaction_keeping_inventory, book, pay_rider, settle_order,
  settle_found, settle,
}

-- How the rider's pay ends: there is nobody to pay or nothing to pay, there is no wallet, or the
-- wallet is credited.
pub data Pays (id : Uuid) (rider : Option Uuid) (n : Cents) (w : World)
    (r : Result (Unit {0}) × World) : Type 0 where
  nothing : (rider ≡ none) ⊎ (n ≡ 0) → r ≡ (ok tt, w) → Pays id rider n w r
  no_wallet :
      (rider_id : Uuid)
      → rider ≡ some rider_id
      → 0 < n
      → wallet_of rider_id w.wallets ≡ none
      → r ≡ (err not_found, w)
      → Pays id rider n w r
  paid :
      (rider_id k : Uuid) (v : RiderWallet)
      → rider ≡ some rider_id
      → 0 < n
      → wallet_of rider_id w.wallets ≡ some (k, v)
      → r ≡ (ok tt, booked k (earn (pos n)) (credit_entry (pos n) id delivery_earning (k, v)) w)
      → Pays id rider n w r

pay_rider-Pays :
    (id : Uuid) (rider : Option Uuid) (n : Cents) (w : World)
    → Pays id rider n w (pay_rider id rider n w)
unfolding pay_rider
pay_rider-Pays id none n w = nothing (inl refl) refl
pay_rider-Pays id (some rider_id) n w = elim (Bool-cases (ltb 0 n)) [
  | inr free ↦ nothing (inr (ground arith)) (ground arith)
  | inl due ↦ elim (credit_wallet_cases rider_id (pos n) id delivery_earning w) [
    | inl (none_found, e) ↦ no_wallet rider_id refl (ground arith) none_found (ground arith)
    | inr (k, v, found, e) ↦ paid rider_id k v refl (ground arith) found (ground arith)
  ]
]

-- How a settlement ends.
pub data Settles (nulls : NullWhere) (fallback : ℕ) (id : Uuid) (w : World)
    (r : Result (Unit {0}) × World) : Type 0 where
  missing : find_by_id id w.orders ≡ none → r ≡ (ok tt, w) → Settles nulls fallback id w r
  not_due :
      (o : Order)
      → find_by_id id w.orders ≡ some o
      → o.status ≢ customer_confirmed
      → r ≡ (ok tt, w)
      → Settles nulls fallback id w r
  unstocked :
      (o : Order) (t : Table CylinderInventory) (e : HttpException)
      → find_by_id id w.orders ≡ some o
      → o.status ≡ customer_confirmed
      → ¬ Stocks o.station_id w.inventory (items_of id w.order_items)
      → r ≡ (err e, record w { inventory = t })
      → Settles nulls fallback id w r
  settled :
      (o : Order) (t : Table CylinderInventory)
      → find_by_id id w.orders ≡ some o
      → o.status ≡ customer_confirmed
      → Stocks o.station_id w.inventory (items_of id w.order_items)
      → commit_items o.station_id
          (items_of id w.order_items)
          (after_book id o (split_of nulls fallback o w) w.inventory w)
        ≡ (ok tt, after_book id o (split_of nulls fallback o w) t w)
      → Pays id o.rider_id
          (split_of nulls fallback o w).rider_earning
          (after_book id o (split_of nulls fallback o w) t w)
          r
      → Settles nulls fallback id w r

-- A settlement passes over an order that is missing or whose status is not CUSTOMER_CONFIRMED. Of any
-- other order it fails, and writes nothing but to the inventory, where an item has no row of stock at
-- the station; and where every item has one it writes the split, the history, the station's
-- revenue and the stock, and then pays the rider: nothing where there is no rider or nothing due, a
-- failure where the rider has no wallet, and otherwise a credit with its transaction.
pub settle-Settles :
    (nulls : NullWhere) (fallback : ℕ) (id : Uuid) (w : World)
    → Settles nulls fallback id w (settle nulls fallback id w)
unfolding settle settle_found settle_order
settle-Settles nulls fallback id w = elim (Option-cases (find_by_id id w.orders)) [
  | inl none_found ↦ missing none_found (ground arith)
  | inr (o, found) ↦ elim (Bool-cases (status_eq o.status customer_confirmed)) [
    | inr other ↦
        not_due o found (ground (arith, status_eq_iff o.status customer_confirmed)) (ground arith)
    | inl due ↦
        let confirmed : o.status ≡ customer_confirmed =
          (status_eq_iff o.status customer_confirmed).0 due in
        let split = split_of nulls fallback o w in
        let runs : settle nulls fallback id w ≡ settle_order id o split w = ground arith in
        elim (book-Books id o split w) [
          | undone t lacking e body ↦ unstocked o t e found confirmed lacking (
              runs
              ∙ >>-err (transaction_keeping_inventory (book id o split))
                  (pay_rider id o.rider_id split.rider_earning) body)
          | done t stocked whole body ↦ settled o t found confirmed stocked whole (
              subst (Pays id o.rider_id split.rider_earning (after_book id o split t w))
                (sym (
                  runs
                  ∙ >>-ok (transaction_keeping_inventory (book id o split))
                      (pay_rider id o.rider_id split.rider_earning) body))
                (pay_rider-Pays id o.rider_id split.rider_earning (after_book id o split t w)))
        ]
  ]
]
