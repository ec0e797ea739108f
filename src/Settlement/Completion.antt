-- ===== src/Settlement/Completion.antt =====
-- What a settlement that goes through achieves, and that it is done once.
use powergas.Base.{
  ℕ, pos, ◌≡◌, ◌≢◌, refl, ap, subst, sym, ◌∙◌, ◌⊎◌, ◌-◌, ◌-ℤ◌, Option, none, some, List, arith,
  if◌then◌else◌, ◌==◌,
}
use powergas.Enums.{OrderStatus, customer_confirmed}
use powergas.Table.{Uuid, Table, IsKeyed, find_by_id, update, find_by_id-update_self}
use powergas.Entities.{Cents, Order, OrderItem, RiderWallet}
use powergas.World.{World, Result, ok}
use powergas.Orders.Cancel.{items_of}
use powergas.Orders.Reservation.Demand.{reserved, demand, ordered}
use powergas.Riders.{wallet_of}
use powergas.Settlement.Stock.{Stocks, filled, commit_items_counts}
use powergas.Settlement.Effects.{split_of, after_book}
use powergas.Settlement.{NullWhere, complete, commit_items, settle_found, settle, add_revenue}
use powergas.Settlement.Outcome.{
  Pays, nothing, no_wallet, paid, missing, not_due, unstocked, settled, settle-Settles,
}

-- There is nothing to pay, or a wallet to pay it into.
abbrev pub IsPayable : Option Uuid → Cents → Table RiderWallet → Type 0
IsPayable none n t = Unit
IsPayable (some rider_id) n t = (n ≡ 0) ⊎ (wallet_of rider_id t ≢ none)

-- A payment leaves everything but the wallets and their transactions.
pub Pays-orders :
    {id : Uuid} {rider : Option Uuid} {n : Cents} {w : World} {r : Result (Unit {0}) × World}
    → Pays id rider n w r
    → (r.1.orders ≡ w.orders)
      × (r.1.inventory ≡ w.inventory)
      × (r.1.stations ≡ w.stations)
      × (r.1.status_history ≡ w.status_history)
Pays-orders {w = w} (nothing _ e) = rw e (refl, refl, refl, refl)
Pays-orders {w = w} (no_wallet rider_id _ _ _ e) = rw e (refl, refl, refl, refl)
Pays-orders {w = w} (paid rider_id k v _ _ _ e) = rw e (refl, refl, refl, refl)

Pays-ok :
    {id : Uuid} {rider : Option Uuid} {n : Cents} {w : World} {r : Result (Unit {0}) × World}
    → Pays id rider n w r
    → IsPayable rider n w.wallets
    → r.0 ≡ ok tt
Pays-ok (nothing _ e) h = rw e refl
Pays-ok {n = n} {w = w} (no_wallet rider_id at due none_found e) h = absurd (ground arith)
Pays-ok (paid rider_id k v _ _ _ e) h = rw e refl

-- The settlement of a confirmed order goes through where every item has a row of stock and the rider
-- has a wallet or nothing due. It completes the order with its split, adds the station's share to its
-- revenue, and takes the items off the station's filled cylinders and its reservations, the latter
-- down to zero at most.
pub settle_completes :
    (nulls : NullWhere) (fallback : ℕ) (id : Uuid) (w : World) {o : Order}
    → find_by_id id w.orders ≡ some o
    → o.status ≡ customer_confirmed
    → IsKeyed w.inventory
    → Stocks o.station_id w.inventory (items_of id w.order_items)
    → IsPayable o.rider_id (split_of nulls fallback o w).rider_earning w.wallets
    → let split = split_of nulls fallback o w in
      let w' = (settle nulls fallback id w).1 in
      ((settle nulls fallback id w).0 ≡ ok tt)
      × (find_by_id id w'.orders ≡ some (complete split w.now o))
      × (w'.stations ≡ update o.station_id (add_revenue split.station_earning) w.stations)
      × ((s c : Uuid)
          → let n =
              if o.station_id == s then demand c (ordered (items_of id w.order_items)) else 0 in
            (filled s c w'.inventory ≡ filled s c w.inventory -ℤ pos n)
            × (reserved s c w'.inventory ≡ reserved s c w.inventory - n))
settle_completes nulls fallback id w {o} found confirmed keyed stocks payable =
    elim (settle-Settles nulls fallback id w) [
      | missing none_found e ↦ absurd (cc)
      | not_due o' found' other e ↦ absurd (ground arith)
      | unstocked o' t x found' confirmed' lacking e ↦ absurd (
          lacking
            (subst (λ (x : Order). Stocks x.station_id w.inventory items) (same o' found') stocks))
      | settled o' t found' confirmed' _ whole' pays' ↦
          let back : o' ≡ o = sym (same o' found') in
          let pays =
            subst
              (λ (x : Order).
                Pays id x.rider_id (split_of nulls fallback x w).rider_earning
                  (after_book id x (split_of nulls fallback x w) t w) (settle nulls fallback id w))
              back pays' in
          let whole =
            subst
              (λ (x : Order).
                commit_items x.station_id items
                  (after_book id x (split_of nulls fallback x w) w.inventory w)
                ≡ (ok tt, after_book id x (split_of nulls fallback x w) t w))
              back whole' in
          let (orders, stock, stations, _) = Pays-orders pays in
          (
            Pays-ok pays payable,
            ap (find_by_id id) orders
                ∙ find_by_id-update_self id (complete (split_of nulls fallback o w) w.now) w.orders
                    found,
            stations,
            λ s c.
                let (f, r) =
                  commit_items_counts o.station_id s c items
                    (after_book id o (split_of nulls fallback o w) w.inventory w)
                    (after_book id o (split_of nulls fallback o w) t w) keyed whole in
                (ap (filled s c) stock ∙ f, ap (reserved s c) stock ∙ r),
          )
    ]
  where
    items : List OrderItem
    items = items_of id w.order_items

    same : (o' : Order) → find_by_id id w.orders ≡ some o' → o ≡ o'
    same o' found' = cc

pub settle_completed :
    (nulls : NullWhere) (fallback : ℕ) (id : Uuid) (w : World) {o : Order}
    → find_by_id id w.orders ≡ some o
    → o.status ≡ OrderStatus.completed
    → settle nulls fallback id w ≡ (ok tt, w)
unfolding settle settle_found
settle_completed nulls fallback id w found at = ground arith

-- A settlement that went through is not repeated: a second one changes nothing.
pub settle_idempotent :
    (nulls : NullWhere) (fallback : ℕ) (id : Uuid) (w w' : World)
    → settle nulls fallback id w ≡ (ok tt, w')
    → settle nulls fallback id w' ≡ (ok tt, w')
unfolding complete
settle_idempotent nulls fallback id w w' h = elim (settle-Settles nulls fallback id w) [
  | missing _ e ↦ unchanged (cc) e
  | not_due _ _ _ e ↦ unchanged (cc) e
  | unstocked _ t x _ _ _ e ↦ absurd (cc)
  | settled o t found confirmed _ whole pays ↦
      let split = split_of nulls fallback o w in
      let final : w' ≡ (settle nulls fallback id w).1 =
        sym (ap (λ (r : Result (Unit {0}) × World). r.1) h) in
      settle_completed nulls fallback id w'
        (ap (λ (x : World). find_by_id id x.orders) final
          ∙ ap (find_by_id id) (Pays-orders pays).0
          ∙ find_by_id-update_self id (complete split w.now) w.orders found)
        refl
]
  where
    unchanged :
        w' ≡ w → settle nulls fallback id w ≡ (ok tt, w) → settle nulls fallback id w' ≡ (ok tt, w')
    unchanged stays e = subst (λ (x : World). settle nulls fallback id x ≡ (ok tt, x)) (sym stays) e
