-- ===== src/Settlement/Effects.antt =====
-- What a settlement does, on every branch.
use powergas.Base.{ℕ, ◌≡◌, refl, ap, ◌∙◌, inl, inr, none, some, [], ◌∷◌, ◌++◌, arith}
use powergas.Enums.{OrderStatus, customer_confirmed}
use powergas.Table.{Uuid, Table, update}
use powergas.Entities.{Order, CylinderInventory}
use powergas.World.{World, HttpException, Result, ok, err, Result-cases}
use powergas.Orders.Cancel.{items_of}
use powergas.Settlement.Stock.{
  Stocks, commit_items_only, commit_items_succeeds, commit_items-Stocks,
}
use powergas.Settlement.{
  NullWhere, Split, get_commission_percent, compute_split, complete, add_revenue, commit_items,
  transaction_keeping_inventory, book,
}

-- The split that an order is settled at.
abbrev pub split_of : NullWhere → ℕ → Order → World → Split
split_of nulls fallback o w =
    compute_split (get_commission_percent nulls fallback o.station_id w.commissions) o.total
      o.delivery_fee

-- The state after the transaction of a settlement, with the inventory `t`.
abbrev pub after_book : Uuid → Order → Split → Table CylinderInventory → World → World
after_book id o split t w = record w {
  orders = update id (complete split w.now) w.orders;
  status_history =
      w.status_history
      ++ record {
        order_id = id;
        from_status = some customer_confirmed;
        to_status = OrderStatus.completed;
        changed_by = none;
      }
        ∷ [];
  stations = update o.station_id (add_revenue split.station_earning) w.stations;
  inventory = t;
}

-- The state in which the loop over the items starts.
abbrev pub unstocked_book : Uuid → Order → Split → World → World
unstocked_book id o split w = after_book id o split w.inventory w

pub book-commit_items :
    (id : Uuid) (o : Order) (split : Split) (w : World)
    → book id o split w
      ≡ commit_items o.station_id (items_of id w.order_items) (unstocked_book id o split w)
unfolding book
book-commit_items id o split w = refl

-- How the transaction ends: with everything written, or with what the loop over the items wrote to
-- the inventory.
pub data Books (id : Uuid) (o : Order) (split : Split) (w : World) (r : Result (Unit {0}) × World)
    : Type 0 where
  done :
      (t : Table CylinderInventory)
      → Stocks o.station_id w.inventory (items_of id w.order_items)
      → commit_items o.station_id (items_of id w.order_items) (unstocked_book id o split w)
        ≡ (ok tt, after_book id o split t w)
      → r ≡ (ok tt, after_book id o split t w)
      → Books id o split w r
  undone :
      (t : Table CylinderInventory)
      → ¬ Stocks o.station_id w.inventory (items_of id w.order_items)
      → (e : HttpException) → r ≡ (err e, record w { inventory = t })
      → Books id o split w r

pub book-Books :
    (id : Uuid) (o : Order) (split : Split) (w : World)
    → Books id o split w (transaction_keeping_inventory (book id o split) w)
book-Books id o split w =
    let start : World = unstocked_book id o split w in
    let items = items_of id w.order_items in
    let (t, only) = commit_items_only o.station_id items start in
    elim (Result-cases (commit_items o.station_id items start)) [
      | inl (_, e) ↦
          let whole = e ∙ ap (λ (v : World). (ok tt, v)) only in
          let stocked =
            commit_items-Stocks o.station_id items start
              (ap (λ (r : Result (Unit {0}) × World). r.0) e) in
          done t stocked whole (ground (arith, book-commit_items id o split w))
      | inr (x, e) ↦
          undone t (λ h. absurd (cc (commit_items_succeeds o.station_id items start h))) x
            (ground (arith, book-commit_items id o split w))
    ]
