-- ===== src/Orders/Create/Effects.antt =====
-- What the creation of an order does.
use powergas.Base.{
  ℕ, ◌+◌, ◌≡◌, refl, ap, sym, subst, ◌⊎◌, ◌∙◌, ◌≢◌, none, some, [], ◌∷◌, ◌++◌, arith, inl, inr,
  ◌==◌, if◌then◌else◌,
}
use powergas.Enums.{OrderStatus}
use powergas.Table.{
  Uuid, Table, IsBelow, find_by_id, insert, find_by_id-insert_self, find_by_id-insert_ne,
  IsBelow-find_by_id,
}
use powergas.Entities.{Order, CylinderInventory}
use powergas.World.{
  World, Result, HttpException, ok, err, order_created, transaction-ok, transaction-err,
  Result-cases,
}
use powergas.Orders.Pricing.{CreateOrderDto}
use powergas.Orders.Reservation.{reserve_inventory}
use powergas.Orders.Reservation.Outcome.{reserve_inventory_only}
use powergas.Orders.Reservation.Demand.{reserved, demand, wanted, reserved-reserve_inventory}
use powergas.Orders.Reservation.Stock.{IsStocked, reserve_inventory-IsStocked}
use powergas.Orders.Create.{
  generate_order_number, delivery_code, new_order, order_items_of, place, create,
}

-- The state at which the stock is reserved, and the state once it is, with the inventory `t`.
abbrev saved : Order → World → World
saved o w = record w { next_id = w.next_id + 1; orders = insert w.next_id o w.orders }

abbrev placed : Uuid → Order → CreateOrderDto → Table CylinderInventory → World → World
placed customer_id o dto t w = record w {
  next_id = w.next_id + 1;
  orders = insert w.next_id o w.orders;
  inventory = t;
  order_items = w.order_items ++ order_items_of w.next_id dto.items;
  status_history =
      w.status_history
      ++ record {
        order_id = w.next_id;
        from_status = none;
        to_status = OrderStatus.pending;
        changed_by = some customer_id;
      }
        ∷ [];
  emitted = order_created w.next_id o ∷ w.emitted;
}

place_ok :
    (customer_id : Uuid) (o : Order) (dto : CreateOrderDto) (w : World)
    (t : Table CylinderInventory)
    → reserve_inventory dto.station_id dto.items (saved o w)
      ≡ (ok tt, record (saved o w) { inventory = t })
    → place customer_id o dto w ≡ (ok w.next_id, placed customer_id o dto t w)
unfolding place
place_ok customer_id o dto w t e = ground arith

place_err :
    (customer_id : Uuid) (o : Order) (dto : CreateOrderDto) (w : World)
    (t : Table CylinderInventory) {x : HttpException}
    → reserve_inventory dto.station_id dto.items (saved o w)
      ≡ (err x, record (saved o w) { inventory = t })
    → place customer_id o dto w ≡ (err x, record (saved o w) { inventory = t })
unfolding place
place_err customer_id o dto w t e = ground arith

abbrev the_order : Uuid → CreateOrderDto → ℕ → ℕ → World → Order
the_order customer_id dto random date w =
    new_order customer_id dto (delivery_code random) (generate_order_number date w)

-- How a creation ends.
create_cases :
    (customer_id : Uuid) (dto : CreateOrderDto) (random date : ℕ) (w : World)
    → ((t : Table CylinderInventory) × (reserve_inventory dto.station_id dto.items
            (saved (the_order customer_id dto random date w) w)
          ≡ (ok tt, record (saved (the_order customer_id dto random date w) w) { inventory = t }))
        × (create customer_id dto random date w
            ≡ (ok w.next_id, placed customer_id (the_order customer_id dto random date w) dto t w)))
      ⊎ ((x : HttpException) × (create customer_id dto random date w
            ≡ (err x, record w { next_id = w.next_id + 1 })))
unfolding create
create_cases customer_id dto random date w =
    elim (Result-cases (reserve_inventory dto.station_id dto.items (saved o w))) [
      | inl (_, e) ↦
          let (t, only) = reserve_inventory_only dto.station_id dto.items (saved o w) in
          let done = e ∙ ap (λ (v : World). (ok tt, v)) only in
          inl (
            t,
            done,
            transaction-ok (place customer_id o dto) (place_ok customer_id o dto w t done),
          )
      | inr (x, e) ↦
          let (t, only) = reserve_inventory_only dto.station_id dto.items (saved o w) in
          let failed = e ∙ ap (λ (v : World). (err x, v)) only in
          inr
            (x, transaction-err (place customer_id o dto) (place_err customer_id o dto w t failed))
    ]
  where
    o : Order
    o = the_order customer_id dto random date w

-- A creation that fails leaves no order, no item, no history and no reservation behind; only the
-- key that it drew is used up.
pub create_error :
    (customer_id : Uuid) (dto : CreateOrderDto) (random date : ℕ) (w w' : World) {x : HttpException}
    → create customer_id dto random date w ≡ (err x, w')
    → w' ≡ record w { next_id = w.next_id + 1 }
create_error customer_id dto random date w w' h =
    elim (create_cases customer_id dto random date w) [
      | inl (t, _, done) ↦ cc
      | inr (x', failed) ↦ cc
    ]

-- A creation that succeeds saves the order in PENDING at a new key, leaves the other orders alone,
-- appends its items and one history row from nothing to PENDING, reserves at the station what it
-- asks for of each type and nothing else, and keeps what is reserved in stock.
pub create_ok :
    (customer_id : Uuid) (dto : CreateOrderDto) (random date : ℕ) (w w' : World) {id : Uuid}
    → IsBelow w.next_id w.orders
    → IsStocked w.inventory
    → create customer_id dto random date w ≡ (ok id, w')
    → (find_by_id id w.orders ≡ none)
      × (find_by_id id w'.orders
          ≡ some (new_order customer_id dto (delivery_code random) (generate_order_number date w)))
      × ((j : Uuid) → j ≢ id → find_by_id j w'.orders ≡ find_by_id j w.orders)
      × (w'.order_items ≡ w.order_items ++ order_items_of id dto.items)
      × (w'.status_history
          ≡ w.status_history
            ++ record {
              order_id = id;
              from_status = none;
              to_status = OrderStatus.pending;
              changed_by = some customer_id;
            }
              ∷ [])
      × ((s c : Uuid)
          → reserved s c w'.inventory
            ≡ reserved s c w.inventory
              + (if dto.station_id == s then demand c (wanted dto.items) else 0))
      × IsStocked w'.inventory
create_ok customer_id dto random date w w' {id} below stocked h =
    elim (create_cases customer_id dto random date w) [
      | inr (x', failed) ↦ cc
      | inl (t, reservation, done) ↦
          let e : id ≡ w.next_id = cc in
          let final : w' ≡ placed customer_id o dto t w = cc in
          rw (e, final)
            (
              IsBelow-find_by_id w.next_id w.next_id w.orders below (omega arith),
              find_by_id-insert_self w.next_id o w.orders
                  (IsBelow-find_by_id w.next_id w.next_id w.orders below (omega arith)),
              (λ j ne. find_by_id-insert_ne w.next_id j o w.orders (λ p. ne (sym p))),
              refl,
              refl,
              (λ s c.
                  reserved-reserve_inventory dto.station_id s c dto.items (saved o w)
                    (record (saved o w) { inventory = t }) stocked.keyed reservation),
              subst (λ (r : Result (Unit {0}) × World). IsStocked r.1.inventory) reservation
                  (reserve_inventory-IsStocked dto.station_id dto.items (saved o w) stocked),
            )
    ]
  where
    o : Order
    o = the_order customer_id dto random date w
