-- ===== src/Orders/Reservation/Outcome.antt =====
-- How the reservation and the release of one item end.
use powergas.Base.{
  pos, ◌≤◌, ◌<◌, ◌≡◌, refl, ◌≤ℤ◌, ◌-ℤ◌, none, some, arith, inl, inr, Option-cases, Bool-cases,
  ltb_ℤ, leb, List, [], ◌∷◌, ap, ◌∙◌,
}
use powergas.Table.{Uuid, Table, find_one, update}
use powergas.Entities.{CylinderInventory, OrderItem}
use powergas.World.{World, Result, HttpException, not_found, conflict, ok, err, >>-ok, >>-err}
use powergas.Inventory.{is_for}
use powergas.Orders.Pricing.{OrderItemDto}
use powergas.Orders.Reservation.{
  hold, unhold, reserve_item, reserve_inventory, release_item, release_items,
}

-- An item is refused and nothing changes, or the row of its type holds it.
pub data Reserves (s : Uuid) (item : OrderItemDto) (w : World) (r : Result (Unit {0}) × World)
    : Type 0 where
  refused : {e : HttpException} → r ≡ (err e, w) → Reserves s item w r
  held :
      (k : Uuid) (i : CylinderInventory)
      → find_one (is_for s item.cylinder_type_id) w.inventory ≡ some (k, i)
      → pos item.quantity ≤ℤ i.filled_count -ℤ pos i.reserved_count
      → r ≡ (ok tt, record w { inventory = update k (hold item.quantity) w.inventory })
      → Reserves s item w r

pub reserve_item-Reserves :
    (s : Uuid) (item : OrderItemDto) (w : World) → Reserves s item w (reserve_item s item w)
unfolding reserve_item
reserve_item-Reserves s item w =
    elim (Option-cases (find_one (is_for s item.cylinder_type_id) w.inventory)) [
      | inl missing ↦ refused {e = not_found} (ground arith)
      | inr ((k, i), found) ↦
          elim (Bool-cases (ltb_ℤ (i.filled_count -ℤ pos i.reserved_count) (pos item.quantity))) [
            | inl short ↦ refused {e = conflict} (ground arith)
            | inr enough ↦ held k i found (ground arith) (ground arith)
          ]
    ]

-- A release passes an item over, or takes its quantity from the row of its type.
pub data Releases (s : Uuid) (item : OrderItem) (w : World) (r : Result (Unit {0}) × World)
    : Type 0 where
  missing :
      find_one (is_for s item.cylinder_type_id) w.inventory ≡ none
      → r ≡ (ok tt, w)
      → Releases s item w r
  too_few :
      (k : Uuid) (i : CylinderInventory)
      → find_one (is_for s item.cylinder_type_id) w.inventory ≡ some (k, i)
      → i.reserved_count < item.quantity
      → r ≡ (ok tt, w)
      → Releases s item w r
  released :
      (k : Uuid) (i : CylinderInventory)
      → find_one (is_for s item.cylinder_type_id) w.inventory ≡ some (k, i)
      → item.quantity ≤ i.reserved_count
      → r ≡ (ok tt, record w { inventory = update k (unhold item.quantity) w.inventory })
      → Releases s item w r

pub release_item-Releases :
    (s : Uuid) (item : OrderItem) (w : World) → Releases s item w (release_item s item w)
unfolding release_item
release_item-Releases s item w =
    elim (Option-cases (find_one (is_for s item.cylinder_type_id) w.inventory)) [
      | inl none_found ↦ missing none_found (ground arith)
      | inr ((k, i), found) ↦ elim (Bool-cases (leb item.quantity i.reserved_count)) [
        | inl enough ↦ released k i found (ground arith) (ground arith)
        | inr short ↦ too_few k i found (ground arith) (ground arith)
      ]
    ]

-- A release never fails, and writes to the inventory alone.
pub release_items_total :
    (s : Uuid) (items : List OrderItem) (w : World)
    → (t : Table CylinderInventory) × (release_items s items w
        ≡ (ok tt, record w { inventory = t }))
unfolding release_items
release_items_total s [] w = (w.inventory, refl)
release_items_total s (item ∷ items) w = elim (release_item-Releases s item w) [
  | missing _ e ↦
      let (t, rest) = release_items_total s items w in
      (t, >>-ok (release_item s item) (release_items s items) e ∙ rest)
  | too_few k i _ _ e ↦
      let (t, rest) = release_items_total s items w in
      (t, >>-ok (release_item s item) (release_items s items) e ∙ rest)
  | released k i _ _ e ↦
      let (t, rest) =
        release_items_total s items
          (record w { inventory = update k (unhold item.quantity) w.inventory }) in
      (t, >>-ok (release_item s item) (release_items s items) e ∙ rest)
]

-- A reservation writes to the inventory alone.
pub reserve_inventory_only :
    (s : Uuid) (items : List OrderItemDto) (w : World)
    → (t : Table CylinderInventory) × ((reserve_inventory s items w).1 ≡ record w { inventory = t })
unfolding reserve_inventory
reserve_inventory_only s [] w = (w.inventory, refl)
reserve_inventory_only s (item ∷ items) w = elim (reserve_item-Reserves s item w) [
  | refused e ↦ (
    w.inventory,
    ap (λ (r : Result (Unit {0}) × World). r.1)
        (>>-err (reserve_item s item) (reserve_inventory s items) e),
  )
  | held k i _ _ e ↦
      let (t, rest) =
        reserve_inventory_only s items
          (record w { inventory = update k (hold item.quantity) w.inventory }) in
      (
        t,
        ap (λ (r : Result (Unit {0}) × World). r.1)
              (>>-ok (reserve_item s item) (reserve_inventory s items) e)
            ∙ rest,
      )
]
