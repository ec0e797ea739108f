-- ===== src/Orders/Reservation/Stock.antt =====
-- Reservations never promise more than a station has filled.
use powergas.Base.{ℕ, pos, ◌≡◌, ◌≤ℤ◌, ◌-ℤ◌, int_laws, Bool, some, List, [], ◌∷◌}
use powergas.Table.{
  Uuid, Table, IsKeyed, AllRows, find_one, update, update-IsKeyed, AllRows-update,
  AllRows-find_by_id, find_one-find_by_id,
}
use powergas.Entities.{CylinderInventory, OrderItem}
use powergas.World.{World, >>-ok, >>-err}
use powergas.Inventory.{is_for}
use powergas.Orders.Pricing.{OrderItemDto}
use powergas.Orders.Reservation.Outcome.{
  refused, held, reserve_item-Reserves, missing, too_few, released, release_item-Releases,
}
use powergas.Orders.Reservation.{
  hold, unhold, reserve_item, reserve_inventory, release_item, release_items,
}

-- What is reserved is in stock.
abbrev pub IsCovered : CylinderInventory → Type 0
IsCovered i = pos i.reserved_count ≤ℤ i.filled_count

pub record IsStocked (t : Table CylinderInventory) : Type 0 where
  pub keyed : IsKeyed t
  pub covered : AllRows IsCovered t

hold-IsStocked :
    (t : Table CylinderInventory) (p : CylinderInventory → Bool) (q : ℕ) {k : Uuid}
    {i : CylinderInventory}
    → IsStocked t
    → find_one p t ≡ some (k, i)
    → pos q ≤ℤ i.filled_count -ℤ pos i.reserved_count
    → IsStocked (update k (hold q) t)
unfolding hold
hold-IsStocked t p q {k} {i} h e enough = record {
  keyed = update-IsKeyed k (hold q) t h.keyed;
  covered =
      let (at_key, _) = find_one-find_by_id p t h.keyed e in
      AllRows-update IsCovered k (hold q) t h.covered at_key (omega int_laws);
}

-- A reservation keeps the stock covered, however far it gets before it is refused.
pub reserve_inventory-IsStocked :
    (s : Uuid) (items : List OrderItemDto) (w : World)
    → IsStocked w.inventory
    → IsStocked (reserve_inventory s items w).1.inventory
unfolding reserve_inventory
reserve_inventory-IsStocked s [] w h = h
reserve_inventory-IsStocked s (item ∷ items) w h = elim (reserve_item-Reserves s item w) [
  | refused e ↦ rw (>>-err (reserve_item s item) (reserve_inventory s items) e) h
  | held k i found enough e ↦ rw (>>-ok (reserve_item s item) (reserve_inventory s items) e) (
      reserve_inventory-IsStocked s items
        (record w { inventory = update k (hold item.quantity) w.inventory })
        (hold-IsStocked w.inventory (is_for s item.cylinder_type_id) item.quantity h found enough))
]

unhold-IsStocked :
    (t : Table CylinderInventory) (p : CylinderInventory → Bool) (q : ℕ) {k : Uuid}
    {i : CylinderInventory}
    → IsStocked t
    → find_one p t ≡ some (k, i)
    → IsStocked (update k (unhold q) t)
unfolding unhold
unhold-IsStocked t p q {k} {i} h e = record {
  keyed = update-IsKeyed k (unhold q) t h.keyed;
  covered =
      let (at_key, _) = find_one-find_by_id p t h.keyed e in
      let before = AllRows-find_by_id IsCovered k t h.covered at_key in
      AllRows-update IsCovered k (unhold q) t h.covered at_key (omega int_laws);
}

-- A release keeps the stock covered.
pub release_items-IsStocked :
    (s : Uuid) (items : List OrderItem) (w : World)
    → IsStocked w.inventory
    → IsStocked (release_items s items w).1.inventory
unfolding release_items
release_items-IsStocked s [] w h = h
release_items-IsStocked s (item ∷ items) w h = elim (release_item-Releases s item w) [
  | missing _ e ↦
      rw (>>-ok (release_item s item) (release_items s items) e)
        (release_items-IsStocked s items w h)
  | too_few k i _ _ e ↦
      rw (>>-ok (release_item s item) (release_items s items) e)
        (release_items-IsStocked s items w h)
  | released k i found enough e ↦ rw (>>-ok (release_item s item) (release_items s items) e) (
      release_items-IsStocked s items
        (record w { inventory = update k (unhold item.quantity) w.inventory })
        (unhold-IsStocked w.inventory (is_for s item.cylinder_type_id) item.quantity h found))
]
