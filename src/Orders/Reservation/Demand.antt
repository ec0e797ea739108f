-- ===== src/Orders/Reservation/Demand.antt =====
-- What a reservation holds, and that its release gives back exactly that.
use powergas.Base.{
  ℕ, ◌+◌, ◌≤◌, ◌≡◌, sym, ◌∙◌, Option, none, some, List, [], ◌∷◌, map, ◌==◌, if◌then◌else◌, arith,
}
use powergas.Table.{Uuid, Table, IsKeyed, find_one, update, update-IsKeyed, find_one-find_by_id}
use powergas.Entities.{CylinderInventory, OrderItem}
use powergas.World.{World, ok, >>-ok, >>-err}
use powergas.Inventory.{is_for}
use powergas.Orders.Pricing.{OrderItemDto}
use powergas.Orders.Reservation.Outcome.{
  refused, held, reserve_item-Reserves, missing, too_few, released, release_item-Releases,
}
use powergas.Orders.Reservation.{
  hold, unhold, reserve_item, reserve_inventory, release_item, release_items,
}

-- How many cylinders of a type are reserved at a station.
abbrev pub reserved_in : Option (Uuid × CylinderInventory) → ℕ
reserved_in none = 0
reserved_in (some (_, i)) = i.reserved_count

abbrev pub reserved : Uuid → Uuid → Table CylinderInventory → ℕ
reserved s c t = reserved_in (find_one (is_for s c) t)

-- How many of a type a list of items asks for.
abbrev pub demand : Uuid → List (Uuid × ℕ) → ℕ
demand c [] = 0
demand c ((c', q) ∷ items) = (if c' == c then q else 0) + demand c items

abbrev pub wanted : List OrderItemDto → List (Uuid × ℕ)
wanted = map (λ (i : OrderItemDto). (i.cylinder_type_id, i.quantity))

abbrev pub ordered : List OrderItem → List (Uuid × ℕ)
ordered = map (λ (i : OrderItem). (i.cylinder_type_id, i.quantity))

-- The rows of another type, and of another station, are left alone; the found row is changed.
find_one-hold :
    (s c s' c' : Uuid) (q : ℕ) (t : Table CylinderInventory) {k : Uuid} {i : CylinderInventory}
    → IsKeyed t
    → find_one (is_for s c) t ≡ some (k, i)
    → reserved s' c' (update k (hold q) t)
      ≡ reserved s' c' t + (if s == s' then (if c == c' then q else 0) else 0)
unfolding hold
find_one-hold s c s' c' q [] keyed e = cc
find_one-hold s c s' c' q ((j, v) ∷ t) {k} {i} keyed e = ground (
  arith,
  find_one-hold s c s' c' q t {k = k} {i = i} keyed.1,
  find_one-find_by_id (is_for s c) t {k = k} {v = i} keyed.1,
)

find_one-unhold :
    (s c s' c' : Uuid) (q : ℕ) (t : Table CylinderInventory) {k : Uuid} {i : CylinderInventory}
    → IsKeyed t
    → find_one (is_for s c) t ≡ some (k, i)
    → q ≤ i.reserved_count
    → reserved s' c' (update k (unhold q) t) + (if s == s' then (if c == c' then q else 0) else 0)
      ≡ reserved s' c' t
unfolding unhold
find_one-unhold s c s' c' q [] keyed e enough = cc
find_one-unhold s c s' c' q ((j, v) ∷ t) {k} {i} keyed e enough = ground (
  arith,
  find_one-unhold s c s' c' q t {k = k} {i = i} keyed.1,
  find_one-find_by_id (is_for s c) t {k = k} {v = i} keyed.1,
)

-- A reservation that succeeds adds, at its station, what it asks for of each type, and changes
-- nothing else in the reserved counts.
pub reserved-reserve_inventory :
    (s s' c' : Uuid) (items : List OrderItemDto) (w w' : World)
    → IsKeyed w.inventory
    → reserve_inventory s items w ≡ (ok tt, w')
    → reserved s' c' w'.inventory
      ≡ reserved s' c' w.inventory + (if s == s' then demand c' (wanted items) else 0)
unfolding reserve_inventory
reserved-reserve_inventory s s' c' [] w w' keyed h = ground arith
reserved-reserve_inventory s s' c' (item ∷ items) w w' keyed h =
    elim (reserve_item-Reserves s item w) [
      | refused e ↦ cc (>>-err (reserve_item s item) (reserve_inventory s items) e)
      | held k i found enough e ↦
          let mid : World = record w { inventory = update k (hold item.quantity) w.inventory } in
          let rest =
            reserved-reserve_inventory s s' c' items mid w'
              (update-IsKeyed k (hold item.quantity) w.inventory keyed)
              (sym (>>-ok (reserve_item s item) (reserve_inventory s items) e) ∙ h) in
          ground (
            arith,
            rest,
            find_one-hold s item.cylinder_type_id s' c' item.quantity w.inventory keyed found,
          )
    ]

-- What the station holds of each type covers the items, so none of them is passed over.
abbrev pub Covers : Uuid → Table CylinderInventory → List (Uuid × ℕ) → Type 0
Covers s t items = (c : Uuid) → demand c items ≤ reserved s c t

pub reserved-release_items :
    (s s' c' : Uuid) (items : List OrderItem) (w w' : World)
    → IsKeyed w.inventory
    → Covers s w.inventory (ordered items)
    → release_items s items w ≡ (ok tt, w')
    → reserved s' c' w'.inventory + (if s == s' then demand c' (ordered items) else 0)
      ≡ reserved s' c' w.inventory
unfolding release_items
reserved-release_items s s' c' [] w w' keyed covers h = ground arith
reserved-release_items s s' c' (item ∷ items) w w' keyed covers h =
    elim (release_item-Releases s item w) [
      | missing none_found e ↦
          let rest =
            reserved-release_items s s' c' items w w' keyed (λ c. ground (arith, covers c))
              (sym (>>-ok (release_item s item) (release_items s items) e) ∙ h) in
          ground (arith, rest, covers item.cylinder_type_id)
      | too_few k i found short e ↦ absurd (ground (arith, covers item.cylinder_type_id))
      | released k i found enough e ↦
          let mid : World = record w { inventory = update k (unhold item.quantity) w.inventory } in
          let rest =
            reserved-release_items s s' c' items mid w'
              (update-IsKeyed k (unhold item.quantity) w.inventory keyed)
              (λ c. ground (
                arith,
                covers c,
                find_one-unhold s item.cylinder_type_id s c item.quantity w.inventory keyed found
                    enough,
              ))
              (sym (>>-ok (release_item s item) (release_items s items) e) ∙ h) in
          ground (
            arith,
            rest,
            find_one-unhold s item.cylinder_type_id s' c' item.quantity w.inventory keyed found
                enough,
          )
    ]
