-- ===== src/Orders/Reservation.antt =====
-- `reserveInventory` and `releaseInventoryReservation` of backend/src/orders/orders.service.ts.
pub mod Outcome
pub mod Demand
pub mod Stock
use powergas.Base.{
  ℕ, pos, ◌+◌, ◌-◌, ◌-ℤ◌, ltb_ℤ, leb, Bool, Option, none, some, List, [], ◌∷◌, ◌==◌, if◌then◌else◌,
}
use powergas.Table.{Uuid, find_one}
use powergas.Entities.{CylinderInventory, OrderItem}
use powergas.World.{World, Action, ok, conflict, pure, raise_if, ◌>>=◌, ◌>>◌}
use powergas.Inventory.{is_for, find_inventory, update_inventory}
use powergas.Orders.Pricing.{OrderItemDto}

unfoldable pub hold : ℕ → CylinderInventory → CylinderInventory
hold quantity i = record i { reserved_count = i.reserved_count + quantity; version = i.version + 1 }

-- One round of the loop: `available < item.quantity` is a conflict.
unfoldable pub reserve_item : Uuid → OrderItemDto → Action (Unit {0})
reserve_item station_id item = do
  row ← find_inventory station_id item.cylinder_type_id
  raise_if (ltb_ℤ (row.1.filled_count -ℤ pos row.1.reserved_count) (pos item.quantity)) conflict
  update_inventory row.0 (hold item.quantity)

unfoldable pub reserve_inventory : Uuid → List OrderItemDto → Action (Unit {0})
reserve_inventory station_id [] = pure tt
reserve_inventory station_id (item ∷ items) =
    reserve_item station_id item >> reserve_inventory station_id items

unfoldable pub unhold : ℕ → CylinderInventory → CylinderInventory
unhold quantity i = record i { reserved_count = i.reserved_count - quantity }

-- The release of what a row holds; a missing row and a row that holds less are passed over.
unfoldable pub release_row : ℕ → Option (Uuid × CylinderInventory) → Action (Unit {0})
release_row quantity none = pure tt
release_row quantity (some (id, i)) =
    if leb quantity i.reserved_count then update_inventory id (unhold quantity) else pure tt

unfoldable pub release_item : Uuid → OrderItem → Action (Unit {0})
unfolding release_row
release_item station_id item w =
    release_row item.quantity (find_one (is_for station_id item.cylinder_type_id) w.inventory) w

-- The loop over the order's items.
unfoldable pub release_items : Uuid → List OrderItem → Action (Unit {0})
release_items station_id [] = pure tt
release_items station_id (item ∷ items) =
    release_item station_id item >> release_items station_id items
