-- ===== src/Inventory.antt =====
-- backend/src/inventory/inventory.service.ts: stock counts of a cylinder type at a station, and the
-- getters of backend/src/inventory/entities/cylinder-inventory.entity.ts. A row is read under a
-- pessimistic write lock, so each action below is one step, and what it writes is computed from the
-- row that it writes.
pub mod Counts
use powergas.Base.{
  ℕ, ℤ, pos, ◌+◌, ◌-◌, ◌+ℤ◌, ◌-ℤ◌, ltb_ℤ, leb_ℤ, Bool, Option, none, some, List, [], ◌∷◌, ◌++◌,
  ◌==◌, ◌&&◌, ◌||◌, if◌then◌else◌,
}
use powergas.Table.{Uuid, Table, find_by_id, find_one, find, update, insert}
use powergas.Entities.{CylinderInventory, PricingHistory, Cents}
use powergas.World.{
  World, Action, not_found, conflict, entity_not_found, low_stock, pure, gets, or_raise, raise_if,
  modify, fresh_id, emit, perform_if, transaction, ◌>>=◌, ◌>>◌,
}

-- `where: { stationId, cylinderTypeId }`
abbrev pub is_for : Uuid → Uuid → CylinderInventory → Bool
is_for station_id type_id i = i.station_id == station_id && i.cylinder_type_id == type_id

abbrev pub find_inventory : Uuid → Uuid → Action (Uuid × CylinderInventory)
find_inventory station_id type_id = do
  or_raise (← gets (λ w. find_one (is_for station_id type_id) w.inventory)) not_found

abbrev pub update_inventory : Uuid → (CylinderInventory → CylinderInventory) → Action (Unit {0})
update_inventory id f = modify (λ w. record w { inventory = update id f w.inventory })

unfoldable pub available_for_sale : CylinderInventory → ℤ
available_for_sale i = i.filled_count -ℤ pos i.reserved_count

unfoldable pub is_low_stock : CylinderInventory → Bool
is_low_stock i = leb_ℤ (available_for_sale i) (pos i.low_stock_threshold)

-- The new counts of `adjustStock`.
unfoldable pub adjust : ℤ → ℤ → CylinderInventory → CylinderInventory
adjust filled_delta empty_delta i = record i {
  filled_count = i.filled_count +ℤ filled_delta;
  empty_count = i.empty_count +ℤ empty_delta;
  version = i.version + 1;
}

unfoldable pub adjust_stock : Uuid → Uuid → ℤ → ℤ → Action CylinderInventory
adjust_stock station_id type_id filled_delta empty_delta = transaction (do
  row ← find_inventory station_id type_id
  raise_if
      (ltb_ℤ (row.1.filled_count +ℤ filled_delta) (pos 0)
        || ltb_ℤ (row.1.empty_count +ℤ empty_delta) (pos 0))
      conflict
  update_inventory row.0 (adjust filled_delta empty_delta)
  updated ← or_raise (← gets (λ w. find_by_id row.0 w.inventory)) entity_not_found
  perform_if (is_low_stock updated) (emit (low_stock station_id type_id))
  pure updated)

-- `Math.max(0, reserved - quantity)` is the subtraction on ℕ; the stock has no such floor.
unfoldable pub commit : ℕ → CylinderInventory → CylinderInventory
commit quantity i = record i {
  filled_count = i.filled_count -ℤ pos quantity;
  reserved_count = i.reserved_count - quantity;
  version = i.version + 1;
}

unfoldable pub commit_reservation : Uuid → Uuid → ℕ → Action (Unit {0})
commit_reservation station_id type_id quantity =
    transaction
      (do row ← find_inventory station_id type_id; update_inventory row.0 (commit quantity))

-- A row as `create` makes it, by the columns' defaults.
abbrev pub new_inventory : Uuid → Uuid → CylinderInventory
new_inventory station_id type_id = record {
  station_id = station_id;
  cylinder_type_id = type_id;
  filled_count = pos 0;
  empty_count = pos 0;
  reserved_count = 0;
  low_stock_threshold = 5;
  exchange_price = 0;
  new_price = 0;
  refill_price = 0;
  emergency_surcharge = 0;
  version = 1;
}

-- `data` is the change of the columns that the caller gives.
unfoldable pub upsert_inventory :
    Uuid → Uuid → (CylinderInventory → CylinderInventory) → Action CylinderInventory
upsert_inventory station_id type_id change w =
    elim (find_one (is_for station_id type_id) w.inventory) [
      | some row ↦
          (do
            update_inventory row.0 change
            or_raise (← gets (λ w'. find_by_id row.0 w'.inventory)) entity_not_found)
            w
      | none ↦
          (do
            id ← fresh_id
            modify λ w'. record w' {
              inventory = insert id (change (new_inventory station_id type_id)) w'.inventory;
            }
            pure (change (new_inventory station_id type_id)))
            w
    ]

pub record SetPricingDto : Type 0 where
  pub cylinder_type_id : Uuid
  pub exchange_price : Cents
  pub new_price : Cents
  pub refill_price : Cents
  pub emergency_surcharge : Cents

unfoldable pub price : SetPricingDto → CylinderInventory → CylinderInventory
price dto i = record i {
  exchange_price = dto.exchange_price;
  new_price = dto.new_price;
  refill_price = dto.refill_price;
  emergency_surcharge = dto.emergency_surcharge;
}

unfoldable pub set_pricing : Uuid → SetPricingDto → Uuid → Action CylinderInventory
unfolding upsert_inventory
set_pricing station_id dto changed_by = do
  inventory ← upsert_inventory station_id dto.cylinder_type_id (price dto)
  modify λ w. record w {
    pricing_history =
        w.pricing_history
        ++ record {
          station_id = station_id;
          cylinder_type_id = dto.cylinder_type_id;
          exchange_price = dto.exchange_price;
          new_price = dto.new_price;
          refill_price = dto.refill_price;
          emergency_surcharge = dto.emergency_surcharge;
          changed_by = some changed_by;
        }
          ∷ [];
  }
  pure inventory

unfoldable pub get_station_inventory : Uuid → World → Table CylinderInventory
get_station_inventory station_id w = find (λ i. i.station_id == station_id) w.inventory

unfoldable pub get_low_stock_report : World → Table CylinderInventory
unfolding is_low_stock available_for_sale
get_low_stock_report w = find is_low_stock w.inventory
