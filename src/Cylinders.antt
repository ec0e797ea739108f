-- ===== src/Cylinders.antt =====
-- backend/src/inventory/inventory.service.ts: the kinds of cylinders, the single cylinders with their codes, and the
-- history of prices. The picture of a code (the package qrcode) is a parameter, of the serial number and
-- a fresh uuid; brands, notes and descriptions are left out.
use powergas.Base.{ℕ, Bool, true, Option, some, List, ◌==◌, select, take, reverse, is_some}
use powergas.Enums.{CylinderStatus, station_owned}
use powergas.Table.{Uuid, Table, find_by_id, find_one, find, update, insert}
use powergas.Entities.{Text, CylinderType, Cylinder, PricingHistory}
use powergas.World.{
  World, Action, not_found, conflict, pure, gets, or_raise, raise_if, modify, fresh_id, ◌>>=◌, ◌>>◌,
}

unfoldable pub create_type : Text → ℕ → Action Uuid
create_type name weight_kg = do
  id ← fresh_id
  modify λ w. record w {
    cylinder_types =
        insert id (record { name = name; weight_kg = weight_kg; is_active = true })
          w.cylinder_types;
  }
  pure id

unfoldable pub get_types : World → Table CylinderType
get_types w = find (λ t. t.is_active) w.cylinder_types

pub record CylinderData : Type 0 where
  pub serial_number : Text
  pub cylinder_type_id : Uuid
  pub station_id : Option Uuid

unfoldable pub new_cylinder : CylinderData → Text → Cylinder
new_cylinder d qr_code = record {
  serial_number = d.serial_number;
  qr_code = some qr_code;
  cylinder_type_id = d.cylinder_type_id;
  station_id = d.station_id;
  status = station_owned;
}

unfoldable pub has_serial : Text → Cylinder → Bool
has_serial serial_number c = c.serial_number == serial_number

unfoldable pub register_cylinder : (Text → Uuid → Text) → CylinderData → Action Cylinder
register_cylinder to_data_url d = do
  existing ← gets (λ w. find_one (has_serial d.serial_number) w.cylinders)
  raise_if (is_some existing) conflict
  uuid ← fresh_id
  id ← fresh_id
  modify λ w. record w {
    cylinders = insert id (new_cylinder d (to_data_url d.serial_number uuid)) w.cylinders;
  }
  pure (new_cylinder d (to_data_url d.serial_number uuid))

unfoldable pub update_cylinder_status : Uuid → CylinderStatus → Action Cylinder
update_cylinder_status id status = do
  modify λ w. record w { cylinders = update id (λ c. record c { status = status }) w.cylinders }
  or_raise (← gets (λ w. find_by_id id w.cylinders)) not_found

unfoldable pub get_cylinder_by_serial : Text → Action (Uuid × Cylinder)
get_cylinder_by_serial serial_number = do
  or_raise (← gets (λ w. find_one (has_serial serial_number) w.cylinders)) not_found

unfoldable pub get_pricing_history : Uuid → World → List PricingHistory
get_pricing_history station_id w =
    take 100 (reverse (select (λ h. h.station_id == station_id) w.pricing_history))
