-- ===== src/InventoryApi.antt =====
-- backend/src/inventory/inventory.controller.ts: the routes of stock, prices and cylinders. The list of kinds is public.
use powergas.Base.{ℕ, ℤ, Option, List, [], ◌∷◌}
use powergas.Enums.{rider, station_staff, station_manager, admin, super_admin, CylinderStatus}
use powergas.Table.{Uuid, Table}
use powergas.Entities.{Text, Cylinder, CylinderInventory, PricingHistory}
use powergas.World.{Action, gets}
use powergas.Guards.{JwtPayload, guarded}
use powergas.Inventory.{
  SetPricingDto, adjust_stock, set_pricing, get_station_inventory, get_low_stock_report,
}
use powergas.Cylinders.{
  CylinderData, create_type, register_cylinder, update_cylinder_status, get_cylinder_by_serial,
  get_pricing_history,
}

unfoldable pub post_type : Option JwtPayload → Text → ℕ → Action Uuid
post_type payload name weight_kg =
    guarded (admin ∷ super_admin ∷ []) payload λ _. create_type name weight_kg

unfoldable pub post_cylinder :
    (Text → Uuid → Text) → Option JwtPayload → CylinderData → Action Cylinder
post_cylinder to_data_url payload d =
    guarded (station_staff ∷ station_manager ∷ admin ∷ []) payload
      λ _. register_cylinder to_data_url d

unfoldable pub get_cylinder : Option JwtPayload → Text → Action (Uuid × Cylinder)
get_cylinder payload serial = guarded [] payload λ _. get_cylinder_by_serial serial

unfoldable pub patch_cylinder_status : Option JwtPayload → Uuid → CylinderStatus → Action Cylinder
patch_cylinder_status payload id status =
    guarded (station_staff ∷ station_manager ∷ rider ∷ admin ∷ []) payload
      λ _. update_cylinder_status id status

unfoldable pub list_inventory : Option JwtPayload → Uuid → Action (Table CylinderInventory)
list_inventory payload station_id =
    guarded (station_staff ∷ station_manager ∷ admin ∷ super_admin ∷ []) payload
      λ _. gets (get_station_inventory station_id)

unfoldable pub patch_stock : Option JwtPayload → Uuid → Uuid → ℤ → ℤ → Action CylinderInventory
patch_stock payload station_id type_id filled_delta empty_delta =
    guarded (station_staff ∷ station_manager ∷ admin ∷ []) payload
      λ _. adjust_stock station_id type_id filled_delta empty_delta

unfoldable pub list_low_stock : Option JwtPayload → Action (Table CylinderInventory)
list_low_stock payload = guarded (admin ∷ super_admin ∷ []) payload λ _. gets get_low_stock_report

unfoldable pub put_pricing : Option JwtPayload → Uuid → SetPricingDto → Action CylinderInventory
put_pricing payload station_id dto =
    guarded (station_manager ∷ admin ∷ super_admin ∷ []) payload
      λ (id, _). set_pricing station_id dto id

unfoldable pub list_pricing_history : Option JwtPayload → Uuid → Action (List PricingHistory)
list_pricing_history payload station_id =
    guarded (station_manager ∷ admin ∷ super_admin ∷ []) payload
      λ _. gets (get_pricing_history station_id)
