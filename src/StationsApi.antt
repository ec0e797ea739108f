-- ===== src/StationsApi.antt =====
-- backend/src/stations/stations.controller.ts: the routes of the stations. The list of stations nearby is raw SQL and
-- is left out; the public routes are the service's reads.
use powergas.Base.{Bool, Option, none, some, List, [], ◌∷◌}
use powergas.Enums.{
  UserRole, rider, station_staff, station_manager, admin, super_admin, StockStatus,
  VerificationStatus,
}
use powergas.Table.{Uuid, Table}
use powergas.Entities.{Text, GasStation, GasStationStaff}
use powergas.World.{Action, pure, gets, ◌>>=◌}
use powergas.Guards.{JwtPayload, guarded}
use powergas.Stations.{
  CreateStationDto, find_station, create_station, change_station, update_stock_status,
  update_open_status, review_station, report_false_availability, resolve_station_for_user,
  assign_staff, remove_staff, get_staff,
}

abbrev pub station_roles : List UserRole
station_roles = station_staff ∷ station_manager ∷ admin ∷ super_admin ∷ []

-- What `myStation` answers: the station and its key, if there is one.
unfoldable pub station_of : Option Uuid → Action (Option (Uuid × GasStation))
station_of none = pure none
station_of (some id) = do station ← find_station id; pure (some (id, station))

unfoldable pub my_station : Option JwtPayload → Action (Option (Uuid × GasStation))
my_station payload =
    guarded station_roles payload
      λ (id, _). do station_id ← gets (resolve_station_for_user id); station_of station_id

unfoldable pub list_staff : Option JwtPayload → Uuid → Action (Table GasStationStaff)
list_staff payload id =
    guarded (station_manager ∷ admin ∷ super_admin ∷ []) payload λ _. gets (get_staff id)

unfoldable pub post_staff : Option JwtPayload → Uuid → Uuid → UserRole → Action GasStationStaff
post_staff payload id user_id role =
    guarded (admin ∷ super_admin ∷ []) payload λ _. assign_staff id user_id role

unfoldable pub delete_staff : Option JwtPayload → Uuid → Uuid → Action (Unit {0})
delete_staff payload id user_id =
    guarded (admin ∷ super_admin ∷ []) payload λ _. remove_staff id user_id

unfoldable pub post_station :
    (Option Text → Text) → Option JwtPayload → CreateStationDto → Action Uuid
post_station prefix_of payload dto =
    guarded (admin ∷ super_admin ∷ []) payload λ _. create_station prefix_of dto

-- The fields of the body are written, whatever they are.
unfoldable pub patch_station :
    Option JwtPayload → Uuid → (GasStation → GasStation) → Action GasStation
patch_station payload id f =
    guarded (station_manager ∷ admin ∷ super_admin ∷ []) payload λ _. change_station id f

unfoldable pub patch_stock_status : Option JwtPayload → Uuid → StockStatus → Action GasStation
patch_stock_status payload id status =
    guarded station_roles payload λ _. update_stock_status id status

unfoldable pub patch_open_status : Option JwtPayload → Uuid → Bool → Action GasStation
patch_open_status payload id is_active =
    guarded station_roles payload λ _. update_open_status id is_active

unfoldable pub patch_station_verification :
    Option JwtPayload → Uuid → VerificationStatus → Action GasStation
patch_station_verification payload id status =
    guarded (admin ∷ super_admin ∷ []) payload λ _. review_station id status

unfoldable pub post_false_availability : Option JwtPayload → Uuid → Action GasStation
post_false_availability payload id = guarded (rider ∷ []) payload λ _. report_false_availability id
