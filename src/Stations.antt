-- ===== src/Stations.antt =====
-- backend/src/stations/stations.service.ts: the stations and their staff. The prefix of a code, cut from
-- the name of the city, is a parameter; the search for stations nearby is raw SQL and is left out, as
-- are the texts of a station and who changed it.
pub mod Staff
pub mod Analytics
use powergas.Base.{
  ℕ, ℤ, pos, ◌+◌, Bool, true, false, Option, none, some, List, [], ◌∷◌, ◌==◌, ◌&&◌, if◌then◌else◌,
}
use powergas.Enums.{UserRole, VerificationStatus, StockStatus}
use powergas.Table.{Uuid, Table, find_by_id, find_one, find_newest, find, count, update, insert}
use powergas.Entities.{Text, Time, StationCode, GasStation, GasStationStaff}
use powergas.Pagination.{PaginationDto, PaginatedResult}
use powergas.Queries.{newest_first, find_page}
use powergas.World.{
  World, ok, err, Action, not_found, conflict, entity_not_found, pure, raise, gets, or_raise,
  modify, fresh_id, ◌>>=◌, ◌>>◌,
}

pub record CreateStationDto : Type 0 where
  pub city : Option Text
  pub latitude : Option ℤ
  pub longitude : Option ℤ

abbrev pub update_station : Uuid → (GasStation → GasStation) → Action (Unit {0})
update_station id f = modify (λ w. record w { stations = update id f w.stations })

unfoldable pub find_station : Uuid → Action GasStation
find_station id = do or_raise (← gets (λ w. find_by_id id w.stations)) not_found

unfoldable pub find_all_stations : PaginationDto → World → PaginatedResult (Uuid × GasStation)
find_all_stations pagination w = find_page (λ s. s.is_active) pagination w.stations

unfoldable pub generate_code : (Option Text → Text) → Option Text → World → StationCode
generate_code prefix_of city w = record {
  prefix = prefix_of city;
  number = count (λ _. true) w.stations + 1;
}

unfoldable pub new_station : CreateStationDto → StationCode → GasStation
new_station dto code = record {
  code = code;
  latitude = dto.latitude;
  longitude = dto.longitude;
  status = VerificationStatus.pending;
  is_active = true;
  stock_status = StockStatus.available;
  stock_status_updated_at = none;
  false_availability_strikes = 0;
  total_revenue = pos 0;
}

unfoldable pub create_station : (Option Text → Text) → CreateStationDto → Action Uuid
create_station prefix_of dto = do
  code ← gets (generate_code prefix_of dto.city)
  id ← fresh_id
  modify (λ w. record w { stations = insert id (new_station dto code) w.stations })
  pure id

-- An update, whose columns are a function, and the read of what it made.
unfoldable pub change_station : Uuid → (GasStation → GasStation) → Action GasStation
change_station id f = do update_station id f; find_station id

unfoldable pub set_stock_status : StockStatus → Time → GasStation → GasStation
set_stock_status s now station = record station {
  stock_status = s;
  stock_status_updated_at = some now;
}

unfoldable pub update_stock_status : Uuid → StockStatus → Action GasStation
update_stock_status id s w = change_station id (set_stock_status s w.now) w

unfoldable pub update_open_status : Uuid → Bool → Action GasStation
update_open_status id is_active = change_station id (λ s. record s { is_active = is_active })

unfoldable pub review_station : Uuid → VerificationStatus → Action GasStation
review_station id status = change_station id (λ s. record s { status = status })

unfoldable pub strike : ℕ → Time → GasStation → GasStation
strike strikes now s = record s {
  stock_status = StockStatus.out_of_stock;
  stock_status_updated_at = some now;
  false_availability_strikes = strikes;
}

unfoldable pub report_false_availability : Uuid → Action GasStation
report_false_availability id = do
  station ← find_station id
  now ← gets (λ w. w.now)
  change_station id (strike (station.false_availability_strikes + 1) now)

-- `where: { userId, isActive: true }`
unfoldable pub works_for_user : Uuid → GasStationStaff → Bool
works_for_user user_id s = (s.user_id == user_id) && s.is_active

unfoldable pub resolve_station_for_user : Uuid → World → Option Uuid
resolve_station_for_user user_id w = elim (find_newest (works_for_user user_id) w.station_staff) [
  | none ↦ none
  | some (_, s) ↦ some s.station_id
]

-- `where: { userId, stationId }`
unfoldable pub is_assignment : Uuid → Uuid → GasStationStaff → Bool
is_assignment user_id station_id s = (s.user_id == user_id) && (s.station_id == station_id)

abbrev pub update_staff : Uuid → (GasStationStaff → GasStationStaff) → Action (Unit {0})
update_staff id f = modify (λ w. record w { station_staff = update id f w.station_staff })

unfoldable pub rehire : UserRole → GasStationStaff → GasStationStaff
rehire role s = record s { is_active = true; role = role }

unfoldable pub dismiss : GasStationStaff → GasStationStaff
dismiss s = record s { is_active = false }

unfoldable pub new_staff : Uuid → Uuid → UserRole → GasStationStaff
new_staff user_id station_id role = record {
  user_id = user_id;
  station_id = station_id;
  role = role;
  is_active = true;
}

-- The rest of `assignStaff`, by whether the user was ever assigned to the station.
unfoldable pub assign :
    Uuid → Uuid → UserRole → Option (Uuid × GasStationStaff) → Action GasStationStaff
assign station_id user_id role (some (id, existing)) w =
    if existing.is_active
    then (err conflict, w)
    else (do
      update_staff id (rehire role)
      or_raise (← gets (λ w. find_by_id id w.station_staff)) entity_not_found)
        w
assign station_id user_id role none w =
    (do
      id ← fresh_id
      modify λ w. record w {
        station_staff = insert id (new_staff user_id station_id role) w.station_staff;
      }
      pure (new_staff user_id station_id role))
      w

unfoldable pub assign_staff : Uuid → Uuid → UserRole → Action GasStationStaff
assign_staff station_id user_id role = do
  station ← find_station station_id
  existing ← gets (λ w. find_one (is_assignment user_id station_id) w.station_staff)
  assign station_id user_id role existing

unfoldable pub remove_staff : Uuid → Uuid → Action (Unit {0})
remove_staff station_id user_id = do
  row ←
      or_raise (← gets (λ w. find_one (is_assignment user_id station_id) w.station_staff)) not_found
  update_staff row.0 dismiss

unfoldable pub get_staff : Uuid → World → Table GasStationStaff
get_staff station_id w =
    newest_first (find (λ s. (s.station_id == station_id) && s.is_active) w.station_staff)
