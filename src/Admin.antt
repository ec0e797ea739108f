-- ===== src/Admin.antt =====
-- backend/src/admin/admin.service.ts: the rules of commission and the counts of the platform's
-- dashboard. Percentages are in hundredths, as in the table of the rules.
pub mod Rules
use powergas.Base.{
  ℕ, ℤ, pos, ◌+◌, ltb_ℤ, pos_part, Bool, true, false, Option, none, some, List, [], ◌∷◌, ◌++◌, ◌==◌,
  ◌&&◌, ◌||◌, same, if◌then◌else◌, ◌+ℤ◌,
}
use powergas.Enums.{OrderStatus, status_eq, PaymentStatus, payment_status_eq}
use powergas.Table.{Uuid, Table, count, find_by_id, find_one, update, insert}
use powergas.Entities.{
  Cents, Order, Payment, PlatformCommission, GasStation, User, SystemSetting, Text,
}
use powergas.Pagination.{PaginationDto, PaginatedResult}
use powergas.Queries.{find_page}
use powergas.World.{
  World, Action, internal_error, entity_not_found, gets, or_raise, fresh_id, pure, raise_if, modify,
  ◌>>=◌, ◌>>◌,
}

-- `update({ stationId, isActive: true }, { isActive: false })`, where a null station is `IS NULL`.
unfoldable pub deactivate : Option Uuid → List PlatformCommission → List PlatformCommission
deactivate scope [] = []
deactivate scope (r ∷ rs) =
    (if same r.station_id scope && r.is_active then record r { is_active = false } else r)
    ∷ deactivate scope rs

unfoldable pub new_rule : Option Uuid → ℤ → PlatformCommission
new_rule scope percent = record {
  station_id = scope;
  commission_percent = pos_part percent;
  is_active = true;
}

unfoldable pub set_commission : ℤ → Option Uuid → Action PlatformCommission
set_commission percent scope = do
  raise_if (ltb_ℤ percent (pos 0) || ltb_ℤ (pos 10000) percent) internal_error
  modify
      λ w. record w { commissions = deactivate scope w.commissions ++ new_rule scope percent ∷ [] }
  pure (new_rule scope percent)

-- `value` is stored as it is given.
unfoldable pub upsert_setting : Text → Text → Text → Action SystemSetting
upsert_setting key value category w = elim (find_one (λ s. s.key == key) w.settings) [
  | some (id, existing) ↦
      (do
        modify λ w. record w {
          settings = update id (λ s. record s { value = value; category = category }) w.settings;
        }
        or_raise (← gets (λ w. find_by_id id w.settings)) entity_not_found)
        w
  | none ↦
      (do
        id ← fresh_id
        modify λ w. record w {
          settings =
              insert id (record { key = key; value = value; category = category }) w.settings;
        }
        pure (record { key = key; value = value; category = category }))
        w
]

unfoldable pub get_all_users : PaginationDto → World → PaginatedResult (Uuid × User)
get_all_users pagination w = find_page (λ _. true) pagination w.users

abbrev pub sum_ℤ : {V : Type 0} → (V → ℤ) → (V → Bool) → Table V → ℤ
sum_ℤ f p [] = pos 0
sum_ℤ f p ((_, v) ∷ t) = (if p v then f v else pos 0) +ℤ sum_ℤ f p t

abbrev is_completed : Order → Bool
is_completed o = status_eq o.status OrderStatus.completed

-- The completion rate is the quotient of the two counts, which is left to the reader of them.
pub record PlatformAnalytics : Type 0 where
  pub total_users : ℕ
  pub total_stations : ℕ
  pub total_orders : ℕ
  pub completed_orders : ℕ
  pub total_revenue : ℤ
  pub platform_commission : ℤ

unfoldable pub get_platform_analytics : World → PlatformAnalytics
get_platform_analytics w = record {
  total_users = count (λ _. true) w.users;
  total_stations = count (λ s. s.is_active) w.stations;
  total_orders = count (λ _. true) w.orders;
  completed_orders = count is_completed w.orders;
  total_revenue =
      sum_ℤ (λ (p : Payment). pos p.amount)
        (λ p. payment_status_eq p.status PaymentStatus.completed) w.payments;
  platform_commission = sum_ℤ (λ (o : Order). pos o.platform_commission) is_completed w.orders;
}

pub record StationRevenue : Type 0 where
  pub total_earnings : ℤ
  pub total_orders : ℕ

unfoldable pub get_station_revenue : Uuid → World → StationRevenue
get_station_revenue station_id w =
    let settled : Order → Bool = λ o. (o.station_id == station_id) && is_completed o in
    record {
      total_earnings = sum_ℤ (λ (o : Order). o.station_earning) settled w.orders;
      total_orders = count settled w.orders;
    }
