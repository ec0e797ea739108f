-- ===== src/Settlement.antt =====
-- backend/src/orders/settlement.service.ts: the split of a confirmed order's total between the
-- platform, the station and the rider, and what it writes. `toFixed(2)` is rounding half up to whole
-- cents of the exact quotient; the error of the floating-point product is left out.
pub mod Shares
pub mod Rates
pub mod Stock
pub mod Effects
pub mod Outcome
pub mod Completion
pub mod Failures
use powergas.Base.{
  ℕ, ℤ, pos, ◌+◌, ◌*◌, ◌+ℤ◌, ◌-ℤ◌, ltb, Bool, Option, none, some, List, [], ◌∷◌, ◌==◌, ◌&&◌, same,
  is_some, not, if◌then◌else◌,
}
use powergas.Enums.{OrderStatus, customer_confirmed, delivery_earning, status_eq}
use powergas.Table.{Uuid, find_by_id, update}
use powergas.Entities.{Cents, Order, OrderItem, GasStation, PlatformCommission, Time}
use powergas.World.{World, Result, ok, err, Action, rollback, pure, modify, perform_if, ◌>>=◌, ◌>>◌}
use powergas.Inventory.{commit_reservation}
use powergas.Riders.{credit_wallet}
use powergas.Orders.Pricing.{round_div}
use powergas.Orders.Store.{update_order, save_history}
use powergas.Orders.Cancel.{items_of}

-- How TypeORM reads `null` in the `where` of a find: as `IS NULL`, or as no condition at all. Which of the
-- two is a matter of its version and options: 0.3.30, the locked one, ignores it, since the code sets no
-- option. An `update` reads it as `IS NULL`.
pub data NullWhere : Type 0 where
  is_null ignored : NullWhere

-- `commissionRepo.findOne({ where })`
abbrev pub find_rule :
    (PlatformCommission → Bool) → List PlatformCommission → Option PlatformCommission
find_rule p [] = none
find_rule p (r ∷ rs) = if p r then some r else find_rule p rs

abbrev pub is_station_rule : Uuid → PlatformCommission → Bool
is_station_rule station_id r = same r.station_id (some station_id) && r.is_active

abbrev pub is_default_rule : NullWhere → PlatformCommission → Bool
is_default_rule is_null r = not (is_some r.station_id) && r.is_active
is_default_rule ignored r = r.is_active

abbrev pub percent_or : Option PlatformCommission → ℕ → ℕ
percent_or none d = d
percent_or (some r) d = r.commission_percent

-- In hundredths of a percent. The fallback is PLATFORM_COMMISSION_PERCENT of the configuration.
unfoldable pub get_commission_percent : NullWhere → ℕ → Uuid → List PlatformCommission → ℕ
get_commission_percent nulls fallback station_id rules =
    percent_or (find_rule (is_station_rule station_id) rules)
      (percent_or (find_rule (is_default_rule nulls) rules) fallback)

abbrev pub rider_share_percent : ℕ
rider_share_percent = 70

pub record Split : Type 0 where
  pub platform_commission : Cents
  pub rider_earning : Cents
  pub station_earning : ℤ

unfoldable pub compute_split : ℕ → Cents → Cents → Split
compute_split percent total delivery_fee =
    let commission : ℕ = round_div (total * percent) 10000 in
    let earning : ℕ = round_div (delivery_fee * rider_share_percent) 100 in
    record {
      platform_commission = commission;
      rider_earning = earning;
      station_earning = pos total -ℤ pos commission -ℤ pos earning;
    }

unfoldable pub complete : Split → Time → Order → Order
complete s now o = record o {
  platform_commission = s.platform_commission;
  station_earning = s.station_earning;
  rider_earning = s.rider_earning;
  status = OrderStatus.completed;
  completed_at = some now;
}

-- `Number(station.totalRevenue) + stationEarning`; a station that is not found is passed over.
unfoldable pub add_revenue : ℤ → GasStation → GasStation
add_revenue earning station = record station { total_revenue = station.total_revenue +ℤ earning }

-- The loop over the items; each round is a transaction of its own.
unfoldable pub commit_items : Uuid → List OrderItem → Action (Unit {0})
commit_items station_id [] = pure tt
commit_items station_id (item ∷ items) =
    commit_reservation station_id item.cylinder_type_id item.quantity
    >> commit_items station_id items

-- The transaction of a settlement. `commitReservation` goes through the service's own data source,
-- so where a later item fails, the stock that it has written stays written.
abbrev pub transaction_keeping_inventory : Action (Unit {0}) → Action (Unit {0})
transaction_keeping_inventory m w =
    let (r, w') = m w in
    elim r [
      | ok a ↦ (ok a, w')
      | err e ↦ (err e, record (rollback w w') { inventory = w'.inventory })
    ]

unfoldable pub book : Uuid → Order → Split → Action (Unit {0})
book order_id order split w =
    (do
      update_order order_id (complete split w.now)
      save_history order_id (some customer_confirmed) OrderStatus.completed none
      modify λ v. record v {
        stations = update order.station_id (add_revenue split.station_earning) v.stations;
      }
      commit_items order.station_id (items_of order_id w.order_items))
      w

-- The credit of the rider's wallet, in a transaction of its own after the first.
unfoldable pub pay_rider : Uuid → Option Uuid → Cents → Action (Unit {0})
pay_rider order_id none earning = pure tt
pay_rider order_id (some rider_id) earning =
    perform_if (ltb 0 earning)
      (credit_wallet rider_id (pos earning) order_id delivery_earning >> pure tt)

unfoldable pub settle_order : Uuid → Order → Split → Action (Unit {0})
settle_order order_id order split = do
  transaction_keeping_inventory (book order_id order split)
  pay_rider order_id order.rider_id split.rider_earning

-- A missing, a completed and an unconfirmed order are passed over.
unfoldable pub settle_found : NullWhere → ℕ → Uuid → Option Order → Action (Unit {0})
settle_found nulls fallback order_id none w = (ok tt, w)
settle_found nulls fallback order_id (some order) w =
    if status_eq order.status OrderStatus.completed
    then (ok tt, w)
    else if not (status_eq order.status customer_confirmed)
    then (ok tt, w)
    else settle_order order_id order
        (compute_split (get_commission_percent nulls fallback order.station_id w.commissions)
          order.total order.delivery_fee)
        w

unfoldable pub settle : NullWhere → ℕ → Uuid → Action (Unit {0})
settle nulls fallback order_id w =
    settle_found nulls fallback order_id (find_by_id order_id w.orders) w
