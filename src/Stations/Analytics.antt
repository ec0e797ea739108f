-- ===== src/Stations/Analytics.antt =====
-- backend/src/stations/station-analytics.service.ts: the counts of a station's dashboard. The series by day and the
-- list of customers are raw SQL and are left out; the completion rate is the quotient of two counts.
use powergas.Base.{ℕ, ℤ, Bool, some, ◌==◌, ◌&&◌, same}
use powergas.Enums.{OrderStatus, status_eq}
use powergas.Table.{Uuid, Table, count, find}
use powergas.Entities.{Order, Rider}
use powergas.Queries.{newest_first}
use powergas.World.{World}
use powergas.Admin.{sum_ℤ}

pub record Overview : Type 0 where
  pub total_orders : ℕ
  pub completed_orders : ℕ
  pub pending_orders : ℕ
  pub active_riders : ℕ
  pub total_earnings : ℤ

abbrev pub of_station : Uuid → OrderStatus → Order → Bool
of_station station_id status o = (o.station_id == station_id) && status_eq o.status status

unfoldable pub get_overview : Uuid → World → Overview
get_overview station_id w = record {
  total_orders = count (λ o. o.station_id == station_id) w.orders;
  completed_orders = count (of_station station_id OrderStatus.completed) w.orders;
  pending_orders = count (of_station station_id OrderStatus.pending) w.orders;
  active_riders = count (λ r. same r.station_id (some station_id)) w.riders;
  total_earnings =
      sum_ℤ (λ (o : Order). o.station_earning) (of_station station_id OrderStatus.completed)
        w.orders;
}

unfoldable pub get_riders : Uuid → World → Table Rider
get_riders station_id w = newest_first (find (λ r. same r.station_id (some station_id)) w.riders)
