-- ===== src/Tracking.antt =====
-- backend/src/tracking: the positions of riders (tracking.service.ts). The distance in metres
-- (`getDistance` of geolib) is a parameter; a position's speed and heading are left out.
pub mod Gateway
pub mod Sockets
use powergas.Base.{ℕ, ℤ, ◌+◌, ◌*◌, ◌/◌, Option, none, some, List, [], ◌∷◌, ◌++◌, ◌==◌, select}
use powergas.Table.{Uuid}
use powergas.Entities.{OrderTrackingEvent}
use powergas.World.{World, Action, pure, modify, ◌>>◌}
use powergas.Riders.{update_location}

-- `data` of `recordLocation`
pub record LocationReport : Type 0 where
  pub order_id : Uuid
  pub rider_id : Uuid
  pub latitude : ℤ
  pub longitude : ℤ
  pub dest_lat : Option ℤ
  pub dest_lng : Option ℤ

-- `Math.round((metres / 1000 / 25) * 3600)`: no number of metres lies on a half.
unfoldable pub eta_seconds : ℕ → ℕ
eta_seconds metres = (metres * 144 + 500) / 1000

unfoldable pub get_tracking_history : Uuid → World → List OrderTrackingEvent
get_tracking_history order_id w = select (λ e. e.order_id == order_id) w.tracking_events

module _ (get_distance : ℤ → ℤ → ℤ → ℤ → ℕ) where
  unfoldable pub distance_to : LocationReport → Option ℤ → Option ℤ → Option ℕ
  distance_to r none lng = none
  distance_to r (some lat) none = none
  distance_to r (some lat) (some lng) = some (get_distance r.latitude r.longitude lat lng)

  unfoldable pub new_event : LocationReport → OrderTrackingEvent
  new_event r = record {
    order_id = r.order_id;
    rider_id = r.rider_id;
    latitude = r.latitude;
    longitude = r.longitude;
    distance_to_destination = distance_to r r.dest_lat r.dest_lng;
    eta_seconds = elim (distance_to r r.dest_lat r.dest_lng) [
      | none ↦ none
      | some d ↦ some (eta_seconds d)
    ];
  }

  unfoldable pub record_location : LocationReport → Action OrderTrackingEvent
  record_location r = do
    update_location r.rider_id r.latitude r.longitude
    modify (λ w. record w { tracking_events = w.tracking_events ++ new_event r ∷ [] })
    pure (new_event r)
