-- ===== src/Consoles/Delivery.antt =====
-- A rider who goes where the steps lead, tap by tap.
use powergas.Base.{
  ℕ, zero, suc, ℤ, ◌+◌, ◌≤◌, ◌≡◌, refl, sym, subst, ◌∙◌, inl, inr, true, Option, none, some, List,
  [], ◌∷◌, ◌++◌, arith, ◌||◌, if◌then◌else◌, Option-cases, Bool-cases,
}
use powergas.Enums.{OrderStatus, at_station, delivered, status_eq, ordinal}
use powergas.Table.{Uuid, find_by_id, find_by_id-update_self}
use powergas.Entities.{Order, GasStation, OrderTrackingEvent}
use powergas.World.{World, ok}
use powergas.Riders.{update_location}
use powergas.Tracking.{LocationReport, record_location, new_event}
use powergas.Orders.Lifecycle.{is_valid_transition, stamp}
use powergas.Orders.Lifecycle.Graph.{ordinal-injective}
use powergas.Orders.Store.{get_latest_position}
use powergas.Orders.Status.{
  is_delivery_checkpoint, advance, enforce_proximity_if_required, verify_at_station, verify_at,
  verify_proximity,
}
use powergas.Orders.Status.Effects.{after_update}
use powergas.Orders.Status.Shortcuts.{update_status_free}
use powergas.Consoles.{Step, next_status, steps, RiderApp, handle_advance}

-- Every button asks for a transition that the service allows, and the rider is told to be at a place exactly
-- where the service checks it.
pub steps_valid :
    (s : OrderStatus)
    → ((t : OrderStatus) → next_status s ≡ some t → is_valid_transition s t ≡ true)
      × ((step : Step)
          → steps s ≡ some step
          → (is_valid_transition s step.next ≡ true)
            × (step.gated ≡ (is_delivery_checkpoint step.next || status_eq step.next at_station)))
unfolding next_status steps is_valid_transition
steps_valid s = (λ t e. ground arith, λ step e. (ground arith, ground arith))

-- From the assignment to the arrival with the cylinder there is a next step.
step_of :
    (s : OrderStatus)
    → 4 ≤ ordinal s
    → ordinal s ≤ 11
    → (step : Step) × (steps s ≡ some step) × (ordinal step.next ≡ ordinal s + 1)
unfolding steps
step_of s low high = elim (Option-cases (steps s)) [
  | inl none_left ↦ absurd (ground arith)
  | inr (step, e) ↦ (step, e, ground arith)
]

pub latest-append :
    (id : Uuid) (e : OrderTrackingEvent) (es : List OrderTrackingEvent)
    → e.order_id ≡ id
    → get_latest_position id (es ++ e ∷ []) ≡ some e
unfolding get_latest_position
latest-append id e [] own = ground arith
latest-append id e (x ∷ es) own = rw (latest-append id e es own) refl

-- An advance keeps what the order says of its places.
advance-places :
    (t : OrderStatus) (now : ℕ) (o : Order)
    → ((advance t now o).delivery_lat ≡ o.delivery_lat)
      × ((advance t now o).delivery_lng ≡ o.delivery_lng)
      × ((advance t now o).station_id ≡ o.station_id)
      × ((advance t now o).status ≡ t)
unfolding advance stamp
advance-places t now o = (ground arith, ground arith, ground arith, ground arith)

-- The order whose position is shared after so many taps: none, once there was one.
abbrev pub shared_after : ℕ → Option Uuid → Option Uuid
shared_after zero active = active
shared_after (suc n) active = none

last_tap :
    (n : ℕ) (t : OrderStatus) (active : Option Uuid)
    → ordinal t + n ≡ 12
    → shared_after n (if status_eq t delivered then none else active) ≡ none
last_tap zero t active e = ground arith
last_tap (suc n) t active e = refl

-- The user who taps, the rider whose position is reported, and the places of delivery and of the station.
module _ (d : ℤ → ℤ → ℤ → ℤ → ℕ) (user rider : Uuid) (x y sx sy : ℤ) where
  -- Where the rider goes before the order enters a status.
  abbrev pub place_of : OrderStatus → ℤ × ℤ
  place_of t = if is_delivery_checkpoint t then (x, y) else (sx, sy)

  abbrev pub report : Uuid → OrderStatus → LocationReport
  report id t = record {
    order_id = id;
    rider_id = rider;
    latitude = (place_of t).0;
    longitude = (place_of t).1;
    dest_lat = none;
    dest_lng = none;
  }

  -- The rider goes to the place of the next step, and its position is recorded.
  abbrev pub go : RiderApp → World → World
  go app w = elim (steps app.order.status) [
    | none ↦ w
    | some step ↦ (record_location d (report app.order_id step.next) w).1
  ]

  -- So many times the rider goes where the next step leads, and taps.
  abbrev pub drive : ℕ → RiderApp → World → RiderApp × World
  drive zero app w = (app, w)
  drive (suc n) app w = let (app', w') = handle_advance d user app (go app w) in drive n app' w'

  -- The application shows the order as it is stored, and the places are known.
  pub record IsReady (app : RiderApp) (w : World) : Type 0 where
    pub stored : find_by_id app.order_id w.orders ≡ some app.order
    pub lat : app.order.delivery_lat ≡ some x
    pub lng : app.order.delivery_lng ≡ some y
    pub station : GasStation
    pub at_its_station : find_by_id app.order.station_id w.stations ≡ some station
    pub station_lat : station.latitude ≡ some sx
    pub station_lng : station.longitude ≡ some sy

  module _ (close_by : (a b : ℤ) → d a b a b ≤ 100) where
    verify_at_close :
        (id : Uuid) (a b : ℤ) (e : OrderTrackingEvent) (v : World) {lat lng : Option ℤ}
        → lat ≡ some a
        → lng ≡ some b
        → get_latest_position id v.tracking_events ≡ some e
        → e.latitude ≡ a
        → e.longitude ≡ b
        → verify_at d id lat lng v ≡ (ok tt, v)
    unfolding verify_at verify_proximity
    verify_at_close id a b e v has_lat has_lng latest ea eb =
        let near : d e.latitude e.longitude a b ≤ 100 = rw (ea, eb) (close_by a b) in
        rw (has_lat, has_lng) (ground arith)

    -- A rider who reports its position at the place of a checkpoint passes its check.
    passes :
        (app : RiderApp) (t : OrderStatus) (w : World)
        → IsReady app w
        → let v = (record_location d (report app.order_id t) w).1 in
          enforce_proximity_if_required d app.order_id app.order t v ≡ (ok tt, v)
    unfolding enforce_proximity_if_required record_location update_location verify_at_station
        new_event
    passes app t w ready = elim (Bool-cases (is_delivery_checkpoint t)) [
      | inl delivery ↦
          let close =
            verify_at_close app.order_id x y event v ready.lat ready.lng latest (ground arith)
              (ground arith) in
          ground arith
      | inr elsewhere ↦ elim (Bool-cases (status_eq t at_station)) [
        | inl station ↦
            let close =
              verify_at_close app.order_id sx sy event v ready.station_lat ready.station_lng latest
                (ground arith) (ground arith) in
            ground (arith, ready.at_its_station)
        | inr anywhere ↦ ground arith
      ]
    ]
      where
        event : OrderTrackingEvent
        event = new_event d (report app.order_id t)

        v : World
        v = (record_location d (report app.order_id t) w).1

        latest : get_latest_position app.order_id v.tracking_events ≡ some event
        latest = latest-append app.order_id event w.tracking_events refl

    abbrev shown : RiderApp → OrderStatus → World → RiderApp
    shown app t w = record app {
      order = advance t w.now app.order;
      active_order_id = if status_eq t delivered then none else app.active_order_id;
    }

    -- A tap at the place of the step is answered with the order in its next status.
    tap :
        (app : RiderApp) (w : World) {step : Step}
        → IsReady app w
        → steps app.order.status ≡ some step
        → let v = (record_location d (report app.order_id step.next) w).1 in
          handle_advance d user app (go app w)
          ≡ (shown app step.next w, after_update app.order_id step.next user app.order v)
    unfolding handle_advance record_location update_location
    tap app w {step} ready e =
        let valid = ((steps_valid app.order.status).1 step e).0 in
        let v = (record_location d (report app.order_id step.next) w).1 in
        let whole =
          update_status_free d app.order_id step.next user v ready.stored valid
            (passes app step.next w ready) in
        ground arith

    after-IsReady :
        (app : RiderApp) (t : OrderStatus) (w : World)
        → IsReady app w
        → IsReady (shown app t w) (
            after_update app.order_id t user app.order
              (record_location d (report app.order_id t) w).1)
    unfolding record_location update_location
    after-IsReady app t w ready =
        let (lat, lng, station, _) = advance-places t w.now app.order in
        record {
          stored = find_by_id-update_self app.order_id (advance t w.now) w.orders ready.stored;
          lat = lat ∙ ready.lat;
          lng = lng ∙ ready.lng;
          station = ready.station;
          at_its_station = rw station ready.at_its_station;
          station_lat = ready.station_lat;
          station_lng = ready.station_lng;
        }

    -- A rider who claimed an order gets it delivered: going where each step leads and tapping, so many
    -- times as there are stages left, ends with the order delivered, as it is stored and as it is shown,
    -- and the position no longer shared. The order and its station have their places, and a place is at no
    -- distance from itself.
    pub drive_delivers :
        (n : ℕ) (app : RiderApp) (w : World)
        → IsReady app w
        → 4 ≤ ordinal app.order.status
        → ordinal app.order.status + n ≡ 12
        → let (app', w') = drive n app w in
          (app'.order.status ≡ delivered)
          × (find_by_id app.order_id w'.orders ≡ some app'.order)
          × (app'.active_order_id ≡ shared_after n app.active_order_id)
    drive_delivers zero app w ready low left =
        (ordinal-injective app.order.status delivered (omega arith), ready.stored, refl)
    drive_delivers (suc n) app w ready low left =
        let (step, e, next) = step_of app.order.status low (omega arith) in
        let v = (record_location d (report app.order_id step.next) w).1 in
        let (_, _, _, status) = advance-places step.next w.now app.order in
        let rest =
          drive_delivers n (shown app step.next w)
            (after_update app.order_id step.next user app.order v)
            (after-IsReady app step.next w ready) (rw status (omega arith))
            (rw status (omega arith)) in
        let last : shared_after n (shown app step.next w).active_order_id ≡ none =
          last_tap n step.next app.active_order_id (omega arith) in
        subst EndsDelivered (sym (tap app w ready e)) (rest.0, rest.1, rest.2 ∙ last)
      where
        EndsDelivered : RiderApp × World → Type 0
        EndsDelivered (a, v) =
            let (app', w') = drive n a v in
            (app'.order.status ≡ delivered)
            × (find_by_id app.order_id w'.orders ≡ some app'.order)
            × (app'.active_order_id ≡ none)
