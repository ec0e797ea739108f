-- ===== src/Orders/Status/Effects.antt =====
-- What a status update does, on every branch.
use powergas.Base.{
  ℕ, ℤ, ◌≤◌, ◌≡◌, refl, inl, inr, true, Option, none, some, [], ◌∷◌, ◌++◌, arith, Option-cases,
}
use powergas.Enums.{OrderStatus, at_station}
use powergas.Table.{Uuid, find_by_id, update, find_by_id-update_self}
use powergas.Entities.{Order, OrderTrackingEvent, GasStation}
use powergas.World.{World, HttpException, ok, err, order_status}
use powergas.Orders.Lifecycle.{is_valid_transition}
use powergas.Orders.Store.{get_latest_position}
use powergas.Orders.Status.{
  is_delivery_checkpoint, verify_at, verify_at_station, enforce_proximity_if_required,
  update_status, advance, proximity_threshold_meters,
}

-- The state after the update of an order, which was `o`.
abbrev pub after_update : Uuid → OrderStatus → Uuid → Order → World → World
after_update id s by o w = record w {
  orders = update id (advance s w.now) w.orders;
  status_history =
      w.status_history
      ++ record { order_id = id; from_status = some o.status; to_status = s; changed_by = some by }
        ∷ [];
  emitted = order_status s id (advance s w.now o) ∷ w.emitted;
}

module _ (d : ℤ → ℤ → ℤ → ℤ → ℕ) where
  -- The position last reported for the order is within the threshold of a place.
  abbrev pub IsNear : Uuid → World → Option ℤ → Option ℤ → Type 0
  IsNear id w lat lng =
      (x : ℤ) × (y : ℤ) × (e : OrderTrackingEvent) × (lat ≡ some x)
      × (lng ≡ some y)
      × (get_latest_position id w.tracking_events ≡ some e)
      × (d e.latitude e.longitude x y ≤ proximity_threshold_meters)

  verify_at_ok :
      (id : Uuid) (lat lng : Option ℤ) (w w' : World)
      → verify_at d id lat lng w ≡ (ok tt, w')
      → IsNear id w lat lng
  unfolding verify_at
  verify_at_ok id none lng w w' h = cc
  verify_at_ok id (some x) none w w' h = cc
  verify_at_ok id (some x) (some y) w w' h =
      elim (Option-cases (get_latest_position id w.tracking_events)) [
        | inl missing ↦ ground arith
        | inr (e, found) ↦ (x, y, e, refl, refl, found, ground arith)
      ]

  verify_at_pure : (id : Uuid) (lat lng : Option ℤ) (w : World) → (verify_at d id lat lng w).1 ≡ w
  unfolding verify_at
  verify_at_pure id none lng w = refl
  verify_at_pure id (some x) none w = refl
  verify_at_pure id (some x) (some y) w = ground arith

  station_pure :
      (id : Uuid) (station : Option GasStation) (w : World)
      → (verify_at_station d id station w).1 ≡ w
  unfolding verify_at_station
  station_pure id none w = refl
  station_pure id (some station) w = verify_at_pure id station.latitude station.longitude w

  enforce_pure :
      (id : Uuid) (o : Order) (s : OrderStatus) (w : World)
      → (enforce_proximity_if_required d id o s w).1 ≡ w
  unfolding enforce_proximity_if_required
  enforce_pure id o s w = ground (
    arith,
    verify_at_pure id o.delivery_lat o.delivery_lng w,
    station_pure id (find_by_id o.station_id w.stations) w,
  )

  -- A refused update changes nothing.
  update_status_error :
      (id : Uuid) (s : OrderStatus) (by : Uuid) (w w' : World) {e : HttpException}
      → update_status d id s by w ≡ (err e, w')
      → w' ≡ w
  unfolding update_status
  update_status_error id s by w w' {e} h = elim (Option-cases (find_by_id id w.orders)) [
    | inl missing ↦ ground arith
    | inr (o, found) ↦
        ground
          (arith, find_by_id-update_self id (advance s w.now) w.orders found, enforce_pure id o s w)
  ]

  -- An update that succeeds was a valid transition and passed the proximity check. It returns the order
  -- in its new status, with the time of that status, and changes that order alone, adds one row to
  -- the status history from the old status to the new, and emits one event.
  pub update_status_ok :
      (id : Uuid) (s : OrderStatus) (by : Uuid) (w w' : World) {u : Order}
      → update_status d id s by w ≡ (ok u, w')
      → (o : Order) × (find_by_id id w.orders ≡ some o)
        × (is_valid_transition o.status s ≡ true)
        × (enforce_proximity_if_required d id o s w ≡ (ok tt, w))
        × (u ≡ advance s w.now o)
        × (w' ≡ after_update id s by o w)
  unfolding update_status
  update_status_ok id s by w w' {u} h = elim (Option-cases (find_by_id id w.orders)) [
    | inl missing ↦ ground arith
    | inr (o, found) ↦
        let later = find_by_id-update_self id (advance s w.now) w.orders found in
        let same = enforce_pure id o s w in
        (o, found, ground arith, ground arith, ground arith, ground arith)
  ]

  enforce_delivery :
      (id : Uuid) (o : Order) (s : OrderStatus) (w : World)
      → is_delivery_checkpoint s ≡ true
      → enforce_proximity_if_required d id o s w ≡ (ok tt, w)
      → verify_at d id o.delivery_lat o.delivery_lng w ≡ (ok tt, w)
  unfolding enforce_proximity_if_required
  enforce_delivery id o s w gated passed = ground arith

  enforce_station :
      (id : Uuid) (o : Order) (s : OrderStatus) (w : World)
      → s ≡ at_station
      → enforce_proximity_if_required d id o s w ≡ (ok tt, w)
      → verify_at_station d id (find_by_id o.station_id w.stations) w ≡ (ok tt, w)
  unfolding enforce_proximity_if_required
  enforce_station id o s w e passed = ground arith

  station_ok :
      (id : Uuid) (row : Option GasStation) (w : World)
      → verify_at_station d id row w ≡ (ok tt, w)
      → (station : GasStation) × (row ≡ some station)
        × IsNear id w station.latitude station.longitude
  unfolding verify_at_station
  station_ok id none w passed = cc
  station_ok id (some station) w passed =
      (station, refl, verify_at_ok id station.latitude station.longitude w w passed)

  -- A checkpoint is entered only where the position last reported for the order lies within 100 metres
  -- of it: of the place of delivery, or of the station, for the status AT_STATION. This is whoever makes
  -- the update and whoever reported the position.
  pub checkpoint_IsNear :
      (id : Uuid) (s : OrderStatus) (by : Uuid) (w w' : World) {u : Order}
      → update_status d id s by w ≡ (ok u, w')
      → (o : Order) × (find_by_id id w.orders ≡ some o)
        × (is_delivery_checkpoint s ≡ true → IsNear id w o.delivery_lat o.delivery_lng)
        × (s ≡ at_station
            → (station : GasStation) × (find_by_id o.station_id w.stations ≡ some station)
              × IsNear id w station.latitude station.longitude)
  checkpoint_IsNear id s by w w' h =
      let (o, found, _, passed, _, _) = update_status_ok id s by w w' h in
      (o, found, λ gated. delivery_near o gated passed, λ e. station_near o e passed)
    where
      delivery_near :
          (o : Order)
          → is_delivery_checkpoint s ≡ true
          → enforce_proximity_if_required d id o s w ≡ (ok tt, w)
          → IsNear id w o.delivery_lat o.delivery_lng
      delivery_near o gated passed =
          verify_at_ok id o.delivery_lat o.delivery_lng w w (enforce_delivery id o s w gated passed)

      station_near :
          (o : Order)
          → s ≡ at_station
          → enforce_proximity_if_required d id o s w ≡ (ok tt, w)
          → (station : GasStation) × (find_by_id o.station_id w.stations ≡ some station)
            × IsNear id w station.latitude station.longitude
      station_near o e passed =
          station_ok id (find_by_id o.station_id w.stations) w (enforce_station id o s w e passed)
