-- ===== src/Tracking/Sockets.antt =====
-- What connections leave behind, and whose position a report is.
use powergas.Base.{
  ℕ, ℤ, ◌≡◌, ◌≢◌, refl, false, none, some, List, [], ◌∷◌, ◌++◌, ◌==◌, not, arith, or_else, select,
  Option-cases, inl, inr,
}
use powergas.Enums.{UserRole}
use powergas.Table.{
  Uuid, Table, AllRows, find_by_id, update, insert, soft_delete, find_by_id-update_self,
  find_by_id-insert_self, AllRows-find_by_id,
}
use powergas.Entities.{OrderTrackingEvent}
use powergas.World.{World}
use powergas.Riders.{update_location}
use powergas.Tracking.{LocationReport, record_location, new_event}
use powergas.Orders.Store.{get_latest_position}
use powergas.Consoles.Delivery.{latest-append}
use powergas.Tracking.Gateway.{
  Client, Gateway, has, add, delete, set, handle_connection, forget, handle_disconnect,
  handle_rider_location,
}

select-other : (x : Uuid) (xs : List Uuid) → has x xs ≡ false → select (λ y. not (y == x)) xs ≡ xs
select-other x [] h = refl
select-other x (y ∷ ys) h = ground (arith, select-other x ys)

delete-append : (x : Uuid) (xs : List Uuid) → has x xs ≡ false → delete x (xs ++ x ∷ []) ≡ xs
delete-append x [] h = ground arith
delete-append x (y ∷ ys) h = ground (arith, delete-append x ys)

module _ {V : Type 0} where
  soft_delete-insert :
      (k : Uuid) (v : V) (t : Table V) → find_by_id k t ≡ none → soft_delete k (insert k v t) ≡ t
  soft_delete-insert k v [] free = ground arith
  soft_delete-insert k v ((j, u) ∷ t) free = ground (arith, soft_delete-insert k v t)

  update-none : (k : Uuid) (f : V → V) (t : Table V) → find_by_id k t ≡ none → update k f t ≡ t
  update-none k f [] free = refl
  update-none k f ((j, u) ∷ t) free = ground (arith, update-none k f t)

  -- A write of what stands there already.
  update-update_same :
      (k : Uuid) (u v : V) (t : Table V)
      → find_by_id k t ≡ some v
      → update k (λ _. v) (update k (λ _. u) t) ≡ t
  update-update_same k u v [] e = cc
  update-update_same k u v ((j, x) ∷ t) e = ground (arith, update-update_same k u v t)

-- A set of sockets that is kept is not empty.
abbrev pub NonEmpty : List Uuid → Type 0
NonEmpty xs = xs ≢ []

forget-full :
    (client user_id s : Uuid) (rest : List Uuid) (t : Table (List Uuid))
    → find_by_id user_id t ≡ some (s ∷ rest)
    → has client (s ∷ rest) ≡ false
    → forget client user_id (set user_id (add client (s ∷ rest)) t) ≡ t
unfolding forget
forget-full client user_id s rest t found new =
    let v = (s ∷ rest) ++ client ∷ [] in
    let later = find_by_id-update_self user_id (λ _. v) t found in
    let back = delete-append client (s ∷ rest) new in
    let same = update-update_same user_id v (s ∷ rest) t found in ground arith

-- The user is known afterwards as before.
forget-set :
    (client user_id : Uuid) (t : Table (List Uuid))
    → AllRows NonEmpty t
    → has client (or_else (find_by_id user_id t) []) ≡ false
    → forget client user_id (set user_id (add client (or_else (find_by_id user_id t) [])) t) ≡ t
unfolding forget
forget-set client user_id t full new = elim (Option-cases (find_by_id user_id t)) [
  | inl unknown ↦
      let later = find_by_id-insert_self user_id (client ∷ []) t unknown in
      let back = soft_delete-insert user_id (client ∷ []) t unknown in ground arith
  | inr ([], found) ↦ absurd (AllRows-find_by_id NonEmpty user_id t full found refl)
  | inr (s ∷ rest, found) ↦
      let kept = forget-full client user_id s rest t found (ground arith) in ground arith
]

-- A client that connects and goes again leaves the gateway as it was, however many other sockets its user
-- has. The client was not connected, and no set of sockets that is kept is empty.
pub handle_disconnect-handle_connection :
    (client user_id : Uuid) (role : UserRole) (g : Gateway)
    → AllRows NonEmpty g.user_sockets
    → find_by_id client g.clients ≡ none
    → has client (or_else (find_by_id user_id g.user_sockets) []) ≡ false
    → handle_disconnect client (handle_connection client (some (user_id, role)) g) ≡ g
unfolding handle_disconnect handle_connection
handle_disconnect-handle_connection client user_id role g full free new =
    let there =
      find_by_id-insert_self client (record { user_id = user_id; role = role; rooms = [] })
        g.clients free in
    let back =
      soft_delete-insert client (record { user_id = user_id; role = role; rooms = [] }) g.clients
        free in
    let kept = forget-set client user_id g.user_sockets full new in ground arith

-- A position counts for an order whoever reports it: any connected user, of whatever role, sets the latest
-- position of any order to any place. It moves the rider only where the user's key is a rider's key.
pub handle_rider_location_anyone :
    (d : ℤ → ℤ → ℤ → ℤ → ℕ) (c : Client) (r : LocationReport) (g : Gateway) (w : World)
    → find_by_id c.user_id w.riders ≡ none
    → let w' = (handle_rider_location d c r g w).1 in
      (e : OrderTrackingEvent) × (get_latest_position r.order_id w'.tracking_events ≡ some e)
      × (e.latitude ≡ r.latitude)
      × (e.longitude ≡ r.longitude)
      × (w'.riders ≡ w.riders)
unfolding handle_rider_location record_location update_location new_event
handle_rider_location_anyone d c r g w unknown = (
  new_event d (record r { rider_id = c.user_id }),
  latest-append r.order_id (new_event d (record r { rider_id = c.user_id })) w.tracking_events refl,
  refl,
  refl,
  update-none c.user_id _ w.riders unknown,
)
