-- ===== src/Tracking/Gateway.antt =====
-- backend/src/tracking/tracking.gateway.ts: the sockets of the connected users, the rooms of the orders that
-- they follow, and the positions that they report. The check of a token (JwtService.verify) is a
-- parameter: it gives the user of a good token.
use powergas.Base.{
  ℕ, ℤ, Bool, false, Option, none, some, List, [], ◌∷◌, ◌++◌, ◌==◌, ◌||◌, not, or_else, select,
  if◌then◌else◌, is_some,
}
use powergas.Enums.{UserRole}
use powergas.Table.{Uuid, Table, find_by_id, find, update, insert, soft_delete}
use powergas.Entities.{OrderTrackingEvent}
use powergas.World.{Action, pure, ◌>>=◌}
use powergas.Tracking.{LocationReport, record_location}

-- A connected client: `client.data`, and the orders whose rooms it is in.
pub record Client : Type 0 where
  pub user_id : Uuid
  pub role : UserRole
  pub rooms : List Uuid

pub record Gateway : Type 0 where
  pub user_sockets : Table (List Uuid)
  pub clients : Table Client

abbrev pub has : Uuid → List Uuid → Bool
has x [] = false
has x (y ∷ ys) = (y == x) || has x ys

-- `Set.add` and `Set.delete`
abbrev pub add : Uuid → List Uuid → List Uuid
add x xs = if has x xs then xs else xs ++ x ∷ []

abbrev pub delete : Uuid → List Uuid → List Uuid
delete x = select λ y. not (y == x)

-- `Map.set`
abbrev pub set : Uuid → List Uuid → Table (List Uuid) → Table (List Uuid)
set k v t = if is_some (find_by_id k t) then update k (λ _. v) t else insert k v t

-- A client without a good token is disconnected.
unfoldable pub handle_connection : Uuid → Option (Uuid × UserRole) → Gateway → Gateway
handle_connection client none g = g
handle_connection client (some (user_id, role)) g = record {
  user_sockets =
      set user_id (add client (or_else (find_by_id user_id g.user_sockets) [])) g.user_sockets;
  clients = insert client (record { user_id = user_id; role = role; rooms = [] }) g.clients;
}

-- The user's set without the client, and the user without the set, once it is empty.
unfoldable pub forget : Uuid → Uuid → Table (List Uuid) → Table (List Uuid)
forget client user_id t = elim (find_by_id user_id t) [
  | none ↦ t
  | some sockets ↦ elim (delete client sockets) [
    | [] ↦ soft_delete user_id t
    | s ∷ rest ↦ update user_id (λ _. s ∷ rest) t
  ]
]

unfoldable pub handle_disconnect : Uuid → Gateway → Gateway
handle_disconnect client g = elim (find_by_id client g.clients) [
  | none ↦ g
  | some c ↦ record {
    user_sockets = forget client c.user_id g.user_sockets;
    clients = soft_delete client g.clients;
  }
]

unfoldable pub handle_subscribe_order : Uuid → Uuid → Gateway → Gateway
handle_subscribe_order client order_id g = record g {
  clients = update client (λ c. record c { rooms = add order_id c.rooms }) g.clients;
}

unfoldable pub handle_unsubscribe_order : Uuid → Uuid → Gateway → Gateway
handle_unsubscribe_order client order_id g = record g {
  clients = update client (λ c. record c { rooms = delete order_id c.rooms }) g.clients;
}

-- Whom `server.to('order:…')` and `emitNotificationToUser` reach.
unfoldable pub order_room : Uuid → Gateway → Table Client
order_room order_id g = find (λ c. has order_id c.rooms) g.clients

unfoldable pub sockets_of : Uuid → Gateway → List Uuid
sockets_of user_id g = or_else (find_by_id user_id g.user_sockets) []

module _ (get_distance : ℤ → ℤ → ℤ → ℤ → ℕ) where
  -- The rider of the report is the user of the socket, whoever that is; the answer is what the room of
  -- the order is told, and who is in it.
  unfoldable pub handle_rider_location :
      Client → LocationReport → Gateway → Action (OrderTrackingEvent × Table Client)
  handle_rider_location c r g = do
    event ← record_location get_distance (record r { rider_id = c.user_id })
    pure (event, order_room r.order_id g)
