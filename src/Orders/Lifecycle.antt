-- ===== src/Orders/Lifecycle.antt =====
-- The state machine of orders: `isValidTransition` and `getStatusTimestamps` of
-- backend/src/orders/orders.service.ts.
pub mod Graph
use powergas.Base.{ℕ, Bool, true, false, Option, some, List, [], ◌∷◌, ◌||◌}
use powergas.Enums.{
  OrderStatus, pending, accepted, inventory_reserved, preparing, rider_assigned,
  rider_en_route_pickup, rider_arrived_pickup, cylinder_picked_up, rider_en_route_station,
  at_station, rider_en_route_delivery, rider_arrived_delivery, delivered, customer_confirmed,
  completed, cancelled, refunded, status_eq,
}
use powergas.Entities.{Order, Time}

-- The table of allowed transitions.
abbrev pub transitions : OrderStatus → List OrderStatus
transitions OrderStatus.pending = accepted ∷ OrderStatus.cancelled ∷ []
transitions accepted = inventory_reserved ∷ OrderStatus.cancelled ∷ []
transitions inventory_reserved = preparing ∷ OrderStatus.cancelled ∷ []
transitions preparing = rider_assigned ∷ []
transitions rider_assigned = rider_en_route_pickup ∷ []
transitions rider_en_route_pickup = rider_arrived_pickup ∷ []
transitions rider_arrived_pickup = cylinder_picked_up ∷ []
transitions cylinder_picked_up = rider_en_route_station ∷ []
transitions rider_en_route_station = at_station ∷ []
transitions at_station = rider_en_route_delivery ∷ []
transitions rider_en_route_delivery = rider_arrived_delivery ∷ []
transitions rider_arrived_delivery = delivered ∷ []
transitions delivered = customer_confirmed ∷ []
transitions customer_confirmed = OrderStatus.completed ∷ []
transitions OrderStatus.completed = []
transitions OrderStatus.cancelled = []
transitions OrderStatus.refunded = []

-- `statuses.includes(s)`
abbrev pub includes : List OrderStatus → OrderStatus → Bool
includes [] s = false
includes (x ∷ xs) s = status_eq x s || includes xs s

unfoldable pub is_valid_transition : OrderStatus → OrderStatus → Bool
is_valid_transition from to = includes (transitions from) to

-- `getStatusTimestamps`, spread into the update of the order.
unfoldable pub stamp : OrderStatus → Time → Order → Order
stamp accepted now o = record o { accepted_at = some now }
stamp rider_assigned now o = record o { assigned_at = some now }
stamp rider_arrived_pickup now o = record o { arrived_pickup_at = some now }
stamp cylinder_picked_up now o = record o { picked_up_at = some now }
stamp at_station now o = record o { arrived_station_at = some now }
stamp rider_arrived_delivery now o = record o { arrived_delivery_at = some now }
stamp delivered now o = record o { delivered_at = some now }
stamp OrderStatus.completed now o = record o { completed_at = some now }
stamp _ now o = o
