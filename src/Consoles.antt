-- ===== src/Consoles.antt =====
-- The applications that advance an order: the console of a station
-- (frontend/src/pages/station/StationOrders.tsx) and the application of a rider
-- (mobile/rider/src/screens/activeOrder/ActiveOrderScreen.tsx). The texts that they display are left out.
pub mod Delivery
use powergas.Base.{ℕ, ℤ, Bool, true, false, Option, none, some, if◌then◌else◌}
use powergas.Enums.{
  OrderStatus, accepted, inventory_reserved, preparing, rider_assigned, rider_en_route_pickup,
  rider_arrived_pickup, cylinder_picked_up, rider_en_route_station, at_station,
  rider_en_route_delivery, rider_arrived_delivery, delivered, status_eq,
}
use powergas.Table.{Uuid}
use powergas.Entities.{Order}
use powergas.World.{World, HttpException, ok, err}
use powergas.Orders.Status.{update_status}

-- `NEXT_STATUS` of the station's console.
unfoldable pub next_status : OrderStatus → Option OrderStatus
next_status OrderStatus.pending = some accepted
next_status accepted = some inventory_reserved
next_status inventory_reserved = some preparing
next_status at_station = some rider_en_route_delivery
next_status _ = none

-- A step of the rider's application: the status that its button asks for, and whether the rider is told
-- to be at the place.
pub record Step : Type 0 where
  pub next : OrderStatus
  pub gated : Bool

-- `STEPS`
unfoldable pub steps : OrderStatus → Option Step
steps rider_assigned = some (record { next = rider_en_route_pickup; gated = false })
steps rider_en_route_pickup = some (record { next = rider_arrived_pickup; gated = true })
steps rider_arrived_pickup = some (record { next = cylinder_picked_up; gated = false })
steps cylinder_picked_up = some (record { next = rider_en_route_station; gated = false })
steps rider_en_route_station = some (record { next = at_station; gated = true })
steps at_station = some (record { next = rider_en_route_delivery; gated = false })
steps rider_en_route_delivery = some (record { next = rider_arrived_delivery; gated = true })
steps rider_arrived_delivery = some (record { next = delivered; gated = true })
steps _ = none

-- What the application holds: the order that it shows, and the one whose position it shares.
pub record RiderApp : Type 0 where
  pub order_id : Uuid
  pub order : Order
  pub active_order_id : Option Uuid

module _ (get_distance : ℤ → ℤ → ℤ → ℤ → ℕ) where
  -- A tap on the button, by the user: the answer of `PATCH /orders/:id/status` is what is shown next.
  unfoldable pub handle_advance : Uuid → RiderApp → World → RiderApp × World
  handle_advance user_id app w = elim (steps app.order.status) [
    | none ↦ (app, w)
    | some step ↦
        let (r, w') = update_status get_distance app.order_id step.next user_id w in
        elim r [
          | ok updated ↦ (
            record app {
              order = updated;
              active_order_id = if status_eq step.next delivered then none else app.active_order_id;
            },
            w',
          )
          | err e ↦ (app, w')
        ]
  ]
