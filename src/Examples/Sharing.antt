-- ===== src/Examples/Sharing.antt =====
-- Orders shared out among riders, and rows among pages.
use powergas.Base.{
  ℕ, pos, pos_part, ◌+◌, ◌*◌, ◌-◌, ◌/◌, ◌≤◌, ◌≡◌, ◌≢◌, refl, ◌⊎◌, none, some, List, [], ◌∷◌, leb,
  All,
}
use powergas.Enums.{OrderStatus, standard, preparing, RiderStatus}
use powergas.Table.{IsKeyed, find_by_id, count, Uuid}
use powergas.Entities.{Order}
use powergas.World.{World}
use powergas.Geo.{Floats, haversine_km}
use powergas.Orders.Assign.{take_on, assign_rider}
use powergas.Orders.Accept.{
  is_assigned_to, accept_order, attach_nearby_same_station_orders, eligible, bundle,
}
use powergas.Orders.Accept.Bundle.{IsLeftOrTaken}
use powergas.Orders.Accept.Guarantees.{accept_order_station, accept_order_limit}
use powergas.Batching.{Row, groups_of_stations, by_station, is_near}
use powergas.Batching.Cycle.{IsOneStation, groups_of_stations_partition}
use powergas.Examples.Data.{the_order, world}

-- Numbers for the runs: a plane of whole numbers on which all is near.
abbrev whole : Floats
whole = record {
  F = ℕ;
  number = λ n. n;
  coordinate = pos_part;
  stored = pos;
  pi = 3;
  add = λ a b. a + b;
  sub = λ a b. a - b;
  mul = λ a b. a * b;
  div = λ a b. a / b;
  sin = λ _. 0;
  cos = λ _. 0;
  sqrt = λ _. 0;
  atan2 = λ _ _. 0;
  le = leb;
}

-- Two orders in preparation at station 3, and a third in another state.
abbrev three_orders : World
three_orders = record (world preparing none RiderStatus.available) {
  orders =
      (1, the_order preparing none)
      ∷ (2, the_order preparing none)
      ∷ (3, the_order OrderStatus.pending none)
      ∷ [];
}

abbrev accepted_world : World
accepted_world = (accept_order whole 1 5 three_orders).1

keyed : IsKeyed three_orders.orders
keyed = (refl, (refl, (refl, tt)))

accept_order_limit_example :
    (count (is_assigned_to 5) accepted_world.orders ≤ 3)
    ⊎ (count (is_assigned_to 5) accepted_world.orders
        ≤ count (is_assigned_to 5) three_orders.orders + 1)
unfolding accept_order attach_nearby_same_station_orders eligible haversine_km bundle assign_rider
    take_on
accept_order_limit_example =
    accept_order_limit whole 1 5 three_orders accepted_world
      {u = take_on 5 5000 (the_order preparing none)} keyed refl

-- The second order goes to the rider too.
accept_order_station_example :
    (o : Order) × (find_by_id 1 three_orders.orders ≡ some o)
    × (take_on 5 5000 (the_order preparing none) ≡ take_on 5 5000 o)
    × ((j : Uuid)
        → j ≢ 1
        → (find_by_id j accepted_world.orders ≡ find_by_id j three_orders.orders)
          ⊎ ((o.delivery_tier ≡ standard)
              × IsLeftOrTaken o.station_id 5 5000 j three_orders.orders accepted_world.orders))
unfolding accept_order attach_nearby_same_station_orders eligible haversine_km bundle assign_rider
    take_on
accept_order_station_example =
    accept_order_station whole 1 5 three_orders accepted_world
      {u = take_on 5 5000 (the_order preparing none)} keyed refl

abbrev rows : List Row
rows = (1, the_order preparing none) ∷ (2, the_order preparing none) ∷ []

groups_of_stations_partition_example :
    All (IsOneStation (is_near whole)) (groups_of_stations (is_near whole) (by_station [] rows))
groups_of_stations_partition_example = (groups_of_stations_partition (is_near whole) rows).2
