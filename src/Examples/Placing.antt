-- ===== src/Examples/Placing.antt =====
-- Orders placed and called off.
use powergas.Base.{◌≡◌, refl, ◌-ℤ◌, none, some, arith}
use powergas.Enums.{UserRole, OrderStatus, RiderStatus}
use powergas.Table.{find_by_id}
use powergas.World.{World}
use powergas.Orders.Reservation.{reserve_item, reserve_inventory}
use powergas.Orders.Reservation.Demand.{reserved}
use powergas.Orders.Reservation.Stock.{IsStocked, reserve_inventory-IsStocked}
use powergas.Orders.Create.{generate_order_number, delivery_code, new_order, place, create}
use powergas.Orders.Create.Effects.{create_ok}
use powergas.Orders.Cancel.{cancel}
use powergas.Orders.Cancel.Effects.{Cancels, cancel-Cancels}
use powergas.Orders.Cancel.RoundTrip.{cancel-create}
use powergas.Examples.Data.{world, the_dto, greedy_dto}

abbrev start : World
start = world OrderStatus.pending none RiderStatus.available

start-IsStocked : IsStocked start.inventory
start-IsStocked = record { keyed = (refl, tt); covered = (omega arith, tt) }

abbrev created : World
created = (create 7 the_dto 5 20260102 start).1

reserve_inventory-IsStocked_example :
    IsStocked (reserve_inventory 3 greedy_dto.items start).1.inventory
reserve_inventory-IsStocked_example =
    reserve_inventory-IsStocked 3 greedy_dto.items start start-IsStocked

create_ok_example :
    find_by_id 100 created.orders
    ≡ some (new_order 7 the_dto (delivery_code 5) (generate_order_number 20260102 start))
unfolding create place reserve_inventory reserve_item ◌-ℤ◌
create_ok_example =
    (create_ok 7 the_dto 5 20260102 start created {id = 100} (omega arith, tt) start-IsStocked
      refl).1

cancel-Cancels_example :
    Cancels 1 7 9 UserRole.customer start (cancel 1 7 9 UserRole.customer start)
cancel-Cancels_example = cancel-Cancels 1 7 9 UserRole.customer start

cancel-create_example : reserved 3 4 (cancel 100 7 9 UserRole.customer created).1.inventory ≡ 2
unfolding create place reserve_inventory reserve_item ◌-ℤ◌
cancel-create_example =
    (cancel-create 7 the_dto 5 20260102 9 start created {id = 100} (omega arith, tt) start-IsStocked
        refl refl).3
      3 4
