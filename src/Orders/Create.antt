-- ===== src/Orders/Create.antt =====
-- `create` of backend/src/orders/orders.service.ts. The random part of the delivery code and the
-- day of the order number are arguments.
pub mod Effects
use powergas.Base.{
  ℕ, ◌+◌, ◌*◌, pos, Bool, true, false, Option, none, some, List, [], ◌∷◌, ◌++◌, map, or_else,
}
use powergas.Enums.{OrderStatus, PaymentStatus, standard}
use powergas.Table.{Uuid, count, insert}
use powergas.Entities.{Text, Order, OrderItem, OrderNumber}
use powergas.World.{
  World, Action, order_created, pure, gets, modify, fresh_id, emit, transaction, ◌>>=◌, ◌>>◌,
}
use powergas.Orders.Pricing.{OrderItemDto, CreateOrderDto, Pricing, calculate_pricing}
use powergas.Orders.Store.{save_history}
use powergas.Orders.Reservation.{reserve_inventory}

-- The number of orders so far, plus one.
unfoldable pub generate_order_number : ℕ → World → OrderNumber
generate_order_number date w = record { date = date; number = count (λ _. true) w.orders + 1 }

-- `Math.floor(100000 + Math.random() * 900000)`, where `random` is below 900000.
abbrev pub delivery_code : ℕ → Text
delivery_code random = 100000 + random

-- The order as it is saved, with the defaults of its columns.
unfoldable pub new_order : Uuid → CreateOrderDto → Text → OrderNumber → Order
new_order customer_id dto otp number =
    let pricing = calculate_pricing dto in
    record {
      order_number = number;
      customer_id = customer_id;
      station_id = dto.station_id;
      rider_id = none;
      type = dto.type;
      delivery_tier = or_else dto.delivery_tier standard;
      batch_id = none;
      status = OrderStatus.pending;
      delivery_address = dto.delivery_address;
      delivery_lat = dto.delivery_lat;
      delivery_lng = dto.delivery_lng;
      subtotal = pricing.subtotal;
      delivery_fee = pricing.delivery_fee;
      emergency_surcharge = pricing.emergency_surcharge;
      total = pricing.total;
      platform_commission = 0;
      station_earning = pos 0;
      rider_earning = 0;
      payment_method = some dto.payment_method;
      payment_status = PaymentStatus.pending;
      delivery_otp = some otp;
      otp_verified = false;
      proof_of_delivery_url = none;
      cancellation_reason = none;
      accepted_at = none;
      assigned_at = none;
      arrived_pickup_at = none;
      picked_up_at = none;
      arrived_station_at = none;
      arrived_delivery_at = none;
      delivered_at = none;
      completed_at = none;
      idempotency_key = dto.idempotency_key;
    }

unfoldable pub order_items_of : Uuid → List OrderItemDto → List OrderItem
order_items_of order_id = map λ (item : OrderItemDto). record {
  order_id = order_id;
  cylinder_type_id = item.cylinder_type_id;
  cylinder_type_name = item.cylinder_type_name;
  quantity = item.quantity;
  unit_price = item.unit_price;
  total_price = item.unit_price * item.quantity;
}

-- The body of the transaction, for the order to be saved.
unfoldable pub place : Uuid → Order → CreateOrderDto → Action Uuid
place customer_id order dto = do
  id ← fresh_id
  modify (λ w. record w { orders = insert id order w.orders })
  reserve_inventory dto.station_id dto.items
  modify (λ w. record w { order_items = w.order_items ++ order_items_of id dto.items })
  save_history id none OrderStatus.pending (some customer_id)
  emit (order_created id order)
  pure id

unfoldable pub create : Uuid → CreateOrderDto → ℕ → ℕ → Action Uuid
unfolding generate_order_number
create customer_id dto random date w =
    transaction
      (place customer_id
        (new_order customer_id dto (delivery_code random) (generate_order_number date w)) dto)
      w
