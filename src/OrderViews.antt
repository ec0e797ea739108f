-- ===== src/OrderViews.antt =====
-- backend/src/orders/utils/order-view.util.ts: what customers and stations are shown of an order.
use powergas.Base.{ℤ, Bool, Option, List, map}
use powergas.Enums.{OrderStatus, OrderType, DeliveryTier, PaymentMethod, PaymentStatus}
use powergas.Table.{Uuid}
use powergas.Entities.{Text, Cents, Time, OrderNumber, Order}

-- `Omit<Order, 'platformCommission' | 'stationEarning' | 'riderEarning'>`
pub record CustomerOrderView : Type 0 where
  pub order_number : OrderNumber
  pub customer_id : Uuid
  pub station_id : Uuid
  pub rider_id : Option Uuid
  pub type : OrderType
  pub delivery_tier : DeliveryTier
  pub batch_id : Option Uuid
  pub status : OrderStatus
  pub delivery_address : Text
  pub delivery_lat : Option ℤ
  pub delivery_lng : Option ℤ
  pub subtotal : Cents
  pub delivery_fee : Cents
  pub emergency_surcharge : Cents
  pub total : Cents
  pub payment_method : Option PaymentMethod
  pub payment_status : PaymentStatus
  pub delivery_otp : Option Text
  pub otp_verified : Bool
  pub proof_of_delivery_url : Option Text
  pub cancellation_reason : Option Text
  pub accepted_at : Option Time
  pub assigned_at : Option Time
  pub arrived_pickup_at : Option Time
  pub picked_up_at : Option Time
  pub arrived_station_at : Option Time
  pub arrived_delivery_at : Option Time
  pub delivered_at : Option Time
  pub completed_at : Option Time
  pub idempotency_key : Option Text

-- `Omit<Order, 'platformCommission' | 'riderEarning'>`: what a customer is shown, and the earning.
pub record StationOrderView : Type 0 where
  pub shown : CustomerOrderView
  pub station_earning : ℤ

unfoldable pub to_customer_order_view : Order → CustomerOrderView
to_customer_order_view o = record {
  order_number = o.order_number;
  customer_id = o.customer_id;
  station_id = o.station_id;
  rider_id = o.rider_id;
  type = o.type;
  delivery_tier = o.delivery_tier;
  batch_id = o.batch_id;
  status = o.status;
  delivery_address = o.delivery_address;
  delivery_lat = o.delivery_lat;
  delivery_lng = o.delivery_lng;
  subtotal = o.subtotal;
  delivery_fee = o.delivery_fee;
  emergency_surcharge = o.emergency_surcharge;
  total = o.total;
  payment_method = o.payment_method;
  payment_status = o.payment_status;
  delivery_otp = o.delivery_otp;
  otp_verified = o.otp_verified;
  proof_of_delivery_url = o.proof_of_delivery_url;
  cancellation_reason = o.cancellation_reason;
  accepted_at = o.accepted_at;
  assigned_at = o.assigned_at;
  arrived_pickup_at = o.arrived_pickup_at;
  picked_up_at = o.picked_up_at;
  arrived_station_at = o.arrived_station_at;
  arrived_delivery_at = o.arrived_delivery_at;
  delivered_at = o.delivered_at;
  completed_at = o.completed_at;
  idempotency_key = o.idempotency_key;
}

unfoldable pub to_customer_order_views : List (Uuid × Order) → List (Uuid × CustomerOrderView)
to_customer_order_views = map λ (id, o). (id, to_customer_order_view o)

unfoldable pub to_station_order_view : Order → StationOrderView
unfolding to_customer_order_view
to_station_order_view o = record {
  shown = to_customer_order_view o;
  station_earning = o.station_earning;
}

unfoldable pub to_station_order_views : List (Uuid × Order) → List (Uuid × StationOrderView)
to_station_order_views = map λ (id, o). (id, to_station_order_view o)
