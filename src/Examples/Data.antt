-- ===== src/Examples/Data.antt =====
-- A station, a rider with a wallet, a row of stock and one order of two cylinders.
use powergas.Base.{pos, true, false, Option, none, some, [], ◌∷◌}
use powergas.Enums.{
  OrderStatus, cylinder_exchange, standard, express, PaymentStatus, mobile_money, RiderStatus,
  VerificationStatus, StockStatus,
}
use powergas.Table.{Uuid}
use powergas.Entities.{
  Order, OrderItem, CylinderInventory, GasStation, Rider, RiderWallet, PlatformCommission,
}
use powergas.World.{World}
use powergas.Orders.Pricing.{CreateOrderDto}

abbrev pub the_order : OrderStatus → Option Uuid → Order
the_order s rider = record {
  order_number = record { date = 20260101; number = 1 };
  customer_id = 7;
  station_id = 3;
  rider_id = rider;
  type = cylinder_exchange;
  delivery_tier = standard;
  batch_id = none;
  status = s;
  delivery_address = 0;
  delivery_lat = some (pos 500);
  delivery_lng = some (pos 600);
  subtotal = 20000;
  delivery_fee = 1000;
  emergency_surcharge = 0;
  total = 21000;
  platform_commission = 0;
  station_earning = pos 0;
  rider_earning = 0;
  payment_method = some mobile_money;
  payment_status = PaymentStatus.pending;
  delivery_otp = some 123456;
  otp_verified = false;
  proof_of_delivery_url = none;
  cancellation_reason = none;
  accepted_at = none;
  assigned_at = none;
  arrived_pickup_at = none;
  picked_up_at = none;
  arrived_station_at = none;
  arrived_delivery_at = none;
  delivered_at = none;
  completed_at = none;
  idempotency_key = none;
}

abbrev pub the_item : OrderItem
the_item = record {
  order_id = 1;
  cylinder_type_id = 4;
  cylinder_type_name = 0;
  quantity = 2;
  unit_price = 10000;
  total_price = 20000;
}

abbrev pub the_row : CylinderInventory
the_row = record {
  station_id = 3;
  cylinder_type_id = 4;
  filled_count = pos 10;
  empty_count = pos 0;
  reserved_count = 2;
  low_stock_threshold = 5;
  exchange_price = 10000;
  new_price = 30000;
  refill_price = 9000;
  emergency_surcharge = 0;
  version = 1;
}

abbrev pub the_station : GasStation
the_station = record {
  code = record { prefix = 0; number = 1 };
  latitude = some (pos 500);
  longitude = some (pos 600);
  status = VerificationStatus.verified;
  is_active = true;
  stock_status = StockStatus.available;
  stock_status_updated_at = none;
  false_availability_strikes = 0;
  total_revenue = pos 0;
}

abbrev pub the_rider : RiderStatus → Rider
the_rider s = record {
  user_id = 8;
  station_id = none;
  verification_status = VerificationStatus.verified;
  status = s;
  current_lat = none;
  current_lng = none;
  location_updated_at = none;
}

abbrev pub the_wallet : RiderWallet
the_wallet = record {
  rider_id = 5;
  available_balance = pos 0;
  total_earned = pos 0;
  total_withdrawn = pos 0;
  version = 1;
}

abbrev pub platform_rule : PlatformCommission
platform_rule = record { station_id = none; commission_percent = 1000; is_active = true }

-- Order 1, of an item of type 4 at station 3, whose stock is row 20; rider 5, whose wallet is 6.
abbrev pub world : OrderStatus → Option Uuid → RiderStatus → World
world s rider rider_status = record {
  orders = (1, the_order s rider) ∷ [];
  order_items = the_item ∷ [];
  status_history = [];
  tracking_events =
      record {
        order_id = 1;
        rider_id = 5;
        latitude = pos 500;
        longitude = pos 600;
        distance_to_destination = none;
        eta_seconds = none;
      }
      ∷ [];
  batches = [];
  inventory = (20, the_row) ∷ [];
  pricing_history = [];
  stations = (3, the_station) ∷ [];
  riders = (5, the_rider rider_status) ∷ [];
  wallets = (6, the_wallet) ∷ [];
  wallet_transactions = [];
  commissions = platform_rule ∷ [];
  payments = [];
  webhooks = [];
  change_requests = [];
  users = [];
  refresh_tokens = [];
  otp_records = [];
  station_staff = [];
  reviews = [];
  disputes = [];
  customers = [];
  addresses = [];
  cylinder_types = [];
  cylinders = [];
  notifications = [];
  settings = [];
  emitted = [];
  next_id = 100;
  now = 5000;
}

abbrev pub the_dto : CreateOrderDto
the_dto = record {
  type = cylinder_exchange;
  delivery_tier = some express;
  station_id = 3;
  delivery_address = 0;
  delivery_lat = some (pos 500);
  delivery_lng = some (pos 600);
  items =
      record { cylinder_type_id = 4; cylinder_type_name = 0; quantity = 3; unit_price = 10000 }
      ∷ [];
  payment_method = mobile_money;
  idempotency_key = none;
}

-- More than the station has.
abbrev pub greedy_dto : CreateOrderDto
greedy_dto = record the_dto {
  items =
      record { cylinder_type_id = 4; cylinder_type_name = 0; quantity = 9; unit_price = 10000 }
      ∷ [];
}
