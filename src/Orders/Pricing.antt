-- ===== src/Orders/Pricing.antt =====
-- `calculatePricing` of backend/src/orders/orders.service.ts and the request that it prices
-- (backend/src/orders/dto/create-order.dto.ts). Amounts are whole cents, and the surcharge is
-- rounded as the column decimal(15, 2) rounds what is stored.
pub mod Totals
use powergas.Base.{ℕ, ℤ, ◌+◌, ◌*◌, ◌/◌, Bool, Option, List, [], ◌∷◌, if◌then◌else◌, or_else}
use powergas.Enums.{OrderType, DeliveryTier, standard, express, PaymentMethod, tier_eq}
use powergas.Table.{Uuid}
use powergas.Entities.{Text, Cents}

pub record OrderItemDto : Type 0 where
  pub cylinder_type_id : Uuid
  pub cylinder_type_name : Text
  pub quantity : ℕ
  pub unit_price : Cents

pub record CreateOrderDto : Type 0 where
  pub type : OrderType
  pub delivery_tier : Option DeliveryTier
  pub station_id : Uuid
  pub delivery_address : Text
  pub delivery_lat : Option ℤ
  pub delivery_lng : Option ℤ
  pub items : List OrderItemDto
  pub payment_method : PaymentMethod
  pub idempotency_key : Option Text

pub record Pricing : Type 0 where
  pub subtotal : Cents
  pub delivery_fee : Cents
  pub emergency_surcharge : Cents
  pub total : Cents

-- `items.reduce((sum, i) => sum + i.unitPrice * i.quantity, 0)`
unfoldable pub sum_items : Cents → List OrderItemDto → Cents
sum_items sum [] = sum
sum_items sum (i ∷ items) = sum_items (sum + i.unit_price * i.quantity) items

-- The base fee, 10 cedis.
abbrev pub base_fee : Cents
base_fee = 1000

-- Half up, to whole cents.
abbrev pub round_div : ℕ → ℕ → ℕ
round_div n d = (2 * n + d) / (2 * d)

abbrev is_express : Option DeliveryTier → Bool
is_express tier = tier_eq (or_else tier standard) express

unfoldable pub calculate_pricing : CreateOrderDto → Pricing
unfolding sum_items
calculate_pricing dto =
    let subtotal : ℕ = sum_items 0 dto.items in
    let surcharge : ℕ = if is_express dto.delivery_tier then round_div (subtotal * 20) 100 else 0 in
    record {
      subtotal = subtotal;
      delivery_fee = base_fee;
      emergency_surcharge = surcharge;
      total = subtotal + base_fee + surcharge;
    }
