-- ===== src/Orders/Pricing/Totals.antt =====
-- The price of an order against the sum of its items.
use powergas.Base.{ℕ, ◌+◌, ◌*◌, ◌≤◌, ◌<◌, ◌≡◌, ◌≢◌, refl, ap, ◌∙◌, some, List, [], ◌∷◌, arith}
use powergas.Enums.{express}
use powergas.Entities.{Cents}
use powergas.Orders.Pricing.{OrderItemDto, CreateOrderDto, sum_items, calculate_pricing}

-- What the items cost together.
abbrev pub cost : List OrderItemDto → Cents
cost [] = 0
cost (i ∷ items) = i.unit_price * i.quantity + cost items

sum_items-cost : (n : Cents) (items : List OrderItemDto) → sum_items n items ≡ n + cost items
unfolding sum_items
sum_items-cost n [] = omega arith
sum_items-cost n (i ∷ items) = sum_items-cost (n + i.unit_price * i.quantity) items ∙ omega arith

-- The total of an order is the cost of its items, the base fee of 10.00 and, for an express delivery,
-- a fifth of the cost to the nearest cent.
pub calculate_pricing_lem :
    (dto : CreateOrderDto)
    → let p = calculate_pricing dto in
      (p.subtotal ≡ cost dto.items)
      × (p.delivery_fee ≡ 1000)
      × (p.total ≡ cost dto.items + 1000 + p.emergency_surcharge)
      × (dto.delivery_tier ≡ some express
          → (10 * p.emergency_surcharge ≤ 2 * cost dto.items + 5)
            × (2 * cost dto.items < 10 * p.emergency_surcharge + 5))
      × (dto.delivery_tier ≢ some express → p.emergency_surcharge ≡ 0)
unfolding calculate_pricing
calculate_pricing_lem dto =
    let sum : sum_items 0 dto.items ≡ cost dto.items = omega (arith, sum_items-cost 0 dto.items) in
    (
      sum,
      refl,
      ap (λ (n : ℕ). n + 1000 + (calculate_pricing dto).emergency_surcharge) sum,
      (λ fast. (ground arith, ground arith)),
      λ slow. ground arith,
    )
