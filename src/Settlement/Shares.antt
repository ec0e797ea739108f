-- ===== src/Settlement/Shares.antt =====
-- The three shares of a total.
use powergas.Base.{ℕ, pos, ◌+◌, ◌*◌, ◌≤◌, ◌<◌, ◌≡◌, ◌+ℤ◌, ◌≤ℤ◌, int_laws, arith}
use powergas.Entities.{Cents}
use powergas.Orders.Pricing.{base_fee}
use powergas.Settlement.{compute_split}

-- The three shares add up to the total, to the cent, at every commission.
compute_split_total :
    (percent : ℕ) (total fee : Cents)
    → let s = compute_split percent total fee in
      pos s.platform_commission +ℤ pos s.rider_earning +ℤ s.station_earning ≡ pos total
unfolding compute_split
compute_split_total percent total fee = omega int_laws

-- The commission and the rider's earning are their percentages to the nearest cent.
pub compute_split_rounds :
    (percent : ℕ) (total fee : Cents)
    → let s = compute_split percent total fee in
      (2 * (total * percent) < 20000 * s.platform_commission + 10000)
      × (20000 * s.platform_commission ≤ 2 * (total * percent) + 10000)
      × (2 * (70 * fee) < 200 * s.rider_earning + 100)
      × (200 * s.rider_earning ≤ 2 * (70 * fee) + 100)
unfolding compute_split
compute_split_rounds percent total fee = (omega arith, omega arith, omega arith, omega arith)

scale : (total percent : ℕ) → percent ≤ 3000 → total * percent ≤ total * 3000
scale total percent h = grind arith

-- At a commission of at most 30 percent, a station never owes for an order with the base fee.
pub compute_split_station :
    (percent : ℕ) (total : Cents)
    → percent ≤ 3000
    → base_fee ≤ total
    → pos 0 ≤ℤ (compute_split percent total base_fee).station_earning
unfolding compute_split
compute_split_station percent total h l = omega (int_laws, scale total percent h)
