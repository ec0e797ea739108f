-- ===== src/Orders/Accept/Guarantees.antt =====
-- What riders and customers can rely on when an order is accepted.
use powergas.Base.{
  ℕ, ◌+◌, ◌-◌, ◌≤◌, ◌≡◌, ◌≢◌, refl, ap, subst, sym, ◌∙◌, ◌⊎◌, inl, inr, true, Option, none, some,
  arith, Option-cases,
}
use powergas.Enums.{standard, verified, RiderStatus}
use powergas.Table.{Uuid, IsKeyed, find_by_id, count, find_by_id-update_ne}
use powergas.Entities.{Order, Rider}
use powergas.World.{World, Result, HttpException, ok, err, Result-cases}
use powergas.Geo.{Floats}
use powergas.Orders.Assign.{take_on, assign_rider}
use powergas.Orders.Assign.Claim.{after_assign, assign_rider_ok}
use powergas.Orders.Accept.Bundle.{LeftOrTaken, IsLeftOrTaken, count-update-le}
use powergas.Orders.Accept.Effects.{refused, alone, bundled, accept_order-Accepts}
use powergas.Orders.Accept.{is_assigned_to, accept_order}

module _ (m : Floats) where
  -- An acceptance that fails changes nothing.
  pub accept_order_error :
      (id rider_id : Uuid) (w w' : World) {e : HttpException}
      → IsKeyed w.orders
      → accept_order m id rider_id w ≡ (err e, w')
      → w' ≡ w
  accept_order_error id rider_id w w' keyed h = elim (accept_order-Accepts m id rider_id w keyed) [
    | refused e ↦ cc
    | alone o found other e ↦ cc
    | bundled o found slow e b ↦ absurd (cc)
  ]

  -- Only a verified rider who is available gets an order.
  pub accept_order_verified :
      (id rider_id : Uuid) (w w' : World) {u : Order}
      → accept_order m id rider_id w ≡ (ok u, w')
      → (r : Rider) × (find_by_id rider_id w.riders ≡ some r)
        × (r.verification_status ≡ verified)
        × (r.status ≡ RiderStatus.available)
  unfolding accept_order
  accept_order_verified id rider_id w w' h = elim (Option-cases (find_by_id rider_id w.riders)) [
    | inl no_rider ↦ absurd (ground arith)
    | inr (r, there) ↦ elim (Result-cases (assign_rider id rider_id none true w)) [
      | inr (x, e) ↦ absurd (ground arith)
      | inl (u, e) ↦
          let (_, _, _, _, rider, _, _) =
            assign_rider_ok id rider_id none true w (assign_rider id rider_id none true w).1 e in
          let (r', there', idle) = rider refl in
          let same_rider : r' ≡ r = cc in
          (r, there, ground arith, ap (λ (x : Rider). x.status) (sym same_rider) ∙ idle)
    ]
  ]

  -- An acceptance that succeeds gives the rider the order asked for. Every other order is left as it
  -- was, or was a standard one in preparation at the same station that no rider had, and is now the
  -- rider's too; the latter happens only where the order asked for is a standard one.
  pub accept_order_station :
      (id rider_id : Uuid) (w w' : World) {u : Order}
      → IsKeyed w.orders
      → accept_order m id rider_id w ≡ (ok u, w')
      → (o : Order) × (find_by_id id w.orders ≡ some o)
        × (u ≡ take_on rider_id w.now o)
        × ((j : Uuid)
            → j ≢ id
            → (find_by_id j w'.orders ≡ find_by_id j w.orders)
              ⊎ ((o.delivery_tier ≡ standard)
                  × IsLeftOrTaken o.station_id rider_id w.now j w.orders w'.orders))
  accept_order_station id rider_id w w' {u} keyed h =
      elim (accept_order-Accepts m id rider_id w keyed) [
        | refused e ↦ absurd (cc)
        | alone o found other e ↦
            let final : w' ≡ after_assign id rider_id none true o w = cc in
            (
              o,
              found,
              cc,
              λ j ne. inl (
                  ap (λ (v : World). find_by_id j v.orders) final
                  ∙ find_by_id-update_ne id j (take_on rider_id w.now) w.orders (λ p. ne (sym p))),
            )
        | bundled o found slow e b ↦
            let final : w' ≡ (accept_order m id rider_id w).1 =
              sym (ap (λ (r : Result Order × World). r.1) h) in
            (
              o,
              found,
              cc,
              λ j ne. inr (
                slow,
                subst
                    (λ (x : Option Order).
                      LeftOrTaken o.station_id rider_id w.now (find_by_id j w.orders) x)
                    (ap (λ (v : World). find_by_id j v.orders) (sym final))
                    (subst
                      (λ (x : Option Order).
                        LeftOrTaken o.station_id rider_id w.now x
                          (find_by_id j (accept_order m id rider_id w).1.orders))
                      (find_by_id-update_ne id j (take_on rider_id w.now) w.orders
                        (λ p. ne (sym p)))
                      (b.taken j)),
              ),
            )
      ]

  -- With bundling, a rider ends up with at most three orders newly assigned, or with just one more than
  -- before.
  pub accept_order_limit :
      (id rider_id : Uuid) (w w' : World) {u : Order}
      → IsKeyed w.orders
      → accept_order m id rider_id w ≡ (ok u, w')
      → (count (is_assigned_to rider_id) w'.orders ≤ 3)
        ⊎ (count (is_assigned_to rider_id) w'.orders ≤ count (is_assigned_to rider_id) w.orders + 1)
  accept_order_limit id rider_id w w' {u} keyed h =
      elim (accept_order-Accepts m id rider_id w keyed) [
        | refused e ↦ absurd (cc)
        | alone o found other e ↦
            let final : w' ≡ after_assign id rider_id none true o w = cc in
            inr (rw final (one_more o))
        | bundled o found slow e b ↦
            let final : w' ≡ (accept_order m id rider_id w).1 =
              sym (ap (λ (r : Result Order × World). r.1) h) in
            let more = one_more o in
            let most = b.within in
            rw final (split (count (is_assigned_to rider_id) w.orders) _ _ more most)
      ]
    where
      one_more :
          (o : Order)
          → count (is_assigned_to rider_id) (after_assign id rider_id none true o w).orders
            ≤ count (is_assigned_to rider_id) w.orders + 1
      one_more o = count-update-le (is_assigned_to rider_id) id (take_on rider_id w.now) w.orders

      split : (a b c : ℕ) → b ≤ a + 1 → c ≤ b + (3 - b) → (c ≤ 3) ⊎ (c ≤ a + 1)
      split a b c more most = ground arith
