-- ===== src/Listeners/Delivery.antt =====
-- The end of a delivery: the customer's confirmation, the event that it emits and its handler.
use powergas.Base.{
  ℕ, ◌≡◌, refl, ap, ◌∙◌, ◌⊎◌, inl, inr, true, false, Option, some, [], ◌∷◌, arith, ◌==◌,
  if◌then◌else◌,
}
use powergas.Enums.{OrderStatus, delivered, customer_confirmed, RiderStatus}
use powergas.Table.{Uuid, Table, IsKeyed, find_by_id, update, count, find_by_id-update_self}
use powergas.Entities.{Text, Order, Rider}
use powergas.World.{World, Event, ok, order_status}
use powergas.Riders.{set_rider_status}
use powergas.Orders.Lifecycle.{includes}
use powergas.Orders.Assign.{active_statuses, is_active_for}
use powergas.Orders.Assign.Claim.{release_rider_if_free_lem}
use powergas.Orders.Cancel.{items_of}
use powergas.Orders.Confirm.{confirm, confirm_delivery}
use powergas.Orders.Confirm.Effects.{after_confirm, confirm_delivery_succeeds}
use powergas.Settlement.{NullWhere, complete, add_revenue, settle}
use powergas.Settlement.Stock.{Stocks}
use powergas.Settlement.Effects.{split_of}
use powergas.Settlement.Completion.{IsPayable, settle_completes}
use powergas.Listeners.{
  handle, handle_confirmed, attempt, handle_delivered, handle_cancelled, release_rider_of,
}

handle_confirmed-settle :
    (nulls : NullWhere) (fallback : ℕ) (id : Uuid) (o : Order) (w : World)
    → (handle nulls fallback (order_status customer_confirmed id o) w).1
      ≡ (settle nulls fallback id w).1
unfolding handle handle_confirmed attempt
handle_confirmed-settle nulls fallback id o w = refl

-- The customer of a delivered order who gives its code ends the order: the confirmation emits one
-- event, and its handler completes the order with its split and adds the station's share to its
-- revenue, where every item has a row of stock and the rider has a wallet or nothing due.
pub confirm_delivery-handle :
    (nulls : NullWhere) (fallback : ℕ) (id : Uuid) (otp : Text) (proof : Option Text) (w : World)
    {o : Order}
    → find_by_id id w.orders ≡ some o
    → o.status ≡ delivered
    → o.delivery_otp ≡ some otp
    → IsKeyed w.inventory
    → Stocks o.station_id w.inventory (items_of id w.order_items)
    → IsPayable o.rider_id (split_of nulls fallback o w).rider_earning w.wallets
    → let w₁ = (confirm_delivery id o.customer_id otp proof w).1 in
      (e : Event) × (w₁.emitted ≡ e ∷ w.emitted)
      × (let w₂ = (handle nulls fallback e w₁).1 in
          (find_by_id id w₂.orders
            ≡ some (complete (split_of nulls fallback o w) w.now (confirm proof o)))
          × (w₂.stations
              ≡ update o.station_id
                  (add_revenue (split_of nulls fallback o w).station_earning)
                  w.stations))
unfolding confirm
confirm_delivery-handle nulls fallback id otp proof w {o} found at code keyed stocks payable =
    let done = confirm_delivery_succeeds id otp proof w found at code in
    let w₁ : World = after_confirm id o.customer_id proof o w in
    let later = find_by_id-update_self id (confirm proof) w.orders found in
    let (_, order, stations, _) =
      settle_completes nulls fallback id w₁ later refl keyed stocks payable in
    rw done (
      order_status customer_confirmed id (confirm proof o),
      refl,
      (
        ap (λ (v : World). find_by_id id v.orders)
              (handle_confirmed-settle nulls fallback id (confirm proof o) w₁)
            ∙ order,
        ap (λ (v : World). v.stations)
              (handle_confirmed-settle nulls fallback id (confirm proof o) w₁)
            ∙ stations,
      ),
    )

-- When an order is delivered or cancelled, its rider becomes available where no other order of theirs
-- is under way, and nothing else changes.
pub handle-release_rider :
    (nulls : NullWhere) (fallback : ℕ) (s : OrderStatus) (id rider_id : Uuid) (o : Order)
    (w : World) {r : Rider}
    → (s ≡ delivered) ⊎ (s ≡ OrderStatus.cancelled)
    → o.rider_id ≡ some rider_id
    → find_by_id rider_id w.riders ≡ some r
    → handle nulls fallback (order_status s id o) w ≡ (
      ok tt,
      if count (is_active_for rider_id) w.orders == 0
          then record w {
            riders = update rider_id (set_rider_status RiderStatus.available) w.riders;
          }
          else w,
    )
unfolding handle handle_delivered handle_cancelled release_rider_of
handle-release_rider nulls fallback s id rider_id o w (inl e) rider found =
    rw (e, rider) (release_rider_if_free_lem rider_id w found)
handle-release_rider nulls fallback s id rider_id o w (inr e) rider found =
    rw (e, rider) (release_rider_if_free_lem rider_id w found)

active_counts :
    (rider_id id : Uuid) (t : Table Order) {o : Order}
    → find_by_id id t ≡ some o
    → is_active_for rider_id o ≡ true
    → (count (is_active_for rider_id) t == 0) ≡ false
active_counts rider_id id [] {o} found active = cc
active_counts rider_id id ((j, v) ∷ t) {o} found active =
    ground (arith, active_counts rider_id id t {o = o})

-- The event of a cancellation is emitted before its transaction commits. Where its handler reads the
-- orders before that, it still counts the cancelled order, if a rider is carrying it out, and so
-- changes nothing: the rider is not made available.
pub handle-cancelled_early :
    (nulls : NullWhere) (fallback : ℕ) (id rider_id : Uuid) (w : World) {o : Order} {r : Rider}
    → find_by_id id w.orders ≡ some o
    → o.rider_id ≡ some rider_id
    → includes active_statuses o.status ≡ true
    → find_by_id rider_id w.riders ≡ some r
    → handle nulls fallback (order_status OrderStatus.cancelled id o) w ≡ (ok tt, w)
handle-cancelled_early nulls fallback id rider_id w {o} found rider active there =
    let busy : is_active_for rider_id o ≡ true = ground arith in
    let counted = active_counts rider_id id w.orders found busy in
    let released =
      handle-release_rider nulls fallback OrderStatus.cancelled id rider_id o w (inr refl) rider
        there in
    released ∙ ground arith
