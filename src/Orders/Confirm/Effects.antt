-- ===== src/Orders/Confirm/Effects.antt =====
-- What a confirmation of delivery does, on every branch.
use powergas.Base.{
  ℕ, ◌≡◌, ◌≢◌, ◌↔◌, ◌==◌, true, Option, none, some, [], ◌∷◌, ◌++◌, arith, same, inl, inr,
  Option-cases, Bool-cases,
}
use powergas.Enums.{delivered, customer_confirmed, status_eq, status_eq_iff}
use powergas.Table.{Uuid, find_by_id, update, find_by_id-update_self}
use powergas.Entities.{Text, Order}
use powergas.World.{World, Result, not_found, forbidden, bad_request, ok, err, order_status}
use powergas.Orders.Confirm.{confirm, confirm_delivery}

pub same-some_iff : (a : Option ℕ) (b : ℕ) → (same a (some b) ≡ true) ↔ (a ≡ some b)
same-some_iff a b = (λ h. ground arith, λ h. ground arith)

-- The state after the confirmation of an order, which was `o`.
abbrev pub after_confirm : Uuid → Uuid → Option Text → Order → World → World
after_confirm id by proof o w = record w {
  orders = update id (confirm proof) w.orders;
  status_history =
      w.status_history
      ++ record {
        order_id = id;
        from_status = some delivered;
        to_status = customer_confirmed;
        changed_by = some by;
      }
        ∷ [];
  emitted = order_status customer_confirmed id (confirm proof o) ∷ w.emitted;
}

-- How a call of `confirmDelivery` ends.
pub data Confirms (id by : Uuid) (otp : Text) (proof : Option Text) (w : World)
    (r : Result Order × World) : Type 0 where
  missing : find_by_id id w.orders ≡ none → r ≡ (err not_found, w) → Confirms id by otp proof w r
  not_own :
      (o : Order)
      → find_by_id id w.orders ≡ some o
      → o.customer_id ≢ by
      → r ≡ (err forbidden, w)
      → Confirms id by otp proof w r
  not_delivered :
      (o : Order)
      → find_by_id id w.orders ≡ some o
      → o.customer_id ≡ by
      → o.status ≢ delivered
      → r ≡ (err bad_request, w)
      → Confirms id by otp proof w r
  wrong_code :
      (o : Order)
      → find_by_id id w.orders ≡ some o
      → o.customer_id ≡ by
      → o.status ≡ delivered
      → o.delivery_otp ≢ some otp
      → r ≡ (err bad_request, w)
      → Confirms id by otp proof w r
  confirmed :
      (o : Order)
      → find_by_id id w.orders ≡ some o
      → o.customer_id ≡ by
      → o.status ≡ delivered
      → o.delivery_otp ≡ some otp
      → r ≡ (ok (confirm proof o), after_confirm id by proof o w)
      → Confirms id by otp proof w r

-- A call of `confirmDelivery` fails and changes nothing where the order is missing, another customer's,
-- not delivered, or its code is not the one given, each with its own error. In every other case it
-- succeeds: it returns the order as confirmed, stores it with one row of history, and emits one event.
pub confirm_delivery-Confirms :
    (id by : Uuid) (otp : Text) (proof : Option Text) (w : World)
    → Confirms id by otp proof w (confirm_delivery id by otp proof w)
unfolding confirm_delivery
confirm_delivery-Confirms id by otp proof w = elim (Option-cases (find_by_id id w.orders)) [
  | inl none_found ↦ missing none_found (ground arith)
  | inr (o, found) ↦ elim (Bool-cases (o.customer_id == by)) [
    | inr other ↦ not_own o found (ground arith) (ground arith)
    | inl own ↦
        let is_by : o.customer_id ≡ by = ground arith in
        elim (Bool-cases (status_eq o.status delivered)) [
          | inr early ↦
              not_delivered o found is_by (ground (arith, status_eq_iff o.status delivered))
                (ground arith)
          | inl late ↦
              let at : o.status ≡ delivered = (status_eq_iff o.status delivered).0 late in
              elim (Bool-cases (same o.delivery_otp (some otp))) [
                | inr wrong ↦
                    wrong_code o found is_by at (ground (arith, same-some_iff o.delivery_otp otp))
                      (ground arith)
                | inl right ↦
                    let later = find_by_id-update_self id (confirm proof) w.orders found in
                    confirmed o found is_by at ((same-some_iff o.delivery_otp otp).0 right)
                      (ground (arith, at))
              ]
        ]
  ]
]

-- The customer of a delivered order who gives its code succeeds.
pub confirm_delivery_succeeds :
    (id : Uuid) (otp : Text) (proof : Option Text) (w : World) {o : Order}
    → find_by_id id w.orders ≡ some o
    → o.status ≡ delivered
    → o.delivery_otp ≡ some otp
    → confirm_delivery id o.customer_id otp proof w
      ≡ (ok (confirm proof o), after_confirm id o.customer_id proof o w)
unfolding confirm_delivery
confirm_delivery_succeeds id otp proof w {o} found at code =
    ground (arith, find_by_id-update_self id (confirm proof) w.orders found)
