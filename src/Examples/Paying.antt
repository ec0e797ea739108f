-- ===== src/Examples/Paying.antt =====
-- Payments started, verified and refused.
use powergas.Base.{◌+◌, ◌≡◌, refl, none, some, List, [], ◌∷◌, arith}
use powergas.Enums.{ChangeRequestStatus, OrderStatus, card, RiderStatus}
use powergas.Table.{find_by_id}
use powergas.Entities.{OrderChangeRequest, Payment, Text, pay, ps, paystack}
use powergas.World.{World, ok}
use powergas.Payments.{
  PaymentProvider, InitiatePaymentDto, paystack_provider, mobile_money_provider, initiate,
  initiate_new, verify, get_provider_for_method, get_provider_by_name, process, new_payment,
}
use powergas.Payments.Idempotence.{initiate_idempotent, verify_once}
use powergas.ChangeRequests.{charge, handle_payment_of_request}
use powergas.ChangeRequests.Approval.{handle_payment_of_request_once}
use powergas.Examples.Data.{the_order, world}

abbrev plus_one : Text → Text
plus_one n = n + 1

abbrev pub providers : List PaymentProvider
providers = paystack_provider plus_one ∷ mobile_money_provider ∷ []

abbrev request : InitiatePaymentDto
request = record {
  order_id = 1;
  customer_id = 7;
  amount = 21000;
  payment_method = card;
  idempotency_key = some 55;
}

abbrev start : World
start = world OrderStatus.pending none RiderStatus.available

abbrev started : World
started = (initiate providers request start).1

-- The same key, for another amount.
initiate_idempotent_example :
    initiate providers (record request { amount = 1 }) started
    ≡ (ok (101, process (ps (pay 100)) (new_payment request (pay 100) paystack)), started)
unfolding initiate initiate_new get_provider_for_method paystack_provider
initiate_idempotent_example =
    initiate_idempotent providers request (record request { amount = 1 }) 55 start started tt refl
      refl refl

abbrev the_payment : Payment
the_payment = process (ps (pay 100)) (new_payment request (pay 100) paystack)

abbrev paid : World
paid = (verify providers (pay 100) started).1

verify_once_example : verify providers (pay 100) paid ≡ verify providers (pay 100) started
unfolding initiate initiate_new get_provider_for_method get_provider_by_name paystack_provider
    process new_payment
verify_once_example =
    (verify_once providers (pay 100) started {id = 101} {p = the_payment}
      {provider = paystack_provider plus_one} (refl, tt) refl (λ e. absurd (ground arith)) refl
      refl).2

-- A request for 15.00 more for order 1, whose payment has been started.
abbrev asked : OrderChangeRequest
asked = record {
  order_id = 1;
  station_id = 3;
  raised_by = 9;
  photo_url = 0;
  additional_amount = 1500;
  status = ChangeRequestStatus.pending;
  payment_reference = some (pay 100);
  responded_at = none;
}

abbrev waiting : World
waiting = record start { change_requests = (40, asked) ∷ [] }

handle_payment_of_request_once_example :
    find_by_id 1 (handle_payment_of_request 1 (pay 100) waiting).1.orders
    ≡ some (charge 1500 (the_order OrderStatus.pending none))
handle_payment_of_request_once_example =
    (handle_payment_of_request_once 1 (pay 100) waiting (refl, tt) refl refl refl).0
