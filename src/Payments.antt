-- ===== src/Payments.antt =====
-- backend/src/payments: the service of payments (payments.service.ts), the interface of a provider and
-- the two providers that there are (providers/). The signature of a webhook is checked by HMAC, which is
-- a parameter. An amount's currency and the details of a provider's answer are left out.
pub mod Idempotence
pub mod Snapshot
pub mod Retries
use powergas.Base.{
  ℕ, zero, suc, ◌+◌, leb, Bool, true, false, Option, none, some, List, [], ◌∷◌, ◌==◌, ◌&&◌, ◌||◌,
  not, or_else, same, if◌then◌else◌, take,
}
use powergas.Enums.{PaymentMethod, PaymentStatus, card, bank_transfer, payment_status_eq, method_eq}
use powergas.Table.{Uuid, Table, find_by_id, find_one, find, update, insert}
use powergas.Entities.{
  Text, Cents, Time, Reference, pay, ps, momo, ProviderName, paystack, unknown, Payment,
  PaymentWebhook,
}
use powergas.World.{
  World, Result, ok, err, Action, HttpException, bad_request, not_found, entity_not_found,
  payment_completed, payment_failed, pure, raise, gets, or_raise, raise_if, modify, fresh_id, emit,
  ◌>>=◌, ◌>>◌,
}

abbrev pub reference_eq : Reference → Reference → Bool
reference_eq (pay a) (pay b) = a == b
reference_eq (ps a) (ps b) = reference_eq a b
reference_eq (momo a) (momo b) = reference_eq a b
reference_eq _ _ = false

abbrev pub name_eq : ProviderName → ProviderName → Bool
name_eq paystack paystack = true
name_eq ProviderName.mobile_money ProviderName.mobile_money = true
name_eq (unknown a) (unknown b) = a == b
name_eq _ _ = false

pub data VerifyStatus : Type 0 where
  completed failed pending : VerifyStatus

-- `IPaymentProvider`
pub record PaymentProvider : Type 0 where
  pub name : ProviderName
  pub supported_methods : List PaymentMethod
  pub provider_reference : Reference → Reference
  pub verify_status : Reference → VerifyStatus
  pub verify_webhook_signature : Text → Text → Bool

unfoldable pub mobile_money_provider : PaymentProvider
mobile_money_provider = record {
  name = ProviderName.mobile_money;
  supported_methods = PaymentMethod.mobile_money ∷ [];
  provider_reference = momo;
  verify_status = λ _. VerifyStatus.completed;
  verify_webhook_signature = λ _ _. true;
}

-- `hmac` is the digest under the secret key.
unfoldable pub paystack_provider : (Text → Text) → PaymentProvider
paystack_provider hmac = record {
  name = paystack;
  supported_methods = card ∷ bank_transfer ∷ [];
  provider_reference = ps;
  verify_status = λ _. VerifyStatus.completed;
  verify_webhook_signature = λ payload signature. hmac payload == signature;
}

abbrev pub includes_method : List PaymentMethod → PaymentMethod → Bool
includes_method [] method = false
includes_method (x ∷ xs) method = method_eq x method || includes_method xs method

abbrev pub find_provider : (PaymentProvider → Bool) → List PaymentProvider → Option PaymentProvider
find_provider p [] = none
find_provider p (x ∷ xs) = if p x then some x else find_provider p xs

unfoldable pub get_provider_for_method :
    List PaymentProvider → PaymentMethod → Option PaymentProvider
get_provider_for_method providers method =
    find_provider (λ p. includes_method p.supported_methods method) providers

abbrev pub has_name : Option ProviderName → PaymentProvider → Bool
has_name none p = false
has_name (some name) p = name_eq p.name name

unfoldable pub get_provider_by_name :
    List PaymentProvider → Option ProviderName → Option PaymentProvider
get_provider_by_name providers name = find_provider (has_name name) providers

pub record InitiatePaymentDto : Type 0 where
  pub order_id : Uuid
  pub customer_id : Uuid
  pub amount : Cents
  pub payment_method : PaymentMethod
  pub idempotency_key : Option Text

abbrev pub with_key : Option Text → Table Payment → Option (Uuid × Payment)
with_key none t = none
with_key (some key) t = find_one (λ p. same p.idempotency_key (some key)) t

unfoldable pub new_payment : InitiatePaymentDto → Reference → ProviderName → Payment
new_payment dto reference provider = record {
  order_id = dto.order_id;
  customer_id = dto.customer_id;
  reference = reference;
  idempotency_key = dto.idempotency_key;
  amount = dto.amount;
  payment_method = dto.payment_method;
  status = PaymentStatus.pending;
  provider = some provider;
  provider_reference = none;
  paid_at = none;
  retry_count = 0;
}

abbrev pub update_payment : Uuid → (Payment → Payment) → Action (Unit {0})
update_payment id f = modify (λ w. record w { payments = update id f w.payments })

unfoldable pub process : Reference → Payment → Payment
process reference p = record p {
  status = PaymentStatus.processing;
  provider_reference = some reference;
}

abbrev pub find_payment : Uuid → Action (Uuid × Payment)
find_payment id = do
  payment ← or_raise (← gets (λ w. find_by_id id w.payments)) entity_not_found
  pure (id, payment)

unfoldable pub complete_payment : Time → Payment → Payment
complete_payment now p = record p { status = PaymentStatus.completed; paid_at = some now }

unfoldable pub fail_payment : Payment → Payment
fail_payment p = record p { status = PaymentStatus.failed }

-- What is written for the provider's answer.
unfoldable pub record_answer : Uuid → Payment → VerifyStatus → Action (Unit {0})
record_answer id p VerifyStatus.completed w =
    (do
      update_payment id (complete_payment w.now)
      emit (payment_completed id p.order_id p.reference))
      w
record_answer id p VerifyStatus.failed w =
    (do update_payment id fail_payment; emit (payment_failed id p.order_id)) w
record_answer id p VerifyStatus.pending w = (ok tt, w)

abbrev update_webhook : Uuid → (PaymentWebhook → PaymentWebhook) → Action (Unit {0})
update_webhook id f = modify (λ w. record w { webhooks = update id f w.webhooks })

unfoldable pub set_retry_count : ℕ → Payment → Payment
set_retry_count n p = record p { retry_count = n }

module _ (providers : List PaymentProvider) where
  -- A payment that no key is known for yet.
  unfoldable pub initiate_new : InitiatePaymentDto → Action (Uuid × Payment)
  initiate_new dto = do
    uuid ← fresh_id
    provider ← or_raise (get_provider_for_method providers dto.payment_method) bad_request
    id ← fresh_id
    modify
        λ w. record w { payments = insert id (new_payment dto (pay uuid) provider.name) w.payments }
    update_payment id (process (provider.provider_reference (pay uuid)))
    find_payment id

  unfoldable pub initiate : InitiatePaymentDto → Action (Uuid × Payment)
  initiate dto w = elim (with_key dto.idempotency_key w.payments) [
    | some row ↦ (ok row, w)
    | none ↦ initiate_new dto w
  ]

  unfoldable pub verify_row : Uuid × Payment → Action (Uuid × Payment)
  verify_row (id, p) w =
      if payment_status_eq p.status PaymentStatus.completed
      then (ok (id, p), w)
      else (do
        provider ← or_raise (get_provider_by_name providers p.provider) bad_request
        record_answer id p (provider.verify_status (or_else p.provider_reference p.reference))
        find_payment id)
          w

  unfoldable pub verify : Reference → Action (Uuid × Payment)
  verify reference = do
    row ←
        or_raise (← gets (λ w. find_one (λ p. reference_eq p.reference reference) w.payments))
          not_found
    verify_row row

  -- `try { … } catch (err) { …; throw err; }`
  unfoldable pub process_webhook : Uuid → Option Reference → Action (Unit {0})
  process_webhook id none w =
      update_webhook id (λ h. record h { is_processed = true; processed_at = some w.now }) w
  process_webhook id (some reference) w =
      let (r, w') = verify reference w in
      elim r [
        | ok _ ↦
            update_webhook id (λ h. record h { is_processed = true; processed_at = some w'.now }) w'
        | err e ↦ (update_webhook id (λ h. record h { failed = true }) >> raise e) w'
      ]

  unfoldable pub handle_webhook :
      ProviderName → Option Text → Option Reference → Text → Text → Action (Unit {0})
  handle_webhook name event reference raw_body signature = do
    provider ← or_raise (get_provider_by_name providers (some name)) bad_request
    raise_if (not (provider.verify_webhook_signature raw_body signature)) bad_request
    id ← fresh_id
    modify λ w. record w {
      webhooks =
          insert id
            (record {
              provider = name;
              event_type = event;
              is_processed = false;
              processed_at = none;
              failed = false;
            })
            w.webhooks;
    }
    process_webhook id reference

  -- The loop over the failed payments, as they were read; an exception of a verification is passed over.
  unfoldable pub retry_all : ℕ → List (Uuid × Payment) → World → ℕ × World
  retry_all retried [] w = (retried, w)
  retry_all retried ((id, p) ∷ rows) w =
      let counted : World = record w {
        payments = update id (set_retry_count (p.retry_count + 1)) w.payments;
      } in
      let (r, w') = verify p.reference counted in
      elim (leb 3 p.retry_count) [
        | true ↦ retry_all retried rows w
        | false ↦ elim r [
          | ok _ ↦ retry_all (retried + 1) rows w'
          | err _ ↦ retry_all retried rows w'
        ]
      ]

  -- The query asks for fifty failed payments in no order: they are read in the order of creation.
  unfoldable pub retry_failed_payments : World → ℕ × World
  retry_failed_payments w =
      retry_all 0 (take 50 (find (λ p. payment_status_eq p.status PaymentStatus.failed) w.payments))
        w
