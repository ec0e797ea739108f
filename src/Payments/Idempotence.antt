-- ===== src/Payments/Idempotence.antt =====
-- A payment is started once for a key, and completed once.
use powergas.Base.{
  ◌+◌, ◌≡◌, ◌≢◌, refl, ap, Bool, true, Option, none, some, List, [], ◌∷◌, arith, ◌==◌, inl, inr,
  Option-cases, Bool-cases, same, or_else,
}
use powergas.Enums.{PaymentStatus}
use powergas.Table.{
  Uuid, Table, IsBelow, IsKeyed, find_by_id, find_one, update, insert, IsBelow-find_by_id,
  find_one-find_by_id, find_by_id-update_self, find_by_id-insert_self,
}
use powergas.Table.Rows.{find_one-update_self}
use powergas.Entities.{Text, Reference, pay, paystack, Payment}
use powergas.World.{payment_completed, World, ok, err, bad_request}
use powergas.Payments.{
  PaymentProvider, VerifyStatus, InitiatePaymentDto, new_payment, process, get_provider_for_method,
  get_provider_by_name, initiate, initiate_new, complete_payment, record_answer, verify, verify_row,
  reference_eq, handle_webhook, paystack_provider, mobile_money_provider,
}

module _ {V : Type 0} where
  update-insert :
      (k : Uuid) (f : V → V) (v : V) (t : Table V)
      → find_by_id k t ≡ none
      → update k f (insert k v t) ≡ insert k (f v) t
  update-insert k f v [] free = ground arith
  update-insert k f v ((j, u) ∷ t) free = elim (Bool-cases (j == k)) [
    | inl own ↦ absurd (ground arith)
    | inr other ↦
        let rest = update-insert k f v t (ground arith) in
        rw other (ap (λ (x : Table V). (j, u) ∷ x) rest)
  ]

  find_one-insert :
      (q : V → Bool) (k : Uuid) (v : V) (t : Table V)
      → find_one q t ≡ none
      → q v ≡ true
      → find_one q (insert k v t) ≡ some (k, v)
  find_one-insert q k v [] missing holds = ground arith
  find_one-insert q k v ((j, u) ∷ t) missing holds = ground (arith, find_one-insert q k v t)

module _ (providers : List PaymentProvider) where
  abbrev made : InitiatePaymentDto → Uuid → PaymentProvider → Payment
  made dto uuid provider =
      process (provider.provider_reference (pay uuid)) (new_payment dto (pay uuid) provider.name)

  initiate_new_ok :
      (dto : InitiatePaymentDto) (w : World) {provider : PaymentProvider}
      → IsBelow w.next_id w.payments
      → get_provider_for_method providers dto.payment_method ≡ some provider
      → initiate_new providers dto w ≡ (
        ok (w.next_id + 1, made dto w.next_id provider),
        record w {
          next_id = w.next_id + 1 + 1;
          payments = insert (w.next_id + 1) (made dto w.next_id provider) w.payments;
        },
      )
  unfolding initiate_new
  initiate_new_ok dto w {provider} below served =
      let free = IsBelow-find_by_id w.next_id (w.next_id + 1) w.payments below (omega arith) in
      ground (
        arith,
        update-insert (w.next_id + 1) (process (provider.provider_reference (pay w.next_id)))
            (new_payment dto (pay w.next_id) provider.name) w.payments free,
        find_by_id-insert_self (w.next_id + 1) (made dto w.next_id provider) w.payments free,
      )

  initiate_new_err :
      (dto : InitiatePaymentDto) (w : World)
      → get_provider_for_method providers dto.payment_method ≡ none
      → (initiate_new providers dto w).0 ≡ err bad_request
  unfolding initiate_new
  initiate_new_err dto w none_serves = ground arith

  -- Where a key is given, the same key gives the same payment again: a second request with it, whatever
  -- else it asks for, returns the payment of the first and changes nothing.
  pub initiate_idempotent :
      (dto dto' : InitiatePaymentDto) (key : Text) (w w' : World) {row : Uuid × Payment}
      → IsBelow w.next_id w.payments
      → dto.idempotency_key ≡ some key
      → dto'.idempotency_key ≡ some key
      → initiate providers dto w ≡ (ok row, w')
      → initiate providers dto' w' ≡ (ok row, w')
  unfolding initiate process new_payment
  initiate_idempotent dto dto' key w w' {row} below given given' h =
      elim (Option-cases (find_one has_key w.payments)) [
        | inr (known, found) ↦ ground arith
        | inl missing ↦
            let first : initiate_new providers dto w ≡ (ok row, w') = ground arith in
            elim (Option-cases (get_provider_for_method providers dto.payment_method)) [
              | inl none_serves ↦ absurd (cc (initiate_new_err dto w none_serves))
              | inr (provider, served) ↦
                  let q = made dto w.next_id provider in
                  let whole = initiate_new_ok dto w below served in
                  let holds : has_key q ≡ true = ground arith in
                  let found = find_one-insert has_key (w.next_id + 1) q w.payments missing holds in
                  ground arith
            ]
      ]
    where
      has_key : Payment → Bool
      has_key p = same p.idempotency_key (some key)

  abbrev has_reference : Reference → Payment → Bool
  has_reference reference p = reference_eq p.reference reference

  verify_completed :
      (reference : Reference) (w : World) {id : Uuid} {p : Payment}
      → find_one (has_reference reference) w.payments ≡ some (id, p)
      → p.status ≡ PaymentStatus.completed
      → verify providers reference w ≡ (ok (id, p), w)
  unfolding verify verify_row
  verify_completed reference w found paid = ground arith

  -- A payment that its provider reports as paid is completed once: the verification emits one event, and
  -- a second one gives the same result and changes nothing, so that no further event is emitted.
  pub verify_once :
      (reference : Reference) (w : World) {id : Uuid} {p : Payment} {provider : PaymentProvider}
      → IsKeyed w.payments
      → find_one (λ q. reference_eq q.reference reference) w.payments ≡ some (id, p)
      → p.status ≢ PaymentStatus.completed
      → get_provider_by_name providers p.provider ≡ some provider
      → provider.verify_status (or_else p.provider_reference p.reference) ≡ VerifyStatus.completed
      → let r = verify providers reference w in
        (r.0 ≡ ok (id, complete_payment w.now p))
        × (r.1.emitted ≡ payment_completed id p.order_id p.reference ∷ w.emitted)
        × (verify providers reference r.1 ≡ r)
  unfolding verify verify_row record_answer complete_payment
  verify_once reference w {id} {p} {provider} keyed found unpaid named says =
      let (at_key, mine) = find_one-find_by_id (has_reference reference) w.payments keyed found in
      let later = find_by_id-update_self id (complete_payment w.now) w.payments at_key in
      let found' =
        find_one-update_self (has_reference reference) (complete_payment w.now) w.payments keyed
          found (still mine) in
      let whole : verify providers reference w ≡ (ok (id, complete_payment w.now p), after) =
        ground arith in
      rw whole (refl, refl, verify_completed reference after found' is_paid)
    where
      after : World
      after = record w {
        payments = update id (complete_payment w.now) w.payments;
        emitted = payment_completed id p.order_id p.reference ∷ w.emitted;
      }

      still :
          has_reference reference p ≡ true
          → has_reference reference (complete_payment w.now p) ≡ true
      still mine = mine

      is_paid : (complete_payment w.now p).status ≡ PaymentStatus.completed
      is_paid = refl

-- A webhook in the name of Paystack with a signature that is not the digest of its body is refused, and
-- changes nothing.
pub handle_webhook_forged :
    (hmac : Text → Text) (event : Option Text) (reference : Option Reference)
    (body signature : Text) (w : World)
    → hmac body ≢ signature
    → handle_webhook
        (paystack_provider hmac ∷ mobile_money_provider ∷ [])
        paystack
        event
        reference
        body
        signature
        w
      ≡ (err bad_request, w)
unfolding handle_webhook get_provider_by_name paystack_provider
handle_webhook_forged hmac event reference body signature w forged = ground arith
