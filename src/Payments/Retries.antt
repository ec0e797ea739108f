-- ===== src/Payments/Retries.antt =====
-- The retries of failed payments come to an end.
use powergas.Base.{
  ℕ, zero, suc, ◌+◌, ◌-◌, ◌≤◌, ◌<◌, ◌≡◌, refl, ap, sym, subst, ◌∙◌, ◌⊎◌, inl, inr, true, false,
  some, List, [], ◌∷◌, arith, leb, take, Option-cases, Bool-cases, or_else,
}
use powergas.Enums.{PaymentStatus, payment_status_eq}
use powergas.Table.{Uuid, Table, IsKeyed, find_by_id, find_one, find, update, update-IsKeyed}
use powergas.Entities.{Payment, Reference}
use powergas.World.{World, Result-cases}
use powergas.Payments.Snapshot.{
  AreCurrent, AreCurrent-update, AreCurrent-update_ne, find-IsKeyed, take-IsKeyed, find-AreCurrent,
  take-AreCurrent,
}
use powergas.Payments.{
  PaymentProvider, VerifyStatus, verify, verify_row, record_answer, complete_payment, fail_payment,
  reference_eq, get_provider_by_name, set_retry_count, retry_all, retry_failed_payments,
}

-- The retries that the payments have left, three for each at the start.
abbrev pub budget : Table Payment → ℕ
budget [] = 0
budget ((_, p) ∷ t) = (3 - p.retry_count) + budget t

abbrev KeepsCount : (Payment → Payment) → Type 0
KeepsCount f = (p : Payment) → (f p).retry_count ≡ p.retry_count

budget-update :
    (f : Payment → Payment) (k : Uuid) (t : Table Payment)
    → KeepsCount f
    → budget (update k f t) ≡ budget t
budget-update f k [] keeps = refl
budget-update f k ((j, p) ∷ t) keeps = ground (arith, budget-update f k t keeps, keeps p)

-- A retry takes one from the budget.
budget-set_retry_count :
    (k : Uuid) (n : ℕ) (t : Table Payment) {p : Payment}
    → find_by_id k t ≡ some p
    → p.retry_count ≡ n
    → n < 3
    → budget (update k (set_retry_count (n + 1)) t) + 1 ≡ budget t
unfolding set_retry_count
budget-set_retry_count k n [] e at low = cc
budget-set_retry_count k n ((j, q) ∷ t) {p} e at low =
    ground (arith, budget-set_retry_count k n t {p = p})

VerifyStatus-cases :
    (s : VerifyStatus)
    → (s ≡ VerifyStatus.completed) ⊎ ((s ≡ VerifyStatus.failed) ⊎ (s ≡ VerifyStatus.pending))
VerifyStatus-cases VerifyStatus.completed = inl refl
VerifyStatus-cases VerifyStatus.failed = inr (inl refl)
VerifyStatus-cases VerifyStatus.pending = inr (inr refl)

-- What a verification writes keeps the counts.
verify_payments :
    (providers : List PaymentProvider) (reference : Reference) (w : World)
    → let t = (verify providers reference w).1.payments in
      (t ≡ w.payments)
      ⊎ ((k : Uuid) × (f : Payment → Payment) × KeepsCount f × (t ≡ update k f w.payments))
unfolding verify verify_row record_answer complete_payment fail_payment
verify_payments providers reference w =
    elim (Option-cases (find_one (λ p. reference_eq p.reference reference) w.payments)) [
      | inl unknown ↦ inl (ground arith)
      | inr ((id, p), found) ↦
          elim (Bool-cases (payment_status_eq p.status PaymentStatus.completed)) [
            | inl paid ↦ inl (ground arith)
            | inr unpaid ↦ elim (Option-cases (get_provider_by_name providers p.provider)) [
              | inl nobody ↦ inl (ground arith)
              | inr (provider, named) ↦
                  elim (VerifyStatus-cases
                    (provider.verify_status (or_else p.provider_reference p.reference))) [
                      | inl completed ↦ inr (id, complete_payment w.now, (λ q. refl), ground arith)
                      | inr (inl failed) ↦ inr (id, fail_payment, (λ q. refl), ground arith)
                      | inr (inr pending) ↦ inl (ground arith)
                    ]
            ]
          ]
    ]

module _ (providers : List PaymentProvider) where
  verify-KeepsBudget :
      (reference : Reference) (w : World)
      → budget (verify providers reference w).1.payments ≡ budget w.payments
  verify-KeepsBudget reference w = elim (verify_payments providers reference w) [
    | inl kept ↦ ap budget kept
    | inr (k, f, keeps, e) ↦ ap budget e ∙ budget-update f k w.payments keeps
  ]

  verify-IsKeyed :
      (reference : Reference) (w : World)
      → IsKeyed w.payments
      → IsKeyed (verify providers reference w).1.payments
  verify-IsKeyed reference w h = elim (verify_payments providers reference w) [
    | inl kept ↦ rw kept h
    | inr (k, f, keeps, e) ↦ rw e (update-IsKeyed k f w.payments h)
  ]

  verify-AreCurrent :
      (reference : Reference) (rows : Table Payment) (w : World)
      → AreCurrent rows w.payments
      → AreCurrent rows (verify providers reference w).1.payments
  verify-AreCurrent reference rows w h = elim (verify_payments providers reference w) [
    | inl kept ↦ rw kept h
    | inr (k, f, keeps, e) ↦ rw e (AreCurrent-update f k rows w.payments keeps h)
  ]

  abbrev counted : Uuid → Payment → World → World
  counted id p w = record w {
    payments = update id (set_retry_count (p.retry_count + 1)) w.payments;
  }

  retry_all_skip :
      (retried : ℕ) (id : Uuid) (p : Payment) (rows : Table Payment) (w : World)
      → leb 3 p.retry_count ≡ true
      → retry_all providers retried ((id, p) ∷ rows) w ≡ retry_all providers retried rows w
  unfolding retry_all
  retry_all_skip retried id p rows w spent = ground arith

  retry_all_go :
      (retried : ℕ) (id : Uuid) (p : Payment) (rows : Table Payment) (w : World)
      → leb 3 p.retry_count ≡ false
      → (n : ℕ) × (retry_all providers retried ((id, p) ∷ rows) w
          ≡ retry_all providers n rows (verify providers p.reference (counted id p w)).1)
  unfolding retry_all
  retry_all_go retried id p rows w left =
      elim (Result-cases (verify providers p.reference (counted id p w))) [
        | inl (row, e) ↦ (retried + 1, ground arith)
        | inr (x, e) ↦ (retried, ground arith)
      ]

  -- A run of the loop that was at the world `w`.
  abbrev Spends : World → ℕ → ℕ × World → Type 0
  Spends w retried r = (r ≡ (retried, w)) ⊎ (budget r.1.payments < budget w.payments)

  -- How the loop ends: nothing was retried, or the budget went down.
  retry_all_cases :
      (retried : ℕ) (rows : Table Payment) (w : World)
      → IsKeyed rows
      → AreCurrent rows w.payments
      → Spends w retried (retry_all providers retried rows w)
  unfolding retry_all
  retry_all_cases retried [] w keyed current = inl refl
  retry_all_cases retried ((id, p) ∷ rows) w keyed ((q, found, at), current) =
      elim (Bool-cases (leb 3 p.retry_count)) [
        | inl spent ↦
            subst (Spends w retried) (sym (retry_all_skip retried id p rows w spent))
              (retry_all_cases retried rows w keyed.1 current)
        | inr left ↦
            let (n, e) = retry_all_go retried id p rows w left in
            let v = counted id p w in
            let w' = (verify providers p.reference v).1 in
            let one_less =
              budget-set_retry_count id p.retry_count w.payments found at (ground arith) in
            let same_budget = verify-KeepsBudget p.reference v in
            let current' = verify-AreCurrent p.reference rows v (
              AreCurrent-update_ne (set_retry_count (p.retry_count + 1)) id rows w.payments keyed.0
                current) in
            subst (Spends w retried) (sym e) (
              inr (
                spends_less n rows w' w (retry_all_cases n rows w' keyed.1 current') (omega arith)))
      ]
    where
      spends_less :
          (n : ℕ) (rows : Table Payment) (w' w : World)
          → Spends w' n (retry_all providers n rows w')
          → budget w'.payments < budget w.payments
          → budget (retry_all providers n rows w').1.payments < budget w.payments
      spends_less n rows w' w (inl idle) less =
          let unchanged : budget (retry_all providers n rows w').1.payments ≡ budget w'.payments =
            ap (λ (r : ℕ × World). budget r.1.payments) idle in
          omega arith
      spends_less n rows w' w (inr down) less = omega arith

  retry_all-IsKeyed :
      (retried : ℕ) (rows : Table Payment) (w : World)
      → IsKeyed w.payments
      → IsKeyed (retry_all providers retried rows w).1.payments
  unfolding retry_all
  retry_all-IsKeyed retried [] w h = h
  retry_all-IsKeyed retried ((id, p) ∷ rows) w h = elim (Bool-cases (leb 3 p.retry_count)) [
    | inl spent ↦
        subst (λ (r : ℕ × World). IsKeyed r.1.payments)
          (sym (retry_all_skip retried id p rows w spent)) (retry_all-IsKeyed retried rows w h)
    | inr left ↦
        let (n, e) = retry_all_go retried id p rows w left in
        subst (λ (r : ℕ × World). IsKeyed r.1.payments) (sym e)
          (retry_all-IsKeyed n rows (verify providers p.reference (counted id p w)).1 (
            verify-IsKeyed p.reference (counted id p w)
              (update-IsKeyed id (set_retry_count (p.retry_count + 1)) w.payments h)))
  ]

module _ (providers : List PaymentProvider) where
  -- So many runs of the job, one after the other.
  abbrev pub run_retries : ℕ → World → World
  run_retries zero w = w
  run_retries (suc n) w = run_retries n (retry_failed_payments providers w).1

  retry_failed_payments_cases :
      (w : World) → IsKeyed w.payments → Spends providers w 0 (retry_failed_payments providers w)
  unfolding retry_failed_payments
  retry_failed_payments_cases w keyed =
      retry_all_cases providers 0
        (take 50 (find (λ p. payment_status_eq p.status PaymentStatus.failed) w.payments)) w
        (take-IsKeyed 50 _ (find-IsKeyed _ w.payments keyed))
        (take-AreCurrent 50 _ w.payments (find-AreCurrent _ w.payments keyed))

  retry_failed_payments-IsKeyed :
      (w : World) → IsKeyed w.payments → IsKeyed (retry_failed_payments providers w).1.payments
  unfolding retry_failed_payments
  retry_failed_payments-IsKeyed w keyed = retry_all-IsKeyed providers 0 _ w keyed

  run_retries_idle :
      (n : ℕ) (w : World) → retry_failed_payments providers w ≡ (0, w) → run_retries n w ≡ w
  run_retries_idle zero w idle = refl
  run_retries_idle (suc n) w idle = rw idle (run_retries_idle n w idle)

  -- The retries end, whatever the providers answer: after as many runs of the job as there are retries
  -- left for the payments (one row to a key), at most three for each, a run retries nothing and changes nothing.
  pub retries_end :
      (n : ℕ) (w : World)
      → IsKeyed w.payments
      → budget w.payments ≤ n
      → retry_failed_payments providers (run_retries n w) ≡ (0, run_retries n w)
  retries_end zero w keyed enough = elim (retry_failed_payments_cases w keyed) [
    | inl idle ↦ idle
    | inr down ↦ absurd (omega arith)
  ]
  retries_end (suc n) w keyed enough = elim (retry_failed_payments_cases w keyed) [
    | inl idle ↦ rw (run_retries_idle (suc n) w idle) idle
    | inr down ↦
        retries_end n (retry_failed_payments providers w).1 (retry_failed_payments-IsKeyed w keyed)
          (omega arith)
  ]
