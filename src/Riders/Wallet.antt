-- ===== src/Riders/Wallet.antt =====
-- The wallet against the list of its transactions.
use powergas.Base.{
  ℕ, ℤ, pos, negsuc, ◌+◌, ◌≡◌, refl, sym, ◌∙◌, ◌⊎◌, ap, ◌+ℤ◌, ◌-ℤ◌, ◌≤ℤ◌, int_laws, true, false,
  none, some, List, [], ◌∷◌, ◌++◌, arith, inl, inr, ◌==◌, if◌then◌else◌, Option-cases, Bool-cases,
  ltb_ℤ,
}
use powergas.Enums.{WalletTransactionType, WalletTransactionReason, credit, debit}
use powergas.Table.{
  Uuid, IsKeyed, find_by_id, update, update-IsKeyed, find_one-find_by_id, find_by_id-update_self,
  find_by_id-update_ne,
}
use powergas.Entities.{RiderWallet, WalletTransaction}
use powergas.World.{World, HttpException, bad_request, not_found, ok, err}
use powergas.Riders.{
  wallet_of, earn, withdraw, credit_entry, debit_entry, credit_wallet, request_withdrawal,
}

-- What a transaction adds to its wallet.
abbrev pub signed : WalletTransactionType → ℤ → ℤ
signed credit amount = amount
signed debit amount = pos 0 -ℤ amount

-- What the transactions of a wallet add up to.
abbrev pub ledger : Uuid → List WalletTransaction → ℤ
ledger k [] = pos 0
ledger k (t ∷ ts) = (if t.wallet_id == k then signed t.type t.amount else pos 0) +ℤ ledger k ts

-- One row to a key, and the balance of every wallet is what it earned less what was withdrawn, and
-- what its transactions add up to.
pub record IsReconciled (w : World) : Type 0 where
  pub keyed : IsKeyed w.wallets
  pub earned :
      (k : Uuid) (v : RiderWallet)
      → find_by_id k w.wallets ≡ some v
      → v.available_balance ≡ v.total_earned -ℤ v.total_withdrawn
  pub recorded :
      (k : Uuid) (v : RiderWallet)
      → find_by_id k w.wallets ≡ some v
      → v.available_balance ≡ ledger k w.wallet_transactions

-- A transaction is added to its own wallet, and to no other.
ledger_own :
    (k : Uuid) (ts : List WalletTransaction) (t : WalletTransaction)
    → t.wallet_id ≡ k
    → ledger k (ts ++ t ∷ []) ≡ ledger k ts +ℤ signed t.type t.amount
ledger_own k [] t e = let own : (t.wallet_id == k) ≡ true = ground arith in rw own (omega int_laws)
ledger_own k (u ∷ ts) t e = rw (ledger_own k ts t e) (omega int_laws)

ledger_other :
    (k : Uuid) (ts : List WalletTransaction) (t : WalletTransaction)
    → (t.wallet_id == k) ≡ false
    → ledger k (ts ++ t ∷ []) ≡ ledger k ts
ledger_other k [] t e = rw e (omega int_laws)
ledger_other k (u ∷ ts) t e = rw (ledger_other k ts t e)

-- The state after a transaction on a wallet.
abbrev pub booked : Uuid → (RiderWallet → RiderWallet) → WalletTransaction → World → World
booked k f t w = record w {
  wallets = update k f w.wallets;
  wallet_transactions = w.wallet_transactions ++ t ∷ [];
}

booked-IsReconciled :
    (k : Uuid) (f : RiderWallet → RiderWallet) (t : WalletTransaction) (w : World) {v : RiderWallet}
    → IsReconciled w
    → find_by_id k w.wallets ≡ some v
    → t.wallet_id ≡ k
    → (f v).available_balance ≡ (f v).total_earned -ℤ (f v).total_withdrawn
    → (f v).available_balance ≡ v.available_balance +ℤ signed t.type t.amount
    → IsReconciled (booked k f t w)
booked-IsReconciled k f t w {v} h found at split moved = record {
  keyed = update-IsKeyed k f w.wallets h.keyed;
  earned = λ j u e. elim (Bool-cases (k == j)) [
    | inl own ↦ rw (own_row j u e own) split
    | inr other ↦ h.earned j u (other_row j u e other)
  ];
  recorded = λ j u e. elim (Bool-cases (k == j)) [
    | inl own ↦
        let here : t.wallet_id ≡ j = ground arith in
        let before : v.available_balance ≡ ledger j w.wallet_transactions =
          h.recorded j v (ground arith) in
        ap (λ (x : RiderWallet). x.available_balance) (own_row j u e own)
        ∙ moved
        ∙ ap (λ (x : ℤ). x +ℤ signed t.type t.amount) before
        ∙ sym (ledger_own j w.wallet_transactions t here)
    | inr other ↦
        h.recorded j u (other_row j u e other)
        ∙ sym (ledger_other j w.wallet_transactions t (ground arith))
  ];
}
  where
    own_row :
        (j : Uuid) (u : RiderWallet)
        → find_by_id j (update k f w.wallets) ≡ some u
        → (k == j) ≡ true
        → u ≡ f v
    own_row j u e own = ground (arith, find_by_id-update_self k f w.wallets found)

    other_row :
        (j : Uuid) (u : RiderWallet)
        → find_by_id j (update k f w.wallets) ≡ some u
        → (k == j) ≡ false
        → find_by_id j w.wallets ≡ some u
    other_row j u e other = ground (arith, find_by_id-update_ne k j f w.wallets)

earn_split : (e w a : ℤ) {b : ℤ} → b ≡ e -ℤ w → b +ℤ a ≡ e +ℤ a -ℤ w
earn_split e w a h = rw h (omega int_laws)

withdraw_split : (e w a : ℤ) {b : ℤ} → b ≡ e -ℤ w → b -ℤ a ≡ e -ℤ (w +ℤ a)
withdraw_split e w a h = rw h (omega int_laws)

-- How a credit ends: without a wallet nothing changes.
pub credit_wallet_cases :
    (rider_id : Uuid) (amount : ℤ) (order_id : Uuid) (reason : WalletTransactionReason) (w : World)
    → ((wallet_of rider_id w.wallets ≡ none)
        × (credit_wallet rider_id amount order_id reason w ≡ (err not_found, w)))
      ⊎ ((k : Uuid) × (v : RiderWallet) × (wallet_of rider_id w.wallets ≡ some (k, v))
          × (credit_wallet rider_id amount order_id reason w ≡ (
            ok (credit_entry amount order_id reason (k, v)),
            booked k (earn amount) (credit_entry amount order_id reason (k, v)) w,
          )))
unfolding credit_wallet
credit_wallet_cases rider_id amount order_id reason w =
    elim (Option-cases (wallet_of rider_id w.wallets)) [
      | inl missing ↦ inl (missing, ground arith)
      | inr ((k, v), found) ↦ inr (k, v, found, ground arith)
    ]

-- How a withdrawal ends.
pub request_withdrawal_cases :
    (rider_id : Uuid) (amount : ℤ) (w : World)
    → ((e : HttpException) × (request_withdrawal rider_id amount w ≡ (err e, w)))
      ⊎ ((k : Uuid) × (v : RiderWallet) × (wallet_of rider_id w.wallets ≡ some (k, v))
          × (amount ≤ℤ v.available_balance)
          × (request_withdrawal rider_id amount w ≡ (
            ok (debit_entry amount (k, v)),
            booked k (withdraw amount) (debit_entry amount (k, v)) w,
          )))
unfolding request_withdrawal
request_withdrawal_cases rider_id amount w = elim (Option-cases (wallet_of rider_id w.wallets)) [
  | inl missing ↦ inl (not_found, ground arith)
  | inr ((k, v), found) ↦ elim (Bool-cases (ltb_ℤ v.available_balance amount)) [
    | inl short ↦ inl (bad_request, ground arith)
    | inr enough ↦ inr (k, v, found, ground arith, ground arith)
  ]
]

-- A credit keeps every wallet reconciled with its transactions.
pub credit_wallet-IsReconciled :
    (rider_id : Uuid) (amount : ℤ) (order_id : Uuid) (reason : WalletTransactionReason) (w : World)
    → IsReconciled w
    → IsReconciled (credit_wallet rider_id amount order_id reason w).1
unfolding earn
credit_wallet-IsReconciled rider_id amount order_id reason w h =
    elim (credit_wallet_cases rider_id amount order_id reason w) [
      | inl (_, e) ↦ rw e h
      | inr (k, v, found, e) ↦
          let (at_key, _) =
            find_one-find_by_id (λ u. u.rider_id == rider_id) w.wallets h.keyed found in
          rw e (
            booked-IsReconciled k (earn amount) (credit_entry amount order_id reason (k, v)) w h
              at_key refl (earn_split v.total_earned v.total_withdrawn amount (h.earned k v at_key))
              refl)
    ]

-- A request for a withdrawal keeps every wallet reconciled, of whatever amount it is.
pub request_withdrawal-IsReconciled :
    (rider_id : Uuid) (amount : ℤ) (w : World)
    → IsReconciled w
    → IsReconciled (request_withdrawal rider_id amount w).1
unfolding withdraw
request_withdrawal-IsReconciled rider_id amount w h =
    elim (request_withdrawal_cases rider_id amount w) [
      | inl (_, e) ↦ rw e h
      | inr (k, v, found, _, e) ↦
          let (at_key, _) =
            find_one-find_by_id (λ u. u.rider_id == rider_id) w.wallets h.keyed found in
          rw e (
            booked-IsReconciled k (withdraw amount) (debit_entry amount (k, v)) w h at_key refl
              (withdraw_split v.total_earned v.total_withdrawn amount (h.earned k v at_key))
              (omega int_laws))
    ]

-- A request for more than the balance is refused, and one for at most the balance leaves a balance
-- of zero or more.
pub request_withdrawal_bounded :
    (rider_id : Uuid) (amount : ℤ) (w w' : World) {t : WalletTransaction}
    → IsKeyed w.wallets
    → request_withdrawal rider_id amount w ≡ (ok t, w')
    → (k : Uuid) × (v : RiderWallet) × (wallet_of rider_id w.wallets ≡ some (k, v))
      × (amount ≤ℤ v.available_balance)
      × (find_by_id k w'.wallets ≡ some (withdraw amount v))
      × (pos 0 ≤ℤ (withdraw amount v).available_balance)
unfolding withdraw
request_withdrawal_bounded rider_id amount w w' keyed h =
    elim (request_withdrawal_cases rider_id amount w) [
      | inl (x, e) ↦ cc
      | inr (k, v, found, enough, e) ↦
          let (at_key, _) =
            find_one-find_by_id (λ u. u.rider_id == rider_id) w.wallets keyed found in
          let final : w' ≡ booked k (withdraw amount) (debit_entry amount (k, v)) w = cc in
          (
            k,
            v,
            found,
            enough,
            ap (λ (x : World). find_by_id k x.wallets) final
                ∙ find_by_id-update_self k (withdraw amount) w.wallets at_key,
            omega int_laws,
          )
    ]

-- A negative amount is not refused: it raises the balance of a wallet that is not overdrawn.
pub request_withdrawal_negative :
    (rider_id : Uuid) (n : ℕ) (w : World) {k : Uuid} {v : RiderWallet}
    → wallet_of rider_id w.wallets ≡ some (k, v)
    → pos 0 ≤ℤ v.available_balance
    → ((request_withdrawal rider_id (negsuc n) w).1.wallets
        ≡ update k (withdraw (negsuc n)) w.wallets)
      × ((withdraw (negsuc n) v).available_balance ≡ v.available_balance +ℤ pos (n + 1))
unfolding request_withdrawal withdraw
request_withdrawal_negative rider_id n w {k} {v} found solvent = (ground arith, omega int_laws)
