-- ===== src/Examples/Money.antt =====
-- Stock counts, shares and wallets.
use powergas.Base.{ℕ, pos, ◌≡◌, refl, none, some, [], ◌∷◌, arith, ◌≤ℤ◌, int_laws}
use powergas.Enums.{OrderStatus, delivery_earning, RiderStatus}
use powergas.Table.{find_by_id}
use powergas.Entities.{RiderWallet}
use powergas.World.{World}
use powergas.Riders.{wallet_of, withdraw, debit_entry, credit_wallet, request_withdrawal}
use powergas.Riders.Wallet.{IsReconciled, credit_wallet-IsReconciled, request_withdrawal_bounded}
use powergas.Examples.Data.{the_wallet, world}

abbrev rich : RiderWallet
rich = record the_wallet { available_balance = pos 900; total_earned = pos 900 }

abbrev start : World
start = world OrderStatus.pending none RiderStatus.available

abbrev funded : World
funded = record start { wallets = (6, rich) ∷ [] }

only_wallet : (k : ℕ) (v : RiderWallet) → find_by_id k start.wallets ≡ some v → v ≡ the_wallet
only_wallet k v e = ground arith

start-IsReconciled : IsReconciled start
start-IsReconciled = record {
  keyed = (refl, tt);
  earned = λ k v e. rw (only_wallet k v e) (omega int_laws);
  recorded = λ k v e. rw (only_wallet k v e) refl;
}

credit_wallet-IsReconciled_example :
    IsReconciled (credit_wallet 5 (pos 700) 1 delivery_earning start).1
credit_wallet-IsReconciled_example =
    credit_wallet-IsReconciled 5 (pos 700) 1 delivery_earning start start-IsReconciled

request_withdrawal_bounded_example :
    (k : ℕ) × (v : RiderWallet) × (wallet_of 5 funded.wallets ≡ some (k, v))
    × (pos 400 ≤ℤ v.available_balance)
    × (find_by_id k (request_withdrawal 5 (pos 400) funded).1.wallets ≡ some (withdraw (pos 400) v))
    × (pos 0 ≤ℤ (withdraw (pos 400) v).available_balance)
unfolding request_withdrawal
request_withdrawal_bounded_example =
    request_withdrawal_bounded 5 (pos 400) funded (request_withdrawal 5 (pos 400) funded).1
      {t = debit_entry (pos 400) (6, rich)} (refl, tt) refl
