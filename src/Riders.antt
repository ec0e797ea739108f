-- ===== src/Riders.antt =====
-- backend/src/riders/riders.service.ts: profiles, verification, availability and the wallet. The
-- wallet's row is read under a pessimistic write lock, so each wallet operation is one step.
pub mod Wallet
use powergas.Base.{
  ℕ, ℤ, pos, ◌+◌, ◌+ℤ◌, ◌-ℤ◌, ltb_ℤ, Bool, Option, none, some, List, [], ◌∷◌, ◌++◌, ◌==◌, select,
  take, reverse,
}
use powergas.Enums.{
  RiderStatus, VerificationStatus, WalletTransactionType, WalletTransactionReason, credit, debit,
  withdrawal,
}
use powergas.Table.{Uuid, Table, find_by_id, find_one, update, insert}
use powergas.Entities.{Rider, RiderWallet, WalletTransaction, Time}
use powergas.World.{
  World, Action, not_found, bad_request, entity_not_found, pure, gets, or_raise, raise_if, modify,
  fresh_id, transaction, ◌>>=◌, ◌>>◌,
}

abbrev pub update_rider : Uuid → (Rider → Rider) → Action (Unit {0})
update_rider id f = modify (λ w. record w { riders = update id f w.riders })

abbrev pub find_rider : Uuid → Action Rider
find_rider id = do or_raise (← gets (λ w. find_by_id id w.riders)) not_found

unfoldable pub new_rider : Uuid → Option Uuid → Rider
new_rider user_id station_id = record {
  user_id = user_id;
  station_id = station_id;
  verification_status = VerificationStatus.pending;
  status = RiderStatus.offline;
  current_lat = none;
  current_lng = none;
  location_updated_at = none;
}

abbrev pub new_wallet : Uuid → RiderWallet
new_wallet rider_id = record {
  rider_id = rider_id;
  available_balance = pos 0;
  total_earned = pos 0;
  total_withdrawn = pos 0;
  version = 1;
}

unfoldable pub create_profile : Uuid → Option Uuid → Action Uuid
create_profile user_id station_id = do
  rider_id ← fresh_id
  modify (λ w. record w { riders = insert rider_id (new_rider user_id station_id) w.riders })
  wallet_id ← fresh_id
  modify (λ w. record w { wallets = insert wallet_id (new_wallet rider_id) w.wallets })
  pure rider_id

unfoldable pub find_by_user_id : Uuid → Action (Uuid × Rider)
find_by_user_id user_id = do
  or_raise (← gets (λ w. find_one (λ r. r.user_id == user_id) w.riders)) not_found

unfoldable pub review_verification : Uuid → VerificationStatus → Action Rider
review_verification rider_id status = do
  update_rider rider_id (λ r. record r { verification_status = status })
  find_rider rider_id

unfoldable pub set_rider_status : RiderStatus → Rider → Rider
set_rider_status s r = record r { status = s }

unfoldable pub set_availability : Uuid → RiderStatus → Action Rider
set_availability rider_id status = do
  update_rider rider_id (set_rider_status status)
  or_raise (← gets (λ w. find_by_id rider_id w.riders)) entity_not_found

unfoldable pub update_location : Uuid → ℤ → ℤ → Action (Unit {0})
update_location rider_id lat lng w =
    update_rider rider_id
      (λ r. record r {
        current_lat = some lat;
        current_lng = some lng;
        location_updated_at = some w.now;
      })
      w

-- `where: { riderId }` on the wallets.
abbrev pub wallet_of : Uuid → Table RiderWallet → Option (Uuid × RiderWallet)
wallet_of rider_id = find_one (λ v. v.rider_id == rider_id)

abbrev pub find_wallet : Uuid → Action (Uuid × RiderWallet)
find_wallet rider_id = do or_raise (← gets (λ w. wallet_of rider_id w.wallets)) not_found

unfoldable pub get_wallet : Uuid → Action RiderWallet
get_wallet rider_id = do pure (← find_wallet rider_id).1

abbrev pub update_wallet : Uuid → (RiderWallet → RiderWallet) → Action (Unit {0})
update_wallet id f = modify (λ w. record w { wallets = update id f w.wallets })

abbrev pub save_transaction : WalletTransaction → Action (Unit {0})
save_transaction t =
    modify (λ w. record w { wallet_transactions = w.wallet_transactions ++ t ∷ [] })

unfoldable pub earn : ℤ → RiderWallet → RiderWallet
earn amount v = record v {
  available_balance = v.available_balance +ℤ amount;
  total_earned = v.total_earned +ℤ amount;
  version = v.version + 1;
}

abbrev pub credit_entry :
    ℤ → Uuid → WalletTransactionReason → Uuid × RiderWallet → WalletTransaction
credit_entry amount order_id reason (id, v) = record {
  wallet_id = id;
  rider_id = v.rider_id;
  type = credit;
  reason = reason;
  amount = amount;
  balance_after = v.available_balance +ℤ amount;
  order_id = some order_id;
}

unfoldable pub credit_wallet : Uuid → ℤ → Uuid → WalletTransactionReason → Action WalletTransaction
credit_wallet rider_id amount order_id reason = transaction (do
  row ← find_wallet rider_id
  update_wallet row.0 (earn amount)
  save_transaction (credit_entry amount order_id reason row)
  pure (credit_entry amount order_id reason row))

unfoldable pub withdraw : ℤ → RiderWallet → RiderWallet
withdraw amount v = record v {
  available_balance = v.available_balance -ℤ amount;
  total_withdrawn = v.total_withdrawn +ℤ amount;
  version = v.version + 1;
}

abbrev pub debit_entry : ℤ → Uuid × RiderWallet → WalletTransaction
debit_entry amount (id, v) = record {
  wallet_id = id;
  rider_id = v.rider_id;
  type = debit;
  reason = withdrawal;
  amount = amount;
  balance_after = v.available_balance -ℤ amount;
  order_id = none;
}

unfoldable pub request_withdrawal : Uuid → ℤ → Action WalletTransaction
request_withdrawal rider_id amount = transaction (do
  row ← find_wallet rider_id
  raise_if (ltb_ℤ row.1.available_balance amount) bad_request
  update_wallet row.0 (withdraw amount)
  save_transaction (debit_entry amount row)
  pure (debit_entry amount row))

-- `take: 100`, the newest first.
unfoldable pub get_transactions : Uuid → World → List WalletTransaction
get_transactions rider_id w =
    take 100 (reverse (select (λ t. t.rider_id == rider_id) w.wallet_transactions))
