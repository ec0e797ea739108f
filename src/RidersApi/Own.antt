-- ===== src/RidersApi/Own.antt =====
-- Whose wallet a withdrawal is from.
use powergas.Base.{ℤ, ◌≡◌, ◌≢◌, ◌∙◌, some, [], ◌∷◌, ◌==◌, arith, Option-cases, inl, inr}
use powergas.Table.{Uuid, IsKeyed, find_by_id, find_one, find_one-find_by_id, find_by_id-update_ne}
use powergas.Entities.{Rider, RiderWallet}
use powergas.World.{World}
use powergas.Enums.{rider}
use powergas.Guards.{JwtPayload, guarded_cases}
use powergas.Riders.{find_by_user_id, request_withdrawal, withdraw}
use powergas.Riders.Wallet.{request_withdrawal_cases}
use powergas.RidersApi.{withdraw_as, post_withdrawal}

-- A withdrawal of a rider touches the rider's wallet alone.
request_withdrawal-other :
    (rider_id : Uuid) (amount : ℤ) (w : World) (k : Uuid) {v : RiderWallet}
    → IsKeyed w.wallets
    → find_by_id k w.wallets ≡ some v
    → v.rider_id ≢ rider_id
    → find_by_id k (request_withdrawal rider_id amount w).1.wallets ≡ some v
request_withdrawal-other rider_id amount w k {v} keyed held other =
    elim (request_withdrawal_cases rider_id amount w) [
      | inl (_, e) ↦ rw e held
      | inr (k', v', found, _, e) ↦
          let (at_key, own) =
            find_one-find_by_id (λ (u : RiderWallet). u.rider_id == rider_id) w.wallets keyed
              found in
          let apart : k' ≢ k = λ same_key. absurd (ground arith) in
          rw e (find_by_id-update_ne k' k (withdraw amount) w.wallets apart ∙ held)
    ]

-- The rest of `withdraw`, for its user.
withdraw_as-other :
    (user_id : Uuid) (amount : ℤ) (w : World) (k : Uuid) {v : RiderWallet} {r : Rider}
    → IsKeyed w.riders
    → IsKeyed w.wallets
    → find_by_id k w.wallets ≡ some v
    → find_by_id v.rider_id w.riders ≡ some r
    → r.user_id ≢ user_id
    → find_by_id k (withdraw_as amount user_id w).1.wallets ≡ some v
unfolding withdraw_as find_by_user_id
withdraw_as-other user_id amount w k {v} {r} keyed keyed_w held its_rider other =
    elim (Option-cases (find_one (λ (q : Rider). q.user_id == user_id) w.riders)) [
      | inl none_ ↦ ground arith
      | inr ((rider_id, q), found) ↦
          let (at_key, own) =
            find_one-find_by_id (λ (q : Rider). q.user_id == user_id) w.riders keyed found in
          let apart : v.rider_id ≢ rider_id = λ same_rider. absurd (ground arith) in
          let kept = request_withdrawal-other rider_id amount w k keyed_w held apart in ground arith
    ]

-- Whoever asks for a withdrawal, of whatever amount, and however it ends: the wallet of a rider who is
-- another user is left as it is. Riders and wallets have one row to a key.
pub post_withdrawal-other :
    (p : JwtPayload) (amount : ℤ) (w : World) (k : Uuid) {v : RiderWallet} {r : Rider}
    → IsKeyed w.riders
    → IsKeyed w.wallets
    → find_by_id k w.wallets ≡ some v
    → find_by_id v.rider_id w.riders ≡ some r
    → r.user_id ≢ p.sub
    → find_by_id k (post_withdrawal (some p) amount w).1.wallets ≡ some v
unfolding post_withdrawal
post_withdrawal-other p amount w k keyed keyed_w held its_rider other =
    elim (guarded_cases (rider ∷ []) p (λ (id, _). withdraw_as amount id) w) [
      | inl (_, refused) ↦ rw refused held
      | inr (u, _, runs) ↦
          rw runs (withdraw_as-other p.sub amount w k keyed keyed_w held its_rider other)
    ]
