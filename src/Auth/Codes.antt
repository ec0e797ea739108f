-- ===== src/Auth/Codes.antt =====
-- One-time codes: sent, guessed and verified.
use powergas.Base.{
  ℕ, ◌+◌, ◌<◌, ◌≤◌, ◌≡◌, refl, ap, sym, subst, Bool, true, false, Option, some, List, [], ◌∷◌,
  arith, ◌==◌, ltb, length, All, leb, ltb→lt, leb→le, if◌then◌else◌, Bool-cases, inl, inr,
}
use powergas.Table.{Uuid, IsKeyed, find_newest, update, update_where, insert, update-IsKeyed}
use powergas.Table.Rows.{find_newest-update_self, find_newest-insert, find_newest-find_by_id}
use powergas.Entities.{Text, Time, OtpRecord, OtpPurpose, phone_verification, other}
use powergas.World.{World, Result, ok, err, bad_request}
use powergas.Users.{mark_phone_verified, mark_verified}
use powergas.Auth.{
  Libraries, Environment, otp_expiry_ms, new_otp, send_phone_otp, use_code, set_attempt_count,
  is_active_of, is_active_for, verify_otp, check_code, accept_code, purpose_eq,
}

purpose_eq_self : (p : OtpPurpose) → purpose_eq p p ≡ true
purpose_eq_self phone_verification = refl
purpose_eq_self (other a) = ground arith

module _ (user_id : Uuid) (purpose : OtpPurpose) where
  -- The newest record of the user for the purpose that is not used.
  abbrev pub newest : World → Option (Uuid × OtpRecord)
  newest w = find_newest (is_active_of user_id purpose) w.otp_records

  -- The world after a list of guesses.
  abbrev pub guess_all : List Text → World → World
  guess_all [] w = w
  guess_all (code ∷ codes) w = guess_all codes (verify_otp user_id code purpose w).1

  -- A record that takes no more guesses.
  worn_out :
      (code : Text) (w : World) {id : Uuid} {r : OtpRecord}
      → newest w ≡ some (id, r)
      → 5 ≤ r.attempt_count
      → verify_otp user_id code purpose w ≡ (err bad_request, w)
  unfolding verify_otp check_code
  worn_out code w {id} {r} found worn = elim (Bool-cases (ltb r.expires_at w.now)) [
    | inl expired ↦ ground arith
    | inr current ↦ ground arith
  ]

  -- A wrong guess is counted, unless the code has expired.
  counted :
      (code : Text) (w : World) {id : Uuid} {r : OtpRecord}
      → newest w ≡ some (id, r)
      → (r.code == code) ≡ false
      → r.attempt_count < 5
      → w.now ≤ r.expires_at
      → verify_otp user_id code purpose w ≡ (
        err bad_request,
        record w {
          otp_records = update id (set_attempt_count (r.attempt_count + 1)) w.otp_records;
        },
      )
  unfolding verify_otp check_code
  counted code w found wrong fresh current = ground arith

  -- The right code is accepted.
  right_code :
      (code : Text) (w : World) {id : Uuid} {r : OtpRecord}
      → newest w ≡ some (id, r)
      → (r.code == code) ≡ true
      → r.attempt_count < 5
      → w.now ≤ r.expires_at
      → let v = verify_otp user_id code purpose w in
        (v.0 ≡ ok true)
        × (v.1.users ≡ (
            if purpose_eq purpose phone_verification
            then update user_id mark_verified w.users
            else w.users))
  unfolding verify_otp check_code accept_code mark_phone_verified
  right_code code w found right fresh current =
      elim (Bool-cases (purpose_eq purpose phone_verification)) [
        | inl phone ↦ (ground arith, ground arith)
        | inr another ↦ (ground arith, ground arith)
      ]

  expired_refused :
      (code : Text) (w : World) {id : Uuid} {r : OtpRecord}
      → newest w ≡ some (id, r)
      → r.expires_at < w.now
      → verify_otp user_id code purpose w ≡ (err bad_request, w)
  unfolding verify_otp check_code
  expired_refused code w found expired = ground arith

  guess_all_expired :
      (codes : List Text) (w : World) {id : Uuid} {r : OtpRecord}
      → newest w ≡ some (id, r)
      → r.expires_at < w.now
      → guess_all codes w ≡ w
  guess_all_expired [] w found expired = refl
  guess_all_expired (code ∷ codes) w found expired =
      rw (expired_refused code w found expired) (guess_all_expired codes w found expired)

  newest-set_attempt_count :
      (n : ℕ) (w : World) {id : Uuid} {r : OtpRecord}
      → IsKeyed w.otp_records
      → newest w ≡ some (id, r)
      → newest (record w { otp_records = update id (set_attempt_count n) w.otp_records })
        ≡ some (id, set_attempt_count n r)
  unfolding is_active_of set_attempt_count
  newest-set_attempt_count n w keyed found =
      find_newest-update_self (is_active_of user_id purpose) (set_attempt_count n) w.otp_records
        keyed found
        (find_newest-find_by_id (is_active_of user_id purpose) w.otp_records keyed found).1

  -- The newest code that is not used takes five wrong guesses at most: after them every code is refused, the
  -- right one included, and nothing changes any more, as long as no other code is sent.
  pub verify_otp_limited :
      (codes : List Text) (code : Text) (w : World) {id : Uuid} {r : OtpRecord}
      → IsKeyed w.otp_records
      → find_newest (is_active_of user_id purpose) w.otp_records ≡ some (id, r)
      → All (λ c. (r.code == c) ≡ false) codes
      → 5 ≤ r.attempt_count + length codes
      → verify_otp user_id code purpose (guess_all codes w) ≡ (err bad_request, guess_all codes w)
  unfolding set_attempt_count
  verify_otp_limited [] code w keyed found wrong enough = worn_out code w found (omega arith)
  verify_otp_limited (c ∷ cs) code w {id} {r} keyed found wrong enough =
      elim (Bool-cases (ltb r.expires_at w.now)) [
        | inl expired ↦
            let over = ltb→lt r.expires_at w.now expired in
            rw (guess_all_expired (c ∷ cs) w found over) (expired_refused code w found over)
        | inr current ↦ elim (Bool-cases (leb 5 r.attempt_count)) [
          | inl worn ↦
              subst IsRefusedAfter
                (sym (ap (λ (p : Result Bool × World). p.1) (worn_out c w found (leb→le 5 _ worn))))
                (verify_otp_limited cs code w keyed found wrong.1
                  (let many = leb→le 5 r.attempt_count worn in omega arith))
          | inr fresh ↦
              subst IsRefusedAfter
                (sym (
                  ap (λ (p : Result Bool × World). p.1)
                    (counted c w found wrong.0 (ground arith) (ground arith))))
                (verify_otp_limited cs code
                  (record w {
                    otp_records = update id (set_attempt_count (r.attempt_count + 1)) w.otp_records;
                  })
                  (update-IsKeyed id _ w.otp_records keyed)
                  (newest-set_attempt_count (r.attempt_count + 1) w keyed found) wrong.1
                  (omega arith))
        ]
      ]
    where
      IsRefusedAfter : World → Type 0
      IsRefusedAfter v =
          verify_otp user_id code purpose (guess_all cs v) ≡ (err bad_request, guess_all cs v)

module _ (lib : Libraries) (env : Environment) where
  pub active :
      (user_id : Uuid) (phone : Text) (purpose : OtpPurpose) (draw : Uuid) (now : Time)
      → is_active_of user_id purpose (new_otp lib env (some user_id) phone purpose draw now) ≡ true
  unfolding is_active_of new_otp
  active user_id phone purpose draw now = rw (purpose_eq_self purpose) (ground arith)

  -- A code that was sent is accepted until it expires, and only that code; where it was sent to verify
  -- the phone, its user becomes verified.
  pub verify_otp-send_phone_otp :
      (user_id : Uuid) (phone code : Text) (purpose : OtpPurpose) (d : ℕ) (w : World)
      → d ≤ otp_expiry_ms env
      → let sent = (send_phone_otp lib env (some user_id) phone purpose w).1 in
        let r = verify_otp user_id code purpose (record sent { now = sent.now + d }) in
        if code == lib.random_code w.next_id
        then (r.0 ≡ ok true)
          × (r.1.users ≡ (
              if purpose_eq purpose phone_verification
              then update user_id mark_verified w.users
              else w.users))
        else (r.0 ≡ err bad_request) × (r.1.users ≡ w.users)
  unfolding send_phone_otp new_otp
  verify_otp-send_phone_otp user_id phone code purpose d w soon =
      elim (Bool-cases (code == lib.random_code w.next_id)) [
        | inl right ↦
            rw right (
              right_code user_id purpose code sent found (ground arith) (omega arith) (omega arith))
        | inr wrong ↦
            let whole =
              counted user_id purpose code sent found (ground arith) (omega arith) (omega arith) in
            rw wrong (
              ap (λ (p : Result Bool × World). p.0) whole,
              ap (λ (p : Result Bool × World). p.1.users) whole,
            )
      ]
    where
      the_code : OtpRecord
      the_code = new_otp lib env (some user_id) phone purpose w.next_id w.now

      sent : World
      sent = record w {
        otp_records =
            insert (w.next_id + 1) the_code
              (update_where (is_active_for phone purpose) use_code w.otp_records);
        next_id = w.next_id + 1 + 1;
        now = w.now + d;
      }

      found :
          find_newest (is_active_of user_id purpose) sent.otp_records
          ≡ some (w.next_id + 1, the_code)
      found =
          find_newest-insert (is_active_of user_id purpose) (w.next_id + 1) the_code
            (update_where (is_active_for phone purpose) use_code w.otp_records)
            (active user_id phone purpose w.next_id w.now)
