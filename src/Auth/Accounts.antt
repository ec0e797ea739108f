-- ===== src/Auth/Accounts.antt =====
-- What an account is registered as, and what is left to one that is suspended.
use powergas.Base.{◌+◌, ◌*◌, ◌≡◌, ◌≢◌, false, none, some, arith, ltb, Option-cases, inl, inr, ◌⊎◌}
use powergas.Enums.{VerificationStatus}
use powergas.Table.{
  Uuid, find_by_id, find_one, find_newest, update_where, insert, find_by_id-update_self,
}
use powergas.Table.Rows.{find_newest-insert}
use powergas.Entities.{Text, User, RefreshToken, phone_verification}
use powergas.World.{World, ok, err, conflict}
use powergas.Users.{find_by_email_or_phone, create_user, suspend, find_user}
use powergas.Auth.{
  Libraries, Environment, RegisterDto, new_user, new_otp, register, send_phone_otp, is_active_of,
  refresh_tokens, rotate, generate_tokens, has_live_token, is_active_for, use_code,
}
use powergas.Auth.Codes.{active}

module _ (lib : Libraries) (env : Environment) where
  -- A registration is refused where the address or the phone is taken, and changes nothing then. Where both
  -- are free it makes one account, with a password that is stored hashed and the role that the request asks for,
  -- a customer's if it asks for none; and a code is waiting that verifies its phone.
  pub register_lem :
      (dto : RegisterDto) (w : World)
      → let r = register lib env dto w in
        ((find_by_email_or_phone dto.email dto.phone w ≢ none) × (r ≡ (err conflict, w)))
        ⊎ ((find_by_email_or_phone dto.email dto.phone w ≡ none)
            × (r.0 ≡ ok tt)
            × (r.1.users
                ≡ insert (w.next_id + 1) (new_user dto (lib.hash w.next_id dto.password)) w.users)
            × (find_newest (is_active_of (w.next_id + 1) phone_verification) r.1.otp_records
                ≡ some (
                  w.next_id + 1 + 1 + 1,
                  new_otp lib env
                      (some (w.next_id + 1))
                      dto.phone
                      phone_verification
                      (w.next_id + 1 + 1)
                      w.now,
                )))
  unfolding register create_user send_phone_otp
  register_lem dto w =
      let t = update_where (is_active_for dto.phone phone_verification) use_code w.otp_records in
      let c =
        new_otp lib env (some (w.next_id + 1)) dto.phone phone_verification (w.next_id + 1 + 1)
          w.now in
      let waiting =
        find_newest-insert (is_active_of (w.next_id + 1) phone_verification) (w.next_id + 1 + 1 + 1)
          c t
          (active lib env (w.next_id + 1) dto.phone phone_verification (w.next_id + 1 + 1) w.now) in
      elim (Option-cases (find_by_email_or_phone dto.email dto.phone w)) [
        | inr (row, taken) ↦ inl (λ none_. absurd (cc), ground arith)
        | inl free ↦ inr (free, ground arith, ground arith, ground arith)
      ]

  -- A suspended account keeps its sessions: its refresh tokens are exchanged for new ones as before.
  pub refresh_tokens-suspend :
      (token ip : Text) (w : World) {id : Uuid} {r : RefreshToken} {u : User}
      → find_one (has_live_token token) w.refresh_tokens ≡ some (id, r)
      → ltb r.expires_at w.now ≡ false
      → find_by_id r.user_id w.users ≡ some u
      → (refresh_tokens lib token ip (suspend r.user_id w).1).0
        ≡ ok (record {
          access_token = lib.sign r.user_id u.email u.role w.next_id;
          refresh_token = lib.sign_refresh r.user_id w.next_id;
          expires_in = 15 * 60;
        })
  unfolding refresh_tokens rotate generate_tokens suspend find_user
  refresh_tokens-suspend token ip w {id} {r} {u} found current known =
      let still =
        find_by_id-update_self r.user_id (λ u'. record u' { status = VerificationStatus.suspended })
          w.users known in
      ground arith
