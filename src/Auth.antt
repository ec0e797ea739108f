-- ===== src/Auth.antt =====
-- backend/src/auth/auth.service.ts: registration, login, the rotation of refresh tokens, and one-time
-- codes. Hashing (argon2), the signing of tokens (JwtService) and Math.random are parameters; a draw of
-- randomness (a salt, a uuid, a code) is numbered by the counter of keys.
pub mod Sessions
pub mod Machine
pub mod Issue
pub mod Calls
pub mod Refinement
pub mod Lockout
pub mod Codes
pub mod Accounts
use powergas.Base.{
  ℕ, ◌+◌, ◌*◌, Bool, true, false, Option, none, some, ◌==◌, ◌&&◌, not, ltb, leb, or_else, same,
  if◌then◌else◌,
}
use powergas.Enums.{UserRole, customer, VerificationStatus, verification_eq}
use powergas.Table.{Uuid, find_one, find_newest, update, update_where, insert}
use powergas.Entities.{
  Text, Time, User, RefreshToken, OtpRecord, OtpPurpose, phone_verification, other,
}
use powergas.World.{
  ok, err, Action, bad_request, unauthorized, forbidden, conflict, pure, raise, gets, or_raise,
  raise_if, modify, fresh_id, perform_if, ◌>>=◌, ◌>>◌,
}
use powergas.Users.{
  create_user, is_locked, find_by_email, find_by_email_or_phone, find_user, mark_phone_verified,
  reset_failed_logins, update_failed_logins, update_last_login,
}

-- The libraries that the service calls.
pub record Libraries : Type 0 where
  pub hash : Uuid → Text → Text
  pub verify_password : Text → Text → Bool
  pub sign : Uuid → Text → UserRole → Uuid → Text
  pub sign_refresh : Uuid → Uuid → Text
  -- the decimal text of ⌊100000 + random * 900000⌋
  pub random_code : Uuid → Text

-- `MAX_LOGIN_ATTEMPTS`, `LOCKOUT_DURATION_MINUTES` and `OTP_EXPIRY_MINUTES` of the environment.
pub record Environment : Type 0 where
  pub max_login_attempts : Option ℕ
  pub lockout_duration_minutes : Option ℕ
  pub otp_expiry_minutes : Option ℕ

unfoldable pub max_login_attempts : Environment → ℕ
max_login_attempts env = or_else env.max_login_attempts 5

unfoldable pub lockout_duration_ms : Environment → ℕ
lockout_duration_ms env = or_else env.lockout_duration_minutes 30 * 60 * 1000

unfoldable pub otp_expiry_ms : Environment → ℕ
otp_expiry_ms env = or_else env.otp_expiry_minutes 10 * 60000

pub record RegisterDto : Type 0 where
  pub email : Text
  pub phone : Text
  pub password : Text
  pub role : Option UserRole

pub record LoginDto : Type 0 where
  pub email : Text
  pub password : Text
  pub device_id : Option Text

pub record AuthTokens : Type 0 where
  pub access_token : Text
  pub refresh_token : Text
  pub expires_in : ℕ

abbrev pub refresh_lifetime_ms : ℕ
refresh_lifetime_ms = 7 * 24 * 60 * 60 * 1000

-- The row of a new account: what the request leaves out has the default of its column.
unfoldable pub new_user : RegisterDto → Text → User
new_user dto hashed = record {
  email = dto.email;
  phone = dto.phone;
  password = hashed;
  role = or_else dto.role customer;
  status = VerificationStatus.pending;
  email_verified = false;
  phone_verified = false;
  fcm_token = none;
  failed_login_attempts = 0;
  locked_until = none;
  last_login_at = none;
  last_login_ip = none;
}

unfoldable pub revoke : Time → RefreshToken → RefreshToken
revoke now r = record r { is_revoked = true; revoked_at = some now }

unfoldable pub revoke_expired : RefreshToken → RefreshToken
revoke_expired r = record r { is_revoked = true }

-- `where: { token, isRevoked: false }`
unfoldable pub has_live_token : Text → RefreshToken → Bool
has_live_token token r = (r.token == token) && not r.is_revoked

abbrev pub purpose_eq : OtpPurpose → OtpPurpose → Bool
purpose_eq phone_verification phone_verification = true
purpose_eq (other a) (other b) = a == b
purpose_eq _ _ = false

-- `where: { phone, purpose, isUsed: false }`
unfoldable pub is_active_for : Text → OtpPurpose → OtpRecord → Bool
is_active_for phone purpose r = (r.phone == phone) && purpose_eq r.purpose purpose && not r.is_used

-- `where: { userId, purpose, isUsed: false }`
unfoldable pub is_active_of : Uuid → OtpPurpose → OtpRecord → Bool
is_active_of user_id purpose r =
    same r.user_id (some user_id) && purpose_eq r.purpose purpose && not r.is_used

unfoldable pub use_code : OtpRecord → OtpRecord
use_code r = record r { is_used = true }

unfoldable pub set_attempt_count : ℕ → OtpRecord → OtpRecord
set_attempt_count n r = record r { attempt_count = n }

abbrev pub update_otp : Uuid → (OtpRecord → OtpRecord) → Action (Unit {0})
update_otp id f = modify (λ w. record w { otp_records = update id f w.otp_records })

abbrev pub update_token : Uuid → (RefreshToken → RefreshToken) → Action (Unit {0})
update_token id f = modify (λ w. record w { refresh_tokens = update id f w.refresh_tokens })

-- `logout`: the one token that is given, or all of the user that are not revoked.
unfoldable pub logout : Uuid → Option Text → Action (Unit {0})
logout user_id (some token) w = (
  ok tt,
  record w {
    refresh_tokens = update_where (λ r. r.token == token) (revoke w.now) w.refresh_tokens;
  },
)
logout user_id none w = (
  ok tt,
  record w {
    refresh_tokens =
        update_where (λ r. (r.user_id == user_id) && not r.is_revoked) (revoke w.now)
          w.refresh_tokens;
  },
)

-- What a right code does.
unfoldable pub accept_code : Uuid → OtpPurpose → Uuid → Action Bool
accept_code user_id purpose id = do
  update_otp id use_code
  perform_if (purpose_eq purpose phone_verification) (mark_phone_verified user_id)
  pure true

-- The rest of `verifyOtp`, on the newest record that is not used.
unfoldable pub check_code : Uuid → Text → OtpPurpose → Uuid × OtpRecord → Action Bool
check_code user_id code purpose (id, r) = do
  now ← gets (λ w. w.now)
  raise_if (ltb r.expires_at now) bad_request
  raise_if (leb 5 r.attempt_count) bad_request
  elim (r.code == code) [
    | true ↦ accept_code user_id purpose id
    | false ↦ update_otp id (set_attempt_count (r.attempt_count + 1)) >> raise bad_request
  ]

unfoldable pub verify_otp : Uuid → Text → OtpPurpose → Action Bool
verify_otp user_id code purpose = do
  row ←
      or_raise (← gets (λ w. find_newest (is_active_of user_id purpose) w.otp_records)) bad_request
  check_code user_id code purpose row

-- What a right password does.
unfoldable pub admit : Uuid × User → Action (Uuid × User)
admit (id, u) = do
  raise_if (verification_eq u.status VerificationStatus.suspended) forbidden
  reset_failed_logins id
  pure (id, u)

module _ (lib : Libraries) where
  unfoldable pub new_token : Uuid → Uuid → Option Text → Text → Option Text → Time → RefreshToken
  new_token user_id jti device_id ip_address user_agent now = record {
    user_id = user_id;
    token = lib.sign_refresh user_id jti;
    device_id = device_id;
    user_agent = user_agent;
    ip_address = some ip_address;
    expires_at = now + refresh_lifetime_ms;
    is_revoked = false;
    revoked_at = none;
  }

  unfoldable pub generate_tokens :
      Uuid × User → Option Text → Text → Option Text → Action AuthTokens
  generate_tokens (user_id, user) device_id ip_address user_agent = do
    jti ← fresh_id
    now ← gets (λ w. w.now)
    id ← fresh_id
    modify λ w. record w {
      refresh_tokens =
          insert id (new_token user_id jti device_id ip_address user_agent now) w.refresh_tokens;
    }
    pure (record {
      access_token = lib.sign user_id user.email user.role jti;
      refresh_token = lib.sign_refresh user_id jti;
      expires_in = 15 * 60;
    })

  -- The rest of `refreshTokens`, on the record of the token.
  unfoldable pub rotate : Uuid × RefreshToken → Text → Action AuthTokens
  rotate (id, r) ip_address w =
      if ltb r.expires_at w.now
      then (update_token id revoke_expired >> raise unauthorized) w
      else (do
        update_token id (revoke w.now)
        user ← or_raise (← gets (find_user r.user_id)) unauthorized
        generate_tokens (r.user_id, user) r.device_id ip_address r.user_agent)
          w

  unfoldable pub refresh_tokens : Text → Text → Action AuthTokens
  refresh_tokens token ip_address = do
    row ← or_raise (← gets (λ w. find_one (has_live_token token) w.refresh_tokens)) unauthorized
    rotate row ip_address

module _ (env : Environment) where
  -- What a failed login writes on its account.
  unfoldable pub count_failure : Time → ℕ → User → User
  count_failure now attempts u =
      if leb (max_login_attempts env) attempts
      then record u {
        failed_login_attempts = attempts;
        locked_until = some (now + lockout_duration_ms env);
      }
      else record u { failed_login_attempts = attempts }

  unfoldable pub handle_failed_login : Uuid → User → Action (Unit {0})
  handle_failed_login id u = do
    now ← gets (λ w. w.now)
    update_failed_logins id (count_failure now (u.failed_login_attempts + 1))

module _ (lib : Libraries) (env : Environment) where
  unfoldable pub new_otp : Option Uuid → Text → OtpPurpose → Uuid → Time → OtpRecord
  new_otp user_id phone purpose draw now = record {
    user_id = user_id;
    phone = phone;
    code = lib.random_code draw;
    purpose = purpose;
    expires_at = now + otp_expiry_ms env;
    is_used = false;
    attempt_count = 0;
  }

  unfoldable pub send_phone_otp : Option Uuid → Text → OtpPurpose → Action (Unit {0})
  send_phone_otp user_id phone purpose = do
    draw ← fresh_id
    now ← gets (λ w. w.now)
    modify λ w. record w {
      otp_records = update_where (is_active_for phone purpose) use_code w.otp_records;
    }
    id ← fresh_id
    modify λ w. record w {
      otp_records = insert id (new_otp user_id phone purpose draw now) w.otp_records;
    }

  unfoldable pub register : RegisterDto → Action (Unit {0})
  register dto w = elim (find_by_email_or_phone dto.email dto.phone w) [
    | some existing ↦ (err conflict, w)
    | none ↦
        (do
          salt ← fresh_id
          row ← create_user (new_user dto (lib.hash salt dto.password))
          send_phone_otp (some row.0) dto.phone phone_verification)
          w
  ]

  -- The rest of `validateUser`, on the account of the address.
  unfoldable pub check_password : Text → Uuid × User → Action (Uuid × User)
  check_password password (id, u) = do
    now ← gets (λ w. w.now)
    raise_if (is_locked now u) forbidden
    elim (lib.verify_password u.password password) [
      | true ↦ admit (id, u)
      | false ↦ handle_failed_login env id u >> raise unauthorized
    ]

  unfoldable pub validate_user : Text → Text → Action (Uuid × User)
  validate_user email password = do
    row ← or_raise (← gets (find_by_email email)) unauthorized
    check_password password row

  unfoldable pub login : LoginDto → Text → Option Text → Action AuthTokens
  login dto ip_address user_agent = do
    row ← validate_user dto.email dto.password
    update_last_login row.0 ip_address
    generate_tokens lib row dto.device_id ip_address user_agent
