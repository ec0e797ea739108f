-- ===== src/Examples/Signing.antt =====
-- Logins, exchanged tokens and one-time codes.
use powergas.Base.{◌+◌, ◌≡◌, refl, true, false, none, some, [], ◌∷◌, arith, ◌==◌}
use powergas.Enums.{customer, OrderStatus, RiderStatus, VerificationStatus}
use powergas.Table.{update}
use powergas.Entities.{User, OtpRecord, phone_verification}
use powergas.World.{World, ok, err, unauthorized, forbidden, bad_request}
use powergas.Users.{
  mark_verified, find_by_email, is_locked, reset_failed_logins, update_last_login, find_user,
}
use powergas.Auth.{
  Libraries, Environment, LoginDto, login, refresh_tokens, validate_user, verify_otp,
  send_phone_otp, check_password, admit, generate_tokens, has_live_token, new_token, rotate,
  max_login_attempts, lockout_duration_ms, is_active_of, otp_expiry_ms,
}
use powergas.Auth.Sessions.{registry}
use powergas.Auth.Machine.{Moves, refreshes, logs_in, waits}
use powergas.Auth.Issue.{IsIssued, SignsApart}
use powergas.Auth.Calls.{step, run}
use powergas.Auth.Refinement.{step-Moves, step-IsIssued, refresh_once}
use powergas.Auth.Lockout.{later, try_all, validate_user_locks}
use powergas.Auth.Codes.{guess_all, verify_otp_limited, verify_otp-send_phone_otp}
use powergas.Examples.Data.{world}

-- A password is stored as it is, and a token is its draw.
abbrev pub lib : Libraries
lib = record {
  hash = λ salt password. password;
  verify_password = λ stored password. stored == password;
  sign = λ user email role jti. jti;
  sign_refresh = λ user jti. jti;
  random_code = λ draw. 100000 + draw;
}

abbrev pub env : Environment
env = record {
  max_login_attempts = some 3;
  lockout_duration_minutes = none;
  otp_expiry_minutes = none;
}

apart : SignsApart lib
apart u u' j j' e = e

abbrev pub the_user : User
the_user = record {
  email = 70;
  phone = 71;
  password = 72;
  role = customer;
  status = VerificationStatus.verified;
  email_verified = false;
  phone_verified = false;
  fcm_token = none;
  failed_login_attempts = 1;
  locked_until = none;
  last_login_at = none;
  last_login_ip = none;
}

abbrev start : World
start = record (world OrderStatus.pending none RiderStatus.available) { users = (7, the_user) ∷ [] }

abbrev the_login : LoginDto
the_login = record { email = 70; password = 72; device_id = none }

-- The user logs in, and holds the token 100.
abbrev pub logged_in : World
logged_in = (login lib env the_login 1 none start).1

start-IsIssued : IsIssued lib start
start-IsIssued = record { keyed = tt; below = tt; distinct = tt; signed = tt }

logged_in-IsIssued : IsIssued lib logged_in
unfolding step
logged_in-IsIssued = step-IsIssued lib env apart (logs_in the_login 1 none) start start-IsIssued

abbrev exchanged : World
exchanged = (refresh_tokens lib 100 1 logged_in).1

step-Moves_example :
    Moves
      (registry logged_in.refresh_tokens)
      (refreshes 100 1)
      (registry (step lib env (refreshes 100 1) logged_in).refresh_tokens)
step-Moves_example = step-Moves lib env apart (refreshes 100 1) logged_in logged_in-IsIssued

-- The user logs in again an hour later, and the old token is tried.
refresh_once_example :
    refresh_tokens lib 100 9 (run lib env (waits 3600000 ∷ logs_in the_login 1 none ∷ []) exchanged)
    ≡ (err unauthorized, run lib env (waits 3600000 ∷ logs_in the_login 1 none ∷ []) exchanged)
unfolding refresh_tokens login validate_user find_by_email check_password is_locked admit
    reset_failed_logins update_last_login generate_tokens has_live_token new_token rotate find_user
refresh_once_example =
    refresh_once lib env apart 100 1 9 logged_in exchanged
      (waits 3600000 ∷ logs_in the_login 1 none ∷ []) logged_in-IsIssued refl

-- Two wrong passwords, the second of them ten seconds after the first, and the right one a minute later.
validate_user_locks_example :
    validate_user lib env 70 72 (later 60000 (try_all lib env 70 ((0, 1) ∷ (10000, 2) ∷ []) start))
    ≡ (err forbidden, later 60000 (try_all lib env 70 ((0, 1) ∷ (10000, 2) ∷ []) start))
unfolding find_by_email is_locked max_login_attempts lockout_duration_ms
validate_user_locks_example =
    validate_user_locks lib env 70 ((0, 1) ∷ (10000, 2) ∷ []) 72 60000 start {id = 7} {u = the_user}
      (refl, tt) refl refl (refl, (refl, tt)) (omega arith) (omega arith) (omega arith)

-- A code with three wrong guesses against it.
abbrev guessed : OtpRecord
guessed = record {
  user_id = some 7;
  phone = 71;
  code = 123456;
  purpose = phone_verification;
  expires_at = 600000;
  is_used = false;
  attempt_count = 3;
}

abbrev asked : World
asked = record start { otp_records = (30, guessed) ∷ [] }

verify_otp_limited_example :
    verify_otp 7 123456 phone_verification (guess_all 7 phone_verification (1 ∷ 2 ∷ []) asked)
    ≡ (err bad_request, guess_all 7 phone_verification (1 ∷ 2 ∷ []) asked)
unfolding is_active_of
verify_otp_limited_example =
    verify_otp_limited 7 phone_verification (1 ∷ 2 ∷ []) 123456 asked {id = 30} {r = guessed}
      (refl, tt) refl (refl, (refl, tt)) (omega arith)

verify_otp-send_phone_otp_example :
    let sent = (send_phone_otp lib env (some 7) 71 phone_verification asked).1 in
    let r = verify_otp 7 100100 phone_verification (record sent { now = sent.now + 60000 }) in
    (r.0 ≡ ok true) × (r.1.users ≡ update 7 mark_verified asked.users)
unfolding otp_expiry_ms
verify_otp-send_phone_otp_example =
    verify_otp-send_phone_otp lib env 7 71 100100 phone_verification 60000 asked (omega arith)
