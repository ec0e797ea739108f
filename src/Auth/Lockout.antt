-- ===== src/Auth/Lockout.antt =====
-- Passwords tried one after the other against an account.
use powergas.Base.{
  ℕ, ◌+◌, ◌<◌, ◌≤◌, ◌≡◌, ap, sym, subst, ◌∙◌, true, false, some, List, [], ◌∷◌, arith, ◌==◌, length,
  All,
}
use powergas.Table.{Uuid, find_one-find_by_id, IsKeyed, update, update-IsKeyed}
use powergas.Table.Rows.{find_one-update_self}
use powergas.Entities.{Text, Time, User}
use powergas.World.{World, Result, err, unauthorized, forbidden}
use powergas.Users.{is_locked, find_by_email, update_failed_logins}
use powergas.Auth.{
  Libraries, Environment, max_login_attempts, lockout_duration_ms, validate_user, check_password,
  handle_failed_login, count_failure,
}

-- The time goes on.
abbrev pub later : ℕ → World → World
later d w = record w { now = w.now + d }

module _ (lib : Libraries) (env : Environment) (email : Text) where
  -- The world after a list of attempts, each with the time that it was waited before.
  abbrev pub try_all : List (ℕ × Text) → World → World
  try_all [] w = w
  try_all ((d, password) ∷ rest) w =
      try_all rest (validate_user lib env email password (later d w)).1

  -- An attempt with a wrong password on an account that is not locked.
  wrong_password :
      (password : Text) (w : World) {id : Uuid} {u : User}
      → find_by_email email w ≡ some (id, u)
      → is_locked w.now u ≡ false
      → lib.verify_password u.password password ≡ false
      → validate_user lib env email password w ≡ (
        err unauthorized,
        record w {
          users = update id (count_failure env w.now (u.failed_login_attempts + 1)) w.users;
        },
      )
  unfolding validate_user check_password handle_failed_login update_failed_logins
  wrong_password password w found free wrong = ground arith

  locked_refused :
      (password : Text) (w : World) {id : Uuid} {u : User}
      → find_by_email email w ≡ some (id, u)
      → is_locked w.now u ≡ true
      → validate_user lib env email password w ≡ (err forbidden, w)
  unfolding validate_user check_password
  locked_refused password w found locked = ground arith

  -- A write that keeps the address of the account is found under it.
  find_by_email-update :
      (f : User → User) (w : World) {id : Uuid} {u : User}
      → IsKeyed w.users
      → find_by_email email w ≡ some (id, u)
      → ((v : User) → (f v).email ≡ v.email)
      → find_by_email email (record w { users = update id f w.users }) ≡ some (id, f u)
  unfolding find_by_email
  find_by_email-update f w {id} {u} keyed found keeps =
      let (_, own) = find_one-find_by_id (λ v. v.email == email) w.users keyed found in
      find_one-update_self (λ v. v.email == email) f w.users keyed found (rw (keeps u) own)

  count_failure-email :
      (now : Time) (n : ℕ) (u : User) → (count_failure env now n u).email ≡ u.email
  unfolding count_failure
  count_failure-email now n u = ground arith

  count_failure_limit :
      (now d n : ℕ) (u : User)
      → max_login_attempts env ≤ n
      → d < lockout_duration_ms env
      → is_locked (now + d) (count_failure env now n u) ≡ true
  unfolding count_failure is_locked
  count_failure_limit now d n u limit soon = ground arith

  count_failure_below :
      (now n : ℕ) (u : User)
      → n < max_login_attempts env
      → count_failure env now n u ≡ record u { failed_login_attempts = n }
  unfolding count_failure
  count_failure_below now n u below = ground arith

  is_locked-later : (now d : ℕ) (u : User) → is_locked now u ≡ false → is_locked (now + d) u ≡ false
  unfolding is_locked
  is_locked-later now d u free = ground arith

  still_unlocked :
      (now n : ℕ) (u : User)
      → is_locked now u ≡ false
      → is_locked now (record u { failed_login_attempts = n }) ≡ false
  unfolding is_locked
  still_unlocked now n u free = free

  -- What follows a first attempt, of the world that it leaves.
  abbrev IsRefusedAfter : Text → ℕ → List (ℕ × Text) → World → Type 0
  IsRefusedAfter password d rest v =
      validate_user lib env email password (later d (try_all rest v))
      ≡ (err forbidden, later d (try_all rest v))

  -- Once the attempts with a wrong password on an account that is not locked add up to the limit, the account
  -- is locked: until the lockout has passed every attempt is refused, the right password included, and
  -- changes nothing.
  pub validate_user_locks :
      (attempts : List (ℕ × Text)) (password : Text) (d : ℕ) (w : World) {id : Uuid} {u : User}
      → IsKeyed w.users
      → find_by_email email w ≡ some (id, u)
      → is_locked w.now u ≡ false
      → All (λ (_, wrong). lib.verify_password u.password wrong ≡ false) attempts
      → u.failed_login_attempts < max_login_attempts env
      → u.failed_login_attempts + length attempts ≡ max_login_attempts env
      → d < lockout_duration_ms env
      → validate_user lib env email password (later d (try_all attempts w))
        ≡ (err forbidden, later d (try_all attempts w))
  unfolding find_by_email
  validate_user_locks [] password d w keyed found free wrong below total soon = absurd (omega arith)
  validate_user_locks ((x, guess) ∷ []) password d w {id} {u} keyed found free wrong below total
        soon =
      let n = u.failed_login_attempts + 1 in
      let whole = wrong_password guess (later x w) found (is_locked-later w.now x u free) wrong.0 in
      let after =
        find_by_email-update (count_failure env (w.now + x) n) (later x w) keyed found
          (count_failure-email (w.now + x) n) in
      subst (IsRefusedAfter password d [])
        (sym (ap (λ (r : Result (Uuid × User) × World). r.1) whole))
        (locked_refused password _ after (count_failure_limit (w.now + x) d n u (omega arith) soon))
  validate_user_locks ((x, guess) ∷ (b ∷ rest)) password d w {id} {u} keyed found free wrong below
        total soon =
      let n = u.failed_login_attempts + 1 in
      let f = count_failure env (w.now + x) n in
      let unlocked = is_locked-later w.now x u free in
      let whole = wrong_password guess (later x w) found unlocked wrong.0 in
      let after =
        find_by_email-update f (later x w) keyed found (count_failure-email (w.now + x) n) in
      let counted : f u ≡ record u { failed_login_attempts = n } =
        count_failure_below (w.now + x) n u (omega arith) in
      subst (IsRefusedAfter password d (b ∷ rest))
        (sym (ap (λ (r : Result (Uuid × User) × World). r.1) whole))
        (validate_user_locks (b ∷ rest) password d
          (record w { now = w.now + x; users = update id f w.users })
          {u = record u { failed_login_attempts = n }} (update-IsKeyed id f w.users keyed)
          (after ∙ ap (λ (v : User). some (id, v)) counted)
          (still_unlocked (w.now + x) n u unlocked) wrong.1 (omega arith) (omega arith) soon)
