-- ===== src/Auth/Calls.antt =====
-- The calls on the service, one after the other, against the machine of sessions.
use powergas.Base.{
  ◌+◌, ◌≡◌, refl, ◌⊎◌, Option, none, some, List, [], ◌∷◌, arith, ltb, Bool-cases, Option-cases, inl,
  inr,
}
use powergas.Enums.{VerificationStatus, verification_eq}
use powergas.Table.{Uuid, find_by_id, find_one, update, insert}
use powergas.Entities.{Text, User, RefreshToken}
use powergas.World.{World, Result-cases}
use powergas.Users.{
  find_user, find_by_email, update_last_login, reset_failed_logins, update_failed_logins, is_locked,
}
use powergas.Auth.{
  Libraries, Environment, LoginDto, new_token, revoke, revoke_expired, has_live_token, login,
  validate_user, check_password, admit, handle_failed_login, generate_tokens, refresh_tokens,
  rotate, logout,
}
use powergas.Auth.Machine.{Call, logs_in, refreshes, logs_out, waits}

-- The world after a token has been issued.
abbrev pub issue : RefreshToken → World → World
issue r w = record w {
  next_id = w.next_id + 1 + 1;
  refresh_tokens = insert (w.next_id + 1) r w.refresh_tokens;
}

-- What a call leaves as it is that writes no token.
abbrev KeepsTokens : World → World → Type 0
KeepsTokens w w' =
    (w'.refresh_tokens ≡ w.refresh_tokens) × (w.next_id ≡ w'.next_id) × (w'.now ≡ w.now)

module _ (lib : Libraries) (env : Environment) where
  generate_tokens_lem :
      (u : Uuid × User) (device : Option Text) (ip : Text) (agent : Option Text) (w : World)
      → (generate_tokens lib u device ip agent w).1
        ≡ issue (new_token lib u.0 w.next_id device ip agent w.now) w
  unfolding generate_tokens
  generate_tokens_lem (id, u) device ip agent w = refl

  validate_user-KeepsTokens :
      (email password : Text) (w : World) → KeepsTokens w (validate_user lib env email password w).1
  unfolding validate_user check_password admit handle_failed_login reset_failed_logins
      update_failed_logins
  validate_user-KeepsTokens email password w = elim (Option-cases (find_by_email email w)) [
    | inl unknown ↦ ground arith
    | inr ((id, u), found) ↦ elim (Bool-cases (is_locked w.now u)) [
      | inl locked ↦ ground arith
      | inr open_ ↦ elim (Bool-cases (lib.verify_password u.password password)) [
        | inl right ↦ elim (Bool-cases (verification_eq u.status VerificationStatus.suspended)) [
          | inl suspended ↦ ground arith
          | inr active ↦ ground arith
        ]
        | inr wrong ↦ ground arith
      ]
    ]
  ]

  unfoldable pub step : Call → World → World
  step (logs_in dto ip agent) w = (login lib env dto ip agent w).1
  step (refreshes token ip) w = (refresh_tokens lib token ip w).1
  step (logs_out u token) w = (logout u token w).1
  step (waits n) w = record w { now = w.now + n }

  unfoldable pub run : List Call → World → World
  run [] w = w
  run (c ∷ cs) w = run cs (step c w)

  -- How a login ends, for the tokens.
  pub login_cases :
      (dto : LoginDto) (ip : Text) (agent : Option Text) (w : World)
      → let w' = (login lib env dto ip agent w).1 in
        ((w'.refresh_tokens ≡ w.refresh_tokens) × (w'.next_id ≡ w.next_id))
        ⊎ ((u : Uuid) × (r : RefreshToken) × (r
              ≡ new_token lib u w.next_id dto.device_id ip agent w.now)
            × (w'.refresh_tokens ≡ insert (w.next_id + 1) r w.refresh_tokens)
            × (w'.next_id ≡ w.next_id + 1 + 1))
  unfolding login update_last_login generate_tokens
  login_cases dto ip agent w =
      let kept = validate_user-KeepsTokens dto.email dto.password w in
      elim (Result-cases (validate_user lib env dto.email dto.password w)) [
        | inr (e, refused) ↦ inl (ground arith)
        | inl ((id, u), admitted) ↦ inr (
          id,
          new_token lib id w.next_id dto.device_id ip agent w.now,
          refl,
          ground arith,
          ground arith,
        )
      ]

  -- How a refresh ends, for the tokens.
  pub refresh_tokens_cases :
      (token ip : Text) (w : World)
      → let w' = (refresh_tokens lib token ip w).1 in
        ((find_one (has_live_token token) w.refresh_tokens ≡ none) × (w' ≡ w))
        ⊎ ((k : Uuid) × (r : RefreshToken) × (find_one (has_live_token token) w.refresh_tokens
              ≡ some (k, r))
            × ((w' ≡ record w { refresh_tokens = update k revoke_expired w.refresh_tokens })
                ⊎ ((w' ≡ record w { refresh_tokens = update k (revoke w.now) w.refresh_tokens })
                    ⊎ (w'
                        ≡ issue
                            (new_token lib r.user_id w.next_id r.device_id ip r.user_agent w.now)
                            (record w {
                              refresh_tokens = update k (revoke w.now) w.refresh_tokens;
                            })))))
  unfolding refresh_tokens rotate generate_tokens find_user
  refresh_tokens_cases token ip w =
      elim (Option-cases (find_one (has_live_token token) w.refresh_tokens)) [
        | inl unknown ↦ inl (unknown, ground arith)
        | inr ((k, r), found) ↦ inr (
          k,
          r,
          found,
          elim (Bool-cases (ltb r.expires_at w.now)) [
            | inl expired ↦ inl (ground arith)
            | inr current ↦ inr (elim (Option-cases (find_by_id r.user_id w.users)) [
              | inl gone ↦ inl (ground arith)
              | inr (u, known) ↦ inr (ground arith)
            ])
          ],
        )
      ]
