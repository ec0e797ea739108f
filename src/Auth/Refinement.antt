-- ===== src/Auth/Refinement.antt =====
-- The service implements the machine of sessions, and what the machine promises holds of the service.
use powergas.Base.{
  ℕ, ◌+◌, ◌≡◌, refl, sym, ap, ◌∙◌, subst, true, false, Option, none, some, List, [], ◌∷◌, arith,
  ◌==◌, ◌&&◌, not, Option-cases, inl, inr,
}
use powergas.Table.{Uuid, Table, IsKeyed, find_one, update, insert}
use powergas.Entities.{Text, Time, RefreshToken}
use powergas.World.{World, Result, ok, err, unauthorized}
use powergas.Auth.{
  Libraries, Environment, AuthTokens, new_token, revoke, revoke_expired, has_live_token,
  refresh_tokens, logout,
}
use powergas.Auth.Sessions.{
  Registry, session_of, registry, opened, closed, tokens, tokens-insert, tokens-update,
  tokens-update_where, was_issued, Lacks-was_issued, find_session, find_session-sessions,
  IsDistinct, sessions, sessions-insert, sessions-update, sessions-update_where_token,
  sessions-update_where_user,
}
use powergas.Auth.Machine.{
  Call, logs_in, refreshes, logs_out, waits, Moves, login_refused, login_opens, refresh_refused,
  refresh_closes, refresh_rotates, logout_one, logout_all, time_passes, IsSpent, Moves-IsSpent,
  Moves-spends,
}
use powergas.Auth.Calls.{step, run, login_cases, refresh_tokens_cases}
use powergas.Auth.Issue.{
  Issued, IsIssued, SignsApart, Lacks-new, update-Issued, update_where-Issued, insert-Issued,
}

-- A row is in the table as the machine sees it.
registry-insert :
    (k : Uuid) (r : RefreshToken) (t : Table RefreshToken)
    → r.is_revoked ≡ false
    → registry (insert k r t) ≡ opened (session_of r) (registry t)
registry-insert k r t live = rw (tokens-insert k r t, sessions-insert k r t live)

-- To revoke the row of a token closes its session.
registry-update :
    (token : Text) (f : RefreshToken → RefreshToken) (t : Table RefreshToken) {k : Uuid}
    {r : RefreshToken}
    → ((v : RefreshToken) → (f v).token ≡ v.token)
    → ((v : RefreshToken) → (f v).is_revoked ≡ true)
    → IsKeyed t
    → IsDistinct t
    → find_one (has_live_token token) t ≡ some (k, r)
    → registry (update k f t) ≡ closed token (registry t)
registry-update token f t {k} keeps revokes keyed distinct found =
    rw (tokens-update f keeps k t, sessions-update token f t revokes keyed distinct found)

module _ (lib : Libraries) (env : Environment) (apart : SignsApart lib) where
  new_token-IsNew :
      (u : Uuid) (device : Option Text) (ip : Text) (agent : Option Text) (now : Time) (n : ℕ)
      (t : Table RefreshToken)
      → Issued lib n t
      → was_issued (new_token lib u n device ip agent now).token (tokens t) ≡ false
  unfolding new_token
  new_token-IsNew u device ip agent now n t h =
      Lacks-was_issued (lib.sign_refresh u n) t (Lacks-new lib apart n u t h.signed)

  refresh-Moves :
      (token ip : Text) (w : World)
      → IsIssued lib w
      → Moves
          (registry w.refresh_tokens)
          (refreshes token ip)
          (registry (refresh_tokens lib token ip w).1.refresh_tokens)
  unfolding new_token revoke revoke_expired
  refresh-Moves token ip w h = elim (refresh_tokens_cases lib env token ip w) [
    | inl (unknown, same_world) ↦
        rw same_world (refresh_refused (find_session-sessions token w.refresh_tokens ∙ rw unknown))
    | inr (k, r, found, ends) ↦
        let held : find_session token (sessions w.refresh_tokens) ≡ some (session_of r) =
          find_session-sessions token w.refresh_tokens ∙ rw found in
        let revoked =
          registry-update token (revoke w.now) w.refresh_tokens (λ v. refl) (λ v. refl) h.keyed
            h.distinct found in
        elim ends [
          | inl expired ↦
              let closes =
                registry-update token revoke_expired w.refresh_tokens (λ v. refl) (λ v. refl)
                  h.keyed h.distinct found in
              rw expired (rw closes (refresh_closes (session_of r) held))
          | inr (inl gone) ↦ rw gone (rw revoked (refresh_closes (session_of r) held))
          | inr (inr rotated) ↦
              let q = new_token lib r.user_id w.next_id r.device_id ip r.user_agent w.now in
              let inserts =
                registry-insert (w.next_id + 1) q (update k (revoke w.now) w.refresh_tokens) refl in
              let new =
                new_token-IsNew r.user_id r.device_id ip r.user_agent w.now w.next_id
                  w.refresh_tokens h in
              rw rotated (
                subst (λ (g : Registry). Moves (registry w.refresh_tokens) (refreshes token ip) g)
                  (sym (inserts ∙ ap (opened (session_of q)) revoked))
                  (refresh_rotates (session_of r) (session_of q) held refl new))
        ]
  ]

  -- Where the tokens in the table were issued by the service, one to a draw, and signatures tell draws
  -- apart: every login, exchange, logout and lapse of time is a move of the machine of sessions, on the
  -- registry of the table.
  pub step-Moves :
      (c : Call) (w : World)
      → IsIssued lib w
      → Moves (registry w.refresh_tokens) c (registry (step lib env c w).refresh_tokens)
  unfolding step logout revoke new_token
  step-Moves (logs_in dto ip agent) w h = elim (login_cases lib env dto ip agent w) [
    | inl (kept, _) ↦ rw kept login_refused
    | inr (u, r, e, inserted, _) ↦
        rw
          (
            inserted,
            e,
            registry-insert (w.next_id + 1) (new_token lib u w.next_id dto.device_id ip agent w.now)
                w.refresh_tokens refl,
          )
          (login_opens _
            (new_token-IsNew u dto.device_id ip agent w.now w.next_id w.refresh_tokens h))
  ]
  step-Moves (refreshes token ip) w h = refresh-Moves token ip w h
  step-Moves (logs_out u (some token)) w h =
      rw
        (
          tokens-update_where (revoke w.now) (λ r. refl) (λ r. r.token == token) w.refresh_tokens,
          sessions-update_where_token token w.now w.refresh_tokens,
        )
        logout_one
  step-Moves (logs_out u none) w h =
      rw
        (
          tokens-update_where (revoke w.now) (λ r. refl) (λ r. (r.user_id == u) && not r.is_revoked)
              w.refresh_tokens,
          sessions-update_where_user u w.now w.refresh_tokens,
        )
        logout_all
  step-Moves (waits n) w h = time_passes

  -- Every call keeps the table as the service fills it.
  pub step-IsIssued : (c : Call) (w : World) → IsIssued lib w → IsIssued lib (step lib env c w)
  unfolding step logout revoke revoke_expired new_token
  step-IsIssued (logs_in dto ip agent) w h = elim (login_cases lib env dto ip agent w) [
    | inl (kept, same_counter) ↦ rw (kept, same_counter) h
    | inr (u, r, e, inserted, counter) ↦
        rw (inserted, counter) (insert-Issued lib apart w.next_id r w.refresh_tokens h (rw e refl))
  ]
  step-IsIssued (refreshes token ip) w h = elim (refresh_tokens_cases lib env token ip w) [
    | inl (unknown, same_world) ↦ rw same_world h
    | inr (k, r, found, inl expired) ↦
        rw expired
          (update-Issued lib revoke_expired (λ v. refl) (λ v. refl) w.next_id k w.refresh_tokens h)
    | inr (k, r, found, inr (inl gone)) ↦
        rw gone
          (update-Issued lib (revoke w.now) (λ v. refl) (λ v. refl) w.next_id k w.refresh_tokens h)
    | inr (k, r, found, inr (inr rotated)) ↦ rw rotated (
        insert-Issued lib apart w.next_id
          (new_token lib r.user_id w.next_id r.device_id ip r.user_agent w.now)
          (update k (revoke w.now) w.refresh_tokens)
          (update-Issued lib (revoke w.now) (λ v. refl) (λ v. refl) w.next_id k w.refresh_tokens h)
          refl)
  ]
  step-IsIssued (logs_out u (some token)) w h =
      update_where-Issued lib (revoke w.now) (λ v. refl) (λ v. refl) w.next_id
        (λ r. r.token == token) w.refresh_tokens h
  step-IsIssued (logs_out u none) w h =
      update_where-Issued lib (revoke w.now) (λ v. refl) (λ v. refl) w.next_id
        (λ r. (r.user_id == u) && not r.is_revoked) w.refresh_tokens h
  step-IsIssued (waits n) w h = h

  run-IsSpent :
      (cs : List Call) (token : Text) (w : World)
      → IsIssued lib w
      → IsSpent token (registry w.refresh_tokens)
      → IsSpent token (registry (run lib env cs w).refresh_tokens)
  unfolding run
  run-IsSpent [] token w h spent = spent
  run-IsSpent (c ∷ cs) token w h spent =
      run-IsSpent cs token (step lib env c w) (step-IsIssued c w h)
        (Moves-IsSpent token (step-Moves c w h) spent)

  find_one-was_issued :
      (token : Text) (t : Table RefreshToken) {k : Uuid} {r : RefreshToken}
      → find_one (has_live_token token) t ≡ some (k, r)
      → was_issued token (tokens t) ≡ true
  unfolding has_live_token
  find_one-was_issued token [] e = cc
  find_one-was_issued token ((j, v) ∷ t) {k} {r} e =
      ground (arith, find_one-was_issued token t {k = k} {r = r})

  -- A spent token is refused, and nothing happens.
  spent_refused :
      (token ip : Text) (w : World)
      → find_session token (sessions w.refresh_tokens) ≡ none
      → refresh_tokens lib token ip w ≡ (err unauthorized, w)
  unfolding refresh_tokens
  spent_refused token ip w gone =
      elim (Option-cases (find_one (has_live_token token) w.refresh_tokens)) [
        | inl unknown ↦ ground arith
        | inr (row, found) ↦
            let held = find_session-sessions token w.refresh_tokens in absurd (ground arith)
      ]

  -- A refresh token is good for one exchange: once it has been exchanged, every later exchange of it is
  -- refused and changes nothing, whatever logins, exchanges, logouts and time lie between. It is supposed
  -- that the table holds issued tokens and that signatures tell draws apart.
  pub refresh_once :
      (token ip ip' : Text) (w w' : World) {tokens : AuthTokens} (cs : List Call)
      → IsIssued lib w
      → refresh_tokens lib token ip w ≡ (ok tokens, w')
      → refresh_tokens lib token ip' (run lib env cs w') ≡ (err unauthorized, run lib env cs w')
  unfolding step
  refresh_once token ip ip' w w' cs h e =
      let after : (refresh_tokens lib token ip w).1 ≡ w' =
        ap (λ (p : Result AuthTokens × World). p.1) e in
      elim (Option-cases (find_one (has_live_token token) w.refresh_tokens)) [
        | inl unknown ↦ absurd (cc (refused_unknown unknown))
        | inr ((k, r), found) ↦
            let held = find_session-sessions token w.refresh_tokens in
            let spent : IsSpent token (registry w'.refresh_tokens) = rw (← after) (
              Moves-spends (session_of r) (refresh-Moves token ip w h) (ground arith)
                (find_one-was_issued token w.refresh_tokens found)) in
            let still : IsIssued lib w' = rw (← after) (step-IsIssued (refreshes token ip) w h) in
            spent_refused token ip' (run lib env cs w') (run-IsSpent cs token w' still spent).1
      ]
    where
      refused_unknown :
          find_one (has_live_token token) w.refresh_tokens ≡ none
          → refresh_tokens lib token ip w ≡ (err unauthorized, w)
      refused_unknown unknown =
          spent_refused token ip w (find_session-sessions token w.refresh_tokens ∙ rw unknown refl)
