-- ===== src/Auth/Machine.antt =====
-- The machine of sessions: what a call on the service may do to the sessions that are open.
use powergas.Base.{
  ℕ, ◌≡◌, refl, Bool, true, false, Option, none, some, List, [], ◌∷◌, ◌++◌, arith, ◌==◌, select,
}
use powergas.Table.{Uuid}
use powergas.Entities.{Text}
use powergas.Auth.{LoginDto}
use powergas.Auth.Sessions.{
  Session, Registry, find_session, was_issued, opened, closed, closed_all, close_session,
}

-- A call on the service, or the time passing to a later moment.
pub data Call : Type 0 where
  logs_in : LoginDto → Text → Option Text → Call
  refreshes : Text → Text → Call
  logs_out : Uuid → Option Text → Call
  waits : ℕ → Call

-- An exchange of a token closes its session, and opens another for the same user, or none where the
-- token has expired or its user is gone. A session opens under a token that was never handed out.
pub data Moves (g : Registry) : Call → Registry → Type 0 where
  login_refused :
      {dto : LoginDto} {ip : Text} {agent : Option Text} → Moves g (logs_in dto ip agent) g
  login_opens :
      {dto : LoginDto} {ip : Text} {agent : Option Text} (s : Session)
      → was_issued s.token g.issued ≡ false
      → Moves g (logs_in dto ip agent) (opened s g)
  refresh_refused :
      {token ip : Text} → find_session token g.live ≡ none → Moves g (refreshes token ip) g
  refresh_closes :
      {token ip : Text} (old : Session)
      → find_session token g.live ≡ some old
      → Moves g (refreshes token ip) (closed token g)
  refresh_rotates :
      {token ip : Text} (old s : Session)
      → find_session token g.live ≡ some old
      → s.user_id ≡ old.user_id
      → was_issued s.token g.issued ≡ false
      → Moves g (refreshes token ip) (opened s (closed token g))
  logout_one : {u : Uuid} {token : Text} → Moves g (logs_out u (some token)) (closed token g)
  logout_all : {u : Uuid} → Moves g (logs_out u none) (closed_all u g)
  time_passes : {n : ℕ} → Moves g (waits n) g

-- A token that was handed out and holds no session.
abbrev pub IsSpent : Text → Registry → Type 0
IsSpent token g = (was_issued token g.issued ≡ true) × (find_session token g.live ≡ none)

find_session-select :
    (p : Session → Bool) (token : Text) (ss : List Session)
    → find_session token ss ≡ none
    → find_session token (select p ss) ≡ none
find_session-select p token [] h = refl
find_session-select p token (s ∷ ss) h = ground (arith, find_session-select p token ss)

find_session-append :
    (token : Text) (s : Session) (ss : List Session)
    → find_session token ss ≡ none
    → (s.token == token) ≡ false
    → find_session token (ss ++ s ∷ []) ≡ none
find_session-append token s [] h other = rw other
find_session-append token s (x ∷ ss) h other = ground (arith, find_session-append token s ss)

was_issued-append :
    (token x : Text) (xs : List Text)
    → was_issued token xs ≡ true
    → was_issued token (xs ++ x ∷ []) ≡ true
was_issued-append token x [] h = cc
was_issued-append token x (y ∷ ys) h = ground (arith, was_issued-append token x ys)

pub find_session-close_session :
    (token : Text) (ss : List Session) → find_session token (close_session token ss) ≡ none
find_session-close_session token [] = refl
find_session-close_session token (s ∷ ss) = ground (arith, find_session-close_session token ss)

opened-IsSpent :
    (token : Text) (s : Session) (g : Registry)
    → was_issued s.token g.issued ≡ false
    → IsSpent token g
    → IsSpent token (opened s g)
opened-IsSpent token s g new (before, gone) =
    (was_issued-append token s.token g.issued before, find_session-append token s g.live gone other)
  where
    other : (s.token == token) ≡ false
    other = ground arith

-- Whatever the machine does, a spent token stays spent.
pub Moves-IsSpent :
    {g g' : Registry} {c : Call} (token : Text) → Moves g c g' → IsSpent token g → IsSpent token g'
Moves-IsSpent token login_refused h = h
Moves-IsSpent {g} token (login_opens s new) h = opened-IsSpent token s g new h
Moves-IsSpent token (refresh_refused _) h = h
Moves-IsSpent {g} token (refresh_closes _ _) h = (h.0, find_session-select _ token g.live h.1)
Moves-IsSpent {g} token (refresh_rotates {token = t} old s _ _ new) h =
    opened-IsSpent token s (closed t g) new (h.0, find_session-select _ token g.live h.1)
Moves-IsSpent {g} token logout_one h = (h.0, find_session-select _ token g.live h.1)
Moves-IsSpent {g} token logout_all h = (h.0, find_session-select _ token g.live h.1)
Moves-IsSpent token time_passes h = h

-- The exchange of a token that holds a session spends it.
pub Moves-spends :
    {g : Registry} {token ip : Text} {g' : Registry} (held : Session)
    → Moves g (refreshes token ip) g'
    → find_session token g.live ≡ some held
    → was_issued token g.issued ≡ true
    → IsSpent token g'
Moves-spends held (refresh_refused gone) h before = absurd (cc)
Moves-spends {g} {token = token} held (refresh_closes _ _) h before =
    (before, find_session-close_session token g.live)
Moves-spends {g} {token = token} held (refresh_rotates old s _ _ new) h before =
    opened-IsSpent token s (closed token g) new (before, find_session-close_session token g.live)
