-- ===== src/Auth/Sessions.antt =====
-- The refresh tokens as a machine of sessions: what the service promises of them, whatever the table
-- that it keeps.
use powergas.Base.{
  ◌≡◌, refl, subst, Bool, true, false, Option, none, some, List, [], ◌∷◌, ◌++◌, arith, ◌==◌, ◌&&◌,
  ◌||◌, not, select, if◌then◌else◌, Bool-cases, inl, inr,
}
use powergas.Table.{
  Uuid, Table, IsKeyed, AllRows, find_one, update, update_where, insert, find_one-find_by_id,
}
use powergas.Entities.{Text, Time, RefreshToken}
use powergas.Auth.{revoke, has_live_token}

-- A session is a token that can be exchanged, until it expires.
pub record Session : Type 0 where
  pub token : Text
  pub user_id : Uuid
  pub expires_at : Time

abbrev pub session_of : RefreshToken → Session
session_of r = record { token = r.token; user_id = r.user_id; expires_at = r.expires_at }

-- The sessions that a table holds: its tokens that are not revoked.
abbrev pub sessions : Table RefreshToken → List Session
sessions [] = []
sessions ((_, r) ∷ t) = if r.is_revoked then sessions t else session_of r ∷ sessions t

-- The machine: a session is opened under a new token, one is closed by its token, or all of a user.
abbrev pub close_session : Text → List Session → List Session
close_session token = select λ s. not (s.token == token)

abbrev pub close_sessions_of : Uuid → List Session → List Session
close_sessions_of user_id = select λ s. not (s.user_id == user_id)

abbrev pub open_session : Session → List Session → List Session
open_session s ss = ss ++ s ∷ []

abbrev pub find_session : Text → List Session → Option Session
find_session token [] = none
find_session token (s ∷ ss) = if s.token == token then some s else find_session token ss

-- What the machine knows: every token that was ever handed out, and the sessions that are open.
pub record Registry : Type 0 where
  pub issued : List Text
  pub live : List Session

abbrev pub tokens : Table RefreshToken → List Text
tokens [] = []
tokens ((_, r) ∷ t) = r.token ∷ tokens t

abbrev pub registry : Table RefreshToken → Registry
registry t = record { issued = tokens t; live = sessions t }

abbrev pub was_issued : Text → List Text → Bool
was_issued token [] = false
was_issued token (x ∷ xs) = (x == token) || was_issued token xs

abbrev pub opened : Session → Registry → Registry
opened s g = record { issued = g.issued ++ s.token ∷ []; live = open_session s g.live }

abbrev pub closed : Text → Registry → Registry
closed token g = record g { live = close_session token g.live }

abbrev pub closed_all : Uuid → Registry → Registry
closed_all user_id g = record g { live = close_sessions_of user_id g.live }

-- The session under a token is the row that the service looks up.
pub find_session-sessions :
    (token : Text) (t : Table RefreshToken)
    → find_session token (sessions t)
      ≡ elim (find_one (has_live_token token) t) [ none ↦ none | some (_, r) ↦ some (session_of r) ]
unfolding has_live_token
find_session-sessions token [] = refl
find_session-sessions token ((j, v) ∷ t) = ground (arith, find_session-sessions token t)

pub tokens-insert :
    (k : Uuid) (r : RefreshToken) (t : Table RefreshToken)
    → tokens (insert k r t) ≡ tokens t ++ r.token ∷ []
tokens-insert k r [] = refl
tokens-insert k r ((j, v) ∷ t) = rw (tokens-insert k r t)

module _ (f : RefreshToken → RefreshToken)
    (keeps : (r : RefreshToken) → (f r).token ≡ r.token) where
  pub tokens-update : (k : Uuid) (t : Table RefreshToken) → tokens (update k f t) ≡ tokens t
  tokens-update k [] = refl
  tokens-update k ((j, v) ∷ t) = ground (arith, tokens-update k t, keeps v)

  pub tokens-update_where :
      (q : RefreshToken → Bool) (t : Table RefreshToken) → tokens (update_where q f t) ≡ tokens t
  tokens-update_where q [] = refl
  tokens-update_where q ((j, v) ∷ t) = ground (arith, tokens-update_where q t, keeps v)

pub sessions-insert :
    (k : Uuid) (r : RefreshToken) (t : Table RefreshToken)
    → r.is_revoked ≡ false
    → sessions (insert k r t) ≡ open_session (session_of r) (sessions t)
sessions-insert k r [] live = rw live
sessions-insert k r ((j, v) ∷ t) live = ground (arith, sessions-insert k r t live)

pub sessions-update_where_token :
    (token : Text) (now : Time) (t : Table RefreshToken)
    → sessions (update_where (λ r. r.token == token) (revoke now) t)
      ≡ close_session token (sessions t)
unfolding revoke
sessions-update_where_token token now [] = refl
sessions-update_where_token token now ((j, v) ∷ t) =
    ground (arith, sessions-update_where_token token now t)

pub sessions-update_where_user :
    (user_id : Uuid) (now : Time) (t : Table RefreshToken)
    → sessions (update_where (λ r. (r.user_id == user_id) && not r.is_revoked) (revoke now) t)
      ≡ close_sessions_of user_id (sessions t)
unfolding revoke
sessions-update_where_user user_id now [] = refl
sessions-update_where_user user_id now ((j, v) ∷ t) =
    ground (arith, sessions-update_where_user user_id now t)

-- No row has the token.
abbrev pub Lacks : Text → Table RefreshToken → Type 0
Lacks token = AllRows λ r. (r.token == token) ≡ false

-- No token stands in two rows.
abbrev pub IsDistinct : Table RefreshToken → Type 0
IsDistinct [] = Unit
IsDistinct ((_, r) ∷ t) = Lacks r.token t × IsDistinct t

Lacks-close_session :
    (token : Text) (t : Table RefreshToken)
    → Lacks token t
    → close_session token (sessions t) ≡ sessions t
Lacks-close_session token [] h = refl
Lacks-close_session token ((j, v) ∷ t) h = ground (arith, Lacks-close_session token t h.1)

pub Lacks-was_issued :
    (token : Text) (t : Table RefreshToken) → Lacks token t → was_issued token (tokens t) ≡ false
Lacks-was_issued token [] h = refl
Lacks-was_issued token ((j, v) ∷ t) h = rw h.0 (Lacks-was_issued token t h.1)

-- To revoke the one row of a token is to close_session its session.
pub sessions-update :
    (token : Text) (f : RefreshToken → RefreshToken) (t : Table RefreshToken) {k : Uuid}
    {r : RefreshToken}
    → ((v : RefreshToken) → (f v).is_revoked ≡ true)
    → IsKeyed t
    → IsDistinct t
    → find_one (has_live_token token) t ≡ some (k, r)
    → sessions (update k f t) ≡ close_session token (sessions t)
unfolding has_live_token
sessions-update token f [] revokes keyed distinct e = cc
sessions-update token f ((j, v) ∷ t) {k} {r} revokes keyed distinct e =
    elim (Bool-cases (has_live_token token v)) [
      | inl hit ↦
          let same_token : v.token ≡ token = ground arith in
          let lacks =
            Lacks-close_session token t (subst (λ (x : Text). Lacks x t) same_token distinct.0) in
          let gone = revokes v in ground arith
      | inr miss ↦
          let (at_key, _) =
            find_one-find_by_id (has_live_token token) t {k = k} {v = r} keyed.1 (ground arith) in
          let rest =
            sessions-update token f t {k = k} {r = r} revokes keyed.1 distinct.1 (ground arith) in
          ground arith
    ]
