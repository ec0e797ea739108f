-- ===== src/Guards.antt =====
-- backend/src/auth/guards and backend/src/auth/strategies/jwt.strategy.ts: who a request is from, and whether
-- its role is allowed. The check of a token's signature (passport-jwt) is a parameter: it gives the
-- payload of a good token.
use powergas.Base.{
  Bool, true, false, Option, none, some, List, [], ◌∷◌, ◌≡◌, ◌⊎◌, inl, inr, refl, not, ◌||◌, arith,
  if◌then◌else◌, Bool-cases, Option-cases,
}
use powergas.Enums.{UserRole, role_eq}
use powergas.Table.{Uuid, find_by_id}
use powergas.Entities.{Text, User}
use powergas.World.{
  World, err, Action, HttpException, unauthorized, forbidden, pure, raise, gets, or_raise, raise_if,
  ◌>>=◌, ◌>>◌,
}
use powergas.Users.{find_user}

pub record JwtPayload : Type 0 where
  pub sub : Uuid
  pub email : Text
  pub role : UserRole
  pub jti : Uuid

-- `JwtStrategy.validate`: the user is read again, so the role is that of the account, not of the token.
unfoldable pub validate : JwtPayload → Action (Uuid × User)
validate payload = do
  user ← or_raise (← gets (find_user payload.sub)) unauthorized
  pure (payload.sub, user)

-- `JwtAuthGuard`: a public route needs no user, and a request without a good token is refused.
unfoldable pub jwt_guard : Bool → Option JwtPayload → Action (Option (Uuid × User))
jwt_guard true payload = pure none
jwt_guard false none = raise unauthorized
jwt_guard false (some payload) = do user ← validate payload; pure (some user)

abbrev pub is_empty : List UserRole → Bool
is_empty [] = true
is_empty (_ ∷ _) = false

abbrev pub includes_role : List UserRole → UserRole → Bool
includes_role [] role = false
includes_role (r ∷ roles) role = role_eq r role || includes_role roles role

-- `RolesGuard`: the roles that a route requires, none where it has no `@Roles`.
unfoldable pub roles_guard : List UserRole → Option (Uuid × User) → Action (Unit {0})
roles_guard [] user = pure tt
roles_guard (r ∷ roles) none = raise forbidden
roles_guard (r ∷ roles) (some (_, user)) =
    raise_if (not (includes_role (r ∷ roles) user.role)) forbidden

-- A route behind both guards.
unfoldable pub guarded :
    {A : Type 0} → List UserRole → Option JwtPayload → (Uuid × User → Action A) → Action A
guarded roles none handler = raise unauthorized
guarded roles (some payload) handler = do
  user ← validate payload
  roles_guard roles (some user)
  handler user

-- Whom a route lets in, or how it refuses.
abbrev pub entrant : List UserRole → Option JwtPayload → World → HttpException ⊎ (Uuid × User)
entrant roles none w = inl unauthorized
entrant roles (some p) w = elim (find_by_id p.sub w.users) [
  | none ↦ inl unauthorized
  | some u ↦ if is_empty roles || includes_role roles u.role then inr (p.sub, u) else inl forbidden
]

-- A handler runs exactly for the users whose account exists and has one of the roles that the route asks
-- for, by the role of the account; any other request is refused before it, and changes nothing.
pub guarded_lem :
    {A : Type 0} (roles : List UserRole) (payload : Option JwtPayload)
    (handler : Uuid × User → Action A) (w : World)
    → guarded roles payload handler w
      ≡ elim (entrant roles payload w) [ inl e ↦ (err e, w) | inr user ↦ handler user w ]
unfolding guarded validate roles_guard find_user
guarded_lem roles none handler w = refl
guarded_lem [] (some p) handler w = elim (Option-cases (find_by_id p.sub w.users)) [
  | inl unknown ↦ ground arith
  | inr (u, known) ↦ ground arith
]
guarded_lem (r ∷ roles) (some p) handler w = elim (Option-cases (find_by_id p.sub w.users)) [
  | inl unknown ↦ ground arith
  | inr (u, known) ↦ elim (Bool-cases (includes_role (r ∷ roles) u.role)) [
    | inl allowed ↦ ground arith
    | inr other ↦ ground arith
  ]
]

-- How a guarded call of a known sender ends: refused with nothing changed, or as its handler ends.
pub guarded_cases :
    {A : Type 0} (roles : List UserRole) (p : JwtPayload) (handler : Uuid × User → Action A)
    (w : World)
    → ((e : HttpException) × (guarded roles (some p) handler w ≡ (err e, w)))
      ⊎ ((u : User) × (find_by_id p.sub w.users ≡ some u)
          × (guarded roles (some p) handler w ≡ handler (p.sub, u) w))
guarded_cases roles p handler w =
    let runs = guarded_lem roles (some p) handler w in
    elim (Option-cases (find_by_id p.sub w.users)) [
      | inl unknown ↦ inl (unauthorized, ground arith)
      | inr (u, known) ↦ elim (Bool-cases (is_empty roles || includes_role roles u.role)) [
        | inl allowed ↦ inr (u, known, ground arith)
        | inr other ↦ inl (forbidden, ground arith)
      ]
    ]
