-- ===== src/AdminApi/Privileges.antt =====
-- What only an administrator changes.
use powergas.Base.{
  ℕ, ℤ, ◌≡◌, refl, Bool, false, Option, none, some, List, [], ◌∷◌, ◌||◌, arith, inl, inr, All,
}
use powergas.Table.{Uuid, find_by_id}
use powergas.Entities.{Text, Cents, User}
use powergas.Enums.{UserRole, admin, super_admin, VerificationStatus, role_eq}
use powergas.World.{World, Action}
use powergas.Guards.{JwtPayload, guarded, guarded_lem, guarded_cases}
use powergas.Stations.{CreateStationDto}
use powergas.StationsApi.{post_staff, delete_staff, post_station, patch_station_verification}
use powergas.RidersApi.{patch_verification}
use powergas.InventoryApi.{post_type}
use powergas.AdminApi.{
  admin_roles, post_commission, put_setting, patch_suspension, patch_assignment, patch_resolution,
}

-- A request that changes the platform.
pub data AdminCall : Type 0 where
  sets_commission : ℤ → Option Uuid → AdminCall
  puts_setting : Text → Text → Option Text → AdminCall
  suspends : Uuid → AdminCall
  assigns_dispute : Uuid → AdminCall
  resolves_dispute : Uuid → Text → Option Cents → AdminCall
  reviews_rider : Uuid → VerificationStatus → AdminCall
  reviews_station : Uuid → VerificationStatus → AdminCall
  creates_station : CreateStationDto → AdminCall
  assigns_staff : Uuid → Uuid → UserRole → AdminCall
  removes_staff : Uuid → Uuid → AdminCall
  creates_type : Text → ℕ → AdminCall

-- The sender is the account of an administrator.
abbrev pub is_admin : Option JwtPayload → World → Bool
is_admin none w = false
is_admin (some p) w = elim (find_by_id p.sub w.users) [
  | none ↦ false
  | some u ↦ role_eq u.role admin || role_eq u.role super_admin
]

module _ (prefix_of : Option Text → Text) (general : Text) where
  -- The state after a request.
  unfoldable pub serve : Option JwtPayload → AdminCall → World → World
  serve p (sets_commission percent station_id) w = (post_commission p percent station_id w).1
  serve p (puts_setting key value category) w = (put_setting general p key value category w).1
  serve p (suspends id) w = (patch_suspension p id w).1
  serve p (assigns_dispute id) w = (patch_assignment p id w).1
  serve p (resolves_dispute id resolution refund) w = (patch_resolution p id resolution refund w).1
  serve p (reviews_rider id status) w = (patch_verification p id status w).1
  serve p (reviews_station id status) w = (patch_station_verification p id status w).1
  serve p (creates_station dto) w = (post_station prefix_of p dto w).1
  serve p (assigns_staff id user_id role) w = (post_staff p id user_id role w).1
  serve p (removes_staff id user_id) w = (delete_staff p id user_id w).1
  serve p (creates_type name weight_kg) w = (post_type p name weight_kg w).1

  abbrev pub serve_all : List (Option JwtPayload × AdminCall) → World → World
  serve_all [] w = w
  serve_all ((p, c) ∷ cs) w = serve_all cs (serve p c w)

-- Who is no administrator is refused.
guarded_refused :
    {A : Type 0} (p : Option JwtPayload) (handler : Uuid × User → Action A) (w : World)
    → is_admin p w ≡ false
    → (guarded admin_roles p handler w).1 ≡ w
guarded_refused none handler w other =
    let runs = guarded_lem admin_roles none handler w in rw runs refl
guarded_refused (some p) handler w other = elim (guarded_cases admin_roles p handler w) [
  | inl (_, refused) ↦ rw refused refl
  | inr (u, known, runs) ↦ let refused = guarded_lem admin_roles (some p) handler w in ground arith
]

module _ (prefix_of : Option Text → Text) (general : Text) where
  serve_refused :
      (p : Option JwtPayload) (c : AdminCall) (w : World)
      → is_admin p w ≡ false
      → serve prefix_of general p c w ≡ w
  unfolding serve post_commission put_setting patch_suspension patch_assignment patch_resolution
      patch_verification patch_station_verification post_station post_staff delete_staff post_type
  serve_refused p (sets_commission percent station_id) w other = guarded_refused p _ w other
  serve_refused p (puts_setting key value category) w other = guarded_refused p _ w other
  serve_refused p (suspends id) w other = guarded_refused p _ w other
  serve_refused p (assigns_dispute id) w other = guarded_refused p _ w other
  serve_refused p (resolves_dispute id resolution refund) w other = guarded_refused p _ w other
  serve_refused p (reviews_rider id status) w other = guarded_refused p _ w other
  serve_refused p (reviews_station id status) w other = guarded_refused p _ w other
  serve_refused p (creates_station dto) w other = guarded_refused p _ w other
  serve_refused p (assigns_staff id user_id role) w other = guarded_refused p _ w other
  serve_refused p (removes_staff id user_id) w other = guarded_refused p _ w other
  serve_refused p (creates_type name weight_kg) w other = guarded_refused p _ w other

  -- What is for administrators is refused to others: a rule of commission, a setting, a suspension, the
  -- assignment and the resolution of a dispute, the review of a rider or a station, a new station, its
  -- staff, a new kind of cylinder. Such requests of senders who are no administrators by their accounts, as
  -- many as there are and whatever their tokens say, leave the state as it was.
  pub serve_all_refused :
      (cs : List (Option JwtPayload × AdminCall)) (w : World)
      → All (λ (p, _). is_admin p w ≡ false) cs
      → serve_all prefix_of general cs w ≡ w
  serve_all_refused [] w others = refl
  serve_all_refused ((p, c) ∷ cs) w (other, others) =
      rw (serve_refused p c w other) (serve_all_refused cs w others)
