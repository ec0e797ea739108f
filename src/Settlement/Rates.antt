-- ===== src/Settlement/Rates.antt =====
-- Which commission an order is settled at.
use powergas.Base.{ℕ, ◌≡◌, refl, true, Option, none, some, List, [], ◌∷◌, All, arith}
use powergas.Table.{Uuid}
use powergas.Entities.{PlatformCommission}
use powergas.Settlement.{
  is_null, ignored, find_rule, is_station_rule, is_default_rule, get_commission_percent,
}

-- A rule in force for a scope: a station, or the platform.
abbrev pub IsRuleFor : Option Uuid → PlatformCommission → Type 0
IsRuleFor scope r = (r.station_id ≡ scope) × (r.is_active ≡ true)

abbrev pub NoRuleFor : Option Uuid → List PlatformCommission → Type 0
NoRuleFor scope = All (λ (r : PlatformCommission). ¬ IsRuleFor scope r)

-- The rule of a list that a query finds.
pub data Finds (P : PlatformCommission → Type 0)
    : List PlatformCommission → PlatformCommission → Type 0 where
  first : {r : PlatformCommission} {rs : List PlatformCommission} → P r → Finds P (r ∷ rs) r
  later :
      {r r' : PlatformCommission} {rs : List PlatformCommission}
      → ¬ P r
      → Finds P rs r'
      → Finds P (r ∷ rs) r'

find_station_rule :
    (s : Uuid) (rules : List PlatformCommission) {r : PlatformCommission}
    → Finds (IsRuleFor (some s)) rules r
    → find_rule (is_station_rule s) rules ≡ some r
find_station_rule s [] x = elim x [ ]
find_station_rule s (r ∷ rs) (first h) = ground arith
find_station_rule s (r ∷ rs) (later h rest) = ground (arith, find_station_rule s rs rest)

no_station_rule :
    (s : Uuid) (rules : List PlatformCommission)
    → NoRuleFor (some s) rules
    → find_rule (is_station_rule s) rules ≡ none
no_station_rule s [] h = refl
no_station_rule s (r ∷ rs) h = ground (arith, no_station_rule s rs h.1)

find_default_rule :
    (rules : List PlatformCommission) {r : PlatformCommission}
    → Finds (IsRuleFor none) rules r
    → find_rule (is_default_rule is_null) rules ≡ some r
find_default_rule [] x = elim x [ ]
find_default_rule (r ∷ rs) (first h) = ground arith
find_default_rule (r ∷ rs) (later h rest) = ground (arith, find_default_rule rs rest)

no_default_rule :
    (rules : List PlatformCommission)
    → NoRuleFor none rules
    → find_rule (is_default_rule is_null) rules ≡ none
no_default_rule [] h = refl
no_default_rule (r ∷ rs) h = ground (arith, no_default_rule rs h.1)

-- Where `null` is read as `IS NULL`: a station with a rule of its own is settled at it; any other at
-- the platform's rule; and at the configured fallback only where neither is in force.
pub get_commission_percent_priority :
    (fallback : ℕ) (s : Uuid) (rules : List PlatformCommission)
    → ((r : PlatformCommission)
        → Finds (IsRuleFor (some s)) rules r
        → get_commission_percent is_null fallback s rules ≡ r.commission_percent)
      × ((r : PlatformCommission)
          → NoRuleFor (some s) rules
          → Finds (IsRuleFor none) rules r
          → get_commission_percent is_null fallback s rules ≡ r.commission_percent)
      × (NoRuleFor (some s) rules
          → NoRuleFor none rules
          → get_commission_percent is_null fallback s rules ≡ fallback)
unfolding get_commission_percent
get_commission_percent_priority fallback s rules = (
  (λ r own. rw (find_station_rule s rules own)),
  (λ r missing default. rw (no_station_rule s rules missing, find_default_rule rules default)),
  λ missing missing'. rw (no_station_rule s rules missing, no_default_rule rules missing'),
)

-- Where `null` is read as no condition, a station without a rule of its own is settled at whatever
-- rule in force comes first, another station's too.
pub get_commission_percent_ignored :
    (fallback : ℕ) (s : Uuid) (r : PlatformCommission) (rules : List PlatformCommission)
    → NoRuleFor (some s) (r ∷ rules)
    → r.is_active ≡ true
    → get_commission_percent ignored fallback s (r ∷ rules) ≡ r.commission_percent
unfolding get_commission_percent
get_commission_percent_ignored fallback s r rules missing active =
    rw (no_station_rule s (r ∷ rules) missing) (ground arith)
