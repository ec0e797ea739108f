-- ===== src/Orders/Lifecycle/Graph.antt =====
-- The transition table as a graph.
use powergas.Base.{◌+◌, ◌≤◌, ◌≡◌, ◌↔◌, ◌⊎◌, inl, inr, true, arith}
use native.Mathlib.Decide.{dec_le}
use powergas.Enums.{OrderStatus, ordinal}
use powergas.Orders.Lifecycle.{is_valid_transition}

-- An order moves to the next stage, or is cancelled before the station prepares it.
abbrev pub Advances : OrderStatus → OrderStatus → Type 0
Advances from to =
    ((ordinal to ≡ ordinal from + 1) × (ordinal to ≤ 14))
    ⊎ ((to ≡ OrderStatus.cancelled) × (ordinal from ≤ 2))

-- A transition is allowed exactly when it moves the order to the next of the fifteen stages from
-- pending to completed, or cancels it in one of the first three.
pub is_valid_transition_iff :
    (from to : OrderStatus) → (is_valid_transition from to ≡ true) ↔ Advances from to
unfolding is_valid_transition
is_valid_transition_iff from to = (λ h. ground arith, λ h. ground arith)

infix 40 ◌⟶*◌
-- The statuses that a sequence of allowed transitions leads to.
pub data ◌⟶*◌ (s : OrderStatus) : OrderStatus → Type 0 where
  here : s ⟶* s
  then : {t u : OrderStatus} → s ⟶* t → is_valid_transition t u ≡ true → s ⟶* u

-- The stages that a sequence of transitions has been at.
abbrev pub Visits : {s u : OrderStatus} → OrderStatus → s ⟶* u → Type 0
Visits {s} m here = m ≡ s
Visits m (then {u = u} path _) = (m ≡ u) ⊎ Visits m path

-- Positions tell statuses apart.
pub ordinal-injective : (a b : OrderStatus) → ordinal a ≡ ordinal b → a ≡ b
ordinal-injective a b h = ground arith

-- No sequence of transitions goes back.
pub ⟶*-le : {s u : OrderStatus} → s ⟶* u → ordinal s ≤ ordinal u
⟶*-le here = omega arith
⟶*-le (then {t} {u} path e) = ground (arith, ⟶*-le path, (is_valid_transition_iff t u).0 e)

-- A sequence of transitions that ends on the main line skips no stage: it has been at every stage
-- between its ends.
pub ⟶*-Visits :
    {s u : OrderStatus} (path : s ⟶* u) (m : OrderStatus)
    → ordinal s ≤ ordinal m
    → ordinal m ≤ ordinal u
    → ordinal u ≤ 14
    → Visits m path
⟶*-Visits {s} here m low high main = ordinal-injective m s (omega arith)
⟶*-Visits (then {t} {u} path e) m low high main = elim (dec_le (ordinal m) (ordinal t)) [
  | yes before ↦ inr (⟶*-Visits path m low before (ground (arith, step)))
  | no after ↦ inl (ordinal-injective m u (ground (arith, step)))
]
  where
    step : Advances t u
    step = (is_valid_transition_iff t u).0 e
