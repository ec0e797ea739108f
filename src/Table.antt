-- ===== src/Table.antt =====
-- A table of the database: its rows in the order of their creation, each with its primary key
-- (`@PrimaryGeneratedColumn('uuid')` of backend/src/common/entities/base.entity.ts). The services
-- read and write it by the calls below, which have the meaning of the SQL that they stand for.
pub mod Rows
pub mod Unique
use powergas.Base.{
  ℕ, ◌+◌, ◌<◌, ◌≡◌, refl, ◌≢◌, Bool, true, Option, none, some, List, [], ◌∷◌, ◌++◌, arith, ◌==◌,
  if◌then◌else◌, Bool-cases, inl, inr, subst, ◌≤◌,
}

-- A uuid is only ever compared, so uuids are numbered.
abbrev pub Uuid : Type 0
Uuid = ℕ

abbrev pub Table : Type 0 → Type 0
Table V = List (Uuid × V)

module _ {V : Type 0} where
  -- `findOne({ where: { id } })`
  abbrev pub find_by_id : Uuid → Table V → Option V
  find_by_id k [] = none
  find_by_id k ((j, v) ∷ t) = if j == k then some v else find_by_id k t

  -- `findOne({ where })`, on columns other than the key.
  abbrev pub find_one : (V → Bool) → Table V → Option (Uuid × V)
  find_one p [] = none
  find_one p ((j, v) ∷ t) = if p v then some (j, v) else find_one p t

  -- `find({ where })`
  abbrev pub find : (V → Bool) → Table V → Table V
  find p [] = []
  find p ((j, v) ∷ t) = if p v then (j, v) ∷ find p t else find p t

  -- `findOne({ where, order: { createdAt: 'DESC' } })`: the newest row.
  abbrev pub find_newest : (V → Bool) → Table V → Option (Uuid × V)
  find_newest p [] = none
  find_newest p ((j, v) ∷ t) = elim (find_newest p t) [
    | some row ↦ some row
    | none ↦ if p v then some (j, v) else none
  ]

  -- `update({ … }, …)`, on every row that the criteria select.
  abbrev pub update_where : (V → Bool) → (V → V) → Table V → Table V
  update_where p f [] = []
  update_where p f ((j, v) ∷ t) = (j, if p v then f v else v) ∷ update_where p f t

  -- `softDelete(id)`: no query finds the row any more.
  abbrev pub soft_delete : Uuid → Table V → Table V
  soft_delete k [] = []
  soft_delete k ((j, v) ∷ t) = if j == k then t else (j, v) ∷ soft_delete k t

  -- `count({ where })`
  abbrev pub count : (V → Bool) → Table V → ℕ
  count p [] = 0
  count p ((j, v) ∷ t) = (if p v then 1 else 0) + count p t

  -- `update(id, …)`: nothing happens where no row has the key.
  abbrev pub update : Uuid → (V → V) → Table V → Table V
  update k f [] = []
  update k f ((j, v) ∷ t) = if j == k then (j, f v) ∷ t else (j, v) ∷ update k f t

  -- `save(create(…))`
  abbrev pub insert : Uuid → V → Table V → Table V
  insert k v t = t ++ (k, v) ∷ []

  -- Every key is below a bound, as the keys handed out so far are.
  abbrev pub IsBelow : ℕ → Table V → Type 0
  IsBelow n [] = Unit
  IsBelow n ((j, _) ∷ t) = (j < n) × IsBelow n t

  -- No key is used twice.
  abbrev pub IsKeyed : Table V → Type 0
  IsKeyed [] = Unit
  IsKeyed ((j, _) ∷ t) = (find_by_id j t ≡ none) × IsKeyed t

  abbrev pub AllRows : (V → Type 0) → Table V → Type 0
  AllRows P [] = Unit
  AllRows P ((_, v) ∷ t) = P v × AllRows P t

  pub find_by_id-update :
      (k j : Uuid) (f : V → V) (t : Table V)
      → find_by_id j (update k f t) ≡ (
          if k == j
          then elim (find_by_id j t) [ none ↦ none | some v ↦ some (f v) ]
          else find_by_id j t)
  find_by_id-update k j f [] = ground arith
  find_by_id-update k j f ((i, v) ∷ t) = ground (arith, find_by_id-update k j f t)

  pub find_by_id-update_self :
      (k : Uuid) (f : V → V) (t : Table V) {v : V}
      → find_by_id k t ≡ some v
      → find_by_id k (update k f t) ≡ some (f v)
  find_by_id-update_self k f [] h = ground arith
  find_by_id-update_self k f ((i, w) ∷ t) {v} h =
      ground (arith, find_by_id-update_self k f t {v = v})

  pub find_by_id-update_ne :
      (k j : Uuid) (f : V → V) (t : Table V) → k ≢ j → find_by_id j (update k f t) ≡ find_by_id j t
  find_by_id-update_ne k j f [] h = refl
  find_by_id-update_ne k j f ((i, w) ∷ t) h = ground (arith, find_by_id-update_ne k j f t h)

  pub update-IsKeyed : (k : Uuid) (f : V → V) (t : Table V) → IsKeyed t → IsKeyed (update k f t)
  update-IsKeyed k f [] h = tt
  update-IsKeyed k f ((i, w) ∷ t) h =
      ground (arith, update-IsKeyed k f t h.1, find_by_id-update_ne k i f t)

  pub update-IsBelow :
      (n : ℕ) (k : Uuid) (f : V → V) (t : Table V) → IsBelow n t → IsBelow n (update k f t)
  update-IsBelow n k f [] h = tt
  update-IsBelow n k f ((i, w) ∷ t) h = ground (arith, update-IsBelow n k f t h.1)

  pub find_by_id-insert_self :
      (k : Uuid) (v : V) (t : Table V)
      → find_by_id k t ≡ none
      → find_by_id k (insert k v t) ≡ some v
  find_by_id-insert_self k v [] h = ground arith
  find_by_id-insert_self k v ((i, w) ∷ t) h = ground (arith, find_by_id-insert_self k v t)

  pub find_by_id-insert_ne :
      (k j : Uuid) (v : V) (t : Table V) → k ≢ j → find_by_id j (insert k v t) ≡ find_by_id j t
  find_by_id-insert_ne k j v [] h = ground arith
  find_by_id-insert_ne k j v ((i, w) ∷ t) h = ground (arith, find_by_id-insert_ne k j v t h)

  -- A key that no row reaches is free.
  pub IsBelow-find_by_id : (n k : ℕ) (t : Table V) → IsBelow n t → n ≤ k → find_by_id k t ≡ none
  IsBelow-find_by_id n k [] h l = refl
  IsBelow-find_by_id n k ((i, w) ∷ t) h l = ground (arith, IsBelow-find_by_id n k t h.1 l)

  pub insert-IsBelow : (n : ℕ) (v : V) (t : Table V) → IsBelow n t → IsBelow (n + 1) (insert n v t)
  insert-IsBelow n v [] h = (omega arith, tt)
  insert-IsBelow n v ((i, w) ∷ t) h = (omega arith, insert-IsBelow n v t h.1)

  pub IsBelow-mono : (n m : ℕ) (t : Table V) → IsBelow n t → n ≤ m → IsBelow m t
  IsBelow-mono n m [] h l = tt
  IsBelow-mono n m ((i, w) ∷ t) h l = (omega arith, IsBelow-mono n m t h.1 l)

  pub insert-IsKeyed :
      (k : Uuid) (v : V) (t : Table V) → IsKeyed t → find_by_id k t ≡ none → IsKeyed (insert k v t)
  insert-IsKeyed k v [] h free = (refl, tt)
  insert-IsKeyed k v ((i, w) ∷ t) h free =
      ground (arith, insert-IsKeyed k v t h.1, find_by_id-insert_ne k i v t)

  pub AllRows-find_by_id :
      (P : V → Type 0) (k : Uuid) {v : V} (t : Table V)
      → AllRows P t
      → find_by_id k t ≡ some v
      → P v
  AllRows-find_by_id P k [] h e = cc
  AllRows-find_by_id P k {v} ((i, w) ∷ t) h e = elim (Bool-cases (i == k)) [
    | inl same_key ↦ subst P (ground arith) h.0
    | inr other ↦ AllRows-find_by_id P k t h.1 (ground arith)
  ]

  pub AllRows-update :
      (P : V → Type 0) (k : Uuid) (f : V → V) {v : V} (t : Table V)
      → AllRows P t
      → find_by_id k t ≡ some v
      → P (f v)
      → AllRows P (update k f t)
  AllRows-update P k f [] h e p = cc
  AllRows-update P k f {v} ((i, w) ∷ t) h e p = elim (Bool-cases (i == k)) [
    | inl same_key ↦ rw same_key (subst (λ (u : V). P (f u)) (ground arith) p, h.1)
    | inr other ↦ rw other (h.0, AllRows-update P k f t h.1 (ground arith) p)
  ]

  -- In a table with one row to a key, the row that a query finds is the row at its key.
  pub find_one-find_by_id :
      (p : V → Bool) (t : Table V) {k : Uuid} {v : V}
      → IsKeyed t
      → find_one p t ≡ some (k, v)
      → (find_by_id k t ≡ some v) × (p v ≡ true)
  find_one-find_by_id p [] h e = cc
  find_one-find_by_id p ((i, w) ∷ t) {k} {v} h e =
      ground (arith, find_one-find_by_id p t {k = k} {v = v} h.1)
