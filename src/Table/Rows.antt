-- ===== src/Table/Rows.antt =====
-- Predicates of all the rows, and the columns that a write leaves as they are.
use powergas.Base.{
  ℕ, ◌≡◌, refl, Bool, true, false, none, some, [], ◌∷◌, arith, ◌==◌, Bool-cases, inl, inr,
}
use powergas.Table.{
  Uuid, Table, find_by_id, find_one, find_newest, find_one-find_by_id, update, update_where, insert,
  IsKeyed, IsBelow, AllRows,
}

module _ {V : Type 0} where
  pub AllRows-mono :
      {P Q : V → Type 0} (t : Table V) → ((v : V) → P v → Q v) → AllRows P t → AllRows Q t
  AllRows-mono [] f h = tt
  AllRows-mono ((j, v) ∷ t) f h = (f v h.0, AllRows-mono t f h.1)

  pub AllRows-insert :
      (P : V → Type 0) (k : Uuid) (v : V) (t : Table V)
      → AllRows P t
      → P v
      → AllRows P (insert k v t)
  AllRows-insert P k v [] h p = (p, tt)
  AllRows-insert P k v ((j, u) ∷ t) h p = (h.0, AllRows-insert P k v t h.1 p)

  -- A write that keeps the predicate of every row.
  module _ (P : V → Type 0) (f : V → V) (keep : (v : V) → P v → P (f v)) where
    pub AllRows-update_keep : (k : Uuid) (t : Table V) → AllRows P t → AllRows P (update k f t)
    AllRows-update_keep k [] h = tt
    AllRows-update_keep k ((j, v) ∷ t) h = elim (Bool-cases (j == k)) [
      | inl own ↦ rw own (keep v h.0, h.1)
      | inr other ↦ rw other (h.0, AllRows-update_keep k t h.1)
    ]

    pub AllRows-update_where :
        (q : V → Bool) (t : Table V) → AllRows P t → AllRows P (update_where q f t)
    AllRows-update_where q [] h = tt
    AllRows-update_where q ((j, v) ∷ t) h =
        let rest = AllRows-update_where q t h.1 in
        elim (Bool-cases (q v)) [
          | inl hit ↦ rw hit (keep v h.0, rest)
          | inr miss ↦ rw miss (h.0, rest)
        ]

  pub find_by_id-update_where :
      (q : V → Bool) (f : V → V) (k : Uuid) (t : Table V)
      → find_by_id k t ≡ none
      → find_by_id k (update_where q f t) ≡ none
  find_by_id-update_where q f k [] h = refl
  find_by_id-update_where q f k ((j, v) ∷ t) h = ground (arith, find_by_id-update_where q f k t)

  pub update_where-IsKeyed :
      (q : V → Bool) (f : V → V) (t : Table V) → IsKeyed t → IsKeyed (update_where q f t)
  update_where-IsKeyed q f [] h = tt
  update_where-IsKeyed q f ((j, v) ∷ t) h =
      (find_by_id-update_where q f j t h.0, update_where-IsKeyed q f t h.1)

  pub update_where-IsBelow :
      (q : V → Bool) (f : V → V) (n : ℕ) (t : Table V)
      → IsBelow n t
      → IsBelow n (update_where q f t)
  update_where-IsBelow q f n [] h = tt
  update_where-IsBelow q f n ((j, v) ∷ t) h = (h.0, update_where-IsBelow q f n t h.1)

  -- A query that no row satisfies finds nothing.
  pub find_one-none :
      (q : V → Bool) (t : Table V) → AllRows (λ v. q v ≡ false) t → find_one q t ≡ none
  find_one-none q [] h = refl
  find_one-none q ((j, v) ∷ t) h = rw h.0 (find_one-none q t h.1)

  -- A write on the row that a query finds keeps it found.
  pub find_one-update_self :
      (q : V → Bool) (f : V → V) (t : Table V) {k : Uuid} {v : V}
      → IsKeyed t
      → find_one q t ≡ some (k, v)
      → q (f v) ≡ true
      → find_one q (update k f t) ≡ some (k, f v)
  find_one-update_self q f [] keyed e holds = cc
  find_one-update_self q f ((j, u) ∷ t) {k} {v} keyed e holds = ground (
    arith,
    find_one-update_self q f t {k = k} {v = v} keyed.1,
    find_one-find_by_id q t {k = k} {v = v} keyed.1,
  )

  pub find_newest-find_by_id :
      (q : V → Bool) (t : Table V) {k : Uuid} {v : V}
      → IsKeyed t
      → find_newest q t ≡ some (k, v)
      → (find_by_id k t ≡ some v) × (q v ≡ true)
  find_newest-find_by_id q [] keyed e = cc
  find_newest-find_by_id q ((j, u) ∷ t) {k} {v} keyed e =
      ground (arith, find_newest-find_by_id q t {k = k} {v = v} keyed.1)

  pub find_newest-update_self :
      (q : V → Bool) (f : V → V) (t : Table V) {k : Uuid} {v : V}
      → IsKeyed t
      → find_newest q t ≡ some (k, v)
      → q (f v) ≡ true
      → find_newest q (update k f t) ≡ some (k, f v)
  find_newest-update_self q f [] keyed e holds = cc
  find_newest-update_self q f ((j, u) ∷ t) {k} {v} keyed e holds = ground (
    arith,
    find_newest-update_self q f t {k = k} {v = v} keyed.1,
    find_newest-find_by_id q t {k = k} {v = v} keyed.1,
  )

  pub find_newest-insert :
      (q : V → Bool) (k : Uuid) (v : V) (t : Table V)
      → q v ≡ true
      → find_newest q (insert k v t) ≡ some (k, v)
  find_newest-insert q k v [] holds = rw holds
  find_newest-insert q k v ((j, u) ∷ t) holds = rw (find_newest-insert q k v t holds)
