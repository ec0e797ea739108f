-- ===== src/Table/Unique.antt =====
-- Tables in which no two rows are the same in what a unique index is over (`@Unique`).
use powergas.Base.{
  ◌≡◌, ◌∙◌, Bool, true, false, none, some, [], ◌∷◌, arith, ◌==◌, Bool-cases, inl, inr,
}
use powergas.Table.{Uuid, Table, find_by_id, find_one, find_newest, update, insert, AllRows}
use powergas.Table.Rows.{AllRows-insert}

module _ {V : Type 0} where
  pub find_one-none-AllRows :
      (q : V → Bool) (t : Table V) → find_one q t ≡ none → AllRows (λ v. q v ≡ false) t
  find_one-none-AllRows q [] h = tt
  find_one-none-AllRows q ((j, v) ∷ t) h = elim (Bool-cases (q v)) [
    | inl hit ↦ absurd (ground arith)
    | inr miss ↦ (miss, find_one-none-AllRows q t (ground arith))
  ]

  -- A write that makes a query hold of one row, where it held of none.
  pub find_newest-update_only :
      (q : V → Bool) (f : V → V) (t : Table V) {k : Uuid} {v : V}
      → find_newest q t ≡ none
      → find_by_id k t ≡ some v
      → q (f v) ≡ true
      → find_newest q (update k f t) ≡ some (k, f v)
  find_newest-update_only q f [] h e holds = cc
  find_newest-update_only q f ((j, u) ∷ t) {k} {v} h e holds =
      ground (arith, find_newest-update_only q f t {k = k} {v = v})

module _ {V : Type 0} (same_index : V → V → Bool) where
  abbrev pub IsUnique : Table V → Type 0
  IsUnique [] = Unit
  IsUnique ((_, v) ∷ t) = AllRows (λ u. same_index v u ≡ false) t × IsUnique t

  pub insert-IsUnique :
      (k : Uuid) (r : V) (t : Table V)
      → IsUnique t
      → AllRows (λ u. same_index u r ≡ false) t
      → IsUnique (insert k r t)
  insert-IsUnique k r [] h new = (tt, tt)
  insert-IsUnique k r ((j, v) ∷ t) h new = (
    AllRows-insert (λ u. same_index v u ≡ false) k r t h.0 new.0,
    insert-IsUnique k r t h.1 new.1,
  )

  -- A write that keeps what the index is over.
  module _ (f : V → V) (left : (v u : V) → same_index (f v) u ≡ same_index v u)
      (right : (v u : V) → same_index v (f u) ≡ same_index v u) where
    apart-update :
        (k : Uuid) (v : V) (t : Table V)
        → AllRows (λ u. same_index v u ≡ false) t
        → AllRows (λ u. same_index v u ≡ false) (update k f t)
    apart-update k v [] h = tt
    apart-update k v ((j, u) ∷ t) h = elim (Bool-cases (j == k)) [
      | inl own ↦ rw own (right v u ∙ h.0, h.1)
      | inr other ↦ rw other (h.0, apart-update k v t h.1)
    ]

    apart-left :
        (v : V) (t : Table V)
        → AllRows (λ u. same_index v u ≡ false) t
        → AllRows (λ u. same_index (f v) u ≡ false) t
    apart-left v [] h = tt
    apart-left v ((j, u) ∷ t) h = (left v u ∙ h.0, apart-left v t h.1)

    pub update-IsUnique : (k : Uuid) (t : Table V) → IsUnique t → IsUnique (update k f t)
    update-IsUnique k [] h = tt
    update-IsUnique k ((j, v) ∷ t) h = elim (Bool-cases (j == k)) [
      | inl own ↦ rw own (apart-left v t h.0, h.1)
      | inr other ↦ rw other (apart-update k v t h.0, update-IsUnique k t h.1)
    ]
