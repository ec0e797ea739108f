-- ===== src/Payments/Snapshot.antt =====
-- Payments read at the start of a loop, against the table as the loop changes it.
use powergas.Base.{
  ℕ, zero, suc, ◌≡◌, refl, ◌∙◌, inl, inr, Bool, none, some, [], ◌∷◌, arith, ◌==◌, take, Bool-cases,
}
use powergas.Table.{Uuid, Table, IsKeyed, find_by_id, find, update, find_by_id-update}
use powergas.Entities.{Payment}

-- The payments that a list of rows shows, as they are counted now.
abbrev pub AreCurrent : Table Payment → Table Payment → Type 0
AreCurrent [] t = Unit
AreCurrent ((id, p) ∷ rows) t =
    ((q : Payment) × (find_by_id id t ≡ some q) × (q.retry_count ≡ p.retry_count))
    × AreCurrent rows t

pub AreCurrent-update :
    (f : Payment → Payment) (k : Uuid) (rows t : Table Payment)
    → ((p : Payment) → (f p).retry_count ≡ p.retry_count)
    → AreCurrent rows t
    → AreCurrent rows (update k f t)
AreCurrent-update f k [] t keeps h = tt
AreCurrent-update f k ((id, p) ∷ rows) t keeps ((q, found, at), h) = (
  elim (Bool-cases (k == id)) [
    | inl own ↦ (f q, ground (arith, find_by_id-update k id f t), keeps q ∙ at)
    | inr other ↦ (q, ground (arith, find_by_id-update k id f t), at)
  ],
  AreCurrent-update f k rows t keeps h,
)

-- A write on a row that is not among them.
pub AreCurrent-update_ne :
    (f : Payment → Payment) (k : Uuid) (rows t : Table Payment)
    → find_by_id k rows ≡ none
    → AreCurrent rows t
    → AreCurrent rows (update k f t)
AreCurrent-update_ne f k [] t away h = tt
AreCurrent-update_ne f k ((id, p) ∷ rows) t away ((q, found, at), h) = (
  (q, ground (arith, find_by_id-update k id f t), at),
  AreCurrent-update_ne f k rows t (ground arith) h,
)

-- The rows that a query reads are rows of the table, each once.
find_by_id-find :
    (q : Payment → Bool) (k : Uuid) (t : Table Payment)
    → find_by_id k t ≡ none
    → find_by_id k (find q t) ≡ none
find_by_id-find q k [] h = refl
find_by_id-find q k ((j, p) ∷ t) h = ground (arith, find_by_id-find q k t)

pub find-IsKeyed : (q : Payment → Bool) (t : Table Payment) → IsKeyed t → IsKeyed (find q t)
find-IsKeyed q [] h = tt
find-IsKeyed q ((j, p) ∷ t) h = elim (Bool-cases (q p)) [
  | inl hit ↦ rw hit (find_by_id-find q j t h.0, find-IsKeyed q t h.1)
  | inr miss ↦ rw miss (find-IsKeyed q t h.1)
]

find_by_id-take :
    (n : ℕ) (k : Uuid) (t : Table Payment) → find_by_id k t ≡ none → find_by_id k (take n t) ≡ none
find_by_id-take zero k t h = refl
find_by_id-take (suc n) k [] h = refl
find_by_id-take (suc n) k ((j, p) ∷ t) h = ground (arith, find_by_id-take n k t)

pub take-IsKeyed : (n : ℕ) (t : Table Payment) → IsKeyed t → IsKeyed (take n t)
take-IsKeyed zero t h = tt
take-IsKeyed (suc n) [] h = tt
take-IsKeyed (suc n) ((j, p) ∷ t) h = (find_by_id-take n j t h.0, take-IsKeyed n t h.1)

AreCurrent-cons :
    (j : Uuid) (p : Payment) (rows t : Table Payment)
    → find_by_id j rows ≡ none
    → AreCurrent rows t
    → AreCurrent rows ((j, p) ∷ t)
AreCurrent-cons j p [] t away h = tt
AreCurrent-cons j p ((id, q) ∷ rows) t away ((u, found, at), h) =
    ((u, ground arith, at), AreCurrent-cons j p rows t (ground arith) h)

pub find-AreCurrent : (q : Payment → Bool) (t : Table Payment) → IsKeyed t → AreCurrent (find q t) t
find-AreCurrent q [] h = tt
find-AreCurrent q ((j, p) ∷ t) h =
    let rest =
      AreCurrent-cons j p (find q t) t (find_by_id-find q j t h.0) (find-AreCurrent q t h.1) in
    elim (Bool-cases (q p)) [
      | inl hit ↦ rw hit ((p, ground arith, refl), rest)
      | inr miss ↦ rw miss rest
    ]

pub take-AreCurrent :
    (n : ℕ) (rows t : Table Payment) → AreCurrent rows t → AreCurrent (take n rows) t
take-AreCurrent zero rows t h = tt
take-AreCurrent (suc n) [] t h = tt
take-AreCurrent (suc n) ((j, p) ∷ rows) t h = (h.0, take-AreCurrent n rows t h.1)
