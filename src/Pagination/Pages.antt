-- ===== src/Pagination/Pages.antt =====
-- The pages of a list.
use powergas.Base.{
  ℕ, zero, suc, ◌+◌, ◌-◌, ◌*◌, ◌/◌, ◌≤◌, ◌<◌, ◌≡◌, ◌↔◌, refl, ap, sym, ◌∙◌, true, List, [], ◌∷◌,
  ◌++◌, length, take, drop, ltb→lt, arith,
}
use native.Mathlib.Nat.{le-div_iff_mul-le, mul-le-mul}
use native.Mathlib.Decide.{dec_le}
use powergas.Pagination.{PaginationDto, IsValid, skip, paginate}

module _ {ℓ} {A : Type ℓ} where
  -- A page of a list: `take: limit, skip` of a query.
  abbrev pub page_of : List A → PaginationDto → List A
  page_of rows p = take p.limit (drop (skip p) rows)

  -- The first pages, one after the other.
  abbrev pub pages : List A → ℕ → ℕ → List A
  pages rows limit zero = []
  pages rows limit (suc n) =
      pages rows limit n ++ page_of rows (record { page = n + 1; limit = limit })

  take_nil : (n : ℕ) → take {A = A} n [] ≡ []
  take_nil zero = refl
  take_nil (suc n) = refl

  take-add : (a b : ℕ) (xs : List A) → take a xs ++ take b (drop a xs) ≡ take (a + b) xs
  take-add zero b xs = let e : b ≡ 0 + b = omega arith in ap (λ (n : ℕ). take n xs) e
  take-add (suc a) zero [] = sym (take_nil (suc a + 0))
  take-add (suc a) (suc b) [] = sym (take_nil (suc a + suc b))
  take-add (suc a) b (x ∷ xs) =
      let step : suc a + b ≡ suc (a + b) = omega arith in
      ap (λ (ys : List A). x ∷ ys) (take-add a b xs) ∙ ap (λ (n : ℕ). take n (x ∷ xs)) (sym step)

  take_all : (n : ℕ) (xs : List A) → length xs ≤ n → take n xs ≡ xs
  take_all zero [] h = refl
  take_all zero (x ∷ xs) h = absurd (omega arith)
  take_all (suc n) [] h = refl
  take_all (suc n) (x ∷ xs) h = ap (λ (ys : List A). x ∷ ys) (take_all n xs (omega arith))

  pages-take : (rows : List A) (limit n : ℕ) → pages rows limit n ≡ take (n * limit) rows
  unfolding skip
  pages-take rows limit zero = let e : 0 ≡ 0 * limit = omega arith in ap (λ (k : ℕ). take k rows) e
  pages-take rows limit (suc n) =
      ap (λ (xs : List A). xs ++ take limit (drop ((n + 1 - 1) * limit) rows))
        (pages-take rows limit n)
      ∙ ap (λ (k : ℕ). take (n * limit) rows ++ take limit (drop (k * limit) rows)) (back n)
      ∙ take-add (n * limit) limit rows
      ∙ ap (λ (k : ℕ). take k rows) (next n)
    where
      next : (n : ℕ) → n * limit + limit ≡ suc n * limit
      next n = grind arith

      back : (n : ℕ) → n + 1 - 1 ≡ n
      back n = omega arith

ceil_lt :
    (total page limit : ℕ)
    → 1 ≤ limit
    → (page < (total + (limit - 1)) / limit) ↔ (page * limit < total)
ceil_lt total page limit h =
    let (there, back) =
      le-div_iff_mul-le {k = limit} {x = page + 1} {y = total + (limit - 1)} (omega arith) in
    let grow : (page + 1) * limit ≡ page * limit + limit = grind arith in
    (λ l. omega (arith, there (omega arith), grow), λ l. ground (arith, back (omega (arith, grow))))

-- Of a list, the pages up to the last, at the limit that was asked for, show every row once and in order.
pub pages_cover {ℓ} :
    {A : Type ℓ} (rows : List A) (page limit : ℕ)
    → 1 ≤ limit
    → pages rows limit (paginate rows (length rows) page limit).total_pages ≡ rows
unfolding paginate
pages_cover rows page limit h =
    pages-take rows limit ((length rows + (limit - 1)) / limit)
    ∙ take_all ((length rows + (limit - 1)) / limit * limit) rows
        (ground (arith, (ceil_lt (length rows) ((length rows + (limit - 1)) / limit) limit h).1))

last_row : (page limit : ℕ) → 1 ≤ page → (page - 1) * limit + limit ≡ page * limit
last_row zero limit h = absurd (omega arith)
last_row (suc n) limit h =
    let back : suc n - 1 ≡ n = omega arith in
    let next : n * limit + limit ≡ suc n * limit = grind arith in
    ap (λ (k : ℕ). k * limit + limit) back ∙ next

first_row : (page limit : ℕ) → 1 ≤ limit → (1 < page) ↔ (0 < (page - 1) * limit)
first_row page limit h = (
  (λ l.
      let grown = mul-le-mul {n₁ = 1} {m₁ = 1} {n₂ = page - 1} {m₂ = limit} (omega arith) h in
      omega (arith, grown)),
  λ l. elim (dec_le page 1) [
    | yes low ↦
        let none_before : page - 1 ≡ 0 = omega arith in
        absurd (omega (arith, ap (λ (k : ℕ). k * limit) none_before))
    | no high ↦ omega arith
  ],
)

-- A page says that there is a next one exactly where rows are left after it, and that there is a previous
-- one exactly where rows were skipped.
pub paginate_lem {ℓ} :
    {A : Type ℓ} (items : List A) (total : ℕ) (p : PaginationDto)
    → IsValid p
    → ((paginate items total p.page p.limit).has_next ≡ true ↔ skip p + p.limit < total)
      × ((paginate items total p.page p.limit).has_prev ≡ true ↔ 0 < skip p)
unfolding paginate skip
paginate_lem items total p (page, limit, _) =
    let last = last_row p.page p.limit page in
    let (more, more') = ceil_lt total p.page p.limit limit in
    let (some_before, some_before') = first_row p.page p.limit limit in
    (
      (
        (λ e. omega (arith, last, more (ltb→lt p.page ((total + (p.limit - 1)) / p.limit) e))),
        λ l. ground (arith, more' (omega (arith, last))),
      ),
      (λ e. some_before (ltb→lt 1 p.page e), λ l. ground (arith, some_before' l)),
    )
