-- ===== src/Pagination.antt =====
-- backend/src/common/utils/pagination.util.ts: page numbers from 1, `skip` rows before a page, and what
-- is told of a page. A list query takes `limit` rows after the first `skip`.
pub mod Pages
use powergas.Base.{
  ℕ, zero, suc, ◌+◌, ◌-◌, ◌*◌, ◌/◌, ◌≤◌, ◌<◌, ◌≡◌, ◌↔◌, refl, Bool, true, false, List, [], ◌∷◌,
  ◌++◌, length, take, drop, ltb, arith, if◌then◌else◌,
}

-- The bounds of class-validator: `@Min(1)`, `@Max(100)`.
pub record PaginationDto : Type 0 where
  pub page : ℕ
  pub limit : ℕ

abbrev pub IsValid : PaginationDto → Type 0
IsValid p = (1 ≤ p.page) × (1 ≤ p.limit) × (p.limit ≤ 100)

unfoldable pub skip : PaginationDto → ℕ
skip p = (p.page - 1) * p.limit

pub record PaginatedResult {ℓ} (A : Type ℓ) : Type ℓ where
  pub items : List A
  pub total : ℕ
  pub page : ℕ
  pub limit : ℕ
  pub total_pages : ℕ
  pub has_next : Bool
  pub has_prev : Bool

-- `Math.ceil(total / limit)`
unfoldable pub paginate {ℓ} : {A : Type ℓ} → List A → ℕ → ℕ → ℕ → PaginatedResult A
paginate items total page limit =
    let total_pages : ℕ = (total + (limit - 1)) / limit in
    record {
      items = items;
      total = total;
      page = page;
      limit = limit;
      total_pages = total_pages;
      has_next = ltb page total_pages;
      has_prev = ltb 1 page;
    }
