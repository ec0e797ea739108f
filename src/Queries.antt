-- ===== src/Queries.antt =====
-- Queries in the order of creation, newest first, and their pages (`findAndCount` with `take` and `skip`).
use powergas.Base.{Bool, [], ◌∷◌, ◌++◌, take, drop}
use powergas.Table.{Uuid, Table, find, count}
use powergas.Pagination.{PaginationDto, PaginatedResult, skip, paginate}

module _ {V : Type 0} where
  -- `order: { createdAt: 'DESC' }`
  abbrev pub newest_first : Table V → Table V
  newest_first [] = []
  newest_first (row ∷ t) = newest_first t ++ row ∷ []

  unfoldable pub find_page : (V → Bool) → PaginationDto → Table V → PaginatedResult (Uuid × V)
  unfolding skip
  find_page p pagination t =
      paginate (take pagination.limit (drop (skip pagination) (newest_first (find p t))))
        (count p t) pagination.page pagination.limit
