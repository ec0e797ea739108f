-- ===== src/OrdersApi/Hidden.antt =====
-- What customers are answered does not depend on the split of the money.
use powergas.Base.{
  ℕ, zero, suc, pos, ◌≡◌, refl, sym, ap, ◌∙◌, Bool, none, some, [], ◌∷◌, ◌++◌, ◌==◌, arith, take,
  drop, Option-cases, inl, inr,
}
use powergas.Enums.{customer}
use powergas.Table.{Uuid, Table, find_by_id, find, count}
use powergas.Entities.{Order, User}
use powergas.Pagination.{PaginationDto, skip, paginate}
use powergas.Queries.{newest_first, find_page}
use powergas.World.{World, Result, Action}
use powergas.OrderViews.{to_customer_order_view, to_customer_order_views}
use powergas.Guards.{JwtPayload, guarded, guarded_lem}
use powergas.OrdersApi.{
  OrderAnswer, PageAnswer, with_items, show_order, find_mine, mine, find_one_order, answer,
  find_by_customer,
}

-- The order without the split of its money.
abbrev pub hide_split : Order → Order
hide_split o = record o { platform_commission = 0; station_earning = pos 0; rider_earning = 0 }

abbrev pub map_rows : {V : Type 0} → (V → V) → Table V → Table V
map_rows f [] = []
map_rows f ((j, v) ∷ t) = (j, f v) ∷ map_rows f t

-- The world without the split of any order.
abbrev pub hidden : World → World
hidden w = record w { orders = map_rows hide_split w.orders }

module _ {V : Type 0} (f : V → V) where
  find_by_id-map_rows :
      (k : Uuid) (t : Table V)
      → find_by_id k (map_rows f t) ≡ elim (find_by_id k t) [ none ↦ none | some v ↦ some (f v) ]
  find_by_id-map_rows k [] = refl
  find_by_id-map_rows k ((j, v) ∷ t) = ground (arith, find_by_id-map_rows k t)

  map_rows-append : (t u : Table V) → map_rows f (t ++ u) ≡ map_rows f t ++ map_rows f u
  map_rows-append [] u = refl
  map_rows-append ((j, v) ∷ t) u = rw (map_rows-append t u) refl

  newest_first-map_rows : (t : Table V) → newest_first (map_rows f t) ≡ map_rows f (newest_first t)
  newest_first-map_rows [] = refl
  newest_first-map_rows ((j, v) ∷ t) =
      rw (newest_first-map_rows t) (sym (map_rows-append (newest_first t) ((j, v) ∷ [])))

  drop-map_rows : (n : ℕ) (t : Table V) → drop n (map_rows f t) ≡ map_rows f (drop n t)
  drop-map_rows zero t = refl
  drop-map_rows (suc n) [] = refl
  drop-map_rows (suc n) ((j, v) ∷ t) = drop-map_rows n t

  take-map_rows : (n : ℕ) (t : Table V) → take n (map_rows f t) ≡ map_rows f (take n t)
  take-map_rows zero t = refl
  take-map_rows (suc n) [] = refl
  take-map_rows (suc n) ((j, v) ∷ t) = rw (take-map_rows n t) refl

  module _ (q : V → Bool) (blind : (v : V) → q (f v) ≡ q v) where
    find-map_rows : (t : Table V) → find q (map_rows f t) ≡ map_rows f (find q t)
    find-map_rows [] = refl
    find-map_rows ((j, v) ∷ t) = ground (arith, find-map_rows t, blind v)

    count-map_rows : (t : Table V) → count q (map_rows f t) ≡ count q t
    count-map_rows [] = refl
    count-map_rows ((j, v) ∷ t) = ground (arith, count-map_rows t, blind v)

views-hide_split :
    (t : Table Order) → to_customer_order_views (map_rows hide_split t) ≡ to_customer_order_views t
unfolding to_customer_order_views to_customer_order_view
views-hide_split [] = refl
views-hide_split ((j, o) ∷ t) = rw (views-hide_split t) refl

find_page-hide_split :
    (q : Order → Bool) (pagination : PaginationDto) (t : Table Order)
    → ((o : Order) → q (hide_split o) ≡ q o)
    → with_items to_customer_order_views (find_page q pagination (map_rows hide_split t))
      ≡ with_items to_customer_order_views (find_page q pagination t)
unfolding find_page paginate
find_page-hide_split q pagination t blind =
    rw
      (
        find-map_rows hide_split q blind t,
        count-map_rows hide_split q blind t,
        newest_first-map_rows hide_split (find q t),
        drop-map_rows hide_split (skip pagination) (newest_first (find q t)),
        take-map_rows hide_split pagination.limit
            (drop (skip pagination) (newest_first (find q t))),
        views-hide_split (take pagination.limit (drop (skip pagination) (newest_first (find q t)))),
      )
      refl

let_in :
    {A : Type 0} (p : JwtPayload) (handler : Uuid × User → Action A) (w : World) {u : User}
    → find_by_id p.sub w.users ≡ some u
    → guarded [] (some p) handler w ≡ handler (p.sub, u) w
let_in p handler w known = let runs = guarded_lem [] (some p) handler w in ground arith

module _ (p : JwtPayload) (u : User) (w : World) where
  show_order-hidden :
      (order_id : Uuid)
      → u.role ≡ customer
      → (show_order order_id (p.sub, u) (hidden w)).0 ≡ (show_order order_id (p.sub, u) w).0
  unfolding show_order answer to_customer_order_view
  show_order-hidden order_id role =
      let shown = find_by_id-map_rows hide_split order_id w.orders in
      elim (Option-cases (find_by_id order_id w.orders)) [
        | inl unknown ↦ ground arith
        | inr (o, found) ↦ ground arith
      ]

  mine-hidden :
      (pagination : PaginationDto)
      → u.role ≡ customer
      → (mine pagination (p.sub, u) (hidden w)).0 ≡ (mine pagination (p.sub, u) w).0
  unfolding mine find_by_customer
  mine-hidden pagination role =
      let page =
        find_page-hide_split (λ o. o.customer_id == p.sub) pagination w.orders (λ o. refl) in
      ground arith

  -- A customer who asks for an order, or for a page of the own orders, is answered the same whatever the
  -- commission of the platform and the earnings of station and rider are.
  pub customer_answers_hidden :
      (order_id : Uuid) (pagination : PaginationDto)
      → u.role ≡ customer
      → find_by_id p.sub w.users ≡ some u
      → ((find_one_order (some p) order_id (hidden w)).0 ≡ (find_one_order (some p) order_id w).0)
        × ((find_mine (some p) pagination (hidden w)).0 ≡ (find_mine (some p) pagination w).0)
  unfolding find_one_order find_mine
  customer_answers_hidden order_id pagination role known = (
    ap (λ (r : Result OrderAnswer × World). r.0) (let_in p (show_order order_id) (hidden w) known)
        ∙ show_order-hidden order_id role
        ∙ sym
            (ap (λ (r : Result OrderAnswer × World). r.0) (let_in p (show_order order_id) w known)),
    ap (λ (r : Result PageAnswer × World). r.0) (let_in p (mine pagination) (hidden w) known)
        ∙ mine-hidden pagination role
        ∙ sym (ap (λ (r : Result PageAnswer × World). r.0) (let_in p (mine pagination) w known)),
  )
