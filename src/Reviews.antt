-- ===== src/Reviews.antt =====
-- backend/src/reviews/reviews.service.ts: the reviews of orders. Comments are left out. A rating is an
-- integer (`@IsInt`), and none is below zero here.
pub mod Ratings
use powergas.Base.{
  ℕ, ◌+◌, Bool, Option, none, some, List, [], ◌∷◌, ◌==◌, ◌&&◌, ◌||◌, ltb, take, same, is_some,
  if◌then◌else◌,
}
use powergas.Table.{Uuid, Table, find_one, find, insert}
use powergas.Entities.{Review}
use powergas.Queries.{newest_first}
use powergas.World.{
  World, Action, bad_request, conflict, pure, raise_if, gets, modify, fresh_id, ◌>>=◌, ◌>>◌,
}

pub record CreateReviewDto : Type 0 where
  pub order_id : Uuid
  pub station_id : Option Uuid
  pub rider_id : Option Uuid
  pub rating : ℕ

-- `where: { orderId, reviewerId }`
unfoldable pub is_review_of : Uuid → Uuid → Review → Bool
is_review_of order_id reviewer_id r = (r.order_id == order_id) && (r.reviewer_id == reviewer_id)

unfoldable pub new_review : Uuid → CreateReviewDto → Review
new_review reviewer_id dto = record {
  order_id = dto.order_id;
  reviewer_id = reviewer_id;
  station_id = dto.station_id;
  rider_id = dto.rider_id;
  rating = dto.rating;
}

unfoldable pub create_review : Uuid → CreateReviewDto → Action Review
create_review reviewer_id dto = do
  raise_if (ltb dto.rating 1 || ltb 5 dto.rating) bad_request
  existing ← gets (λ w. find_one (is_review_of dto.order_id reviewer_id) w.reviews)
  raise_if (is_some existing) conflict
  id ← fresh_id
  modify (λ w. record w { reviews = insert id (new_review reviewer_id dto) w.reviews })
  pure (new_review reviewer_id dto)

unfoldable pub get_for_station : Uuid → World → Table Review
get_for_station station_id w =
    take 50 (newest_first (find (λ r. same r.station_id (some station_id)) w.reviews))

unfoldable pub get_for_rider : Uuid → World → Table Review
get_for_rider rider_id w =
    take 50 (newest_first (find (λ r. same r.rider_id (some rider_id)) w.reviews))

-- `AVG(r.rating)`: the sum of the ratings and their number.
abbrev pub sum_ratings : Table Review → ℕ × ℕ
sum_ratings [] = (0, 0)
sum_ratings ((_, r) ∷ t) = let (sum, n) = sum_ratings t in (r.rating + sum, n + 1)

-- `qb.where` replaces the condition before it, so a rider's filter wins over a station's.
unfoldable pub get_average_rating : Option Uuid → Option Uuid → World → ℕ × ℕ
get_average_rating station_id (some rider_id) w =
    sum_ratings (find (λ r. same r.rider_id (some rider_id)) w.reviews)
get_average_rating (some station_id) none w =
    sum_ratings (find (λ r. same r.station_id (some station_id)) w.reviews)
get_average_rating none none w = sum_ratings w.reviews
