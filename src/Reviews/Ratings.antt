-- ===== src/Reviews/Ratings.antt =====
-- One review to an order and a reviewer, each from one to five stars.
use powergas.Base.{
  ◌≤◌, ◌≡◌, Bool, none, ◌==◌, ◌&&◌, ◌||◌, ltb, arith, ◌⊎◌, inl, inr, Bool-cases, Option-cases,
}
use powergas.Table.{Uuid, AllRows, find_one, insert}
use powergas.Table.Rows.{AllRows-mono, AllRows-insert}
use powergas.Table.Unique.{IsUnique, insert-IsUnique, find_one-none-AllRows}
use powergas.Entities.{Review}
use powergas.World.{World, HttpException, err, bad_request, conflict}
use powergas.Reviews.{CreateReviewDto, is_review_of, new_review, create_review}

-- The index over order and reviewer.
abbrev pub same_review : Review → Review → Bool
same_review v u = (u.order_id == v.order_id) && (u.reviewer_id == v.reviewer_id)

pub record AreFair (w : World) : Type 0 where
  pub single : IsUnique same_review w.reviews
  pub rated : AllRows (λ r. (1 ≤ r.rating) × (r.rating ≤ 5)) w.reviews

create_review_cases :
    (reviewer_id : Uuid) (dto : CreateReviewDto) (w : World)
    → let r = create_review reviewer_id dto w in
      ((e : HttpException) × (r ≡ (err e, w)))
      ⊎ ((1 ≤ dto.rating)
          × (dto.rating ≤ 5)
          × (find_one (is_review_of dto.order_id reviewer_id) w.reviews ≡ none)
          × (r.1.reviews ≡ insert w.next_id (new_review reviewer_id dto) w.reviews))
unfolding create_review
create_review_cases reviewer_id dto w = elim (Bool-cases (ltb dto.rating 1 || ltb 5 dto.rating)) [
  | inl outside ↦ inl (bad_request, ground arith)
  | inr inside ↦ elim (Option-cases (find_one (is_review_of dto.order_id reviewer_id) w.reviews)) [
    | inr (row, found) ↦ inl (conflict, ground arith)
    | inl new ↦ inr (ground arith, ground arith, new, ground arith)
  ]
]

-- However the creation of a review ends, an order has at most one review of a reviewer, and every rating
-- is between one and five.
pub create_review-AreFair :
    (reviewer_id : Uuid) (dto : CreateReviewDto) (w : World)
    → AreFair w
    → AreFair (create_review reviewer_id dto w).1
unfolding new_review is_review_of
create_review-AreFair reviewer_id dto w h = elim (create_review_cases reviewer_id dto w) [
  | inl (e, refused) ↦ rw refused h
  | inr (low, high, new, inserted) ↦
      let r = new_review reviewer_id dto in
      let apart = find_one-none-AllRows (is_review_of dto.order_id reviewer_id) w.reviews new in
      record {
        single = rw inserted (
            insert-IsUnique same_review w.next_id r w.reviews h.single
              (AllRows-mono w.reviews (λ u other. ground arith) apart));
        rated = rw inserted (
            AllRows-insert (λ u. (1 ≤ u.rating) × (u.rating ≤ 5)) w.next_id r w.reviews h.rated
              (low, high));
      }
]
