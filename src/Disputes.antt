-- ===== src/Disputes.antt =====
-- backend/src/disputes/disputes.service.ts: disputes and their resolution. The type, the description and the
-- evidence are left out.
use powergas.Base.{ℕ, Bool, true, Option, none, some, ◌==◌}
use powergas.Enums.{DisputeStatus, opened, under_review, resolved, closed, escalated}
use powergas.Table.{Uuid, find_by_id, update, insert}
use powergas.Entities.{Text, Cents, Time, Dispute}
use powergas.Pagination.{PaginationDto, PaginatedResult}
use powergas.Queries.{find_page}
use powergas.World.{
  World, Action, not_found, dispute_opened, dispute_resolved, pure, gets, or_raise, modify,
  fresh_id, emit, ◌>>=◌, ◌>>◌,
}

abbrev dispute_code : DisputeStatus → ℕ
dispute_code opened = 0
dispute_code under_review = 1
dispute_code resolved = 2
dispute_code closed = 3
dispute_code escalated = 4

abbrev pub dispute_status_eq : DisputeStatus → DisputeStatus → Bool
dispute_status_eq a b = dispute_code a == dispute_code b

unfoldable pub new_dispute : Uuid → Uuid → Dispute
new_dispute customer_id order_id = record {
  order_id = order_id;
  customer_id = customer_id;
  status = opened;
  assigned_admin_id = none;
  resolution = none;
  refund_amount = none;
  resolved_at = none;
}

unfoldable pub create_dispute : Uuid → Uuid → Action Uuid
create_dispute customer_id order_id = do
  id ← fresh_id
  modify λ w. record w { disputes = insert id (new_dispute customer_id order_id) w.disputes }
  emit (dispute_opened id (new_dispute customer_id order_id))
  pure id

unfoldable pub find_dispute : Uuid → Action Dispute
find_dispute id = do or_raise (← gets (λ w. find_by_id id w.disputes)) not_found

abbrev update_dispute : Uuid → (Dispute → Dispute) → Action (Unit {0})
update_dispute id f = modify (λ w. record w { disputes = update id f w.disputes })

unfoldable pub assign_admin : Uuid → Uuid → Action Dispute
assign_admin id admin_id = do
  update_dispute id (λ d. record d { assigned_admin_id = some admin_id; status = under_review })
  find_dispute id

unfoldable pub settle_dispute : Text → Option Cents → Time → Dispute → Dispute
settle_dispute resolution refund_amount now d = record d {
  status = resolved;
  resolution = some resolution;
  refund_amount = refund_amount;
  resolved_at = some now;
}

unfoldable pub resolve : Uuid → Text → Option Cents → Action Dispute
resolve id resolution refund_amount = do
  now ← gets (λ w. w.now)
  update_dispute id (settle_dispute resolution refund_amount now)
  dispute ← find_dispute id
  emit (dispute_resolved id dispute)
  pure dispute

unfoldable pub find_disputes_of : Uuid → PaginationDto → World → PaginatedResult (Uuid × Dispute)
find_disputes_of customer_id pagination w =
    find_page (λ d. d.customer_id == customer_id) pagination w.disputes

unfoldable pub find_all_disputes :
    PaginationDto → Option DisputeStatus → World → PaginatedResult (Uuid × Dispute)
find_all_disputes pagination none w = find_page (λ _. true) pagination w.disputes
find_all_disputes pagination (some status) w =
    find_page (λ d. dispute_status_eq d.status status) pagination w.disputes
