-- ===== src/ChangeRequests.antt =====
-- backend/src/change-requests/change-requests.service.ts: a station asks for more money for an order
-- under way; the customer approves by paying. The key `change-request-${id}` of that payment is an
-- injective text of the id (`request_key`).
pub mod Approval
use powergas.Base.{ℕ, ◌+◌, Bool, false, Option, none, some, List, [], ◌∷◌, ◌==◌, ◌&&◌, not}
use powergas.Enums.{ChangeRequestStatus, PaymentMethod, is_pending_request}
use powergas.Table.{Uuid, Table, find_by_id, find_one, update, insert}
use powergas.Entities.{Text, Cents, Time, Order, OrderChangeRequest, Payment, Reference}
use powergas.World.{
  World, ok, Action, bad_request, not_found, change_request_raised, change_request_rejected,
  change_request_approved, pure, gets, or_raise, raise_if, modify, fresh_id, emit, ◌>>=◌, ◌>>◌,
}
use powergas.Orders.Store.{update_order}
use powergas.Payments.{PaymentProvider, reference_eq, initiate}

pub record CreateChangeRequestDto : Type 0 where
  pub order_id : Uuid
  pub photo_url : Text
  pub additional_amount : Cents

abbrev pub find_order_of_request : Uuid → Action Order
find_order_of_request id = do or_raise (← gets (λ w. find_by_id id w.orders)) not_found

abbrev pub new_request : CreateChangeRequestDto → Uuid → Uuid → OrderChangeRequest
new_request dto station_id raised_by = record {
  order_id = dto.order_id;
  station_id = station_id;
  raised_by = raised_by;
  photo_url = dto.photo_url;
  additional_amount = dto.additional_amount;
  status = ChangeRequestStatus.pending;
  payment_reference = none;
  responded_at = none;
}

unfoldable pub create_request : CreateChangeRequestDto → Uuid → Uuid → Action Uuid
create_request dto station_id raised_by = do
  order ← find_order_of_request dto.order_id
  raise_if (not (order.station_id == station_id)) bad_request
  id ← fresh_id
  modify λ w. record w {
    change_requests = insert id (new_request dto station_id raised_by) w.change_requests;
  }
  emit (change_request_raised id dto.order_id)
  pure id

abbrev pub find_request : Uuid → Action OrderChangeRequest
find_request id = do or_raise (← gets (λ w. find_by_id id w.change_requests)) not_found

abbrev pub update_request : Uuid → (OrderChangeRequest → OrderChangeRequest) → Action (Unit {0})
update_request id f = modify (λ w. record w { change_requests = update id f w.change_requests })

unfoldable pub set_reference : Reference → OrderChangeRequest → OrderChangeRequest
set_reference reference c = record c { payment_reference = some reference }

unfoldable pub approve :
    List PaymentProvider → (Uuid → Text) → Uuid → Uuid → PaymentMethod → Action OrderChangeRequest
approve providers request_key id customer_id method = do
  request ← find_request id
  raise_if (not (is_pending_request request.status)) bad_request
  payment ← initiate providers (record {
    order_id = request.order_id;
    customer_id = customer_id;
    amount = request.additional_amount;
    payment_method = method;
    idempotency_key = some (request_key id);
  })
  update_request id (set_reference payment.1.reference)
  find_request id

unfoldable pub respond : ChangeRequestStatus → Time → OrderChangeRequest → OrderChangeRequest
respond s now c = record c { status = s; responded_at = some now }

unfoldable pub reject : Uuid → Action OrderChangeRequest
reject id = do
  request ← find_request id
  raise_if (not (is_pending_request request.status)) bad_request
  now ← gets (λ w. w.now)
  update_request id (respond ChangeRequestStatus.rejected now)
  updated ← find_request id
  emit (change_request_rejected id updated.order_id)
  pure updated

abbrev pub carries : Reference → Option Reference → Bool
carries reference none = false
carries reference (some r) = reference_eq r reference

-- `where: { orderId, status: PENDING, paymentReference: reference }`
abbrev pub is_awaited : Uuid → Reference → OrderChangeRequest → Bool
is_awaited order_id reference c =
    c.order_id == order_id && (is_pending_request c.status && carries reference c.payment_reference)

unfoldable pub charge : Cents → Order → Order
charge amount o = record o { subtotal = o.subtotal + amount; total = o.total + amount }

-- The approval of the request found; an order that is missing is passed over, as `update` does.
unfoldable pub approve_found : Uuid → Option (Uuid × OrderChangeRequest) → Action (Unit {0})
approve_found order_id none w = (ok tt, w)
approve_found order_id (some (id, c)) w =
    (do
      update_request id (respond ChangeRequestStatus.approved w.now)
      update_order order_id (charge c.additional_amount)
      emit (change_request_approved id order_id))
      w

unfoldable pub handle_payment_of_request : Uuid → Reference → Action (Unit {0})
handle_payment_of_request order_id reference w =
    approve_found order_id (find_one (is_awaited order_id reference) w.change_requests) w
