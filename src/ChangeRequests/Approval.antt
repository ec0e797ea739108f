-- ===== src/ChangeRequests/Approval.antt =====
-- A change request that is paid is charged to its order once.
use powergas.Base.{
  ℕ, ◌+◌, ◌≡◌, ◌≢◌, refl, Bool, false, none, some, List, [], ◌∷◌, arith, inl, inr, Bool-cases,
}
use powergas.Enums.{ChangeRequestStatus, PaymentMethod}
use powergas.Table.{
  Uuid, Table, IsKeyed, find_by_id, find_one, count, update, find_by_id-update_self,
  find_one-find_by_id,
}
use powergas.Entities.{Text, Order, OrderChangeRequest, Reference}
use powergas.World.{World, ok, err, bad_request}
use powergas.Payments.{PaymentProvider}
use powergas.ChangeRequests.{
  approve, reject, respond, charge, is_awaited, approve_found, handle_payment_of_request,
}

module _ {V : Type 0} where
  count-update_out :
      (q : V → Bool) (f : V → V) (t : Table V) {k : Uuid} {v : V}
      → IsKeyed t
      → find_one q t ≡ some (k, v)
      → q (f v) ≡ false
      → count q (update k f t) + 1 ≡ count q t
  count-update_out q f [] keyed e out = cc
  count-update_out q f ((j, u) ∷ t) {k} {v} keyed e out = ground (
    arith,
    count-update_out q f t {k = k} {v = v} keyed.1,
    find_one-find_by_id q t {k = k} {v = v} keyed.1,
  )

  none_counted : (q : V → Bool) (t : Table V) → count q t ≡ 0 → find_one q t ≡ none
  none_counted q [] h = refl
  none_counted q ((j, u) ∷ t) h = elim (Bool-cases (q u)) [
    | inl holds ↦ absurd (ground arith)
    | inr fails ↦ ground (arith, none_counted q t)
  ]

answered_is_out :
    (order_id : Uuid) (reference : Reference) (now : ℕ) (c : OrderChangeRequest)
    → is_awaited order_id reference (respond ChangeRequestStatus.approved now c) ≡ false
unfolding respond
answered_is_out order_id reference now c = ground arith

-- A payment that one pending request of an order waits for adds the amount of the request to the order's
-- subtotal and total. When it is reported again, nothing changes.
pub handle_payment_of_request_once :
    (order_id : Uuid) (reference : Reference) (w : World) {id : Uuid} {c : OrderChangeRequest}
    {o : Order}
    → IsKeyed w.change_requests
    → find_one (is_awaited order_id reference) w.change_requests ≡ some (id, c)
    → count (is_awaited order_id reference) w.change_requests ≡ 1
    → find_by_id order_id w.orders ≡ some o
    → let w' = (handle_payment_of_request order_id reference w).1 in
      (find_by_id order_id w'.orders ≡ some (charge c.additional_amount o))
      × (find_by_id id w'.change_requests ≡ some (respond ChangeRequestStatus.approved w.now c))
      × (handle_payment_of_request order_id reference w' ≡ (ok tt, w'))
unfolding handle_payment_of_request approve_found
handle_payment_of_request_once order_id reference w {id} {c} {o} keyed found one there =
    let answer = respond ChangeRequestStatus.approved w.now in
    let (at_key, _) =
      find_one-find_by_id (is_awaited order_id reference) w.change_requests keyed found in
    let fewer =
      count-update_out (is_awaited order_id reference) answer w.change_requests keyed found
        (answered_is_out order_id reference w.now c) in
    let none_left =
      none_counted (is_awaited order_id reference) (update id answer w.change_requests)
        (omega (arith, fewer)) in
    let charged = find_by_id-update_self order_id (charge c.additional_amount) w.orders there in
    let answered = find_by_id-update_self id answer w.change_requests at_key in
    rw found (charged, answered, rw none_left refl)

-- A request that is answered can neither be approved nor rejected.
pub approve_answered :
    (providers : List PaymentProvider) (request_key : Uuid → Text) (id customer_id : Uuid)
    (method : PaymentMethod) (w : World) {c : OrderChangeRequest}
    → find_by_id id w.change_requests ≡ some c
    → c.status ≢ ChangeRequestStatus.pending
    → (approve providers request_key id customer_id method w ≡ (err bad_request, w))
      × (reject id w ≡ (err bad_request, w))
unfolding approve reject
approve_answered providers request_key id customer_id method w found answered =
    (ground arith, ground arith)
