-- ===== src/Orders/Confirm.antt =====
-- `confirmDelivery` of backend/src/orders/orders.service.ts.
pub mod Effects
use powergas.Base.{ℕ, Bool, true, Option, none, some, ◌==◌, not, same}
use powergas.Enums.{OrderStatus, delivered, customer_confirmed, status_eq}
use powergas.Table.{Uuid}
use powergas.Entities.{Text, Order}
use powergas.World.{
  World, Action, bad_request, forbidden, order_status, pure, raise_if, emit, ◌>>=◌, ◌>>◌,
}
use powergas.Orders.Store.{find_order, update_order, save_history}

-- `proofUrl || order.proofOfDeliveryUrl`
abbrev pub given_or : Option Text → Option Text → Option Text
given_or none old = old
given_or (some url) _ = some url

unfoldable pub confirm : Option Text → Order → Order
confirm proof_url o = record o {
  status = customer_confirmed;
  otp_verified = true;
  proof_of_delivery_url = given_or proof_url o.proof_of_delivery_url;
}

unfoldable pub confirm_delivery : Uuid → Uuid → Text → Option Text → Action Order
confirm_delivery order_id customer_id otp proof_url = do
  order ← find_order order_id
  raise_if (not (order.customer_id == customer_id)) forbidden
  raise_if (not (status_eq order.status delivered)) bad_request
  raise_if (not (same order.delivery_otp (some otp))) bad_request
  update_order order_id (confirm proof_url)
  save_history order_id (some delivered) customer_confirmed (some customer_id)
  updated ← find_order order_id
  emit (order_status customer_confirmed order_id updated)
  pure updated
