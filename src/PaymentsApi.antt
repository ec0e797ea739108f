-- ===== src/PaymentsApi.antt =====
-- backend/src/payments/payments.controller.ts: payments are initiated and verified by any account; a webhook needs
-- none, and a name that is no provider's is refused before the service does anything.
use powergas.Base.{Option, List, [], ◌==◌}
use powergas.Table.{Uuid, Table, find}
use powergas.Entities.{Text, Payment, Reference, ProviderName}
use powergas.Queries.{newest_first}
use powergas.World.{World, Action, gets}
use powergas.Guards.{JwtPayload, guarded}
use powergas.Payments.{PaymentProvider, InitiatePaymentDto, initiate, verify, handle_webhook}

unfoldable pub find_payments_of : Uuid → World → Table Payment
find_payments_of order_id w = newest_first (find (λ p. p.order_id == order_id) w.payments)

unfoldable pub get_payments : Option JwtPayload → Uuid → Action (Table Payment)
get_payments payload order_id = guarded [] payload λ _. gets (find_payments_of order_id)

module _ (providers : List PaymentProvider) where
  unfoldable pub post_payment : Option JwtPayload → InitiatePaymentDto → Action (Uuid × Payment)
  post_payment payload dto = guarded [] payload λ _. initiate providers dto

  unfoldable pub get_verification : Option JwtPayload → Reference → Action (Uuid × Payment)
  get_verification payload reference = guarded [] payload λ _. verify providers reference

  -- `stringify` is JSON.stringify, on what the body says.
  unfoldable pub post_webhook :
      (Option Text → Option Reference → Text)
      → ProviderName
      → Option Text
      → Option Reference
      → Text
      → Action (Unit {0})
  post_webhook stringify provider event reference signature =
      handle_webhook providers provider event reference (stringify event reference) signature
