-- ===== src/ChangeRequestsApi.antt =====
-- backend/src/change-requests/change-requests.controller.ts: who raises a change request, and who answers it.
pub mod Station
use powergas.Base.{Option, none, some, [], ◌∷◌, List, ◌==◌}
use powergas.Enums.{
  UserRole, customer, station_staff, station_manager, admin, super_admin, PaymentMethod,
}
use powergas.Table.{Uuid, Table, find}
use powergas.Entities.{Text, OrderChangeRequest}
use powergas.Queries.{newest_first}
use powergas.World.{World, Action, bad_request, gets, or_raise, ◌>>=◌}
use powergas.Guards.{JwtPayload, guarded}
use powergas.Stations.{resolve_station_for_user}
use powergas.Payments.{PaymentProvider}
use powergas.ChangeRequests.{CreateChangeRequestDto, create_request, approve, reject}

unfoldable pub find_requests_of : Uuid → World → Table OrderChangeRequest
find_requests_of order_id w = newest_first (find (λ c. c.order_id == order_id) w.change_requests)

-- The rest of `create`, for its user.
unfoldable pub raise_request : CreateChangeRequestDto → Uuid → Action Uuid
raise_request dto user_id = do
  station_id ← or_raise (← gets (resolve_station_for_user user_id)) bad_request
  create_request dto station_id user_id

unfoldable pub post_request : Option JwtPayload → CreateChangeRequestDto → Action Uuid
post_request payload dto =
    guarded (station_staff ∷ station_manager ∷ []) payload λ (id, _). raise_request dto id

unfoldable pub get_requests : Option JwtPayload → Uuid → Action (Table OrderChangeRequest)
get_requests payload order_id =
    guarded (customer ∷ station_staff ∷ station_manager ∷ admin ∷ super_admin ∷ []) payload
      λ _. gets (find_requests_of order_id)

unfoldable pub patch_approval :
    List PaymentProvider
    → (Uuid → Text)
    → Option JwtPayload
    → Uuid
    → PaymentMethod
    → Action OrderChangeRequest
patch_approval providers request_key payload id method =
    guarded (customer ∷ []) payload λ (user_id, _). approve providers request_key id user_id method

unfoldable pub patch_rejection : Option JwtPayload → Uuid → Action OrderChangeRequest
patch_rejection payload id = guarded (customer ∷ []) payload λ _. reject id
