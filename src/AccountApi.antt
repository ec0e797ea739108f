-- ===== src/AccountApi.antt =====
-- The routes on one's own account: backend/src/users/users.controller.ts, backend/src/customers/customers.controller.ts,
-- backend/src/notifications/notifications.controller.ts and the route of backend/src/reviews/reviews.controller.ts that writes.
use powergas.Base.{ℕ, Option, []}
use powergas.Table.{Uuid, Table}
use powergas.Entities.{Text, User, Customer, Address, Notification, Review}
use powergas.Pagination.{PaginationDto, PaginatedResult}
use powergas.World.{Action, gets}
use powergas.Guards.{JwtPayload, guarded}
use powergas.Users.{find_user_or_fail, update_profile, update_fcm_token}
use powergas.Customers.{
  CreateAddressDto, UpdateAddressDto, find_customer_of, get_addresses, add_address, update_address,
  delete_address,
}
use powergas.Notifications.{get_for_user, get_unread_count, mark_as_read, mark_all_as_read}
use powergas.Reviews.{CreateReviewDto, create_review}

unfoldable pub get_profile : Option JwtPayload → Action User
get_profile payload = guarded [] payload λ (id, _). find_user_or_fail id

-- The fields of the body are written, whatever they are.
unfoldable pub patch_profile : Option JwtPayload → (User → User) → Action User
patch_profile payload f = guarded [] payload λ (id, _). update_profile id f

unfoldable pub patch_fcm_token : Option JwtPayload → Text → Action (Unit {0})
patch_fcm_token payload token = guarded [] payload λ (id, _). update_fcm_token id token

unfoldable pub my_customer : Option JwtPayload → Action (Uuid × Customer)
my_customer payload = guarded [] payload λ (id, _). find_customer_of id

unfoldable pub my_addresses : Option JwtPayload → Action (Table Address)
my_addresses payload = guarded [] payload λ (id, _). gets (get_addresses id)

unfoldable pub post_address : Option JwtPayload → CreateAddressDto → Action Uuid
post_address payload dto = guarded [] payload λ (id, _). add_address id dto

unfoldable pub patch_address : Option JwtPayload → Uuid → UpdateAddressDto → Action Address
patch_address payload address_id dto =
    guarded [] payload λ (id, _). update_address id address_id dto

unfoldable pub remove_address : Option JwtPayload → Uuid → Action (Unit {0})
remove_address payload address_id = guarded [] payload λ (id, _). delete_address id address_id

unfoldable pub my_notifications :
    Option JwtPayload → PaginationDto → Action (PaginatedResult (Uuid × Notification))
my_notifications payload pagination =
    guarded [] payload λ (id, _). gets (get_for_user id pagination)

unfoldable pub my_unread_count : Option JwtPayload → Action ℕ
my_unread_count payload = guarded [] payload λ (id, _). gets (get_unread_count id)

unfoldable pub patch_read : Option JwtPayload → Uuid → Action (Unit {0})
patch_read payload notification_id = guarded [] payload λ (id, _). mark_as_read id notification_id

unfoldable pub patch_read_all : Option JwtPayload → Action (Unit {0})
patch_read_all payload = guarded [] payload λ (id, _). mark_all_as_read id

unfoldable pub post_review : Option JwtPayload → CreateReviewDto → Action Review
post_review payload dto = guarded [] payload λ (id, _). create_review id dto
