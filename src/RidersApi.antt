-- ===== src/RidersApi.antt =====
-- backend/src/riders/riders.controller.ts: the routes of the riders, each on the rider of its user. The nearest
-- riders are raw SQL and are left out.
pub mod Own
use powergas.Base.{ℤ, Option, none, some, List, [], ◌∷◌, true}
use powergas.Enums.{UserRole, rider, admin, super_admin, RiderStatus, VerificationStatus}
use powergas.Table.{Uuid}
use powergas.Entities.{Rider, RiderWallet, WalletTransaction}
use powergas.Pagination.{PaginationDto, PaginatedResult}
use powergas.Queries.{find_page}
use powergas.World.{World, Action, pure, gets, ◌>>=◌}
use powergas.Guards.{JwtPayload, guarded}
use powergas.Riders.{
  find_by_user_id, set_availability, get_wallet, get_transactions, request_withdrawal,
  review_verification,
}

unfoldable pub find_all_riders : PaginationDto → World → PaginatedResult (Uuid × Rider)
find_all_riders pagination w = find_page (λ _. true) pagination w.riders

unfoldable pub list_riders :
    Option JwtPayload → PaginationDto → Action (PaginatedResult (Uuid × Rider))
list_riders payload pagination =
    guarded (admin ∷ super_admin ∷ []) payload λ _. gets (find_all_riders pagination)

unfoldable pub my_profile : Option JwtPayload → Action (Uuid × Rider)
my_profile payload = guarded (rider ∷ []) payload λ (id, _). find_by_user_id id

unfoldable pub patch_availability : Option JwtPayload → RiderStatus → Action Rider
patch_availability payload status =
    guarded (rider ∷ []) payload
      λ (id, _). do row ← find_by_user_id id; set_availability row.0 status

unfoldable pub my_wallet : Option JwtPayload → Action RiderWallet
my_wallet payload =
    guarded (rider ∷ []) payload λ (id, _). do row ← find_by_user_id id; get_wallet row.0

unfoldable pub my_transactions : Option JwtPayload → Action (List WalletTransaction)
my_transactions payload =
    guarded (rider ∷ []) payload
      λ (id, _). do row ← find_by_user_id id; gets (get_transactions row.0)

-- The rest of `withdraw`, for its user.
unfoldable pub withdraw_as : ℤ → Uuid → Action WalletTransaction
withdraw_as amount user_id = do row ← find_by_user_id user_id; request_withdrawal row.0 amount

unfoldable pub post_withdrawal : Option JwtPayload → ℤ → Action WalletTransaction
post_withdrawal payload amount = guarded (rider ∷ []) payload λ (id, _). withdraw_as amount id

unfoldable pub patch_verification : Option JwtPayload → Uuid → VerificationStatus → Action Rider
patch_verification payload id status =
    guarded (admin ∷ super_admin ∷ []) payload λ _. review_verification id status
