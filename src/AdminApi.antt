-- ===== src/AdminApi.antt =====
-- The routes of the administration: backend/src/admin/admin.controller.ts, backend/src/disputes/disputes.controller.ts and
-- the suspension of backend/src/users/users.controller.ts. The financial report is raw SQL, and the reads of
-- rules, settings and audit logs are the tables themselves.
pub mod Privileges
use powergas.Base.{ℤ, Option, List, [], ◌∷◌, or_else}
use powergas.Enums.{UserRole, customer, admin, super_admin, DisputeStatus}
use powergas.Table.{Uuid}
use powergas.Entities.{Text, Cents, User, PlatformCommission, SystemSetting, Dispute}
use powergas.Pagination.{PaginationDto, PaginatedResult}
use powergas.World.{World, Action, gets}
use powergas.Guards.{JwtPayload, guarded}
use powergas.Users.{suspend}
use powergas.Admin.{
  set_commission, upsert_setting, get_all_users, PlatformAnalytics, get_platform_analytics,
  StationRevenue, get_station_revenue,
}
use powergas.Disputes.{
  create_dispute, find_dispute, assign_admin, resolve, find_disputes_of, find_all_disputes,
}

abbrev pub admin_roles : List UserRole
admin_roles = admin ∷ super_admin ∷ []

unfoldable pub get_analytics : Option JwtPayload → Action PlatformAnalytics
get_analytics payload = guarded admin_roles payload λ _. gets get_platform_analytics

unfoldable pub list_users :
    Option JwtPayload → PaginationDto → Action (PaginatedResult (Uuid × User))
list_users payload pagination = guarded admin_roles payload λ _. gets (get_all_users pagination)

unfoldable pub get_revenue : Option JwtPayload → Uuid → Action StationRevenue
get_revenue payload id = guarded admin_roles payload λ _. gets (get_station_revenue id)

unfoldable pub post_commission : Option JwtPayload → ℤ → Option Uuid → Action PlatformCommission
post_commission payload percent station_id =
    guarded admin_roles payload λ _. set_commission percent station_id

-- `body.category ?? 'general'`: the word `general` is a parameter.
unfoldable pub put_setting :
    Text → Option JwtPayload → Text → Text → Option Text → Action SystemSetting
put_setting general payload key value category =
    guarded admin_roles payload λ _. upsert_setting key value (or_else category general)

unfoldable pub patch_suspension : Option JwtPayload → Uuid → Action (Unit {0})
patch_suspension payload id = guarded admin_roles payload λ _. suspend id

unfoldable pub post_dispute : Option JwtPayload → Uuid → Action Uuid
post_dispute payload order_id =
    guarded (customer ∷ []) payload λ (id, _). create_dispute id order_id

unfoldable pub my_disputes :
    Option JwtPayload → PaginationDto → Action (PaginatedResult (Uuid × Dispute))
my_disputes payload pagination =
    guarded (customer ∷ []) payload λ (id, _). gets (find_disputes_of id pagination)

unfoldable pub list_disputes :
    Option JwtPayload
    → PaginationDto
    → Option DisputeStatus
    → Action (PaginatedResult (Uuid × Dispute))
list_disputes payload pagination status =
    guarded admin_roles payload λ _. gets (find_all_disputes pagination status)

unfoldable pub show_dispute : Option JwtPayload → Uuid → Action Dispute
show_dispute payload id = guarded [] payload λ _. find_dispute id

unfoldable pub patch_assignment : Option JwtPayload → Uuid → Action Dispute
patch_assignment payload id = guarded admin_roles payload λ (admin_id, _). assign_admin id admin_id

unfoldable pub patch_resolution : Option JwtPayload → Uuid → Text → Option Cents → Action Dispute
patch_resolution payload id resolution refund_amount =
    guarded admin_roles payload λ _. resolve id resolution refund_amount
