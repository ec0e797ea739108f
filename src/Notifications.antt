-- ===== src/Notifications.antt =====
-- backend/src/notifications/notifications.service.ts: what users are told. The channels (channels/) only log what
-- they would send and always succeed; the further data of a notification and the log of audits are left
-- out.
pub mod Unread
use powergas.Base.{
  ℕ, Bool, true, false, Option, none, some, List, [], ◌∷◌, ◌==◌, ◌&&◌, not, or_else, is_some,
  if◌then◌else◌,
}
use powergas.Enums.{NotificationType}
use powergas.Table.{Uuid, Table, find_by_id, count, update, update_where, insert}
use powergas.Entities.{Text, Time, Notification}
use powergas.Pagination.{PaginationDto, PaginatedResult}
use powergas.Queries.{find_page}
use powergas.World.{
  World, ok, Action, entity_not_found, pure, gets, or_raise, modify, fresh_id, ◌>>=◌, ◌>>◌,
}

pub record Channels : Type 0 where
  pub push : Bool
  pub sms : Bool
  pub email : Bool

pub record SendNotificationParams : Type 0 where
  pub user_id : Uuid
  pub type : NotificationType
  pub title : Text
  pub body : Text
  pub channels : Option Channels
  pub fcm_token : Option Text
  pub phone : Option Text
  pub email : Option Text

unfoldable pub new_notification : SendNotificationParams → Notification
new_notification p = record {
  user_id = p.user_id;
  type = p.type;
  title = p.title;
  body = p.body;
  is_read = false;
  read_at = none;
  push_sent = false;
  sms_sent = false;
  email_sent = false;
}

-- `params.channels || { push: true }`
unfoldable pub channels_of : SendNotificationParams → Channels
channels_of p = or_else p.channels (record { push = true; sms = false; email = false })

-- A channel that is wanted and has an address sends, and says that it did.
unfoldable pub sent : Bool → Option Text → Bool → Bool
sent wanted address before = if wanted && is_some address then true else before

unfoldable pub mark_sent : SendNotificationParams → Notification → Notification
mark_sent p n = record n {
  push_sent = sent (channels_of p).push p.fcm_token n.push_sent;
  sms_sent = sent (channels_of p).sms p.phone n.sms_sent;
  email_sent = sent (channels_of p).email p.email n.email_sent;
}

unfoldable pub send : SendNotificationParams → Action Notification
send p = do
  id ← fresh_id
  modify λ w. record w { notifications = insert id (new_notification p) w.notifications }
  modify λ w. record w { notifications = update id (mark_sent p) w.notifications }
  or_raise (← gets (λ w. find_by_id id w.notifications)) entity_not_found

unfoldable pub get_for_user : Uuid → PaginationDto → World → PaginatedResult (Uuid × Notification)
get_for_user user_id pagination w = find_page (λ n. n.user_id == user_id) pagination w.notifications

unfoldable pub read : Time → Notification → Notification
read now n = record n { is_read = true; read_at = some now }

-- `where: { userId, isRead: false }`
unfoldable pub is_unread_of : Uuid → Notification → Bool
is_unread_of user_id n = (n.user_id == user_id) && not n.is_read

-- `update({ id, userId }, …)`: nothing happens where the notification is another user's.
unfoldable pub mark_as_read : Uuid → Uuid → Action (Unit {0})
mark_as_read user_id id w = (
  ok tt,
  record w {
    notifications =
        update id (λ n. if n.user_id == user_id then read w.now n else n) w.notifications;
  },
)

unfoldable pub mark_all_as_read : Uuid → Action (Unit {0})
mark_all_as_read user_id w = (
  ok tt,
  record w { notifications = update_where (is_unread_of user_id) (read w.now) w.notifications },
)

unfoldable pub get_unread_count : Uuid → World → ℕ
get_unread_count user_id w = count (is_unread_of user_id) w.notifications
