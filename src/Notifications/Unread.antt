-- ===== src/Notifications/Unread.antt =====
-- Reading clears what is unread, of its user alone.
use powergas.Base.{◌≡◌, false, [], ◌∷◌, ◌==◌, arith, if◌then◌else◌}
use powergas.Table.{Uuid, Table, count, update_where, update}
use powergas.Entities.{Time, Notification}
use powergas.World.{World}
use powergas.Notifications.{read, is_unread_of, mark_as_read, mark_all_as_read, get_unread_count}

count-read_all :
    (user_id other : Uuid) (now : Time) (t : Table Notification)
    → count (is_unread_of other) (update_where (is_unread_of user_id) (read now) t)
      ≡ (if other == user_id then 0 else count (is_unread_of other) t)
unfolding is_unread_of read
count-read_all user_id other now [] = ground arith
count-read_all user_id other now ((j, n) ∷ t) = ground (arith, count-read_all user_id other now t)

count-read_one :
    (user_id other id : Uuid) (now : Time) (t : Table Notification)
    → (other == user_id) ≡ false
    → count (is_unread_of other) (update id (λ n. if n.user_id == user_id then read now n else n) t)
      ≡ count (is_unread_of other) t
unfolding is_unread_of read
count-read_one user_id other id now [] apart = ground arith
count-read_one user_id other id now ((j, n) ∷ t) apart =
    ground (arith, count-read_one user_id other id now t apart)

-- After a user has read all there is nothing unread for the user, and as much as before for every other
-- user; and reading one notification, of whatever key, changes no other user's count.
pub get_unread_count-mark_all_as_read :
    (user_id other id : Uuid) (w : World)
    → (get_unread_count other (mark_all_as_read user_id w).1
        ≡ (if other == user_id then 0 else get_unread_count other w))
      × ((other == user_id) ≡ false
          → get_unread_count other (mark_as_read user_id id w).1 ≡ get_unread_count other w)
unfolding get_unread_count mark_all_as_read mark_as_read
get_unread_count-mark_all_as_read user_id other id w = (
  count-read_all user_id other w.now w.notifications,
  count-read_one user_id other id w.now w.notifications,
)
