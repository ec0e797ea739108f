-- ===== src/Users.antt =====
-- backend/src/users/users.service.ts: the accounts. Names and pictures of persons are left out.
use powergas.Base.{Bool, true, false, Option, none, some, ◌==◌, ◌||◌, ltb}
use powergas.Enums.{VerificationStatus}
use powergas.Table.{Uuid, find_by_id, find_one, update, insert, soft_delete}
use powergas.Entities.{Text, Time, User}
use powergas.World.{World, Action, not_found, pure, gets, or_raise, modify, fresh_id, ◌>>=◌, ◌>>◌}

-- `user.isLocked`
unfoldable pub is_locked : Time → User → Bool
is_locked now u = elim u.locked_until [ none ↦ false | some until ↦ ltb now until ]

unfoldable pub create_user : User → Action (Uuid × User)
create_user user = do
  id ← fresh_id
  modify λ w. record w { users = insert id user w.users }
  pure (id, user)

unfoldable pub find_user : Uuid → World → Option User
find_user id w = find_by_id id w.users

unfoldable pub find_user_or_fail : Uuid → Action User
find_user_or_fail id = do user ← gets (find_user id); or_raise user not_found

unfoldable pub find_by_email : Text → World → Option (Uuid × User)
find_by_email email w = find_one (λ u. u.email == email) w.users

unfoldable pub find_by_email_or_phone : Text → Text → World → Option (Uuid × User)
find_by_email_or_phone email phone w = find_one (λ u. u.email == email || u.phone == phone) w.users

abbrev pub update_user : Uuid → (User → User) → Action (Unit {0})
update_user id f = modify (λ w. record w { users = update id f w.users })

-- `update`: the changed columns are a function.
unfoldable pub update_profile : Uuid → (User → User) → Action User
update_profile id f = do update_user id f; find_user_or_fail id

unfoldable pub mark_verified : User → User
mark_verified u = record u { phone_verified = true; status = VerificationStatus.verified }

unfoldable pub mark_phone_verified : Uuid → Action (Unit {0})
mark_phone_verified id = update_user id mark_verified

unfoldable pub clear_failures : User → User
clear_failures u = record u { failed_login_attempts = 0; locked_until = none }

unfoldable pub reset_failed_logins : Uuid → Action (Unit {0})
reset_failed_logins id = update_user id clear_failures

unfoldable pub update_failed_logins : Uuid → (User → User) → Action (Unit {0})
update_failed_logins id f = update_user id f

unfoldable pub seen_at : Time → Text → User → User
seen_at now ip u = record u { last_login_at = some now; last_login_ip = some ip }

unfoldable pub update_last_login : Uuid → Text → Action (Unit {0})
update_last_login id ip = do now ← gets (λ w. w.now); update_user id (seen_at now ip)

unfoldable pub update_fcm_token : Uuid → Text → Action (Unit {0})
update_fcm_token id token = update_user id (λ u. record u { fcm_token = some token })

unfoldable pub suspend : Uuid → Action (Unit {0})
suspend id = update_user id (λ u. record u { status = VerificationStatus.suspended })

unfoldable pub delete_user : Uuid → Action (Unit {0})
delete_user id = modify (λ w. record w { users = soft_delete id w.users })
