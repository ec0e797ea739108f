-- ===== src/Customers.antt =====
-- backend/src/customers/customers.service.ts: profiles and addresses. The label, the city, the region, the
-- postal code, the position and the metadata of an address are left out.
pub mod Addresses
use powergas.Base.{
  Bool, true, false, Option, none, some, List, [], ◌∷◌, ◌++◌, ◌==◌, ◌&&◌, not, or_else, is_some,
  if◌then◌else◌,
}
use powergas.Table.{
  Uuid, Table, find_by_id, find_one, find, update, update_where, insert, soft_delete,
}
use powergas.Entities.{Text, Time, Customer, Address}
use powergas.Queries.{newest_first}
use powergas.World.{
  World, ok, Action, not_found, forbidden, entity_not_found, pure, gets, or_raise, raise_if, modify,
  fresh_id, ◌>>=◌, ◌>>◌,
}

unfoldable pub create_profile_of : Uuid → Action (Uuid × Customer)
create_profile_of user_id = do
  id ← fresh_id
  modify (λ w. record w { customers = insert id (record { user_id = user_id }) w.customers })
  pure (id, record { user_id = user_id })

unfoldable pub find_customer_of : Uuid → Action (Uuid × Customer)
find_customer_of user_id w = elim (find_one (λ (c : Customer). c.user_id == user_id) w.customers) [
  | some row ↦ (ok row, w)
  | none ↦ create_profile_of user_id w
]

pub record CreateAddressDto : Type 0 where
  pub full_address : Text
  pub is_default : Option Bool

-- `Partial<CreateAddressDto>`, which is `Object` at run time: nothing is stripped from the body, which may
-- name any column of the row. A body that names its key is left out.
pub record UpdateAddressDto : Type 0 where
  pub user_id : Option Uuid
  pub full_address : Option Text
  pub is_default : Option Bool
  pub deleted_at : Option Time

abbrev pub truthy : Option Bool → Bool
truthy flag = or_else flag false

abbrev pub clear_default : Address → Address
clear_default a = record a { is_default = false }

-- `if (dto.isDefault) await update({ userId }, { isDefault: false })`
unfoldable pub clear_defaults : Bool → Uuid → Action (Unit {0})
clear_defaults default user_id = modify λ w. record w {
  addresses =
      if default
      then update_where (λ a. a.user_id == user_id) clear_default w.addresses
      else w.addresses;
}

unfoldable pub new_address : Uuid → CreateAddressDto → Address
new_address user_id dto = record {
  user_id = user_id;
  full_address = dto.full_address;
  is_default = truthy dto.is_default;
}

unfoldable pub add_address : Uuid → CreateAddressDto → Action Uuid
add_address user_id dto = do
  clear_defaults (truthy dto.is_default) user_id
  id ← fresh_id
  modify (λ w. record w { addresses = insert id (new_address user_id dto) w.addresses })
  pure id

-- `order: { isDefault: 'DESC', createdAt: 'DESC' }`
unfoldable pub get_addresses : Uuid → World → Table Address
get_addresses user_id w =
    newest_first (find (λ a. (a.user_id == user_id) && a.is_default) w.addresses)
    ++ newest_first (find (λ a. (a.user_id == user_id) && not a.is_default) w.addresses)

unfoldable pub change_address : UpdateAddressDto → Address → Address
change_address dto a = record a {
  user_id = or_else dto.user_id a.user_id;
  full_address = or_else dto.full_address a.full_address;
  is_default = or_else dto.is_default a.is_default;
}

-- `addressRepo.update(addressId, dto)`: a row that is given a time of deletion is not found any more.
unfoldable pub write_address : Uuid → UpdateAddressDto → Table Address → Table Address
write_address id dto t =
    if is_some dto.deleted_at then soft_delete id t else update id (change_address dto) t

abbrev pub find_address : Uuid → Action Address
find_address id = do or_raise (← gets (λ w. find_by_id id w.addresses)) not_found

unfoldable pub update_address : Uuid → Uuid → UpdateAddressDto → Action Address
update_address user_id address_id dto = do
  address ← find_address address_id
  raise_if (not (address.user_id == user_id)) forbidden
  clear_defaults (truthy dto.is_default) user_id
  modify (λ w. record w { addresses = write_address address_id dto w.addresses })
  or_raise (← gets (λ w. find_by_id address_id w.addresses)) entity_not_found

unfoldable pub delete_address : Uuid → Uuid → Action (Unit {0})
delete_address user_id address_id = do
  address ← find_address address_id
  raise_if (not (address.user_id == user_id)) forbidden
  modify (λ w. record w { addresses = soft_delete address_id w.addresses })
