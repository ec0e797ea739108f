-- ===== src/Customers/Addresses.antt =====
-- A customer has one default address at most.
use powergas.Base.{
  ◌+◌, ◌≤◌, ◌≡◌, ◌∙◌, ◌⊎◌, Bool, true, false, some, [], ◌∷◌, arith, ◌==◌, ◌&&◌, or_else,
  if◌then◌else◌, inl, inr, Bool-cases, Option-cases,
}
use powergas.Table.{Uuid, Table, find_by_id, count, update, update_where, insert, soft_delete}
use powergas.Entities.{Address}
use powergas.World.{World, err, HttpException, not_found, forbidden}
use powergas.Customers.{
  CreateAddressDto, UpdateAddressDto, truthy, clear_default, clear_defaults, new_address,
  add_address, change_address, write_address, update_address, delete_address,
}

-- A default address of the user.
abbrev pub is_default_of : Uuid → Address → Bool
is_default_of user_id a = (a.user_id == user_id) && a.is_default

abbrev pub HasOneDefault : Table Address → Type 0
HasOneDefault t = (user_id : Uuid) → count (is_default_of user_id) t ≤ 1

count-cleared :
    (user_id other : Uuid) (t : Table Address)
    → count (is_default_of other) (update_where (λ a. a.user_id == user_id) clear_default t)
      ≡ (if other == user_id then 0 else count (is_default_of other) t)
count-cleared user_id other [] = ground arith
count-cleared user_id other ((j, a) ∷ t) = ground (arith, count-cleared user_id other t)

count-insert :
    (q : Address → Bool) (k : Uuid) (a : Address) (t : Table Address)
    → count q (insert k a t) ≡ count q t + (if q a then 1 else 0)
count-insert q k a [] = ground arith
count-insert q k a ((j, b) ∷ t) = ground (arith, count-insert q k a t)

count-update-le :
    (q : Address → Bool) (f : Address → Address) (k : Uuid) (t : Table Address)
    → count q (update k f t) ≤ count q t + 1
count-update-le q f k [] = ground arith
count-update-le q f k ((j, a) ∷ t) = ground (arith, count-update-le q f k t)

-- A write that makes the query hold of no further row.
count-update_keep :
    (q : Address → Bool) (f : Address → Address) (k : Uuid) (t : Table Address) {a : Address}
    → find_by_id k t ≡ some a
    → (q (f a) ≡ true → q a ≡ true)
    → count q (update k f t) ≤ count q t
count-update_keep q f k [] e keeps = cc
count-update_keep q f k ((j, c) ∷ t) {a} e keeps = elim (Bool-cases (j == k)) [
  | inl own ↦ ground (arith, keeps)
  | inr other ↦ ground (arith, count-update_keep q f k t {a = a} (ground arith) keeps)
]

count-soft_delete :
    (q : Address → Bool) (k : Uuid) (t : Table Address) → count q (soft_delete k t) ≤ count q t
count-soft_delete q k [] = ground arith
count-soft_delete q k ((j, a) ∷ t) = ground (arith, count-soft_delete q k t)

-- An address that is added keeps one default to a user.
pub add_address-HasOneDefault :
    (user_id : Uuid) (dto : CreateAddressDto) (w : World)
    → HasOneDefault w.addresses
    → HasOneDefault (add_address user_id dto w).1.addresses
unfolding add_address clear_defaults new_address
add_address-HasOneDefault user_id dto w h other =
    let a = new_address user_id dto in
    let cleared = update_where (λ a. a.user_id == user_id) clear_default w.addresses in
    elim (Bool-cases (truthy dto.is_default)) [
      | inl default ↦ ground (
        arith,
        count-insert (is_default_of other) w.next_id a cleared,
        count-cleared user_id other w.addresses,
        h other,
      )
      | inr plain ↦
          ground (arith, count-insert (is_default_of other) w.next_id a w.addresses, h other)
    ]

abbrev cleared_if : Bool → Uuid → Table Address → Table Address
cleared_if default user_id t =
    if default then update_where (λ a. a.user_id == user_id) clear_default t else t

find_by_id-cleared :
    (user_id k : Uuid) (t : Table Address) {a : Address}
    → find_by_id k t ≡ some a
    → (b : Address) × (find_by_id k (update_where (λ a. a.user_id == user_id) clear_default t)
        ≡ some b)
      × (b.user_id ≡ a.user_id)
find_by_id-cleared user_id k [] e = cc
find_by_id-cleared user_id k ((j, c) ∷ t) {a} e = elim (Bool-cases (j == k)) [
  | inl own ↦ elim (Bool-cases (c.user_id == user_id)) [
    | inl hit ↦ (clear_default c, ground arith, ground arith)
    | inr miss ↦ (c, ground arith, ground arith)
  ]
  | inr other ↦
      let (b, found, same_user) = find_by_id-cleared user_id k t {a = a} (ground arith) in
      (b, ground arith, same_user)
]

count-write_le :
    (q : Address → Bool) (k : Uuid) (dto : UpdateAddressDto) (t : Table Address)
    → count q (write_address k dto t) ≤ count q t + 1
unfolding write_address
count-write_le q k dto t =
    ground (arith, count-update-le q (change_address dto) k t, count-soft_delete q k t)

count-write_keep :
    (q : Address → Bool) (k : Uuid) (dto : UpdateAddressDto) (t : Table Address) {a : Address}
    → find_by_id k t ≡ some a
    → (q (change_address dto a) ≡ true → q a ≡ true)
    → count q (write_address k dto t) ≤ count q t
unfolding write_address
count-write_keep q k dto t found keeps =
    let kept = count-update_keep q (change_address dto) k t found keeps in
    ground (arith, count-soft_delete q k t)

-- How a change of an address ends: refused, or with the row changed after the other defaults are cleared.
update_address_cases :
    (user_id address_id : Uuid) (dto : UpdateAddressDto) (w : World)
    → let r = update_address user_id address_id dto w in
      ((e : HttpException) × (r ≡ (err e, w)))
      ⊎ ((a : Address) × (find_by_id address_id w.addresses ≡ some a)
          × (a.user_id ≡ user_id)
          × (r.1.addresses
              ≡ write_address address_id dto
                  (cleared_if (truthy dto.is_default) user_id w.addresses)))
unfolding update_address clear_defaults
update_address_cases user_id address_id dto w =
    elim (Option-cases (find_by_id address_id w.addresses)) [
      | inl unknown ↦ inl (not_found, ground arith)
      | inr (a, found) ↦ elim (Bool-cases (a.user_id == user_id)) [
        | inr foreign ↦ inl (forbidden, ground arith)
        | inl own ↦ inr (
          a,
          found,
          ground arith,
          elim (Option-cases (
              find_by_id address_id (
                write_address address_id dto
                  (cleared_if (truthy dto.is_default) user_id w.addresses)))) [
                    | inl lost ↦ ground arith
                    | inr (b, kept) ↦ ground arith
                  ],
        )
      ]
    ]

change-default :
    (user_id other : Uuid) (dto : UpdateAddressDto) (b : Address)
    → b.user_id ≡ user_id
    → or_else dto.user_id user_id ≡ user_id
    → (other == user_id) ≡ false
    → is_default_of other (change_address dto b) ≡ false
unfolding change_address
change-default user_id other dto b own stays apart = ground arith

change-plain :
    (user_id other : Uuid) (dto : UpdateAddressDto) (b : Address)
    → b.user_id ≡ user_id
    → or_else dto.user_id user_id ≡ user_id
    → truthy dto.is_default ≡ false
    → is_default_of other (change_address dto b) ≡ true
    → is_default_of other b ≡ true
unfolding change_address
change-plain user_id other dto b own stays plain h = ground arith

-- A change of an address keeps one default to a user, however it ends, where the body names no user or the
-- owner.
pub update_address-HasOneDefault :
    (user_id address_id : Uuid) (dto : UpdateAddressDto) (w : World)
    → or_else dto.user_id user_id ≡ user_id
    → HasOneDefault w.addresses
    → HasOneDefault (update_address user_id address_id dto w).1.addresses
update_address-HasOneDefault user_id address_id dto w stays h other =
    elim (update_address_cases user_id address_id dto w) [
      | inl (e, refused) ↦ rw refused (h other)
      | inr (a, found, own, changed) ↦ elim (Bool-cases (truthy dto.is_default)) [
        | inr plain ↦
            let fewer =
              count-write_keep (is_default_of other) address_id dto w.addresses found
                (change-plain user_id other dto a own stays plain) in
            rw (changed, plain) (let before = h other in omega arith)
        | inl default ↦
            let t = update_where (λ a. a.user_id == user_id) clear_default w.addresses in
            let cleared = count-cleared user_id other w.addresses in
            rw (changed, default)
              (elim (Bool-cases (other == user_id)) [
                | inl same_user ↦
                    let one = count-write_le (is_default_of other) address_id dto t in ground arith
                | inr apart ↦
                    let (b, kept, its) = find_by_id-cleared user_id address_id w.addresses found in
                    let away = change-default user_id other dto b (its ∙ own) stays apart in
                    let fewer =
                      count-write_keep (is_default_of other) address_id dto t kept
                        (λ holds. absurd (ground arith)) in
                    ground (arith, h other)
              ])
      ]
    ]

-- Only the owner deletes an address, and a deletion keeps one default to a user.
pub delete_address-HasOneDefault :
    (user_id address_id : Uuid) (w : World)
    → HasOneDefault w.addresses
    → HasOneDefault (delete_address user_id address_id w).1.addresses
unfolding delete_address
delete_address-HasOneDefault user_id address_id w h other =
    ground (arith, count-soft_delete (is_default_of other) address_id w.addresses, h other)
