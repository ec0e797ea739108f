-- ===== src/Stations/Staff.antt =====
-- Who works at which station.
use powergas.Base.{
  ◌≡◌, refl, sym, ap, ◌∙◌, ◌⊎◌, Bool, false, Option, none, some, arith, ◌==◌, ◌&&◌, Bool-cases,
  Option-cases, inl, inr,
}
use powergas.Enums.{UserRole}
use powergas.Table.{
  Uuid, Table, IsKeyed, find_by_id, find_one, find_newest, update, insert, find_one-find_by_id,
}
use powergas.Table.Rows.{AllRows-mono, find_newest-insert}
use powergas.Table.Unique.{
  IsUnique, insert-IsUnique, update-IsUnique, find_one-none-AllRows, find_newest-update_only,
}
use powergas.Entities.{GasStationStaff}
use powergas.World.{World, Result, HttpException, ok, err, conflict, not_found}
use powergas.Stations.{
  is_assignment, works_for_user, resolve_station_for_user, rehire, new_staff, assign, assign_staff,
  find_station,
}

-- The index over user and station.
abbrev pub same_assignment : GasStationStaff → GasStationStaff → Bool
same_assignment v u = (u.user_id == v.user_id) && (u.station_id == v.station_id)

abbrev pub IsSingle : World → Type 0
IsSingle w = IsUnique same_assignment w.station_staff

-- How an assignment ends: refused, with a new row, or with an old row that is taken up again.
assign_staff_cases :
    (station_id user_id : Uuid) (role : UserRole) (w : World)
    → let r = assign_staff station_id user_id role w in
      ((e : HttpException) × (r ≡ (err e, w)))
      ⊎ (((find_one (is_assignment user_id station_id) w.station_staff ≡ none)
            × (r.1.station_staff
                ≡ insert w.next_id (new_staff user_id station_id role) w.station_staff))
          ⊎ ((k : Uuid) × (s : GasStationStaff) × (find_one
                  (is_assignment user_id station_id)
                  w.station_staff
                ≡ some (k, s))
              × (s.is_active ≡ false)
              × (r.1.station_staff ≡ update k (rehire role) w.station_staff)))
unfolding assign_staff assign find_station
assign_staff_cases station_id user_id role w =
    elim (Option-cases (find_by_id station_id w.stations)) [
      | inl unknown ↦ inl (not_found, ground arith)
      | inr (station, known) ↦
          elim (Option-cases (find_one (is_assignment user_id station_id) w.station_staff)) [
            | inl new ↦ inr (inl (new, ground arith))
            | inr ((k, s), found) ↦ elim (Bool-cases s.is_active) [
              | inl active ↦ inl (conflict, ground arith)
              | inr former ↦
                  elim (Option-cases (find_by_id k (update k (rehire role) w.station_staff))) [
                    | inl lost ↦ inr (inr (k, s, found, former, ground arith))
                    | inr (u, kept) ↦ inr (inr (k, s, found, former, ground arith))
                  ]
            ]
          ]
    ]

rehire-IsSingle :
    (role : UserRole) (k : Uuid) (t : Table GasStationStaff)
    → IsUnique same_assignment t
    → IsUnique same_assignment (update k (rehire role) t)
unfolding rehire
rehire-IsSingle role k t h =
    update-IsUnique same_assignment (rehire role) (λ v u. refl) (λ v u. refl) k t h

new_staff-IsSingle :
    (k user_id station_id : Uuid) (role : UserRole) (t : Table GasStationStaff)
    → IsUnique same_assignment t
    → find_one (is_assignment user_id station_id) t ≡ none
    → IsUnique same_assignment (insert k (new_staff user_id station_id role) t)
unfolding new_staff is_assignment
new_staff-IsSingle k user_id station_id role t h new =
    insert-IsUnique same_assignment k (new_staff user_id station_id role) t h (
      AllRows-mono t (λ u other. ground arith)
        (find_one-none-AllRows (is_assignment user_id station_id) t new))

-- An assignment keeps one row to a user and a station, however it ends.
pub assign_staff-IsSingle :
    (station_id user_id : Uuid) (role : UserRole) (w : World)
    → IsSingle w
    → IsSingle (assign_staff station_id user_id role w).1
assign_staff-IsSingle station_id user_id role w h =
    elim (assign_staff_cases station_id user_id role w) [
      | inl (e, refused) ↦ rw refused h
      | inr (inl (new, inserted)) ↦
          rw inserted (new_staff-IsSingle w.next_id user_id station_id role w.station_staff h new)
      | inr (inr (k, s, found, former, taken)) ↦ rw taken (rehire-IsSingle role k w.station_staff h)
    ]

resolve_of :
    (w : World) (user_id : Uuid) {k : Uuid} {s : GasStationStaff}
    → find_newest (works_for_user user_id) w.station_staff ≡ some (k, s)
    → resolve_station_for_user user_id w ≡ some s.station_id
unfolding resolve_station_for_user
resolve_of w user_id found = ground arith

-- A user who works nowhere and is assigned to a station, for the first time or again, is from then on
-- served as working at that station.
pub resolve_station_for_user-assign_staff :
    (station_id user_id : Uuid) (role : UserRole) (w w' : World) {s : GasStationStaff}
    → IsKeyed w.station_staff
    → resolve_station_for_user user_id w ≡ none
    → assign_staff station_id user_id role w ≡ (ok s, w')
    → resolve_station_for_user user_id w' ≡ some station_id
unfolding resolve_station_for_user works_for_user is_assignment new_staff rehire
resolve_station_for_user-assign_staff station_id user_id role w w' keyed idle done_ =
    let after : (assign_staff station_id user_id role w).1 ≡ w' =
      ap (λ (p : Result GasStationStaff × World). p.1) done_ in
    elim (assign_staff_cases station_id user_id role w) [
      | inl (e, refused) ↦ absurd (cc)
      | inr (inl (new, inserted)) ↦
          let row =
            find_newest-insert (works_for_user user_id) w.next_id
              (new_staff user_id station_id role) w.station_staff (ground arith) in
          resolve_of w' user_id
            (ap newest (sym (ap (λ (v : World). v.station_staff) after) ∙ inserted) ∙ row)
      | inr (inr (k, s, found, former, taken)) ↦
          let (at_key, own) =
            find_one-find_by_id (is_assignment user_id station_id) w.station_staff keyed found in
          let none_before : find_newest (works_for_user user_id) w.station_staff ≡ none =
            ground arith in
          let row =
            find_newest-update_only (works_for_user user_id) (rehire role) w.station_staff
              none_before at_key (ground arith) in
          resolve_of w' user_id
            (ap newest (sym (ap (λ (v : World). v.station_staff) after) ∙ taken) ∙ row)
          ∙ ground arith
    ]
  where
    newest : Table GasStationStaff → Option (Uuid × GasStationStaff)
    newest t = find_newest (works_for_user user_id) t
