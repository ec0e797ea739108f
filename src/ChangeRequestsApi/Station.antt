-- ===== src/ChangeRequestsApi/Station.antt =====
-- Which orders a station may ask more money for.
use powergas.Base.{◌≡◌, some, [], ◌∷◌, ◌==◌, arith, Option-cases, Bool-cases, inl, inr, ◌⊎◌}
use powergas.Table.{Uuid, find_by_id, insert}
use powergas.Entities.{Order}
use powergas.World.{World, HttpException, bad_request, not_found, ok, err}
use powergas.Enums.{station_staff, station_manager}
use powergas.Guards.{JwtPayload, guarded_cases}
use powergas.Stations.{resolve_station_for_user}
use powergas.ChangeRequests.{CreateChangeRequestDto, create_request, new_request}
use powergas.ChangeRequestsApi.{post_request, raise_request}

-- How the raising of a request ends.
raise_request_cases :
    (dto : CreateChangeRequestDto) (user_id : Uuid) (w : World)
    → let r = raise_request dto user_id w in
      ((e : HttpException) × (r ≡ (err e, w)))
      ⊎ ((station_id : Uuid) × (o : Order) × (resolve_station_for_user user_id w ≡ some station_id)
          × (find_by_id dto.order_id w.orders ≡ some o)
          × (o.station_id ≡ station_id)
          × (r.0 ≡ ok w.next_id)
          × (r.1.change_requests
              ≡ insert w.next_id (new_request dto station_id user_id) w.change_requests))
unfolding raise_request create_request
raise_request_cases dto user_id w = elim (Option-cases (resolve_station_for_user user_id w)) [
  | inl nowhere ↦ inl (bad_request, ground arith)
  | inr (station_id, works) ↦ elim (Option-cases (find_by_id dto.order_id w.orders)) [
    | inl unknown ↦ inl (not_found, ground arith)
    | inr (o, found) ↦ elim (Bool-cases (o.station_id == station_id)) [
      | inr other ↦ inl (bad_request, ground arith)
      | inl own ↦ inr (station_id, o, works, found, ground arith, ground arith, ground arith)
    ]
  ]
]

-- A change request is raised for an order of that station alone at which its user works, and is that
-- station's; any other attempt changes nothing.
pub post_request_own :
    (p : JwtPayload) (dto : CreateChangeRequestDto) (w : World)
    → let r = post_request (some p) dto w in
      ((e : HttpException) × (r ≡ (err e, w)))
      ⊎ ((station_id : Uuid) × (o : Order) × (resolve_station_for_user p.sub w ≡ some station_id)
          × (find_by_id dto.order_id w.orders ≡ some o)
          × (o.station_id ≡ station_id)
          × (r.0 ≡ ok w.next_id)
          × (r.1.change_requests
              ≡ insert w.next_id (new_request dto station_id p.sub) w.change_requests))
unfolding post_request
post_request_own p dto w =
    elim (guarded_cases (station_staff ∷ station_manager ∷ []) p (λ (id, _). raise_request dto id)
      w) [
        | inl refused ↦ inl refused
        | inr (u, _, runs) ↦ rw runs (raise_request_cases dto p.sub w)
      ]
