-- ===== src/Settlement/Stock.antt =====
-- The loop of `settle` over `commitReservation`: what it takes from the station's stock.
use powergas.Base.{
  ℕ, ℤ, pos, ◌+◌, ◌-◌, ◌≡◌, refl, ap, sym, ◌∙◌, ◌-ℤ◌, int_laws, true, Option, none, some, List, [],
  ◌∷◌, ◌==◌, if◌then◌else◌, is_some, All, arith, inl, inr, Option-cases,
}
use powergas.Table.{Uuid, Table, IsKeyed, find_one, update, update-IsKeyed, find_one-find_by_id}
use powergas.Entities.{CylinderInventory, OrderItem}
use powergas.World.{World, Result, not_found, ok, err, >>-ok, >>-err}
use powergas.Inventory.{is_for, commit, commit_reservation}
use powergas.Orders.Reservation.Demand.{reserved, demand, ordered}
use powergas.Settlement.{commit_items}

-- An item has no row at the station and nothing changes, or its row gives up its quantity.
pub data Commits (s c : Uuid) (q : ℕ) (w : World) (r : Result (Unit {0}) × World) : Type 0 where
  no_stock : find_one (is_for s c) w.inventory ≡ none → r ≡ (err not_found, w) → Commits s c q w r
  taken :
      (k : Uuid) (i : CylinderInventory)
      → find_one (is_for s c) w.inventory ≡ some (k, i)
      → r ≡ (ok tt, record w { inventory = update k (commit q) w.inventory })
      → Commits s c q w r

pub commit_reservation-Commits :
    (s c : Uuid) (q : ℕ) (w : World) → Commits s c q w (commit_reservation s c q w)
unfolding commit_reservation
commit_reservation-Commits s c q w = elim (Option-cases (find_one (is_for s c) w.inventory)) [
  | inl none_found ↦ no_stock none_found (ground arith)
  | inr ((k, i), found) ↦ taken k i found (ground arith)
]

-- How many cylinders of a type a station has filled.
abbrev pub filled_in : Option (Uuid × CylinderInventory) → ℤ
filled_in none = pos 0
filled_in (some (_, i)) = i.filled_count

abbrev pub filled : Uuid → Uuid → Table CylinderInventory → ℤ
filled s c t = filled_in (find_one (is_for s c) t)

-- Every item has a row at the station.
abbrev pub Stocks : Uuid → Table CylinderInventory → List OrderItem → Type 0
Stocks s t = All (λ (i : OrderItem). is_some (find_one (is_for s i.cylinder_type_id) t) ≡ true)

abbrev share : Uuid → Uuid → Uuid → Uuid → ℕ → ℕ
share s c s' c' q = if s == s' then (if c == c' then q else 0) else 0

reserved-commit :
    (s c s' c' : Uuid) (q : ℕ) (t : Table CylinderInventory) {k : Uuid} {i : CylinderInventory}
    → IsKeyed t
    → find_one (is_for s c) t ≡ some (k, i)
    → reserved s' c' (update k (commit q) t) ≡ reserved s' c' t - share s c s' c' q
unfolding commit
reserved-commit s c s' c' q [] keyed e = cc
reserved-commit s c s' c' q ((j, v) ∷ t) {k} {i} keyed e = ground (
  arith,
  reserved-commit s c s' c' q t {k = k} {i = i} keyed.1,
  find_one-find_by_id (is_for s c) t {k = k} {v = i} keyed.1,
)

minus_zero : (a : ℤ) → a ≡ a -ℤ pos 0
minus_zero a = omega int_laws

filled-commit :
    (s c s' c' : Uuid) (q : ℕ) (t : Table CylinderInventory) {k : Uuid} {i : CylinderInventory}
    → IsKeyed t
    → find_one (is_for s c) t ≡ some (k, i)
    → filled s' c' (update k (commit q) t) ≡ filled s' c' t -ℤ pos (share s c s' c' q)
unfolding commit
filled-commit s c s' c' q [] keyed e = cc
filled-commit s c s' c' q ((j, v) ∷ t) {k} {i} keyed e = ground (
  arith,
  filled-commit s c s' c' q t {k = k} {i = i} keyed.1,
  find_one-find_by_id (is_for s c) t {k = k} {v = i} keyed.1,
  minus_zero (filled s' c' t),
  minus_zero v.filled_count,
)

-- A commit keeps the station and the type of every row.
pub found-commit :
    (s c k : Uuid) (q : ℕ) (t : Table CylinderInventory)
    → is_some (find_one (is_for s c) (update k (commit q) t)) ≡ is_some (find_one (is_for s c) t)
unfolding commit
found-commit s c k q [] = refl
found-commit s c k q ((j, v) ∷ t) = ground (arith, found-commit s c k q t)

Stocks-commit :
    (s k : Uuid) (q : ℕ) (t : Table CylinderInventory) (items : List OrderItem)
    → Stocks s t items
    → Stocks s (update k (commit q) t) items
Stocks-commit s k q t [] h = tt
Stocks-commit s k q t (item ∷ items) h =
    (found-commit s item.cylinder_type_id k q t ∙ h.0, Stocks-commit s k q t items h.1)

-- The loop writes to the inventory alone.
pub commit_items_only :
    (s : Uuid) (items : List OrderItem) (w : World)
    → (t : Table CylinderInventory) × ((commit_items s items w).1 ≡ record w { inventory = t })
unfolding commit_items
commit_items_only s [] w = (w.inventory, refl)
commit_items_only s (item ∷ items) w =
    elim (commit_reservation-Commits s item.cylinder_type_id item.quantity w) [
      | no_stock _ e ↦ (
        w.inventory,
        ap (λ (r : Result (Unit {0}) × World). r.1)
            (>>-err (commit_reservation s item.cylinder_type_id item.quantity)
              (commit_items s items) e),
      )
      | taken k i _ e ↦
          let (t, rest) =
            commit_items_only s items
              (record w { inventory = update k (commit item.quantity) w.inventory }) in
          (
            t,
            ap (λ (r : Result (Unit {0}) × World). r.1)
                  (>>-ok (commit_reservation s item.cylinder_type_id item.quantity)
                    (commit_items s items) e)
                ∙ rest,
          )
    ]

-- It goes through where every item has a row.
pub commit_items_succeeds :
    (s : Uuid) (items : List OrderItem) (w : World)
    → Stocks s w.inventory items
    → (commit_items s items w).0 ≡ ok tt
unfolding commit_items
commit_items_succeeds s [] w h = refl
commit_items_succeeds s (item ∷ items) w h =
    elim (commit_reservation-Commits s item.cylinder_type_id item.quantity w) [
      | no_stock none_found e ↦ absurd (cc)
      | taken k i _ e ↦
          ap (λ (r : Result (Unit {0}) × World). r.0)
            (>>-ok (commit_reservation s item.cylinder_type_id item.quantity) (commit_items s items)
              e)
          ∙ commit_items_succeeds s items
              (record w { inventory = update k (commit item.quantity) w.inventory })
              (Stocks-commit s k item.quantity w.inventory items h.1)
    ]

Stocks-commit_back :
    (s k : Uuid) (q : ℕ) (t : Table CylinderInventory) (items : List OrderItem)
    → Stocks s (update k (commit q) t) items
    → Stocks s t items
Stocks-commit_back s k q t [] h = tt
Stocks-commit_back s k q t (item ∷ items) h =
    (sym (found-commit s item.cylinder_type_id k q t) ∙ h.0, Stocks-commit_back s k q t items h.1)

-- And only there.
pub commit_items-Stocks :
    (s : Uuid) (items : List OrderItem) (w : World)
    → (commit_items s items w).0 ≡ ok tt
    → Stocks s w.inventory items
unfolding commit_items
commit_items-Stocks s [] w h = tt
commit_items-Stocks s (item ∷ items) w h =
    elim (commit_reservation-Commits s item.cylinder_type_id item.quantity w) [
      | no_stock _ e ↦ absurd (
          cc (
            h,
            >>-err (commit_reservation s item.cylinder_type_id item.quantity) (commit_items s items)
                e,
          ))
      | taken k i found e ↦
          let mid : World = record w { inventory = update k (commit item.quantity) w.inventory } in
          let rest =
            sym (
              ap (λ (r : Result (Unit {0}) × World). r.0)
                (>>-ok (commit_reservation s item.cylinder_type_id item.quantity)
                  (commit_items s items) e))
            ∙ h in
          (
            rw found refl,
            Stocks-commit_back s k item.quantity w.inventory items
                (commit_items-Stocks s items mid rest),
          )
    ]

minus_minus : (a : ℤ) (m n : ℕ) → a -ℤ pos m -ℤ pos n ≡ a -ℤ pos (m + n)
minus_minus a m n = omega int_laws

-- Where it goes through, it takes what the items ask for of each type off the station's filled
-- cylinders and off its reservations, the latter down to zero at most.
pub commit_items_counts :
    (s s' c' : Uuid) (items : List OrderItem) (w w' : World)
    → IsKeyed w.inventory
    → commit_items s items w ≡ (ok tt, w')
    → (filled s' c' w'.inventory
        ≡ filled s' c' w.inventory -ℤ pos (if s == s' then demand c' (ordered items) else 0))
      × (reserved s' c' w'.inventory
          ≡ reserved s' c' w.inventory - (if s == s' then demand c' (ordered items) else 0))
unfolding commit_items
commit_items_counts s s' c' [] w w' keyed h =
    (ground (arith, minus_zero (filled s' c' w.inventory)), ground arith)
commit_items_counts s s' c' (item ∷ items) w w' keyed h =
    elim (commit_reservation-Commits s item.cylinder_type_id item.quantity w) [
      | no_stock _ e ↦ absurd (
          cc (
            >>-err (commit_reservation s item.cylinder_type_id item.quantity) (commit_items s items)
              e))
      | taken k i found e ↦
          let mid : World = record w { inventory = update k (commit item.quantity) w.inventory } in
          let (f, r) =
            commit_items_counts s s' c' items mid w'
              (update-IsKeyed k (commit item.quantity) w.inventory keyed)
              (sym (
                  >>-ok (commit_reservation s item.cylinder_type_id item.quantity)
                    (commit_items s items) e)
                ∙ h) in
          (
            f
                ∙ ap (λ (x : ℤ). x -ℤ pos (if s == s' then demand c' (ordered items) else 0))
                    (filled-commit s item.cylinder_type_id s' c' item.quantity w.inventory keyed
                      found)
                ∙ minus_minus (filled s' c' w.inventory)
                    (share s item.cylinder_type_id s' c' item.quantity)
                    (if s == s' then demand c' (ordered items) else 0)
                ∙ ap (λ (n : ℕ). filled s' c' w.inventory -ℤ pos n) (ground arith),
            ground (
              arith,
              r,
              reserved-commit s item.cylinder_type_id s' c' item.quantity w.inventory keyed found,
            ),
          )
    ]
