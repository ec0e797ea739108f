-- ===== src/Inventory/Counts.antt =====
-- What an adjustment of the stock does, on every branch.
use powergas.Base.{
  ℕ, ℤ, pos, negsuc, ◌<◌, ◌≡◌, ap, subst, ◌∙◌, ◌⊎◌, inl, inr, ◌+ℤ◌, ◌-ℤ◌, ◌≤ℤ◌, int_laws, none,
  some, List, ◌∷◌, arith, ltb_ℤ, if◌then◌else◌, Option-cases, Bool-cases,
}
use powergas.Table.{Uuid, IsKeyed, find_one, update, find_one-find_by_id, find_by_id-update_self}
use powergas.Entities.{CylinderInventory}
use powergas.World.{World, Result, Event, low_stock, not_found, conflict, ok, err}
use powergas.Inventory.{is_for, available_for_sale, is_low_stock, adjust, adjust_stock}

-- The events after an adjustment: a row at or below its threshold is reported.
abbrev pub alerted : Uuid → Uuid → CylinderInventory → List Event → List Event
alerted s c i es = if is_low_stock i then low_stock s c ∷ es else es

-- How an adjustment ends: there is no row, a count would become negative, or the counts change.
pub data Adjusts (s c : Uuid) (filled empty : ℤ) (w : World) (r : Result CylinderInventory × World)
    : Type 0 where
  missing :
      find_one (is_for s c) w.inventory ≡ none
      → r ≡ (err not_found, w)
      → Adjusts s c filled empty w r
  negative :
      (k : Uuid) (i : CylinderInventory)
      → find_one (is_for s c) w.inventory ≡ some (k, i)
      → ((i.filled_count +ℤ filled) ≤ℤ negsuc 0) ⊎ ((i.empty_count +ℤ empty) ≤ℤ negsuc 0)
      → r ≡ (err conflict, w)
      → Adjusts s c filled empty w r
  adjusted :
      (k : Uuid) (i : CylinderInventory)
      → find_one (is_for s c) w.inventory ≡ some (k, i)
      → pos 0 ≤ℤ i.filled_count +ℤ filled
      → pos 0 ≤ℤ i.empty_count +ℤ empty
      → r ≡ (
        ok (adjust filled empty i),
        record w {
          inventory = update k (adjust filled empty) w.inventory;
          emitted = alerted s c (adjust filled empty i) w.emitted;
        },
      )
      → Adjusts s c filled empty w r

-- An adjustment fails and changes nothing where the station has no row of the type or where either
-- count would become negative; otherwise it changes both counts of that row, counts its version up and
-- reports a low stock, which is one at or below the row's threshold.
pub adjust_stock-Adjusts :
    (s c : Uuid) (filled empty : ℤ) (w : World)
    → IsKeyed w.inventory
    → Adjusts s c filled empty w (adjust_stock s c filled empty w)
unfolding adjust_stock
adjust_stock-Adjusts s c filled empty w keyed =
    elim (Option-cases (find_one (is_for s c) w.inventory)) [
      | inl none_found ↦ missing none_found (ground arith)
      | inr ((k, i), found) ↦
          let (at_key, _) = find_one-find_by_id (is_for s c) w.inventory keyed found in
          let later = find_by_id-update_self k (adjust filled empty) w.inventory at_key in
          elim (Bool-cases (ltb_ℤ (i.filled_count +ℤ filled) (pos 0))) [
            | inl low ↦ negative k i found (inl (ground arith)) (ground arith)
            | inr enough ↦ elim (Bool-cases (ltb_ℤ (i.empty_count +ℤ empty) (pos 0))) [
              | inl low ↦ negative k i found (inr (ground arith)) (ground arith)
              | inr enough' ↦ elim (Bool-cases (is_low_stock (adjust filled empty i))) [
                | inl low ↦ adjusted k i found (ground arith) (ground arith) (ground arith)
                | inr fine ↦ adjusted k i found (ground arith) (ground arith) (ground arith)
              ]
            ]
          ]
    ]

none_left : (n : ℕ) → ¬ (pos n +ℤ (pos 0 -ℤ pos n) ≤ℤ negsuc 0)
none_left n low = omega int_laws

-- An adjustment is not checked against the reservations: where some of the filled cylinders of a row
-- are reserved, all of them can be taken off, and the row then has less than nothing for sale.
pub adjust_stock_reserved :
    (s c k : Uuid) (n : ℕ) (w : World) {i : CylinderInventory}
    → IsKeyed w.inventory
    → find_one (is_for s c) w.inventory ≡ some (k, i)
    → i.filled_count ≡ pos n
    → pos 0 ≤ℤ i.empty_count
    → 0 < i.reserved_count
    → let r = adjust_stock s c (pos 0 -ℤ pos n) (pos 0) w in
      (r.0 ≡ ok (adjust (pos 0 -ℤ pos n) (pos 0) i))
      × (available_for_sale (adjust (pos 0 -ℤ pos n) (pos 0) i) ≤ℤ negsuc 0)
unfolding adjust available_for_sale
adjust_stock_reserved s c k n w {i} keyed found full empty some_reserved =
    elim (adjust_stock-Adjusts s c (pos 0 -ℤ pos n) (pos 0) w keyed) [
      | missing none_found e ↦ absurd (cc)
      | negative k' i' found' short e ↦
          absurd (not_short (subst (λ (x : CylinderInventory). Short x) (same k' i' found') short))
      | adjusted k' i' found' _ _ e ↦ (
        ap (λ (r : Result CylinderInventory × World). r.0) e
            ∙ ap (λ (x : CylinderInventory). ok (adjust (pos 0 -ℤ pos n) (pos 0) x))
                (same k' i' found'),
        rw full (omega int_laws),
      )
    ]
  where
    Short : CylinderInventory → Type 0
    Short x =
        (x.filled_count +ℤ (pos 0 -ℤ pos n) ≤ℤ negsuc 0) ⊎ (x.empty_count +ℤ pos 0 ≤ℤ negsuc 0)

    same :
        (k' : Uuid) (i' : CylinderInventory)
        → find_one (is_for s c) w.inventory ≡ some (k', i')
        → i' ≡ i
    same k' i' found' = cc

    not_short : Short i → ⊥
    not_short (inl low) =
        none_left n (subst (λ (x : ℤ). x +ℤ (pos 0 -ℤ pos n) ≤ℤ negsuc 0) full low)
    not_short (inr low) = omega int_laws
