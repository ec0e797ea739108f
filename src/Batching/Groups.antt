-- ===== src/Batching/Groups.antt =====
-- The groups of a pool share it out.
use powergas.Base.{
  ℕ, zero, suc, ◌+◌, ◌≤◌, ◌≡◌, refl, Bool, true, List, [], ◌∷◌, ◌++◌, length, length-append, ltb,
  ◌==◌, All, All-append, arith, ◌&&◌, inl, inr, Bool-cases, if◌then◌else◌,
}
use powergas.Table.{Uuid}
use powergas.Batching.{Row, Group, members, collect, groups, max_batch_size}

-- How often a key stands in a list of rows.
abbrev pub occurrences : Uuid → List Row → ℕ
occurrences k [] = 0
occurrences k ((j, _) ∷ rows) = (if j == k then 1 else 0) + occurrences k rows

abbrev pub all_members : List Group → List Row
all_members [] = []
all_members (g ∷ gs) = members g ++ all_members gs

pub occurrences-append :
    (k : Uuid) (xs ys : List Row) → occurrences k (xs ++ ys) ≡ occurrences k xs + occurrences k ys
occurrences-append k [] ys = omega arith
occurrences-append k (x ∷ xs) ys = omega (arith, occurrences-append k xs ys)

module _ (near : Row → Row → Bool) where
  -- The loop shares the pool out between the group and the rest, takes near orders only, and stops at
  -- the size of a batch.
  record Collects (seed : Row) (pool : List Row) (r : List Row × List Row) : Type 0 where
    pub shared : (k : Uuid) → occurrences k r.0 + occurrences k r.1 ≡ occurrences k pool
    pub sized : length r.0 + 1 ≤ max_batch_size
    pub close : All (λ (x : Row). near seed x ≡ true) r.0
    pub shorter : length r.1 ≤ length pool

  collect-Collects : (seed : Row) (pool : List Row) → Collects seed pool (collect near seed pool)
  unfolding collect
  collect-Collects seed [] = record {
    shared = λ k. refl;
    sized = omega arith;
    close = tt;
    shorter = omega arith;
  }
  collect-Collects seed (r ∷ pool) =
      let ih = collect-Collects seed pool in
      let group = (collect near seed pool).0 in
      elim (Bool-cases (ltb (length group + 1) max_batch_size && near seed r)) [
        | inl taken ↦ rw taken (record {
          shared = λ k. omega (arith, ih.shared k, occurrences-append k group (r ∷ []));
          sized = ground (arith, length-append group (r ∷ []));
          close =
              All-append (λ (x : Row). near seed x ≡ true) group (r ∷ []) ih.close
                (ground arith, tt);
          shorter = omega (arith, ih.shorter);
        })
        | inr left ↦ rw left (record {
          shared = λ k. omega (arith, ih.shared k);
          sized = ih.sized;
          close = ih.close;
          shorter = omega (arith, ih.shorter);
        })
      ]

  -- A group has at most three orders, all within the radius of its seed.
  abbrev pub IsGroup : Group → Type 0
  IsGroup (seed, others) = (length others + 1 ≤ 3) × All (λ (x : Row). near seed x ≡ true) others

  -- With as much fuel as the pool has orders, the groups share it out: every order of the pool stands
  -- in the groups as often as in the pool. A group has at most three orders, all within the radius of
  -- its seed.
  pub groups_partition :
      (fuel : ℕ) (pool : List Row)
      → length pool ≤ fuel
      → ((k : Uuid) → occurrences k (all_members (groups near fuel pool)) ≡ occurrences k pool)
        × All IsGroup (groups near fuel pool)
  unfolding groups
  groups_partition zero [] enough = (λ k. refl, tt)
  groups_partition zero (r ∷ pool) enough = absurd (omega arith)
  groups_partition (suc fuel) [] enough = (λ k. refl, tt)
  groups_partition (suc fuel) (seed ∷ pool) enough =
      let c = collect-Collects seed pool in
      let group = (collect near seed pool).0 in
      let (shared, good) =
        groups_partition fuel (collect near seed pool).1 (omega (arith, c.shorter)) in
      (
        (λ k. omega (
          arith,
          shared k,
          c.shared k,
          occurrences-append k group (all_members (groups near fuel (collect near seed pool).1)),
        )),
        ((c.sized, c.close), good),
      )
