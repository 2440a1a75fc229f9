-- ===== src/SafeMap/Laws.antt =====
-- Lookups after each operation of a map.
use cpp_matchmaking_mvp.Common.{
  ◌≡◌, refl, ◌⊎◌, true, false, none, some, List, [], ◌∷◌, if◌then◌else◌, arith, Bool-cases,
  Option-cases, inl, inr,
}
use cpp_matchmaking_mvp.SafeMap.{Eq, find, assign, remove, safe_insert, safe_erase}

module _ {K V : Type 0} ⦃e : Eq K⦄ where
  pub find-assign :
      (k j : K) (v : V) (m : List (K × V))
      → find j (assign k v m) ≡ (if e.beq k j then some v else find j m)
  find-assign k j v [] = ground (arith, e.beq_iff k j, e.beq_iff j k)
  find-assign k j v ((i, w) ∷ m) =
      ground
        (arith, e.beq_iff k j, e.beq_iff j k, e.beq_iff k i, e.beq_iff j i, find-assign k j v m)

  pub find-remove :
      (k j : K) (m : List (K × V)) → find j (remove k m) ≡ (if e.beq k j then none else find j m)
  find-remove k j [] = ground arith
  find-remove k j ((i, w) ∷ m) =
      ground (arith, e.beq_iff k j, e.beq_iff k i, e.beq_iff j i, find-remove k j m)

  -- An insertion without `overwrite` adds a key that is absent, and otherwise changes nothing.
  pub safe_insert-cases :
      (k : K) (v : V) (m : List (K × V))
      → ((find k m ≡ none) × (safe_insert k v false m ≡ (assign k v m, true)))
        ⊎ ((w : V) × (find k m ≡ some w) × (safe_insert k v false m ≡ (m, false)))
  unfolding safe_insert
  safe_insert-cases k v m = elim (Option-cases (find k m)) [
    | inl free ↦ inl (free, rw free)
    | inr (w, taken) ↦ inr (w, taken, rw taken)
  ]

  pub safe_erase-find :
      (k j : K) (m : List (K × V))
      → ((safe_erase k m).1 ≡ find k m)
        × (find j (safe_erase k m).0 ≡ (if e.beq k j then none else find j m))
  unfolding safe_erase
  safe_erase-find k j m = elim (Option-cases (find k m)) [
    | inr (w, taken) ↦ rw (taken, safe_erase) (refl, find-remove k j m)
    | inl free ↦
        rw (free, safe_erase)
          (
            refl,
            elim (Bool-cases (e.beq k j)) [
              | inl hit ↦ rw hit (rw (← (e.beq_iff k j).0 hit) free)
              | inr miss ↦ rw miss
            ],
          )
  ]
