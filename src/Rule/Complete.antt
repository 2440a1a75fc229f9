-- ===== src/Rule/Complete.antt =====
-- `MakeCombination` misses no way to split a match into parties.
use native.Mathlib.Nat.{add-zero}
use cpp_matchmaking_mvp.Common.{
  ℕ, zero, suc, ◌+◌, ◌-◌, ◌≤◌, ◌≡◌, refl, ap, ◌∙◌, min, true, false, List, [], ◌∷◌, arith, ℕ-cases,
  Bool-cases, inl, inr, ◌==◌, ==_iff, if◌then◌else◌, has_value, sum, All, Among, Among-append_left,
  Among-append_right, count, contains, lookup, insert, lookup-insert,
}
use cpp_matchmaking_mvp.Rule.{
  Combination, CombinationMap, count_of, combinations_of, grouped, emplace_back_each, record_parts,
  make_combination,
}
use cpp_matchmaking_mvp.Rule.Partitions.{walk, partitions}
use cpp_matchmaking_mvp.Rule.Loop.{record_all, make_combination-partitions}
use cpp_matchmaking_mvp.Rule.Sound.{combinations_of-insert}

-- Parts from the smallest, none below `next`.
abbrev pub Climbs : ℕ → List ℕ → Type 0
Climbs next [] = Unit
Climbs next (p ∷ ps) = (next ≤ p) × Climbs p ps

onto : List ℕ → List ℕ → List ℕ
onto [] parts = parts
onto (p ∷ ps) parts = onto ps (p ∷ parts)

sum_zero :
    (next : ℕ) (ps parts : List ℕ) → 1 ≤ next → Climbs next ps → sum ps ≡ 0 → onto ps parts ≡ parts
unfolding onto
sum_zero next [] parts o c s = refl
sum_zero next (p ∷ ps) parts o c s = absurd (omega arith)

walk-Among :
    (d g next rem largest : ℕ) (ps parts : List ℕ)
    → rem ≤ d
    → 1 ≤ rem
    → 1 ≤ next
    → g ≡ min rem largest + 1 - next
    → sum ps ≡ rem
    → Climbs next ps
    → All (λ p. p ≤ largest) ps
    → Among (onto ps parts) (walk d g next rem largest parts)
unfolding walk onto
walk-Among d g next rem largest [] parts a b c e s h l = absurd (omega arith)
walk-Among zero g next rem largest (p ∷ ps) parts a b c e s h l = absurd (omega arith)
walk-Among (suc d) zero next rem largest (p ∷ ps) parts a b c e s h l = absurd (omega arith)
walk-Among (suc d) (suc g) next rem largest (p ∷ ps) parts a b c e s h l =
    elim (ℕ-cases (p - next)) [
      | inl low ↦
          let same : p ≡ next = omega arith in
          let h' : Climbs next ps = rw same at h.1 in
          elim (ℕ-cases (rem - next)) [
            | inl last ↦ rw (last, same) (inl (sum_zero next ps (next ∷ parts) c h' (omega arith)))
            | inr (r', more) ↦
                rw (more, same)
                  (Among-append_left _ (walk d _ next (suc r') largest (next ∷ parts)) _ (
                    walk-Among d (min (suc r') largest + 1 - next) next (suc r') largest ps
                      (next ∷ parts) (omega arith) (omega arith) c refl (omega arith) h' l.1))
          ]
      | inr (r, high) ↦ Among-append_right _ _ (walk (suc d) g (next + 1) rem largest parts) (
          walk-Among (suc d) g (next + 1) rem largest (p ∷ ps) parts a b (omega arith) (omega arith)
            s (omega arith, h.1) l)
    ]

emplace_back_each-keeps :
    (k : ℕ) (c g rest : Combination) (m : CombinationMap)
    → Among c (combinations_of k m)
    → Among c (combinations_of k (emplace_back_each g rest m))
unfolding emplace_back_each
emplace_back_each-keeps k c g [] m h = h
emplace_back_each-keeps k c g ((j, n) ∷ rest) m h =
    emplace_back_each-keeps k c g rest _ (elim (Bool-cases (j == k)) [
      | inl e ↦
          rw (combinations_of-insert j k _ m, e)
            (rw ((==_iff j k).0 e) (Among-append_left c (combinations_of k m) (g ∷ []) h))
      | inr e ↦ rw (combinations_of-insert j k _ m, e) h
    ])

emplace_back_each-adds :
    (k : ℕ) (g rest : Combination) (m : CombinationMap)
    → has_value (lookup k rest) ≡ true
    → Among g (combinations_of k (emplace_back_each g rest m))
unfolding emplace_back_each
emplace_back_each-adds k g [] m h = cc
emplace_back_each-adds k g ((j, n) ∷ rest) m h = elim (Bool-cases (k == j)) [
  | inl e ↦
      let e' : (j == k) ≡ true = ground arith in
      emplace_back_each-keeps k g g rest _ (
        rw (combinations_of-insert j k _ m, e')
          (Among-append_right g (combinations_of j m) (g ∷ []) (inl refl)))
  | inr e ↦ emplace_back_each-adds k g rest _ (rw e at h)
]

record_all-keeps :
    (k : ℕ) (c : Combination) (ls : List (List ℕ)) (m : CombinationMap)
    → Among c (combinations_of k m)
    → Among c (combinations_of k (record_all ls m))
unfolding record_all record_parts
record_all-keeps k c [] m h = h
record_all-keeps k c (l ∷ ls) m h =
    record_all-keeps k c ls _ (emplace_back_each-keeps k c (grouped l) (grouped l) m h)

record_all-adds :
    (k : ℕ) (l : List ℕ) (ls : List (List ℕ)) (m : CombinationMap)
    → Among l ls
    → has_value (lookup k (grouped l)) ≡ true
    → Among (grouped l) (combinations_of k (record_all ls m))
unfolding record_all record_parts
record_all-adds k l [] m h q = absurd h
record_all-adds k l (x ∷ ls) m (inl e) q =
    record_all-keeps k (grouped l) ls _
      (rw (← e) (emplace_back_each-adds k (grouped l) (grouped l) m q))
record_all-adds k l (x ∷ ls) m (inr h) q = record_all-adds k l ls _ h q

count_of-insert :
    (p j v : ℕ) (c : Combination) → count_of j (insert p v c) ≡ (if p == j then v else count_of j c)
count_of-insert p j v c = elim (Bool-cases (p == j)) [
  | inl e ↦ ground (arith, lookup-insert p j v c)
  | inr e ↦ ground (arith, lookup-insert p j v c)
]

count_of-grouped : (j : ℕ) (l : List ℕ) → count_of j (grouped l) ≡ count j l
unfolding grouped
count_of-grouped j [] = refl
count_of-grouped j (p ∷ ps) = elim (Bool-cases (p == j)) [
  | inl e ↦
      let same : p ≡ j = (==_iff p j).0 e in
      let e' : (j == p) ≡ true = ground arith in
      rw (count_of-insert p j _ (grouped ps), e, e')
        (omega (arith, count_of-grouped j ps, ap (λ (t : ℕ). count_of t (grouped ps)) same))
  | inr e ↦
      let e' : (j == p) ≡ false = ground arith in
      rw (count_of-insert p j _ (grouped ps), e, e') (omega (arith, count_of-grouped j ps))
]

has_value-grouped :
    (k : ℕ) (l : List ℕ) → contains k l ≡ true → has_value (lookup k (grouped l)) ≡ true
unfolding grouped
has_value-grouped k [] h = cc
has_value-grouped k (p ∷ ps) h = elim (Bool-cases (p == k)) [
  | inl e ↦ rw (lookup-insert p k _ (grouped ps), e)
  | inr e ↦
      let e' : (k == p) ≡ false = ground arith in
      rw (lookup-insert p k _ (grouped ps), e) (has_value-grouped k ps (rw e' at h))
]

count-onto : (j : ℕ) (ps parts : List ℕ) → count j (onto ps parts) ≡ count j ps + count j parts
unfolding onto
count-onto j [] parts = omega arith
count-onto j (p ∷ ps) parts = omega (arith, count-onto j ps (p ∷ parts))

contains-count : (k : ℕ) (l : List ℕ) → 1 ≤ count k l → contains k l ≡ true
contains-count k [] h = absurd (omega arith)
contains-count k (p ∷ ps) h = elim (Bool-cases (k == p)) [
  | inl e ↦ rw e
  | inr e ↦ let h' : 1 ≤ 0 + count k ps = rw e at h in rw e (contains-count k ps (omega arith))
]

Climbs→partitions :
    (n largest : ℕ) (ps : List ℕ)
    → 1 ≤ n
    → sum ps ≡ n
    → Climbs 1 ps
    → All (λ p. p ≤ largest) ps
    → Among (onto ps []) (partitions n largest)
unfolding partitions
Climbs→partitions n largest ps o s c l =
    walk-Among n (min n largest) 1 n largest ps [] (omega arith) o (omega arith) (omega arith) s c l

-- Each way to split a match of `n` players, one or more, into parties of 1 to `largest` players,
-- listed from the smallest, is on file under each size that it uses, with that many parties of each
-- size.
pub make_combination_complete :
    (n largest k : ℕ) (ps : List ℕ)
    → 1 ≤ n
    → 1 ≤ largest
    → sum ps ≡ n
    → Climbs 1 ps
    → All (λ p. p ≤ largest) ps
    → 1 ≤ count k ps
    → (c : Combination) × Among c (combinations_of k (make_combination n largest))
      × ((j : ℕ) → count_of j c ≡ count j ps)
make_combination_complete n largest k ps o p s c l u =
    let counts =
      λ (j : ℕ). count_of-grouped j (onto ps []) ∙ count-onto j ps [] ∙ add-zero (count j ps) in
    let used =
      has_value-grouped k (onto ps [])
        (contains-count k (onto ps []) (omega (arith, count-onto k ps []))) in
    (
      grouped (onto ps []),
      rw (make_combination-partitions n largest o p) (
          record_all-adds k (onto ps []) (partitions n largest) []
            (Climbs→partitions n largest ps o s c l) used),
      counts,
    )
