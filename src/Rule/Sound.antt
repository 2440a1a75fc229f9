-- ===== src/Rule/Sound.antt =====
-- Every combination of `MakeCombination` fills the match.
use cpp_matchmaking_mvp.Common.{
  ℕ, zero, suc, ◌+◌, ◌-◌, ◌≤◌, ◌≡◌, min, ◌||◌, true, List, [], ◌∷◌, ◌++◌, arith, ℕ-cases,
  Above-mono, Above-IsOrdered, Above-mono, Above-IsOrdered, Bool-cases, inl, inr, ◌==◌,
  if◌then◌else◌, has_value, ==_iff, sum, All, All-append, lookup, insert, lookup-insert, Above,
  IsOrdered,
}
use cpp_matchmaking_mvp.Rule.{
  Combination, CombinationMap, combinations_of, grouped, emplace_back_each, record_parts,
  make_combination,
}
use cpp_matchmaking_mvp.Rule.Partitions.{walk, partitions}
use cpp_matchmaking_mvp.Rule.Loop.{record_all, make_combination-partitions}
use cpp_matchmaking_mvp.Rule.Groups.{Fits, InRange, grouped-Fits, grouped-IsOrdered}

-- A combination filed under size `k` has a party of that size.
abbrev pub Filed : (n largest k : ℕ) → Combination → Type 0
Filed n largest k c = (has_value (lookup k c) ≡ true) × Fits n largest c

abbrev MapFits : (n largest : ℕ) → CombinationMap → Type 0
MapFits n largest m = (k : ℕ) → All (Filed n largest k) (combinations_of k m)

pub combinations_of-insert :
    (j k : ℕ) (v : List Combination) (m : CombinationMap)
    → combinations_of k (insert j v m) ≡ (if j == k then v else combinations_of k m)
combinations_of-insert j k v m = elim (Bool-cases (j == k)) [
  | inl e ↦ ground (arith, lookup-insert j k v m)
  | inr e ↦ ground (arith, lookup-insert j k v m)
]

-- The entries of a map are found under their keys.
abbrev Keyed : Combination → Combination → Type 0
Keyed g rest = All (λ e. has_value (lookup e.0 g) ≡ true) rest

Keyed-cons :
    (j w : ℕ) (g rest : Combination) → Above j rest → Keyed g rest → Keyed ((j, w) ∷ g) rest
Keyed-cons j w g [] a h = tt
Keyed-cons j w g ((k, c) ∷ rest) a h =
    (ground arith, Keyed-cons j w g rest (Above-mono j k rest a.0 a.1) h.1)

Keyed-self : (g : Combination) → IsOrdered g → Keyed g g
Keyed-self [] o = tt
Keyed-self ((j, w) ∷ g) o =
    (ground arith, Keyed-cons j w g g o (Keyed-self g (Above-IsOrdered j g o)))

emplace_back_each-MapFits :
    (n largest : ℕ) (g rest : Combination) (m : CombinationMap)
    → Fits n largest g
    → Keyed g rest
    → MapFits n largest m
    → MapFits n largest (emplace_back_each g rest m)
unfolding emplace_back_each
emplace_back_each-MapFits n largest g [] m fit keyed h = h
emplace_back_each-MapFits n largest g ((k, c) ∷ rest) m fit keyed h =
    emplace_back_each-MapFits n largest g rest _ fit keyed.1 filed
  where
    filed : MapFits n largest (insert k (combinations_of k m ++ g ∷ []) m)
    filed j = elim (Bool-cases (k == j)) [
      | inl e ↦
          let same = (==_iff k j).0 e in
          rw (combinations_of-insert k j _ m, e)
            (All-append (Filed n largest j) (combinations_of k m) (g ∷ []) (rw same (h j))
              ((rw same at keyed.0, fit), tt))
      | inr e ↦ rw (combinations_of-insert k j _ m, e) (h j)
    ]

record_all-MapFits :
    (n largest : ℕ) (ls : List (List ℕ)) (m : CombinationMap)
    → All (λ l. (sum l ≡ n) × InRange largest l) ls
    → MapFits n largest m
    → MapFits n largest (record_all ls m)
unfolding record_all record_parts
record_all-MapFits n largest [] m a h = h
record_all-MapFits n largest (l ∷ ls) m a h = record_all-MapFits n largest ls _ a.1 (
    emplace_back_each-MapFits n largest (grouped l) (grouped l) m
      (grouped-Fits n largest l a.0.0 a.0.1) (Keyed-self (grouped l) (grouped-IsOrdered l)) h)

walk-InRange :
    (n d g next rem largest : ℕ) (parts : List ℕ)
    → sum parts + rem ≡ n
    → InRange largest parts
    → 1 ≤ next
    → (1 ≤ g → g + next ≤ min rem largest + 1)
    → All (λ l. (sum l ≡ n) × InRange largest l) (walk d g next rem largest parts)
unfolding walk
walk-InRange n zero g next rem largest parts s r p q = tt
walk-InRange n (suc d) zero next rem largest parts s r p q = tt
walk-InRange n (suc d) (suc g) next rem largest parts s r p q =
    let room : suc g + next ≤ min rem largest + 1 = q (omega arith) in
    let later =
      walk-InRange n (suc d) g (next + 1) rem largest parts s r (omega arith) (omega arith) in
    elim (ℕ-cases (rem - next)) [
      | inl last ↦ rw last ((omega arith, ((p, omega arith), r)), later)
      | inr (r', more) ↦ rw more (
          All-append (λ l. (sum l ≡ n) × InRange largest l)
            (walk d _ next (suc r') largest (next ∷ parts)) _
            (walk-InRange n d (min (suc r') largest + 1 - next) next (suc r') largest (next ∷ parts)
              (omega arith) ((p, omega arith), r) p (omega arith))
            later)
    ]

make_combination-empty :
    (n largest : ℕ) → (n == 0 || largest == 0) ≡ true → make_combination n largest ≡ []
unfolding make_combination
make_combination-empty n largest h = rw h

partitions-InRange :
    (n largest : ℕ) → 1 ≤ n → All (λ l. (sum l ≡ n) × InRange largest l) (partitions n largest)
unfolding partitions
partitions-InRange n largest p =
    walk-InRange n n (min n largest) 1 n largest [] (omega arith) tt (omega arith)
      (λ _. omega arith)

-- Every combination that the rule files under a size has a party of that size, seats exactly the
-- players of the match, and uses parties of one player up to the largest party only.
pub make_combination-Filed :
    (n largest k : ℕ) → All (Filed n largest k) (combinations_of k (make_combination n largest))
make_combination-Filed zero largest k = rw (make_combination-empty 0 largest (ground arith)) tt
make_combination-Filed (suc n) zero k = rw (make_combination-empty (suc n) 0 (ground arith)) tt
make_combination-Filed (suc n) (suc largest) k =
    rw (make_combination-partitions (suc n) (suc largest) (omega arith) (omega arith)) (
      record_all-MapFits (suc n) (suc largest) _ []
        (partitions-InRange (suc n) (suc largest) (omega arith)) (λ j. tt) k)
