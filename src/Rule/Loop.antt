-- ===== src/Rule/Loop.antt =====
-- The `while` loop of `MakeCombination` is the plain recursion `walk`.
use native.Mathlib.Nat.{pow-suc}
use cpp_matchmaking_mvp.Common.{
  ℕ, zero, suc, ◌+◌, ◌-◌, ◌*◌, ◌^◌, ◌≤◌, ◌<◌, ◌≡◌, refl, ap, ◌∙◌, min, arith, ℕ-cases, inl, inr,
  List, [], ◌∷◌, ◌++◌, some, ◌==◌, ◌||◌, false,
}
use cpp_matchmaking_mvp.Rule.{
  Frame, run_stack, record_parts, pop_back, CombinationMap, make_combination, or_empty,
}
use cpp_matchmaking_mvp.Rule.Partitions.{walk, partitions}
use cpp_matchmaking_mvp.Rule.Cost.{rounds, rounds_pos, rounds-lt-pow}

unfoldable pub record_all : List (List ℕ) → CombinationMap → CombinationMap
record_all [] m = m
record_all (l ∷ ls) m = record_all ls (record_parts l m)

record_all-append :
    (xs ys : List (List ℕ)) (m : CombinationMap)
    → record_all (xs ++ ys) m ≡ record_all ys (record_all xs m)
unfolding record_all
record_all-append [] ys m = refl
record_all-append (x ∷ xs) ys m = record_all-append xs ys (record_parts x m)

abbrev frame_at : (rem next largest sel : ℕ) → Frame
frame_at rem next largest sel = record {
  remaining = rem;
  next_part = next;
  max_part = min rem largest;
  selected = sel;
}

-- A frame with nothing left records the parts and is popped.
run_stack-found :
    (f next largest sel : ℕ) (rest : List Frame) (parts : List ℕ) (m : CombinationMap)
    → run_stack (suc f) largest (frame_at 0 next largest sel ∷ rest) parts m
      ≡ run_stack f largest rest (pop_back sel parts) (record_parts parts m)
unfolding run_stack
run_stack-found f next largest sel rest parts m = refl

-- A frame whose sizes are used up is popped.
run_stack-exhausted :
    (f next rem largest sel : ℕ) (rest : List Frame) (parts : List ℕ) (m : CombinationMap)
    → 1 ≤ rem
    → min rem largest < next
    → run_stack (suc f) largest (frame_at rem next largest sel ∷ rest) parts m
      ≡ run_stack f largest rest (pop_back sel parts) m
unfolding run_stack
run_stack-exhausted f next rem largest sel rest parts m p q = ground arith

-- A frame with a size left tries it.
run_stack-descend :
    (f next rem largest sel : ℕ) (rest : List Frame) (parts : List ℕ) (m : CombinationMap)
    → 1 ≤ rem
    → next ≤ min rem largest
    → run_stack (suc f) largest (frame_at rem next largest sel ∷ rest) parts m
      ≡ run_stack f largest
          (frame_at (rem - next) next largest next
            ∷ record (frame_at rem next largest sel) { next_part = next + 1 }
            ∷ rest)
          (next ∷ parts)
          m
unfolding run_stack
run_stack-descend f next rem largest sel rest parts m p q = ground arith

pop_back-cons : (s p : ℕ) (parts : List ℕ) → 1 ≤ s → pop_back s (p ∷ parts) ≡ parts
pop_back-cons zero p parts h = absurd (omega arith)
pop_back-cons (suc s) p parts h = refl

-- The rounds of a frame record what `walk` lists, and leave the rest of the stack.
run_stack-walk :
    (d g f F next rem largest sel : ℕ) (rest : List Frame) (parts : List ℕ) (m : CombinationMap)
    → rem ≤ d
    → 1 ≤ rem
    → 1 ≤ next
    → g ≡ min rem largest + 1 - next
    → F ≡ rounds d g next rem largest + f
    → run_stack F largest (frame_at rem next largest sel ∷ rest) parts m
      ≡ run_stack f largest rest
          (pop_back sel parts)
          (record_all (walk d g next rem largest parts) m)
unfolding rounds walk record_all
run_stack-walk zero g f F next rem largest sel rest parts m a b c e h = absurd (omega arith)
run_stack-walk (suc d) g f zero next rem largest sel rest parts m a b c e h =
    absurd (omega (arith, rounds_pos (suc d) g next rem largest))
run_stack-walk (suc d) zero f (suc F) next rem largest sel rest parts m a b c e h =
    let same : F ≡ f = omega arith in
    rw (run_stack-exhausted F next rem largest sel rest parts m b (omega arith), same)
run_stack-walk (suc d) (suc g) f (suc F) next rem largest sel rest parts m a b c e h =
    elim (ℕ-cases (rem - next)) [
      | inl last ↦
          let h' = rw last at h in
          let left : F ≡ suc (rounds (suc d) g (next + 1) rem largest + f) = omega arith in
          run_stack-descend F next rem largest sel rest parts m b (omega arith)
          ∙ rw (last, left)
              (run_stack-found _ next largest next _ _ m
                ∙ rw (pop_back-cons next next parts c) (
                    run_stack-walk (suc d) g f _ (next + 1) rem largest sel rest parts _ a b
                      (omega arith) (omega arith) refl))
      | inr (r', more) ↦
          let h' = rw more at h in
          let child = min (suc r') largest + 1 - next in
          let later = rounds (suc d) g (next + 1) rem largest + f in
          run_stack-descend F next rem largest sel rest parts m b (omega arith)
          ∙ rw more (
              run_stack-walk d child later F next (suc r') largest next _ _ m (omega arith)
                (omega arith) c refl (omega arith)
              ∙ rw
                  (
                    pop_back-cons next next parts c,
                    record_all-append (walk d child next (suc r') largest (next ∷ parts)) _ m,
                  )
                  (run_stack-walk (suc d) g f _ (next + 1) rem largest sel rest parts _ a b
                    (omega arith) (omega arith) refl))
    ]

run_stack-empty :
    (f largest : ℕ) (parts : List ℕ) (m : CombinationMap)
    → run_stack (suc f) largest [] parts m ≡ some m
unfolding run_stack
run_stack-empty f largest parts m = refl

-- For a match of one player or more, and parties of up to one or more, the map of
-- `make_combination` holds the partitions, recorded in the order of the search; its fuel does not
-- run out.
pub make_combination-partitions :
    (n largest : ℕ)
    → 1 ≤ n
    → 1 ≤ largest
    → make_combination n largest ≡ record_all (partitions n largest) []
unfolding make_combination partitions
make_combination-partitions n largest p q =
    let g = min n largest in
    let small =
      rounds-lt-pow (n + 1) n g 1 n largest (omega arith) (omega arith) (λ _. omega arith)
        (omega arith) in
    let double : 2 ^ (n + 2) ≡ 2 ^ (n + 1) * 2 =
      ap (λ (k : ℕ). 2 ^ k) {x = n + 2} {y = suc (n + 1)} (omega arith) ∙ pow-suc 2 (n + 1) in
    let spare = 2 ^ (n + 2) - rounds n g 1 n largest - 1 in
    let loop =
      run_stack-walk n g (suc spare) (2 ^ (n + 2)) 1 n largest 0 [] [] [] (omega arith) p
        (omega arith) (omega arith) (omega (arith, small, double)) in
    let guards : (n == 0 || largest == 0) ≡ false = ground arith in
    rw guards (ap or_empty (loop ∙ run_stack-empty spare largest [] _))
