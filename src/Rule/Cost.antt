-- ===== src/Rule/Cost.antt =====
-- The rounds that the search takes, and that the fuel of `make_combination` covers them.
use native.Mathlib.Nat.{pow-suc}
use cpp_matchmaking_mvp.Common.{
  ℕ, zero, suc, ◌+◌, ◌-◌, ◌^◌, ◌≤◌, ◌<◌, min, arith, ℕ-cases, inl, inr,
}

-- The rounds until a frame with these sizes left is popped; it follows `walk`.
unfoldable pub rounds : (depth choices next rem largest : ℕ) → ℕ
rounds zero g next rem largest = 1
rounds (suc d) zero next rem largest = 1
rounds (suc d) (suc g) next rem largest = suc (
    elim (rem - next) [
      | zero ↦ 1
      | suc r ↦ rounds d (min (suc r) largest + 1 - next) next (suc r) largest
    ]
    + rounds (suc d) g (next + 1) rem largest)

pub rounds_pos : (d g next rem largest : ℕ) → 1 ≤ rounds d g next rem largest
unfolding rounds
rounds_pos zero g next rem largest = omega arith
rounds_pos (suc d) zero next rem largest = omega arith
rounds_pos (suc d) (suc g) next rem largest = omega arith

one-le-pow : (e : ℕ) → 1 ≤ 2 ^ e
one-le-pow zero = omega arith
one-le-pow (suc e) = omega (arith, pow-suc 2 e, one-le-pow e)

two-le_pow : (e : ℕ) → 1 ≤ e → 2 ≤ 2 ^ e
two-le_pow zero h = absurd (omega arith)
two-le_pow (suc e) h = omega (arith, pow-suc 2 e, one-le-pow e)

-- A level is left after fewer than 2 ^ e rounds, where e is the players left beyond the next size.
pub rounds-lt-pow :
    (e d g next rem largest : ℕ)
    → 1 ≤ e
    → 1 ≤ next
    → (1 ≤ g → g + next ≤ rem + 1)
    → rem + 2 ≤ e + next
    → rounds d g next rem largest < 2 ^ e
unfolding rounds
rounds-lt-pow zero d g next rem largest o p q r = absurd (omega arith)
rounds-lt-pow (suc e) zero g next rem largest o p q r = omega (arith, pow-suc 2 e, one-le-pow e)
rounds-lt-pow (suc e) (suc d) zero next rem largest o p q r =
    omega (arith, pow-suc 2 e, one-le-pow e)
rounds-lt-pow (suc e) (suc d) (suc g) next rem largest o p q r =
    let room : suc g + next ≤ rem + 1 = q (omega arith) in
    let later =
      rounds-lt-pow e (suc d) g (next + 1) rem largest (omega arith) (omega arith) (omega arith)
        (omega arith) in
    elim (ℕ-cases (rem - next)) [
      | inl last ↦ rw last (omega (arith, pow-suc 2 e, later, two-le_pow e (omega arith)))
      | inr (r', more) ↦ rw more (
          omega (
            arith,
            pow-suc 2 e,
            later,
            rounds-lt-pow e d (min (suc r') largest + 1 - next) next (suc r') largest (omega arith)
                p (omega arith) (omega arith),
          ))
    ]
