-- ===== src/Server/Worlds.antt =====
-- MM/matching/MatchSessionManager.cpp: the choice of a world for a match.
use cpp_matchmaking_mvp.Common.{
  ℕ, ◌+◌, ◌<◌, ◌≤◌, ◌%◌, ◌≡◌, refl, ltb, All, ℤ, eqb_ℤ_iff, true, false, List, [], ◌∷◌, ◌==◌, zero,
  suc, length, arith, Bool-cases, inl, inr,
}
use native.Mathlib.Nat.{mod-lt}
use cpp_matchmaking_mvp.Server.{Server}
use cpp_matchmaking_mvp.Server.Matching.{
  world_at, contains_world, world_of_turn, get_next_integration_world_no,
}

world_at-contains_world :
    (i : ℕ) (ws : List ℤ) → i < length ws → contains_world (world_at i ws) ws ≡ true
world_at-contains_world i [] h = absurd (omega arith)
world_at-contains_world zero (w ∷ ws) h = ground (arith, eqb_ℤ_iff w w)
world_at-contains_world (suc i) (w ∷ ws) h =
    let rest = world_at-contains_world i ws (omega arith) in
    let joined : contains_world (world_at i ws) (w ∷ ws) ≡ true = ground arith in joined

-- A counter that has not wrapped leads to a world.
world_of_turn-contains_world :
    (k : ℕ) (s : Server)
    → 1 ≤ length s.integrate_worlds
    → k < 2147483648
    → contains_world (world_of_turn k s) s.integrate_worlds ≡ true
unfolding world_of_turn
world_of_turn-contains_world k s some_world small =
    let not_negative : ltb k 2147483648 ≡ true = ground arith in
    rw not_negative (
      world_at-contains_world (k % length s.integrate_worlds) s.integrate_worlds
        (mod-lt k (omega arith)))

-- What one call gives and what it leaves.
abbrev NextOutcome : Server → Server × ℤ → Type 0
NextOutcome s (s', w) =
    (contains_world w s.integrate_worlds ≡ true)
    × (s'.integrate_worlds ≡ s.integrate_worlds)
    × (s'.world_turns ≤ s.world_turns + 1)

get_next_integration_world_no-NextOutcome :
    (g : ℤ) (s : Server)
    → 1 ≤ length s.integrate_worlds
    → s.world_turns < 2147483648
    → NextOutcome s (get_next_integration_world_no g s)
unfolding get_next_integration_world_no
get_next_integration_world_no-NextOutcome g s h small =
    let some_world : (length s.integrate_worlds == 0) ≡ false = ground arith in
    elim (Bool-cases (contains_world g s.integrate_worlds)) [
      | inl own ↦ rw (some_world, own) (own, refl, omega arith)
      | inr other ↦
          rw (some_world, other)
            (world_of_turn-contains_world s.world_turns s h small, refl, grind arith)
    ]

-- The worlds of one call after the other, for the world groups that ask.
abbrev pub worlds_for : (world_groups : List ℤ) → Server → List ℤ
worlds_for [] s = []
worlds_for (g ∷ gs) s = let (s', w) = get_next_integration_world_no g s in w ∷ worlds_for gs s'

-- While there are worlds, each of up to 2^31 matches in a row is sent to one of them, counted from a
-- counter of 0 on; from a counter that has come further, as many fewer.
pub worlds_for-contains_world :
    (gs : List ℤ) (s : Server)
    → 1 ≤ length s.integrate_worlds
    → s.world_turns + length gs ≤ 2147483648
    → All (λ w. contains_world w s.integrate_worlds ≡ true) (worlds_for gs s)
worlds_for-contains_world [] s h small = tt
worlds_for-contains_world (g ∷ gs) s h small =
    let s' = (get_next_integration_world_no g s).0 in
    let (here, same, turns) = get_next_integration_world_no-NextOutcome g s h (omega arith) in
    let rest = worlds_for-contains_world gs s' (rw same h) (omega arith) in (here, rw same at rest)
