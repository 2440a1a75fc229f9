-- ===== src/Rule/Partitions.antt =====
-- What the search of MM/matching/core/MatchmakingRule.cpp enumerates, by plain recursion.
use cpp_matchmaking_mvp.Common.{ℕ, zero, suc, ◌+◌, ◌-◌, min, List, [], ◌∷◌, ◌++◌}

-- The lists that extend `parts` by parts of `next` or more that add up to `rem`, none above
-- `largest`. `choices` sizes are left to try at this level, and `depth` bounds the levels below.
unfoldable pub walk : (depth choices next rem largest : ℕ) → List ℕ → List (List ℕ)
walk zero g next rem largest parts = []
walk (suc d) zero next rem largest parts = []
walk (suc d) (suc g) next rem largest parts =
    elim (rem - next) [
      | zero ↦ (next ∷ parts) ∷ []
      | suc r ↦ walk d (min (suc r) largest + 1 - next) next (suc r) largest (next ∷ parts)
    ]
    ++ walk (suc d) g (next + 1) rem largest parts

-- The ways to split a match of `n` players into parties of at most `largest`, largest part first.
unfoldable pub partitions : (n largest : ℕ) → List (List ℕ)
unfolding walk
partitions n largest = walk n (min n largest) 1 n largest []
