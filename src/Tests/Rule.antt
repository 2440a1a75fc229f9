-- ===== src/Tests/Rule.antt =====
-- MM/matching/core/MatchmakingRule.cpp: matches of five players, with parties of up to three.
use cpp_matchmaking_mvp.Common.{ℕ, ◌≡◌, refl, All, Among, count, [], ◌∷◌, arith}
use cpp_matchmaking_mvp.Rule.{Combination, combinations_of, count_of, make_combination}
use cpp_matchmaking_mvp.Rule.Partitions.{partitions}
use cpp_matchmaking_mvp.Rule.Loop.{record_all, make_combination-partitions}
use cpp_matchmaking_mvp.Rule.Sound.{Filed, make_combination-Filed}
use cpp_matchmaking_mvp.Rule.Complete.{make_combination_complete}

make_combination-partitions_example : make_combination 5 3 ≡ record_all (partitions 5 3) []
make_combination-partitions_example = make_combination-partitions 5 3 (omega arith) (omega arith)

make_combination-Filed_example : All (Filed 5 3 2) (combinations_of 2 (make_combination 5 3))
make_combination-Filed_example = make_combination-Filed 5 3 2

make_combination_complete_example :
    (c : Combination) × Among c (combinations_of 2 (make_combination 5 3))
    × ((j : ℕ) → count_of j c ≡ count j (1 ∷ 2 ∷ 2 ∷ []))
make_combination_complete_example =
    make_combination_complete 5 3 2 (1 ∷ 2 ∷ 2 ∷ []) (omega arith) (omega arith) refl
      (omega arith, (omega arith, (omega arith, tt)))
      (omega arith, (omega arith, (omega arith, tt))) (omega arith)
