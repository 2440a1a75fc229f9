-- ===== src/Types/QueueTime.antt =====
-- MM/matching/MatchmakingTypes.h: `QueueTimeCalculator`.
use cpp_matchmaking_mvp.Common.{ℕ, ◌+◌, ◌/◌, ◌^◌, ◌-◌, List, [], ◌∷◌, min, max}

abbrev pub llong_max : ℕ
llong_max = 2 ^ 63 - 1

-- The description string of the calculator is printed only.
pub record QueueTimeCalculator : Type 0 where
  pub last_wait : ℕ
  pub min_wait : ℕ
  pub max_wait : ℕ
  pub average_wait : ℕ
  pub total_wait : ℕ
  pub processed : ℕ

abbrev pub new_calculator : QueueTimeCalculator
new_calculator = record {
  last_wait = 0;
  min_wait = llong_max;
  max_wait = 0;
  average_wait = 0;
  total_wait = 0;
  processed = 0;
}

-- `QueueTimeCalculator::Add`
unfoldable pub add : QueueTimeCalculator → ℕ → QueueTimeCalculator
add q wait = record {
  last_wait = wait;
  min_wait = min wait q.min_wait;
  max_wait = max wait q.max_wait;
  average_wait = (q.total_wait + wait) / (q.processed + 1);
  total_wait = q.total_wait + wait;
  processed = q.processed + 1;
}

unfoldable pub add_all : QueueTimeCalculator → List ℕ → QueueTimeCalculator
add_all q [] = q
add_all q (w ∷ ws) = add_all (add q w) ws
