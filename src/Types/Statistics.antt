-- ===== src/Types/Statistics.antt =====
-- MM/matching/MatchmakingTypes.h: what a `QueueTimeCalculator` reports after any number of waits.
use cpp_matchmaking_mvp.Common.{ℕ, ◌+◌, ◌≤◌, ◌≡◌, ◌∙◌, List, [], ◌∷◌, length, sum, All, arith}
use cpp_matchmaking_mvp.Types.QueueTime.{QueueTimeCalculator, new_calculator, add, add_all}

add_all_totals :
    (q : QueueTimeCalculator) (ws : List ℕ)
    → ((add_all q ws).total_wait ≡ q.total_wait + sum ws)
      × ((add_all q ws).processed ≡ q.processed + length ws)
unfolding add add_all
add_all_totals q [] = (omega arith, omega arith)
add_all_totals q (w ∷ ws) =
    let (total, count) = add_all_totals (add q w) ws in (omega arith, omega arith)

-- The bounds only widen.
add_all_widens :
    (q : QueueTimeCalculator) (ws : List ℕ)
    → ((add_all q ws).min_wait ≤ q.min_wait) × (q.max_wait ≤ (add_all q ws).max_wait)
unfolding add add_all
add_all_widens q [] = (omega arith, omega arith)
add_all_widens q (w ∷ ws) =
    let (low, high) = add_all_widens (add q w) ws in (omega arith, omega arith)

add_all_between :
    (q : QueueTimeCalculator) (ws : List ℕ)
    → All (λ w. ((add_all q ws).min_wait ≤ w) × (w ≤ (add_all q ws).max_wait)) ws
unfolding add add_all
add_all_between q [] = tt
add_all_between q (w ∷ ws) =
    let (low, high) = add_all_widens (add q w) ws in
    ((omega arith, omega arith), add_all_between (add q w) ws)

-- After any waits, the calculator has their sum and their number, and its bounds enclose each wait.
pub add_all_totals_and_bounds :
    (ws : List ℕ)
    → ((add_all new_calculator ws).total_wait ≡ sum ws)
      × ((add_all new_calculator ws).processed ≡ length ws)
      × All
          (λ w.
            ((add_all new_calculator ws).min_wait ≤ w) × (w ≤ (add_all new_calculator ws).max_wait))
          ws
add_all_totals_and_bounds ws =
    let (total, count) = add_all_totals new_calculator ws in
    (total ∙ omega arith, count ∙ omega arith, add_all_between new_calculator ws)
