-- ===== src/Rule.antt =====
-- MM/matching/core/MatchmakingRule.h and .cpp. A player count of the source is an `int`; one that
-- is zero or less is 0 here. The head of `parts` is the back of `current_parts`, and the head of
-- the stack is the back of `combination_stack`.
pub mod Partitions
pub mod Cost
pub mod Loop
pub mod Groups
pub mod Sound
pub mod Complete
use cpp_matchmaking_mvp.Common.{
  ℕ, zero, suc, ◌+◌, ◌-◌, ◌^◌, min, Bool, ◌||◌, Option, none, some, List, [], ◌∷◌, ◌++◌, ◌==◌, ltb,
  if◌then◌else◌, Dict, lookup, insert,
}

-- `std::map<int, int>`: how many parties of each size.
abbrev pub Combination : Type 0
Combination = Dict ℕ

-- `Number::CombinationMap`
abbrev pub CombinationMap : Type 0
CombinationMap = Dict (List Combination)

abbrev pub count_of : ℕ → Combination → ℕ
count_of k c = elim (lookup k c) [ none ↦ 0 | some n ↦ n ]

abbrev pub combinations_of : ℕ → CombinationMap → List Combination
combinations_of k m = elim (lookup k m) [ none ↦ [] | some cs ↦ cs ]

-- `grouped_combination[player_count] += 1` for each part.
unfoldable pub grouped : List ℕ → Combination
grouped [] = []
grouped (p ∷ ps) = let g = grouped ps in insert p (count_of p g + 1) g

-- `combination_map[player_count].emplace_back(grouped_combination)` for each size in it.
unfoldable pub emplace_back_each : Combination → Combination → CombinationMap → CombinationMap
emplace_back_each g [] m = m
emplace_back_each g ((k, n) ∷ rest) m =
    emplace_back_each g rest (insert k (combinations_of k m ++ g ∷ []) m)

unfoldable pub record_parts : List ℕ → CombinationMap → CombinationMap
record_parts parts m = let g = grouped parts in emplace_back_each g g m

-- `CombinationFrame`
pub record Frame : Type 0 where
  pub remaining : ℕ
  pub next_part : ℕ
  pub max_part : ℕ
  pub selected : ℕ

-- `if (frame.m_SelectedPartSize > 0) current_parts.pop_back();`
abbrev pub pop_back : ℕ → List ℕ → List ℕ
pop_back zero parts = parts
pop_back (suc s) [] = []
pop_back (suc s) (p ∷ parts) = parts

-- The `while` loop; `none` means that the fuel ran out.
unfoldable pub run_stack :
    (fuel largest : ℕ) → List Frame → List ℕ → CombinationMap → Option CombinationMap
run_stack zero largest stack parts m = none
run_stack (suc f) largest [] parts m = some m
run_stack (suc f) largest (frame ∷ rest) parts m =
    let found = run_stack f largest rest (pop_back frame.selected parts) (record_parts parts m) in
    let exhausted = run_stack f largest rest (pop_back frame.selected parts) m in
    let descend =
      run_stack f largest
        (record {
          remaining = frame.remaining - frame.next_part;
          next_part = frame.next_part;
          max_part = min (frame.remaining - frame.next_part) largest;
          selected = frame.next_part;
        }
          ∷ record frame { next_part = frame.next_part + 1 }
          ∷ rest)
        (frame.next_part ∷ parts) m in
    if frame.remaining == 0
    then found
    else if ltb frame.max_part frame.next_part
    then exhausted
    else descend

abbrev pub first_frame : ℕ → ℕ → Frame
first_frame n largest = record {
  remaining = n;
  next_part = 1;
  max_part = min n largest;
  selected = 0;
}

abbrev pub or_empty : Option CombinationMap → CombinationMap
or_empty none = []
or_empty (some m) = m

-- `Number::MakeCombination`
unfoldable pub make_combination :
    (match_player_count party_available_player_count : ℕ) → CombinationMap
make_combination n largest =
    let loop = run_stack (2 ^ (n + 2)) largest (first_frame n largest ∷ []) [] [] in
    if n == 0 || largest == 0 then [] else or_empty loop

-- `match_player_count` is the count as the `size_t` that it is compared with: a negative `int` is 2^64 less
-- its amount, which no list and no sum of players reaches.
pub record MatchmakingRule : Type 0 where
  pub match_zone_id : ℕ
  pub match_player_count : ℕ
  pub combination : CombinationMap

-- The constructor, for counts that are not negative.
unfoldable pub make_rule : (zone_id n largest : ℕ) → MatchmakingRule
make_rule zone_id n largest = record {
  match_zone_id = zone_id;
  match_player_count = n;
  combination = make_combination n largest;
}

-- `MatchmakingRule::GetCombination`
abbrev pub get_combination : MatchmakingRule → ℕ → List Combination
get_combination r k = combinations_of k r.combination
