-- ===== src/PartyWorker.antt =====
-- MM/matching/workers/PartyMatchmakingWorker.h and .cpp, `CPartyMatchmakingWorker`: the queues of one
-- worker and its search for a match. Each method holds the worker's lock throughout.
pub mod Match
pub mod Queues
pub mod Invariant
pub mod History
pub mod Oldest
pub mod Found
use cpp_matchmaking_mvp.Common.{
  ℕ, zero, suc, ◌+◌, ◌-◌, min, Bool, true, false, ◌&&◌, ◌||◌, Option, none, some, List, [], ◌∷◌,
  ◌++◌, ◌==◌, if◌then◌else◌, leb, ltb, length, Dict, lookup, insert, erase, has_value,
}
use cpp_matchmaking_mvp.Types.{queued, eqb_status}
use cpp_matchmaking_mvp.Types.QueueTime.{llong_max}
use cpp_matchmaking_mvp.Ticket.{Tickets}
use cpp_matchmaking_mvp.Request.{Request, emplace}
use cpp_matchmaking_mvp.Rule.{Combination, MatchmakingRule, count_of, get_combination}

-- `CPartyMatchmakingWorker`, less its rule, which is its group's.
pub record Worker : Type 0 where
  pub waiting : Dict Request
  pub by_player_count : Dict (Dict Request)
  pub queued_count : Dict ℕ

-- The constructor.
abbrev pub make_worker : Worker
make_worker = record { waiting = []; by_player_count = []; queued_count = [] }

-- The queue of one party size; `operator[]` makes an empty one where there is none.
abbrev pub queue_of : (player_count : ℕ) → Dict (Dict Request) → Dict Request
queue_of k m = elim (lookup k m) [ none ↦ [] | some q ↦ q ]

-- `EnqueueJobRequest`
unfoldable pub enqueue_request : Request → Worker → Worker × Bool
enqueue_request r w =
    let (waiting, in_waiting) = emplace r.ticket_id r w.waiting in
    let (queue, in_queue) = emplace r.ticket_id r (queue_of r.player_count w.by_player_count) in
    let by_count = insert r.player_count queue w.by_player_count in
    if in_waiting
    then (if in_queue
        then (
          record {
            waiting = waiting;
            by_player_count = by_count;
            queued_count =
                insert r.player_count (count_of r.player_count w.queued_count + 1) w.queued_count;
          },
          true,
        )
        else (record w { waiting = erase r.ticket_id waiting; by_player_count = by_count }, false))
    else (w, false)

-- `queued_count_it->second -= 1`, and the end of an entry that is used up.
unfoldable pub discount : (player_count : ℕ) → Dict ℕ → Dict ℕ
discount k m = elim (lookup k m) [
  | none ↦ m
  | some n ↦ if leb n 1 then erase k m else insert k (n - 1) m
]

-- `Erase` of a ticket with an id and a number of players.
unfoldable pub erase_ticket : (id player_count : ℕ) → Worker → Worker
erase_ticket id k w = elim (lookup k w.by_player_count) [
  | none ↦ record w { waiting = erase id w.waiting }
  | some q ↦ record {
    waiting = erase id w.waiting;
    by_player_count = insert k (erase id q) w.by_player_count;
    queued_count =
        (if has_value (lookup id w.waiting) && has_value (lookup id q)
          then discount k w.queued_count
          else w.queued_count);
  }
]

-- `IsWorkerJobAvailable`
unfoldable pub is_worker_job_available : Worker → Bool
is_worker_job_available w = ltb 0 (length w.waiting)

-- Whether a pointer leads to a ticket that is queued.
abbrev pub is_queued : Tickets → (ticket : ℕ) → Bool
is_queued s a = elim (s a) [ none ↦ false | some t ↦ eqb_status t.status queued ]

-- The first loop of `BuildCandidateLocked`.
unfoldable pub has_counts : Combination → Dict ℕ → Bool
has_counts [] counts = true
has_counts ((k, need) ∷ rest) counts = elim (lookup k counts) [
  | none ↦ false
  | some n ↦ leb need n && has_counts rest counts
]

-- The inner loop of the second: the first requests of a queue whose tickets are queued.
unfoldable pub take_queued : (need : ℕ) → Dict Request → Tickets → List Request
take_queued zero q s = []
take_queued (suc need) [] s = []
take_queued (suc need) ((id, r) ∷ q) s =
    let taken = r ∷ take_queued need q s in
    let passed = take_queued (suc need) q s in if is_queued s r.ticket then taken else passed

abbrev pub append_some : List Request → Option (List Request) → Option (List Request)
append_some l none = none
append_some l (some rest) = some (l ++ rest)

-- The second loop.
unfoldable pub collect : Combination → Dict (Dict Request) → Tickets → Option (List Request)
collect [] queues s = some []
collect ((k, need) ∷ rest) queues s =
    let more = collect rest queues s in
    elim (lookup k queues) [
      | none ↦ none
      | some q ↦
          if ltb (length (take_queued need q s)) need
          then none
          else append_some (take_queued need q s) more
    ]

abbrev pub unless_empty : Option (List Request) → Option (List Request)
unless_empty none = none
unless_empty (some []) = none
unless_empty (some (r ∷ l)) = some (r ∷ l)

-- `BuildCandidateLocked`
unfoldable pub build_candidate : Combination → Worker → Tickets → Option (List Request)
build_candidate c w s =
    if has_counts c w.queued_count then unless_empty (collect c w.by_player_count s) else none

-- `sum_player_count` and `oldest_ticket_id`
unfoldable pub sum_player_count : List Request → ℕ
sum_player_count [] = 0
sum_player_count (r ∷ l) = r.player_count + sum_player_count l

unfoldable pub oldest_ticket_id : List Request → ℕ
oldest_ticket_id [] = llong_max
oldest_ticket_id (r ∷ l) = min r.ticket_id (oldest_ticket_id l)

-- `best_oldest_ticket_id` and `best_matching_list`
pub record Best : Type 0 where
  pub oldest : ℕ
  pub matching_list : List Request

abbrev pub is_empty : List Request → Bool
is_empty [] = true
is_empty (_ ∷ _) = false

-- The end of the body of the loops: a candidate against the best so far.
unfoldable pub weigh : (match_player_count : ℕ) → List Request → Best → Best
weigh n l best =
    if sum_player_count l == n
    then (if oldest_ticket_id l == llong_max
        then best
        else if is_empty best.matching_list || ltb (oldest_ticket_id l) best.oldest
        then record { oldest = oldest_ticket_id l; matching_list = l }
        else best)
    else best

abbrev pub weigh_some : (match_player_count : ℕ) → Option (List Request) → Best → Best
weigh_some n none best = best
weigh_some n (some l) best = weigh n l best

-- The inner loop of `MakeMatchmakingLocked`.
unfoldable pub try_combinations :
    (match_player_count : ℕ) → List Combination → Worker → Tickets → Best → Best
try_combinations n [] w s best = best
try_combinations n (c ∷ cs) w s best =
    try_combinations n cs w s (weigh_some n (build_candidate c w s) best)

-- The outer loop, over the counts in the order in which they are visited.
unfoldable pub try_sizes : MatchmakingRule → (visited : Dict ℕ) → Worker → Tickets → Best → Best
try_sizes rule [] w s best = best
try_sizes rule ((k, n) ∷ rest) w s best = try_sizes rule rest w s (
    if n == 0
    then best
    else try_combinations rule.match_player_count (get_combination rule k) w s best)

abbrev pub no_best : Best
no_best = record { oldest = llong_max; matching_list = [] }

-- `MakeMatchmakingLocked`. `visit` is the order in which the standard library walks through
-- `m_QueuedCountByPlayerCount`, an unordered map.
unfoldable pub make_matchmaking :
    (visit : Dict ℕ → Dict ℕ) → MatchmakingRule → Worker → Tickets → List Request
make_matchmaking visit rule w s =
    if length w.waiting == 0
    then []
    else (try_sizes rule (visit w.queued_count) w s no_best).matching_list
