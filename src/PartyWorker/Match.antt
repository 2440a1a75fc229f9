-- ===== src/PartyWorker/Match.antt =====
-- MM/matching/workers/PartyMatchmakingWorker.cpp: what `MakeMatchmaking` returns.
use cpp_matchmaking_mvp.Common.{
  ℕ, zero, suc, ◌≡◌, ◌⊎◌, refl, true, Option, none, some, List, [], ◌∷◌, ◌==◌, ==_iff,
  if◌then◌else◌, ltb, length, Dict, lookup, All, All-map, All-append, Among, Bool-cases,
  Option-cases, inl, inr, ◌||◌,
}
use cpp_matchmaking_mvp.Types.QueueTime.{llong_max}
use cpp_matchmaking_mvp.Ticket.{Tickets}
use cpp_matchmaking_mvp.Request.{Request}
use cpp_matchmaking_mvp.Rule.{Combination, MatchmakingRule, get_combination}
use cpp_matchmaking_mvp.PartyWorker.{
  Worker, queue_of, is_queued, has_counts, take_queued, append_some, collect, unless_empty,
  build_candidate, sum_player_count, oldest_ticket_id, Best, is_empty, weigh, weigh_some,
  try_combinations, try_sizes, no_best, make_matchmaking,
}

-- A request that stands in a queue and whose ticket is queued.
abbrev pub Waits : Dict (Dict Request) → Tickets → Request → Type 0
Waits queues s r =
    (is_queued s r.ticket ≡ true) × (k : ℕ) × (id : ℕ) × Among (id, r) (queue_of k queues)

-- The queued requests of one queue.
abbrev pub Stands : Dict Request → Tickets → Request → Type 0
Stands q s r = (is_queued s r.ticket ≡ true) × (id : ℕ) × Among (id, r) q

Stands-cons :
    (id : ℕ) (r : Request) (q : Dict Request) (s : Tickets) (l : List Request)
    → All (Stands q s) l
    → All (Stands ((id, r) ∷ q) s) l
Stands-cons id r q s l =
    All-map (Stands q s) (Stands ((id, r) ∷ q) s) l (λ x h. (h.0, h.1, inr h.2))

take_queued-Stands : (n : ℕ) (q : Dict Request) (s : Tickets) → All (Stands q s) (take_queued n q s)
unfolding take_queued
take_queued-Stands zero q s = tt
take_queued-Stands (suc n) [] s = tt
take_queued-Stands (suc n) ((id, r) ∷ q) s = elim (Bool-cases (is_queued s r.ticket)) [
  | inl is ↦
      rw is
        ((is, id, inl refl), Stands-cons id r q s (take_queued n q s) (take_queued-Stands n q s))
  | inr not ↦
      rw not (Stands-cons id r q s (take_queued (suc n) q s) (take_queued-Stands (suc n) q s))
]

-- What `BuildCandidateLocked` returns, if it returns a list.
abbrev pub Offers : Dict (Dict Request) → Tickets → Option (List Request) → Type 0
Offers queues s none = Unit
Offers queues s (some l) = All (Waits queues s) l

append_some-Offers :
    (queues : Dict (Dict Request)) (s : Tickets) (l : List Request) (o : Option (List Request))
    → All (Waits queues s) l
    → Offers queues s o
    → Offers queues s (append_some l o)
append_some-Offers queues s l none h g = tt
append_some-Offers queues s l (some rest) h g = All-append (Waits queues s) l rest h g

pub queue_of-found :
    (k : ℕ) (queues : Dict (Dict Request)) (q : Dict Request)
    → lookup k queues ≡ some q
    → queue_of k queues ≡ q
queue_of-found k queues q e = rw (e, queue_of)

collect-missing :
    (k n : ℕ) (c : Combination) (queues : Dict (Dict Request)) (s : Tickets)
    → lookup k queues ≡ none
    → collect ((k, n) ∷ c) queues s ≡ none
unfolding collect
collect-missing k n c queues s e = rw (e, collect)

pub collect-found :
    (k n : ℕ) (c : Combination) (queues : Dict (Dict Request)) (s : Tickets) (q : Dict Request)
    → lookup k queues ≡ some q
    → collect ((k, n) ∷ c) queues s ≡ (
        if ltb (length (take_queued n q s)) n
        then none
        else append_some (take_queued n q s) (collect c queues s))
unfolding collect
collect-found k n c queues s q e = rw (e, collect)

collect-Offers :
    (c : Combination) (queues : Dict (Dict Request)) (s : Tickets)
    → Offers queues s (collect c queues s)
unfolding collect
collect-Offers [] queues s = tt
collect-Offers ((k, n) ∷ c) queues s = elim (Option-cases (lookup k queues)) [
  | inl missing ↦ rw (collect-missing k n c queues s missing) tt
  | inr (q, found) ↦
      rw (collect-found k n c queues s q found)
        (elim (Bool-cases (ltb (length (take_queued n q s)) n)) [
          | inl short ↦ rw short tt
          | inr enough ↦ rw enough (
              append_some-Offers queues s (take_queued n q s) (collect c queues s)
                (All-map (Stands q s) (Waits queues s) (take_queued n q s)
                  (λ r h. (h.0, k, h.1, rw (queue_of-found k queues q found) h.2))
                  (take_queued-Stands n q s))
                (collect-Offers c queues s))
        ])
]

unless_empty-Offers :
    (queues : Dict (Dict Request)) (s : Tickets) (o : Option (List Request))
    → Offers queues s o
    → Offers queues s (unless_empty o)
unless_empty-Offers queues s none h = h
unless_empty-Offers queues s (some []) h = tt
unless_empty-Offers queues s (some (r ∷ l)) h = h

build_candidate-Offers :
    (c : Combination) (w : Worker) (s : Tickets)
    → Offers w.by_player_count s (build_candidate c w s)
unfolding build_candidate
build_candidate-Offers c w s = elim (Bool-cases (has_counts c w.queued_count)) [
  | inl may ↦
      rw may (unless_empty-Offers w.by_player_count s _ (collect-Offers c w.by_player_count s))
  | inr short ↦ rw short tt
]

-- No match, or one that seats `n` players, all of whose tickets are queued and on file.
abbrev pub IsMatch : (n : ℕ) → Dict (Dict Request) → Tickets → List Request → Type 0
IsMatch n queues s l = (l ≡ []) ⊎ ((sum_player_count l ≡ n) × All (Waits queues s) l)

weigh-IsMatch :
    (n : ℕ) (queues : Dict (Dict Request)) (s : Tickets) (l : List Request) (best : Best)
    → All (Waits queues s) l
    → IsMatch n queues s best.matching_list
    → IsMatch n queues s (weigh n l best).matching_list
unfolding weigh
weigh-IsMatch n queues s l best h good = elim (Bool-cases (sum_player_count l == n)) [
  | inr other ↦ rw other good
  | inl fits ↦ rw fits (elim (Bool-cases (oldest_ticket_id l == llong_max)) [
    | inl none_old ↦ rw none_old good
    | inr old ↦
        rw old
          (elim (Bool-cases (is_empty best.matching_list || ltb (oldest_ticket_id l) best.oldest)) [
            | inl better ↦ rw better (inr ((==_iff (sum_player_count l) n).0 fits, h))
            | inr worse ↦ rw worse good
          ])
  ])
]

weigh_some-IsMatch :
    (n : ℕ) (queues : Dict (Dict Request)) (s : Tickets) (o : Option (List Request)) (best : Best)
    → Offers queues s o
    → IsMatch n queues s best.matching_list
    → IsMatch n queues s (weigh_some n o best).matching_list
weigh_some-IsMatch n queues s none best h good = good
weigh_some-IsMatch n queues s (some l) best h good = weigh-IsMatch n queues s l best h good

try_combinations-IsMatch :
    (n : ℕ) (cs : List Combination) (w : Worker) (s : Tickets) (best : Best)
    → IsMatch n w.by_player_count s best.matching_list
    → IsMatch n w.by_player_count s (try_combinations n cs w s best).matching_list
unfolding try_combinations
try_combinations-IsMatch n [] w s best good = good
try_combinations-IsMatch n (c ∷ cs) w s best good =
    try_combinations-IsMatch n cs w s _
      (weigh_some-IsMatch n w.by_player_count s _ best (build_candidate-Offers c w s) good)

try_sizes-IsMatch :
    (rule : MatchmakingRule) (visited : Dict ℕ) (w : Worker) (s : Tickets) (best : Best)
    → IsMatch rule.match_player_count w.by_player_count s best.matching_list
    → IsMatch rule.match_player_count w.by_player_count s
        (try_sizes rule visited w s best).matching_list
unfolding try_sizes
try_sizes-IsMatch rule [] w s best good = good
try_sizes-IsMatch rule ((k, n) ∷ rest) w s best good =
    try_sizes-IsMatch rule rest w s _ (elim (Bool-cases (n == 0)) [
      | inl used_up ↦ rw used_up good
      | inr some_left ↦
          rw some_left (
            try_combinations-IsMatch rule.match_player_count (get_combination rule k) w s best good)
    ])

-- Whatever the queues hold and in whatever order the counts are visited, the search returns no
-- request, or requests that seat exactly the players of a match, each of them from a queue and with a
-- ticket that is queued.
pub make_matchmaking-IsMatch :
    (visit : Dict ℕ → Dict ℕ) (rule : MatchmakingRule) (w : Worker) (s : Tickets)
    → IsMatch rule.match_player_count w.by_player_count s (make_matchmaking visit rule w s)
unfolding make_matchmaking
make_matchmaking-IsMatch visit rule w s = elim (Bool-cases (length w.waiting == 0)) [
  | inl none_waits ↦ rw none_waits (inl refl)
  | inr some_wait ↦
      rw some_wait (try_sizes-IsMatch rule (visit w.queued_count) w s no_best (inl refl))
]
