-- ===== src/PartyGroup.antt =====
-- MM/matching/workers/PartyMatchmakingWorker.h and .cpp, `CPartyMatchmakingWorkerGroup`, with the
-- base class `IWorkerGroup` of MM/workers/WorkerGroup.h. Each method but `DoWorkerAsyncJob` holds the
-- lock of the group where it touches the workers. The threads, their condition variable and the flag
-- that stops them are left out: what a thread runs is `do_worker_async_job`, and what the thread of the
-- group runs is `expand_worker_slot`.
pub mod Commit
pub mod Gone
pub mod Agree
pub mod Outcome
pub mod Everywhere
pub mod Reach
pub mod Placed
pub mod Enqueued
pub mod History
pub mod Kept
use cpp_matchmaking_mvp.Common.{
  ℕ, zero, suc, ◌+◌, ◌-◌, ◌%◌, min, Bool, true, false, not, ◌&&◌, ◌||◌, Option, none, some, List,
  [], ◌∷◌, ◌++◌, ◌==◌, if◌then◌else◌, leb, ltb, length, Dict, lookup, insert, has_value,
}
use cpp_matchmaking_mvp.Types.{queued, searching, cancelled, GroupKey, create_match_session}
use cpp_matchmaking_mvp.Types.QueueTime.{QueueTimeCalculator, new_calculator, add}
use cpp_matchmaking_mvp.Ticket.{
  Ticket, Tickets, get_players, change_status, change_status_if_current, call_on, force_set_status,
}
use cpp_matchmaking_mvp.Rule.{CombinationMap, MatchmakingRule}
use cpp_matchmaking_mvp.Request.{
  Request, Slots, new_slot, put_slot, get_min_worker_index, get_max_worker_index,
}
use cpp_matchmaking_mvp.SoloWorker.{insert_ptr}
use cpp_matchmaking_mvp.PartyWorker.{
  Worker, make_worker, enqueue_request, erase_ticket, is_queued, make_matchmaking,
}
use cpp_matchmaking_mvp.Server.{Server, party, on_failed_matchmaking}
use cpp_matchmaking_mvp.Server.Create.{create_session}

-- `CPartyMatchmakingWorkerGroup`; `slots` is the part of its requests that changes, and `expand_times`
-- is the multimap of the times at which requests may reach more workers.
pub record Group : Type 0 where
  pub rule : MatchmakingRule
  pub group_key : GroupKey
  pub worker_count : ℕ
  pub workers : Dict Worker
  pub expand_times : List (ℕ × Request)
  pub wait_times : Dict QueueTimeCalculator
  pub slots : Slots

-- `InitWorkers`
unfoldable pub init_workers : (worker_count : ℕ) → Dict Worker
init_workers zero = []
init_workers (suc n) = insert n make_worker (init_workers n)

-- The loop of the constructor.
unfoldable pub init_wait_times : CombinationMap → Dict QueueTimeCalculator
init_wait_times [] = []
init_wait_times ((k, cs) ∷ m) = insert k new_calculator (init_wait_times m)

-- The constructor, with the rule that its manager gives it.
unfoldable pub make_group : GroupKey → MatchmakingRule → (worker_count : ℕ) → Group
make_group key rule n = record {
  rule = rule;
  group_key = key;
  worker_count = n;
  workers = init_workers n;
  expand_times = [];
  wait_times = init_wait_times rule.combination;
  slots = λ p. new_slot;
}

-- `GetMaxWorkerIndex`
abbrev pub last_index : Group → ℕ
last_index g = g.worker_count - 1

-- `IsAvailableMatchmakingExpandSlot`
abbrev pub can_expand : Group → Bool
can_expand g = ltb 1 (length g.workers)

-- `GetWorkerIndex`
abbrev pub get_worker_index : Request → Group → ℕ
get_worker_index r g = r.ticket_id % g.worker_count

-- `worker->Erase(match_ticket_ptr)`, where a null pointer changes nothing.
unfoldable pub erase_ptr : (ticket : ℕ) → Tickets → Worker → Worker
erase_ptr a s w = elim (s a) [
  | none ↦ w
  | some t ↦ erase_ticket t.ticket_id (length (get_players t)) w
]

-- A call of a worker that is there, under its lock.
abbrev pub at_worker : (index : ℕ) → (Worker → Worker) → Dict Worker → Dict Worker
at_worker i f ws = elim (lookup i ws) [ none ↦ ws | some w ↦ insert i (f w) ws ]

-- The first loop of `TryCommitMatchmakingRequests`.
unfoldable pub all_queued : List Request → Tickets → Bool
all_queued [] s = true
all_queued (r ∷ l) s = is_queued s r.ticket && all_queued l s

-- The inner loop of the second, which takes back what was changed.
unfoldable pub force_queued : (changed : List ℕ) → Tickets → Tickets
force_queued [] s = s
force_queued (a ∷ ptrs) s = force_queued ptrs (force_set_status a queued s)

-- The second loop.
unfoldable pub change_all : (changed : List ℕ) → List Request → Tickets → Tickets × Bool
change_all changed [] s = (s, true)
change_all changed (r ∷ l) s =
    let (s', done) = call_on r.ticket (change_status_if_current queued searching) s in
    let more = change_all (changed ++ r.ticket ∷ []) l s' in
    if done then more else (force_queued changed s', false)

-- The inner loop of the third: `count` workers from an index on.
unfoldable pub erase_slots : (count index : ℕ) (ticket : ℕ) → Tickets → Dict Worker → Dict Worker
erase_slots zero i a s ws = ws
erase_slots (suc n) i a s ws = erase_slots n (i + 1) a s (at_worker i (erase_ptr a s) ws)

-- The third loop.
unfoldable pub erase_matched :
    (last : ℕ) → List Request → Slots → Tickets → Dict Worker → Dict Worker
erase_matched last [] slots s ws = ws
erase_matched last (r ∷ l) slots s ws =
    let low = get_min_worker_index last (slots r.pointer) in
    let high = get_max_worker_index last (slots r.pointer) in
    erase_matched last l slots s (erase_slots (high + 1 - low) low r.ticket s ws)

-- `TryCommitMatchmakingRequests`, its last two loops.
abbrev pub finish_commit : List Request → Group → Tickets × Bool → Group × Tickets × Bool
finish_commit l g (s, false) = (g, s, false)
finish_commit l g (s, true) =
    (record g { workers = erase_matched (last_index g) l g.slots s g.workers }, s, true)

-- `TryCommitMatchmakingRequests`
unfoldable pub try_commit : List Request → Group → Tickets → Group × Tickets × Bool
try_commit [] g s = (g, s, false)
try_commit (r ∷ l) g s =
    if all_queued (r ∷ l) s
    then finish_commit (r ∷ l) g (change_all [] (r ∷ l) s)
    else (g, s, false)

-- What the loop of `DoWorkerAsyncJob` gathers.
pub record Gathered : Type 0 where
  pub wait_times : Dict QueueTimeCalculator
  pub sum : ℕ
  pub matched : List ℕ

-- That loop; `none` is the exception that `at` throws for a size with no calculator.
unfoldable pub gather : (now : ℕ) → List Request → Gathered → Option Gathered
gather now [] g = some g
gather now (r ∷ l) g = elim (lookup r.player_count g.wait_times) [
  | none ↦ none
  | some q ↦ gather now l (record {
    wait_times = insert r.player_count (add q (now - r.start_time_msec)) g.wait_times;
    sum = r.player_count + g.sum;
    matched = insert_ptr r.ticket g.matched;
  })
]

-- The loop that fails the tickets of a match.
unfoldable pub fail_all : List ℕ → Server → Server
fail_all [] s = s
fail_all (a ∷ ptrs) s = fail_all ptrs (on_failed_matchmaking party a create_match_session s)

-- `DoWorkerAsyncJob` from the commit on.
abbrev pub hand_over : (now : ℕ) → Group → Server → Option Gathered → Option (Group × Server × Bool)
hand_over now g s none = none
hand_over now g s (some x) = some (
  record g { wait_times = x.wait_times },
  (if g.rule.match_player_count == x.sum
      then create_session now g.group_key x.matched s
      else fail_all x.matched s),
  true,
)

abbrev pub after_commit :
    (now : ℕ) → List Request → Server → Group × Tickets × Bool → Option (Group × Server × Bool)
after_commit now l s (g, tickets, false) = some (g, record s { tickets = tickets }, false)
after_commit now l s (g, tickets, true) =
    hand_over now g (record s { tickets = tickets })
      (gather now l (record { wait_times = g.wait_times; sum = 0; matched = [] }))

-- `DoWorkerAsyncJob`
unfoldable pub do_worker_async_job :
    (visit : Dict ℕ → Dict ℕ) (now index : ℕ) → Group → Server → Option (Group × Server × Bool)
do_worker_async_job visit now i g s = elim (lookup i g.workers) [
  | none ↦ some (g, s, false)
  | some w ↦
      (let l = make_matchmaking visit g.rule w s.tickets in
        after_commit now l s (try_commit l g s.tickets))
]

-- `multimap.emplace`: behind the entries of the same time.
unfoldable pub emplace_time : (time : ℕ) → Request → List (ℕ × Request) → List (ℕ × Request)
emplace_time t r [] = (t, r) ∷ []
emplace_time t r ((u, q) ∷ m) = if ltb t u then (t, r) ∷ (u, q) ∷ m else (u, q) ∷ emplace_time t r m

-- `worker->EnqueueJobRequest(...)` where its result is not read.
abbrev pub enqueue_at : (index : ℕ) → Request → Dict Worker → Dict Worker
enqueue_at i r ws = at_worker i (λ w. (enqueue_request r w).0) ws

-- The body of the loop of `ExpandMatchmakingWorkerSlot` for a request that is queued: the workers,
-- the slot, and whether the request may reach yet more workers.
unfoldable pub expand_request :
    (last : ℕ) → Request → Slots → Dict Worker → Slots × Dict Worker × Bool
expand_request last r slots ws =
    let x = slots r.pointer in
    let wider = record x { expansion_level = x.expansion_level + 1 } in
    let low = get_min_worker_index last wider in
    let high = get_max_worker_index last wider in
    let below = if low == get_min_worker_index last x then ws else enqueue_at low r ws in
    let above = if high == get_max_worker_index last x then below else enqueue_at high r below in
    (put_slot r.pointer wider slots, above, ltb 0 low || ltb high last)

-- What the loop of `ExpandMatchmakingWorkerSlot` leaves: the times that are not over, and the
-- requests that are to be looked at again.
pub record Expanded : Type 0 where
  pub rest : List (ℕ × Request)
  pub slots : Slots
  pub workers : Dict Worker
  pub again : List Request

-- That loop; a time is over in the second behind it.
unfoldable pub expand_all :
    (now last : ℕ)
    → Tickets
    → List (ℕ × Request)
    → Slots
    → Dict Worker
    → (again : List Request) → Expanded
expand_all now last s [] slots ws again = record {
  rest = [];
  slots = slots;
  workers = ws;
  again = again;
}
expand_all now last s ((t, r) ∷ m) slots ws again =
    let (slots', ws', more) = expand_request last r slots ws in
    let wider = expand_all now last s m slots' ws' (if more then again ++ r ∷ [] else again) in
    let passed = expand_all now last s m slots ws again in
    if ltb now (t + 1)
    then record { rest = (t, r) ∷ m; slots = slots; workers = ws; again = again }
    else if is_queued s r.ticket
    then wider
    else passed

-- The second loop.
unfoldable pub emplace_again : (now : ℕ) → List Request → List (ℕ × Request) → List (ℕ × Request)
emplace_again now [] m = m
emplace_again now (r ∷ l) m = emplace_again now l (emplace_time now r m)

-- `ExpandMatchmakingWorkerSlot`
unfoldable pub expand_worker_slot : (now_sec : ℕ) → Tickets → Group → Group
expand_worker_slot now s g =
    let x = expand_all now (last_index g) s g.expand_times g.slots g.workers [] in
    record g {
      expand_times = emplace_again now x.again x.rest;
      slots = x.slots;
      workers = x.workers;
    }

-- `EnqueueJobRequest` from the call of the worker on.
abbrev pub enqueue_at_base :
    Request → (index : ℕ) → Group → Tickets → Worker → Worker × Bool → Group × Tickets × Bool
enqueue_at_base r i g s w (w', true) = (
  record g { workers = insert i w' g.workers },
  (call_on r.ticket (change_status queued) s).0,
  true,
)
enqueue_at_base r i g s w (w', false) =
    (record g { workers = insert i (erase_ptr r.ticket s w') g.workers }, s, false)

-- `EnqueueJobRequest` ahead of the call of the worker.
unfoldable pub place_request : (now_sec : ℕ) → Request → Group → Group
place_request now r g = record g {
  slots =
      put_slot r.pointer (record (g.slots r.pointer) { base_worker_index = get_worker_index r g })
        g.slots;
  expand_times = (if can_expand g then emplace_time now r g.expand_times else g.expand_times);
}

-- `EnqueueJobRequest`
unfoldable pub enqueue_job_request :
    (now_sec : ℕ) → Request → Group → Tickets → Group × Tickets × Bool
enqueue_job_request now r g s =
    let placed = place_request now r g in
    if has_value (s r.ticket) && has_value (lookup r.player_count g.rule.combination)
    then (elim (lookup (get_worker_index r g) g.workers) [
      | none ↦ (placed, s, false)
      | some w ↦ enqueue_at_base r (get_worker_index r g) placed s w (enqueue_request r w)
    ])
    else (g, s, false)

-- The loop of `RemoveMatchTicket` and `CancelMatchTicket`.
unfoldable pub erase_everywhere : (ticket : ℕ) → Tickets → Dict Worker → Dict Worker
erase_everywhere a s [] = []
erase_everywhere a s ((i, w) ∷ ws) = (i, erase_ptr a s w) ∷ erase_everywhere a s ws

-- `RemoveMatchTicket`
unfoldable pub remove_match_ticket : (ticket : ℕ) → Tickets → Group → Group
remove_match_ticket a s g = record g { workers = erase_everywhere a s g.workers }

-- `CancelMatchTicket`
unfoldable pub cancel_match_ticket : (ticket : ℕ) → Group → Tickets → Group × Tickets × Bool
cancel_match_ticket a g s =
    let (s', done) = call_on a (change_status cancelled) s in
    if done then (remove_match_ticket a s' g, s', true) else (g, s', false)
