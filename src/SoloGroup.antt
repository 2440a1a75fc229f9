-- ===== src/SoloGroup.antt =====
-- MM/matching/workers/SoloMatchmakingWorker.h and .cpp, `CSoloMatchmakingWorkerGroup`, with the base
-- class `IWorkerGroup` of MM/workers/WorkerGroup.h. A ticket has one worker, by its id; the threads
-- and their condition variable are left out.
pub mod Kept
use cpp_matchmaking_mvp.Common.{
  ℕ, zero, suc, ◌%◌, Bool, true, false, none, some, [], if◌then◌else◌, Dict, lookup, insert,
  has_value,
}
use cpp_matchmaking_mvp.Types.{queued, GroupKey}
use cpp_matchmaking_mvp.Ticket.{Tickets, change_status, call_on}
use cpp_matchmaking_mvp.Rule.{MatchmakingRule}
use cpp_matchmaking_mvp.Request.{Request, Slots, new_slot, put_slot}
use cpp_matchmaking_mvp.SoloWorker.{
  Worker, make_worker, enqueue_request, erase_ticket, cancel, do_worker_async_job,
}
use cpp_matchmaking_mvp.Server.{Server}

-- `CSoloMatchmakingWorkerGroup`
pub record Group : Type 0 where
  pub rule : MatchmakingRule
  pub group_key : GroupKey
  pub worker_count : ℕ
  pub workers : Dict Worker
  pub slots : Slots

-- `InitWorkers`
unfoldable pub init_workers : MatchmakingRule → GroupKey → (worker_count : ℕ) → Dict Worker
init_workers rule key zero = []
init_workers rule key (suc n) = insert n (make_worker rule key) (init_workers rule key n)

-- The constructor, with the rule that its manager gives it.
unfoldable pub make_group : GroupKey → MatchmakingRule → (worker_count : ℕ) → Group
make_group key rule n = record {
  rule = rule;
  group_key = key;
  worker_count = n;
  workers = init_workers rule key n;
  slots = λ p. new_slot;
}

-- `GetWorkerIndex` of the ticket with an id.
abbrev pub get_worker_index : (id : ℕ) → Group → ℕ
get_worker_index id g = id % g.worker_count

abbrev pub put_worker : (index : ℕ) → Worker → Group → Group
put_worker i w g = record g { workers = insert i w g.workers }

-- `EnqueueJobRequest` from the call of the worker on, for a ticket with an id.
abbrev pub enqueue_at : (index id : ℕ) → Group → Tickets → Worker × Bool → Group × Tickets × Bool
enqueue_at i id g s (w, true) = (put_worker i w g, s, true)
enqueue_at i id g s (w, false) = (put_worker i (erase_ticket id w) g, s, false)

-- `EnqueueJobRequest` once the ticket is queued.
unfoldable pub enqueue_queued : Request → (id : ℕ) → Group → Tickets → Group × Tickets × Bool
enqueue_queued r id g s =
    let i = get_worker_index id g in
    let placed = record g {
      slots = put_slot r.pointer (record (g.slots r.pointer) { base_worker_index = i }) g.slots;
    } in
    elim (lookup i g.workers) [
      | none ↦ (placed, s, false)
      | some w ↦ enqueue_at i id placed s (enqueue_request r s w)
    ]

-- `EnqueueJobRequest`
unfoldable pub enqueue_job_request : Request → Group → Tickets → Group × Tickets × Bool
enqueue_job_request r g s = elim (s r.ticket) [
  | none ↦ (g, s, false)
  | some t ↦
      (let (s', done) = call_on r.ticket (change_status queued) s in
        if has_value (lookup r.player_count g.rule.combination)
        then (if done then enqueue_queued r t.ticket_id g s' else (g, s', false))
        else (g, s, false))
]

-- `RemoveMatchTicket`
unfoldable pub remove_match_ticket : (ticket : ℕ) → Tickets → Group → Group
remove_match_ticket a s g = elim (s a) [
  | none ↦ g
  | some t ↦ elim (lookup (get_worker_index t.ticket_id g) g.workers) [
    | none ↦ g
    | some w ↦ put_worker (get_worker_index t.ticket_id g) (erase_ticket t.ticket_id w) g
  ]
]

-- `CancelMatchTicket` once the worker is found.
abbrev pub cancel_at : (index : ℕ) → Group → Worker × Tickets × Bool → Group × Tickets × Bool
cancel_at i g (w, s, done) = (put_worker i w g, s, done)

-- `CancelMatchTicket`
unfoldable pub cancel_match_ticket : (ticket : ℕ) → Group → Tickets → Group × Tickets × Bool
cancel_match_ticket a g s = elim (s a) [
  | none ↦ (g, s, false)
  | some t ↦ elim (lookup (get_worker_index t.ticket_id g) g.workers) [
    | none ↦ (g, s, false)
    | some w ↦ cancel_at (get_worker_index t.ticket_id g) g (cancel a s w)
  ]
]

abbrev pub finish_job : (index : ℕ) → Group → Worker × Server × Bool → Group × Server × Bool
finish_job i g (w, s, done) = (put_worker i w g, s, done)

-- `IWorkerGroup::DoWorkerAsyncJob`
unfoldable pub run_worker : (now index : ℕ) → Group → Server → Group × Server × Bool
run_worker now i g s = elim (lookup i g.workers) [
  | none ↦ (g, s, false)
  | some w ↦ finish_job i g (do_worker_async_job now w s)
]
