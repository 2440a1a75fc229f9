-- ===== src/PartyGroup/Enqueued.antt =====
-- MM/matching/workers/PartyMatchmakingWorker.cpp: `EnqueueJobRequest` of the group by its result.
use cpp_matchmaking_mvp.Common.{
  ℕ, ◌≡◌, refl, Bool, true, false, ◌&&◌, some, Dict, lookup, insert, lookup-insert, ◌==◌, arith,
  Bool-cases, Option-cases, inl, inr, has_value,
}
use cpp_matchmaking_mvp.Types.{queued}
use cpp_matchmaking_mvp.Ticket.{Tickets, change_status, call_on}
use cpp_matchmaking_mvp.Request.{Request, emplace}
use cpp_matchmaking_mvp.PartyWorker.{Worker, queue_of, enqueue_request}
use cpp_matchmaking_mvp.PartyWorker.Queues.{queue_of-insert}
use cpp_matchmaking_mvp.PartyGroup.{
  Group, get_worker_index, place_request, enqueue_at_base, enqueue_job_request,
}
use cpp_matchmaking_mvp.PartyGroup.Placed.{
  enqueue_job_request-refused, enqueue_job_request-missing, enqueue_job_request-found,
}

-- The request waits with a worker, and in the queue of its size.
abbrev pub IsIn : Request → Worker → Type 0
IsIn r w =
    (lookup r.ticket_id w.waiting ≡ some r)
    × (lookup r.ticket_id (queue_of r.player_count w.by_player_count) ≡ some r)

-- The request waits with the worker of its base index.
abbrev pub WaitsAtBase : Request → Group → Type 0
WaitsAtBase r g = (w : Worker) × (lookup (get_worker_index r g) g.workers ≡ some w) × IsIn r w

-- The group keeps its rule and its workers' number.
abbrev pub EnqueueOutcome : Request → Group → Tickets → Group × Tickets × Bool → Type 0
EnqueueOutcome r g s (g', s', true) =
    WaitsAtBase r g' × (s' ≡ (call_on r.ticket (change_status queued) s).0)
EnqueueOutcome r g s (g', s', false) = s' ≡ s

in_queue :
    (r : Request) (q : Dict Request) (m : Dict (Dict Request))
    → lookup r.ticket_id
        (queue_of r.player_count (insert r.player_count (insert r.ticket_id r q) m))
      ≡ some r
in_queue r q m =
    let self : (r.player_count == r.player_count) ≡ true = ground arith in
    rw (queue_of-insert r.player_count r.player_count (insert r.ticket_id r q) m, self)
      (ground (arith, lookup-insert r.ticket_id r.ticket_id r q))

enqueue_request_done :
    (r : Request) (w : Worker) → (enqueue_request r w).1 ≡ true → IsIn r (enqueue_request r w).0
unfolding enqueue_request
enqueue_request_done r w done = elim (Option-cases (lookup r.ticket_id w.waiting)) [
  | inr (old, found) ↦ absurd (cc (rw (found, emplace, enqueue_request) at done))
  | inl absent ↦
      elim (Option-cases (lookup r.ticket_id (queue_of r.player_count w.by_player_count))) [
        | inr (old, taken) ↦ absurd (cc (rw (absent, taken, emplace, enqueue_request) at done))
        | inl free ↦
            rw (absent, free, emplace, enqueue_request)
              (
                ground (arith, lookup-insert r.ticket_id r.ticket_id r w.waiting),
                in_queue r (queue_of r.player_count w.by_player_count) w.by_player_count,
              )
      ]
]

enqueue_at_base-EnqueueOutcome :
    (r : Request) (g g0 : Group) (s : Tickets) (w : Worker) (o : Worker × Bool)
    → (o.1 ≡ true → IsIn r o.0)
    → EnqueueOutcome r g0 s (enqueue_at_base r (get_worker_index r g) g s w o)
enqueue_at_base-EnqueueOutcome r g g0 s w (w', false) h = refl
enqueue_at_base-EnqueueOutcome r g g0 s w (w', true) h = (
  (
    w',
    ground (arith, lookup-insert (get_worker_index r g) (get_worker_index r g) w' g.workers),
    h refl,
  ),
  refl,
)

pub enqueue_job_request-EnqueueOutcome :
    (now : ℕ) (r : Request) (g : Group) (s : Tickets)
    → EnqueueOutcome r g s (enqueue_job_request now r g s)
unfolding place_request
enqueue_job_request-EnqueueOutcome now r g s =
    elim (Bool-cases
      (has_value (s r.ticket) && has_value (lookup r.player_count g.rule.combination))) [
        | inr refused ↦ rw (enqueue_job_request-refused now r g s refused) refl
        | inl may ↦ elim (Option-cases (lookup (get_worker_index r g) g.workers)) [
          | inl missing ↦ rw (enqueue_job_request-missing now r g s may missing) refl
          | inr (w, found) ↦ rw (enqueue_job_request-found now r g s w may found) (
              enqueue_at_base-EnqueueOutcome r (place_request now r g) g s w (enqueue_request r w)
                (enqueue_request_done r w))
        ]
      ]
