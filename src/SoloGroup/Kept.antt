-- ===== src/SoloGroup/Kept.antt =====
-- MM/matching/workers/SoloMatchmakingWorker.cpp, MM/workers/WorkerGroup.h: the calls of a solo group
-- keep the tickets and the files of the two managers.
use cpp_matchmaking_mvp.Common.{
  ℕ, Bool, true, false, lookup, has_value, if◌then◌else◌, Option-cases, inl, inr,
}
use cpp_matchmaking_mvp.Types.{queued}
use cpp_matchmaking_mvp.Ticket.{Tickets, change_status, call_on}
use cpp_matchmaking_mvp.Ticket.Kept.{
  KeepsTickets, KeepsTickets-refl, KeepsTickets-trans, call_on-KeepsTickets,
}
use cpp_matchmaking_mvp.Request.{Request}
use cpp_matchmaking_mvp.Server.{Server}
use cpp_matchmaking_mvp.Server.File.{Holds}
use cpp_matchmaking_mvp.SoloWorker.{Worker, enqueue_request}
use cpp_matchmaking_mvp.SoloWorker.Kept.{cancel-KeepsTickets, do_worker_async_job-Holds}
use cpp_matchmaking_mvp.SoloGroup.{
  Group, get_worker_index, enqueue_at, enqueue_queued, enqueue_job_request, cancel_match_ticket,
  run_worker,
}

enqueue_at-KeepsTickets :
    (i id : ℕ) (g : Group) (s : Tickets) (o : Worker × Bool)
    → KeepsTickets s (enqueue_at i id g s o).1
enqueue_at-KeepsTickets i id g s (w, true) = KeepsTickets-refl s
enqueue_at-KeepsTickets i id g s (w, false) = KeepsTickets-refl s

enqueue_queued-KeepsTickets :
    (r : Request) (id : ℕ) (g : Group) (s : Tickets) → KeepsTickets s (enqueue_queued r id g s).1
unfolding enqueue_queued
enqueue_queued-KeepsTickets r id g s =
    elim (Option-cases (lookup (get_worker_index id g) g.workers)) [
      | inl missing ↦ rw (missing, enqueue_queued) (KeepsTickets-refl s)
      | inr (w, found) ↦
          rw (found, enqueue_queued)
            (enqueue_at-KeepsTickets (get_worker_index id g) id _ s (enqueue_request r s w))
    ]

if_done-KeepsTickets :
    (s : Tickets) (b : Bool) (o o' : Group × Tickets × Bool)
    → KeepsTickets s o.1
    → KeepsTickets s o'.1
    → KeepsTickets s (if b then o else o').1
if_done-KeepsTickets s true o o' k k' = k
if_done-KeepsTickets s false o o' k k' = k'

pub enqueue_job_request-KeepsTickets :
    (r : Request) (g : Group) (s : Tickets) → KeepsTickets s (enqueue_job_request r g s).1
unfolding enqueue_job_request
enqueue_job_request-KeepsTickets r g s = elim (Option-cases (s r.ticket)) [
  | inl missing ↦ rw (missing, enqueue_job_request) (KeepsTickets-refl s)
  | inr (t, found) ↦
      let s' = (call_on r.ticket (change_status queued) s).0 in
      let called : KeepsTickets s s' = call_on-KeepsTickets r.ticket queued s in
      rw (found, enqueue_job_request)
        (if_done-KeepsTickets s (has_value (lookup r.player_count g.rule.combination)) _
          (g, s, false)
          (if_done-KeepsTickets s (call_on r.ticket (change_status queued) s).1
            (enqueue_queued r t.ticket_id g s') (g, s', false)
            (KeepsTickets-trans s s' _ called (enqueue_queued-KeepsTickets r t.ticket_id g s'))
            called)
          (KeepsTickets-refl s))
]

pub cancel_match_ticket-KeepsTickets :
    (a : ℕ) (g : Group) (s : Tickets) → KeepsTickets s (cancel_match_ticket a g s).1
unfolding cancel_match_ticket
cancel_match_ticket-KeepsTickets a g s = elim (Option-cases (s a)) [
  | inl missing ↦ rw (missing, cancel_match_ticket) (KeepsTickets-refl s)
  | inr (t, found) ↦ elim (Option-cases (lookup (get_worker_index t.ticket_id g) g.workers)) [
    | inl no_worker ↦ rw (found, cancel_match_ticket) (rw no_worker (KeepsTickets-refl s))
    | inr (w, at_index) ↦ rw (found, cancel_match_ticket) (rw at_index (cancel-KeepsTickets a s w))
  ]
]

pub run_worker-Holds :
    (n now i : ℕ) (g : Group) (s : Server) → Holds n s → Holds n (run_worker now i g s).1
unfolding run_worker
run_worker-Holds n now i g s v = elim (Option-cases (lookup i g.workers)) [
  | inl missing ↦ rw (missing, run_worker) v
  | inr (w, found) ↦ rw (found, run_worker) (do_worker_async_job-Holds n now w s v)
]
