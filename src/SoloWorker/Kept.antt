-- ===== src/SoloWorker/Kept.antt =====
-- MM/matching/workers/SoloMatchmakingWorker.cpp: `Cancel` and `DoWorkerAsyncJob` keep the tickets and
-- the files of the two managers.
use cpp_matchmaking_mvp.Common.{
  ℕ, Bool, true, false, List, [], ◌∷◌, Dict, leb, length, if◌then◌else◌, Bool-cases, Option-cases,
  inl, inr,
}
use cpp_matchmaking_mvp.Types.{searching, cancelled, create_match_session, GroupKey}
use cpp_matchmaking_mvp.Ticket.{Tickets, change_status, call_on}
use cpp_matchmaking_mvp.Ticket.Kept.{
  KeepsTickets, KeepsTickets-refl, KeepsTickets-trans, call_on-KeepsTickets,
}
use cpp_matchmaking_mvp.Request.{Request}
use cpp_matchmaking_mvp.Server.{Server, solo, on_failed_matchmaking}
use cpp_matchmaking_mvp.Server.Create.{create_session}
use cpp_matchmaking_mvp.Server.File.{Holds, Holds-heap}
use cpp_matchmaking_mvp.Server.Kept.{if-Holds, on_failed_matchmaking-Holds}
use cpp_matchmaking_mvp.Server.Kept.Created.{create_session-Holds}
use cpp_matchmaking_mvp.SoloWorker.{
  Worker, cancel, fill, Matching, complete_all, fail_all, hand_over, do_worker_async_job,
}

pub cancel-KeepsTickets : (a : ℕ) (s : Tickets) (w : Worker) → KeepsTickets s (cancel a s w).1
unfolding cancel
cancel-KeepsTickets a s w = elim (Option-cases (s a)) [
  | inl missing ↦ rw (missing, cancel) (KeepsTickets-refl s)
  | inr (t, found) ↦ elim (Bool-cases (call_on a (change_status cancelled) s).1) [
    | inl done ↦ rw (found, cancel) (rw done (call_on-KeepsTickets a cancelled s))
    | inr refused ↦ rw (found, cancel) (rw refused (call_on-KeepsTickets a cancelled s))
  ]
]

complete_all-KeepsTickets :
    (now : ℕ) (l : Dict Request) (g : Matching)
    → KeepsTickets g.tickets (complete_all now l g).tickets
unfolding complete_all
complete_all-KeepsTickets now [] g = KeepsTickets-refl g.tickets
complete_all-KeepsTickets now ((id, r) ∷ l) g =
    KeepsTickets-trans g.tickets (call_on r.ticket (change_status searching) g.tickets).0 _
      (call_on-KeepsTickets r.ticket searching g.tickets) (complete_all-KeepsTickets now l _)

fail_all-Holds : (n : ℕ) (ptrs : List ℕ) (s : Server) → Holds n s → Holds n (fail_all ptrs s)
unfolding fail_all
fail_all-Holds n [] s v = v
fail_all-Holds n (a ∷ ptrs) s v =
    fail_all-Holds n ptrs (on_failed_matchmaking solo a create_match_session s)
      (on_failed_matchmaking-Holds n solo a create_match_session s v)

hand_over-Holds :
    (n now : ℕ) (group : GroupKey) (g : Matching) (s : Server)
    → Holds n s
    → Holds n (hand_over now group g s)
hand_over-Holds n now group g s v =
    if-Holds n g.is_success (create_session now group g.matched s) (fail_all g.matched s)
      (create_session-Holds n now group g.matched s v) (fail_all-Holds n g.matched s v)

if_done-Holds :
    (n : ℕ) (b : Bool) (o o' : Worker × Server × Bool)
    → Holds n o.1
    → Holds n o'.1
    → Holds n (if b then o else o').1
if_done-Holds n true o o' v v' = v
if_done-Holds n false o o' v v' = v'

pub do_worker_async_job-Holds :
    (n now : ℕ) (w : Worker) (s : Server) → Holds n s → Holds n (do_worker_async_job now w s).1
unfolding do_worker_async_job
do_worker_async_job-Holds n now w s v =
    let filled = fill w.rule.match_player_count w.waiting w.progressing false in
    let start : Matching = record {
      statistics = w.wait_time;
      tickets = s.tickets;
      matched = [];
      is_success = true;
    } in
    let g = complete_all now filled.1 start in
    let holds = Holds-heap n s g.tickets (complete_all-KeepsTickets now filled.1 start) v in
    if_done-Holds n (leb w.rule.match_player_count (length filled.1)) _ _
      (hand_over-Holds n now w.group_key g (record s { tickets = g.tickets }) holds) v
