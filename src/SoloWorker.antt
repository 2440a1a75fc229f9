-- ===== src/SoloWorker.antt =====
-- MM/matching/workers/SoloMatchmakingWorker.h and .cpp: a worker of one zone and world group. Each
-- method holds the worker's lock throughout, but for the last part of `DoWorkerAsyncJob`, which
-- hands the match over to the managers.
pub mod Filling
pub mod Matched
pub mod Cancel
pub mod Kept
use cpp_matchmaking_mvp.Common.{
  ℕ, ◌+◌, ◌-◌, Bool, true, false, not, ◌||◌, Option, none, some, List, [], ◌∷◌, ◌==◌, if◌then◌else◌,
  leb, ltb, length, Dict, lookup, insert, erase, has_value,
}
use cpp_matchmaking_mvp.Types.{
  MatchTicketStatus, queued, searching, cancelled, eqb_status, GroupKey, ProtocolResult,
  create_match_session,
}
use cpp_matchmaking_mvp.Types.QueueTime.{QueueTimeCalculator, new_calculator, add}
use cpp_matchmaking_mvp.Ticket.{Ticket, Tickets, change_status, call_on}
use cpp_matchmaking_mvp.Rule.{MatchmakingRule}
use cpp_matchmaking_mvp.Request.{Request, emplace}
use cpp_matchmaking_mvp.Server.{Server, solo, on_failed_matchmaking}
use cpp_matchmaking_mvp.Server.Create.{create_session}

-- `CSoloMatchmakingWorker`
pub record Worker : Type 0 where
  pub rule : MatchmakingRule
  pub group_key : GroupKey
  pub waiting : Dict Request
  pub progressing : Dict Request
  pub wait_time : QueueTimeCalculator

-- The constructor.
abbrev pub make_worker : MatchmakingRule → GroupKey → Worker
make_worker rule group = record {
  rule = rule;
  group_key = group;
  waiting = [];
  progressing = [];
  wait_time = new_calculator;
}

-- `EnqueueJobRequest`
unfoldable pub enqueue_request : Request → Tickets → Worker → Worker × Bool
enqueue_request r s w = elim (s r.ticket) [
  | none ↦ (w, false)
  | some t ↦
      (let (waiting, done) = emplace r.ticket_id r w.waiting in
        if eqb_status t.status queued
        then (if done then (record w { waiting = waiting }, true) else (w, false))
        else (w, false))
]

-- `Erase` of the ticket with an id.
unfoldable pub erase_ticket : (id : ℕ) → Worker → Worker
erase_ticket id w = record w { waiting = erase id w.waiting; progressing = erase id w.progressing }

-- `Cancel`
unfoldable pub cancel : (ticket : ℕ) → Tickets → Worker → Worker × Tickets × Bool
cancel a s w = elim (s a) [
  | none ↦ (w, s, false)
  | some t ↦
      (let (s', done) = call_on a (change_status cancelled) s in
        if done then (erase_ticket t.ticket_id w, s', true) else (w, s', false))
]

-- The loop that moves requests from the waiting queue to the progressing list, up to `limit` of
-- them, and whether it has moved any. It erases a request that it has passed on.
unfoldable pub fill :
    (limit : ℕ) (waiting progressing : Dict Request) (sent : Bool)
    → Dict Request × Dict Request × Bool
fill limit [] p sent = ([], p, sent)
fill limit ((id, r) ∷ rest) p sent =
    let (p', new) = emplace r.ticket_id r p in
    let next = fill limit rest p' (sent || new) in
    if leb limit (length p) then ((id, r) ∷ rest, p, sent) else next

-- `std::set<CMatchTicketPtr>::insert`: pointers in the order of their addresses.
abbrev pub insert_ptr : ℕ → List ℕ → List ℕ
insert_ptr a [] = a ∷ []
insert_ptr a (b ∷ ptrs) =
    if a == b then b ∷ ptrs else if ltb a b then a ∷ b ∷ ptrs else b ∷ insert_ptr a ptrs

-- What the loop over a complete progressing list has gathered.
pub record Matching : Type 0 where
  pub statistics : QueueTimeCalculator
  pub tickets : Tickets
  pub matched : List ℕ
  pub is_success : Bool

-- That loop. No request is younger than the clock, which the waits are counted by.
unfoldable pub complete_all : (now : ℕ) → Dict Request → Matching → Matching
complete_all now [] g = g
complete_all now ((id, r) ∷ rest) g =
    let (s, done) = call_on r.ticket (change_status searching) g.tickets in
    complete_all now rest (record {
      statistics = add g.statistics (now - r.start_time_msec);
      tickets = s;
      matched = insert_ptr r.ticket g.matched;
      is_success = if done then g.is_success else false;
    })

-- The loop that fails the tickets of a match.
unfoldable pub fail_all : List ℕ → Server → Server
fail_all [] s = s
fail_all (a ∷ ptrs) s = fail_all ptrs (on_failed_matchmaking solo a create_match_session s)

-- The part of `DoWorkerAsyncJob` behind the lock.
abbrev pub hand_over : (now : ℕ) → GroupKey → Matching → Server → Server
hand_over now group g s =
    if g.is_success then create_session now group g.matched s else fail_all g.matched s

-- `DoWorkerAsyncJob`
unfoldable pub do_worker_async_job : (now : ℕ) → Worker → Server → Worker × Server × Bool
do_worker_async_job now w s =
    let (waiting, progressing, sent) =
      fill w.rule.match_player_count w.waiting w.progressing false in
    let g =
      complete_all now progressing (record {
        statistics = w.wait_time;
        tickets = s.tickets;
        matched = [];
        is_success = true;
      }) in
    if leb w.rule.match_player_count (length progressing)
    then (
      record w { waiting = waiting; progressing = []; wait_time = g.statistics },
      hand_over now w.group_key g (record s { tickets = g.tickets }),
      true,
    )
    else (record w { waiting = waiting; progressing = progressing }, s, false)

-- `IsWorkerJobAvailable`
unfoldable pub is_worker_job_available : Worker → Bool
is_worker_job_available w = ltb 0 (length w.waiting)
