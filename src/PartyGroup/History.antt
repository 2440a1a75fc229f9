-- ===== src/PartyGroup/History.antt =====
-- MM/matching/workers/PartyMatchmakingWorker.cpp: the workers that requests wait with, over any course
-- of calls of a group.
use cpp_matchmaking_mvp.Common.{
  ℕ, ◌<◌, ◌≡◌, ◌≢◌, Bool, true, false, Option, none, some, List, [], ◌∷◌, Dict, lookup, All,
  All-map, Bool-cases, Option-cases, inl, inr, Distinct,
}
use cpp_matchmaking_mvp.Types.{cancelled, GroupKey}
use cpp_matchmaking_mvp.Ticket.{Ticket, Tickets, change_status, call_on}
use cpp_matchmaking_mvp.Rule.{MatchmakingRule}
use cpp_matchmaking_mvp.Request.{Request}
use cpp_matchmaking_mvp.Server.{Server}
use cpp_matchmaking_mvp.PartyWorker.{queue_of, Worker}
use cpp_matchmaking_mvp.PartyGroup.{
  Group, make_group, all_queued, change_all, finish_commit, try_commit, last_index,
  expand_worker_slot, enqueue_job_request, remove_match_ticket, cancel_match_ticket,
  do_worker_async_job, after_commit, hand_over, Gathered,
}
use cpp_matchmaking_mvp.PartyGroup.Everywhere.{
  Everywhere, erase_matched-Everywhere, erase_everywhere-Everywhere,
}
use cpp_matchmaking_mvp.PartyGroup.Agree.{AllConsistent, AbsentInReach, AllSized}
use cpp_matchmaking_mvp.PartyGroup.Outcome.{CommitOutcome, try_commit-CommitOutcome}
use cpp_matchmaking_mvp.PartyGroup.Commit.{tickets_of}
use cpp_matchmaking_mvp.PartyGroup.Reach.{
  Within, make_group-WithinReach, expand_all-Everywhere, Fresh,
}
use cpp_matchmaking_mvp.PartyGroup.Placed.{IsPlaced, enqueue_job_request-IsPlaced}

finish_commit-IsPlaced :
    (l : List Request) (g : Group) (o : Tickets × Bool)
    → IsPlaced g
    → IsPlaced (finish_commit l g o).0
finish_commit-IsPlaced l g (s, false) v = v
finish_commit-IsPlaced l g (s, true) v = record {
  positive = v.positive;
  within =
      erase_matched-Everywhere (Within (last_index g) g.slots) (last_index g) l g.slots s g.workers
        v.within;
}

try_commit-IsPlaced :
    (l : List Request) (g : Group) (s : Tickets) → IsPlaced g → IsPlaced (try_commit l g s).0
unfolding try_commit
try_commit-IsPlaced [] g s v = v
try_commit-IsPlaced (r ∷ l) g s v = elim (Bool-cases (all_queued (r ∷ l) s)) [
  | inl all ↦ rw all (finish_commit-IsPlaced (r ∷ l) g (change_all [] (r ∷ l) s) v)
  | inr not_all ↦ rw not_all v
]

-- The group that a job leaves, if it throws no exception.
abbrev Leaves : (Group → Type 0) → Option (Group × Server × Bool) → Type 0
Leaves P none = Unit
Leaves P (some (g, s, done)) = P g

hand_over-IsPlaced :
    (now : ℕ) (g : Group) (s : Server) (o : Option Gathered)
    → IsPlaced g
    → Leaves IsPlaced (hand_over now g s o)
hand_over-IsPlaced now g s none v = tt
hand_over-IsPlaced now g s (some x) v = record { positive = v.positive; within = v.within }

after_commit-IsPlaced :
    (now : ℕ) (l : List Request) (s : Server) (o : Group × Tickets × Bool)
    → IsPlaced o.0
    → Leaves IsPlaced (after_commit now l s o)
after_commit-IsPlaced now l s (g, tickets, false) v = v
after_commit-IsPlaced now l s (g, tickets, true) v =
    hand_over-IsPlaced now g (record s { tickets = tickets }) _ v

do_worker_async_job-IsPlaced :
    (visit : Dict ℕ → Dict ℕ) (now i : ℕ) (g : Group) (s : Server)
    → IsPlaced g
    → Leaves IsPlaced (do_worker_async_job visit now i g s)
unfolding do_worker_async_job
do_worker_async_job-IsPlaced visit now i g s v = elim (Option-cases (lookup i g.workers)) [
  | inl missing ↦ rw (missing, do_worker_async_job) v
  | inr (w, found) ↦
      rw (found, do_worker_async_job)
        (after_commit-IsPlaced now _ s _ (try_commit-IsPlaced _ g s.tickets v))
]

remove_match_ticket-IsPlaced :
    (a : ℕ) (s : Tickets) (g : Group) → IsPlaced g → IsPlaced (remove_match_ticket a s g)
unfolding remove_match_ticket
remove_match_ticket-IsPlaced a s g v = record {
  positive = v.positive;
  within = erase_everywhere-Everywhere (Within (last_index g) g.slots) a s g.workers v.within;
}

cancel_match_ticket-IsPlaced :
    (a : ℕ) (g : Group) (s : Tickets) → IsPlaced g → IsPlaced (cancel_match_ticket a g s).0
unfolding cancel_match_ticket
cancel_match_ticket-IsPlaced a g s v = elim (Bool-cases (call_on a (change_status cancelled) s).1) [
  | inl done ↦ rw done (remove_match_ticket-IsPlaced a _ g v)
  | inr refused ↦ rw refused v
]

expand_worker_slot-IsPlaced :
    (now : ℕ) (s : Tickets) (g : Group) → IsPlaced g → IsPlaced (expand_worker_slot now s g)
unfolding expand_worker_slot
expand_worker_slot-IsPlaced now s g v = record {
  positive = v.positive;
  within = expand_all-Everywhere now (last_index g) s g.expand_times g.slots g.workers [] v.within;
}

-- The calls that change a group. A request object is handed over once: its address is not that of
-- one that waits.
pub data Step : Group → Group → Type 0 where
  enqueued :
      (now : ℕ) (r : Request) (g : Group) (s : Tickets)
      → Fresh r g
      → Step g (enqueue_job_request now r g s).0
  expanded : (now : ℕ) (g : Group) (s : Tickets) → Step g (expand_worker_slot now s g)
  committed : (l : List Request) (g : Group) (s : Tickets) → Step g (try_commit l g s).0
  worked :
      (visit : Dict ℕ → Dict ℕ) (now i : ℕ) (g g' : Group) (s s' : Server) (done : Bool)
      → do_worker_async_job visit now i g s ≡ some (g', s', done)
      → Step g g'
  was_cancelled : (a : ℕ) (g : Group) (s : Tickets) → Step g (cancel_match_ticket a g s).0
  removed : (a : ℕ) (g : Group) (s : Tickets) → Step g (remove_match_ticket a s g)

pub data Reach (g : Group) : Group → Type 0 where
  here : Reach g g
  next : {h k : Group} → Reach g h → Step h k → Reach g k

Step-IsPlaced : {g h : Group} → Step g h → IsPlaced g → IsPlaced h
Step-IsPlaced (enqueued now r g s fresh) v = enqueue_job_request-IsPlaced now r g s fresh v
Step-IsPlaced (expanded now g s) v = expand_worker_slot-IsPlaced now s g v
Step-IsPlaced (committed l g s) v = try_commit-IsPlaced l g s v
Step-IsPlaced (worked visit now i g g' s s' done e) v =
    rw e at (do_worker_async_job-IsPlaced visit now i g s v)
Step-IsPlaced (was_cancelled a g s) v = cancel_match_ticket-IsPlaced a g s v
Step-IsPlaced (removed a g s) v = remove_match_ticket-IsPlaced a s g v

-- Whatever is enqueued, expanded, matched, cancelled and removed, in any order and whatever the
-- tickets are meanwhile, a request of a group that started with one worker or more waits only with
-- workers between its base index less its level and its base index plus its level, within the group.
-- A request is enqueued at an address at which none waits.
pub Reach-IsPlaced :
    (key : GroupKey) (rule : MatchmakingRule) (n : ℕ) {g : Group}
    → 0 < n
    → Reach (make_group key rule n) g
    → IsPlaced g
unfolding make_group
Reach-IsPlaced key rule n p here = record {
  positive = p;
  within = make_group-WithinReach key rule n;
}
Reach-IsPlaced key rule n p (next r st) = Step-IsPlaced st (Reach-IsPlaced key rule n p r)

-- What waits under the id of a matched ticket, in the waiting queue of a worker or in its queue of some
-- size, is another request.
abbrev pub NoneLeft : Group → Tickets → Request → Type 0
NoneLeft g s r =
    (t : Ticket) (i : ℕ) (w : Worker) (q : Request)
    → s r.ticket ≡ some t
    → lookup i g.workers ≡ some w
    → (lookup t.ticket_id w.waiting ≡ some q → r.pointer ≢ q.pointer)
      × ((k : ℕ)
          → lookup t.ticket_id (queue_of k w.by_player_count) ≡ some q
          → r.pointer ≢ q.pointer)

AbsentInReach-NoneLeft :
    (g g' : Group) (s : Tickets) (l : List Request)
    → AllConsistent g'.workers
    → Everywhere (Within (last_index g) g.slots) g'.workers
    → All (AbsentInReach (last_index g) g.slots s g'.workers) l
    → All (NoneLeft g' s) l
AbsentInReach-NoneLeft g g' s l agree v h =
    All-map (AbsentInReach (last_index g) g.slots s g'.workers) (NoneLeft g' s) l other h
  where
    waits :
        (r : Request)
        → AbsentInReach (last_index g) g.slots s g'.workers r
        → (t : Ticket) (i : ℕ) (w : Worker) (q : Request) → s r.ticket ≡ some t
        → lookup i g'.workers ≡ some w
        → lookup t.ticket_id w.waiting ≡ some q
        → r.pointer ≢ q.pointer
    waits r absent t i w q at_r found waiting same =
        let (low, high) = v i t.ticket_id w q found waiting in
        let gone = (absent t i at_r (rw same low) (rw same high) w found).0 in cc

    other : (r : Request) → AbsentInReach (last_index g) g.slots s g'.workers r → NoneLeft g' s r
    other r absent t i w q at_r found = (
      λ waiting. waits r absent t i w q at_r found waiting,
      λ k listed.
          waits r absent t i w q at_r found ((agree i w found).sized k t.ticket_id q listed).1,
    )

finish_commit-Everywhere :
    (P : ℕ → Request → Type 0) (l : List Request) (g : Group) (o : Tickets × Bool)
    → Everywhere P g.workers
    → Everywhere P (finish_commit l g o).0.workers
finish_commit-Everywhere P l g (s, false) all = all
finish_commit-Everywhere P l g (s, true) all =
    erase_matched-Everywhere P (last_index g) l g.slots s g.workers all

try_commit-Everywhere :
    (P : ℕ → Request → Type 0) (l : List Request) (g : Group) (s : Tickets)
    → Everywhere P g.workers
    → Everywhere P (try_commit l g s).0.workers
unfolding try_commit
try_commit-Everywhere P [] g s all = all
try_commit-Everywhere P (r ∷ l) g s all = elim (Bool-cases (all_queued (r ∷ l) s)) [
  | inl queued_all ↦
      rw queued_all (finish_commit-Everywhere P (r ∷ l) g (change_all [] (r ∷ l) s) all)
  | inr not_all ↦ rw not_all all
]

CommitOutcome-NoneLeft :
    (l : List Request) (g : Group) (s : Tickets) (o : Group × Tickets × Bool)
    → o.2 ≡ true
    → CommitOutcome l g s o
    → Everywhere (Within (last_index g) g.slots) o.0.workers
    → All (NoneLeft o.0 o.1) l
CommitOutcome-NoneLeft l g s (g', s', false) e h v = absurd (cc)
CommitOutcome-NoneLeft l g s (g', s', true) e (queued_all, changed, agree, absent) v =
    AbsentInReach-NoneLeft g g' s' l agree v absent

-- Once requests that name no ticket twice have been committed to a match, none of them is left with any
-- worker of the group: whatever stands under the id of its ticket, in a waiting queue or in the queue of
-- any size, which are what a search takes its requests from, is another request. The group is one whose
-- requests wait within their reach and whose workers' maps agree, and what waits under the id of one of
-- the tickets has that ticket's number of players.
pub try_commit-NoneLeft :
    (l : List Request) (g : Group) (s : Tickets)
    → IsPlaced g
    → AllConsistent g.workers
    → AllSized s g.workers l
    → Distinct (tickets_of l)
    → (try_commit l g s).2 ≡ true
    → All (NoneLeft (try_commit l g s).0 (try_commit l g s).1) l
try_commit-NoneLeft l g s v agree sized d done =
    CommitOutcome-NoneLeft l g s (try_commit l g s) done
      (try_commit-CommitOutcome l g s agree sized d)
      (try_commit-Everywhere (Within (last_index g) g.slots) l g s v.within)
