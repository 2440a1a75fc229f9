-- ===== src/PartyGroup/Kept.antt =====
-- MM/matching/workers/PartyMatchmakingWorker.cpp: `DoWorkerAsyncJob` keeps the files of the
-- two managers.
use cpp_matchmaking_mvp.Common.{
  ℕ, ◌≡◌, ◌==◌, Bool, true, false, Option, none, some, List, [], ◌∷◌, Dict, lookup, Bool-cases,
  Option-cases, inl, inr,
}
use cpp_matchmaking_mvp.Types.{searching, cancelled, create_match_session}
use cpp_matchmaking_mvp.Ticket.{Tickets, change_status, call_on}
use cpp_matchmaking_mvp.Ticket.Kept.{KeepsTickets, KeepsTickets-refl, call_on-KeepsTickets}
use cpp_matchmaking_mvp.Session.Kept.{commit-KeepsTickets}
use cpp_matchmaking_mvp.Request.{Request}
use cpp_matchmaking_mvp.Server.{Server, party, on_failed_matchmaking}
use cpp_matchmaking_mvp.Server.Create.{create_session}
use cpp_matchmaking_mvp.Server.File.{Holds, Holds-heap}
use cpp_matchmaking_mvp.Server.Kept.{if-Holds, on_failed_matchmaking-Holds}
use cpp_matchmaking_mvp.Server.Kept.Created.{create_session-Holds}
use cpp_matchmaking_mvp.PartyWorker.{make_matchmaking}
use cpp_matchmaking_mvp.PartyGroup.{
  Group, cancel_match_ticket, all_queued, change_all, finish_commit, try_commit, Gathered, fail_all,
  hand_over, after_commit, do_worker_async_job,
}
use cpp_matchmaking_mvp.PartyGroup.Commit.{all_at_queued, tickets_of, change_all-commit}

pub change_all-KeepsTickets :
    (l : List Request) (s : Tickets) → KeepsTickets s (change_all [] l s).0
change_all-KeepsTickets l s =
    rw (change_all-commit [] l s)
      (commit-KeepsTickets searching [] (all_at_queued (tickets_of l)) s)

finish_commit-KeepsTickets :
    (l : List Request) (g : Group) (s : Tickets) (o : Tickets × Bool)
    → KeepsTickets s o.0
    → KeepsTickets s (finish_commit l g o).1
finish_commit-KeepsTickets l g s (s', true) k = k
finish_commit-KeepsTickets l g s (s', false) k = k

try_commit-KeepsTickets :
    (l : List Request) (g : Group) (s : Tickets) → KeepsTickets s (try_commit l g s).1
unfolding try_commit
try_commit-KeepsTickets [] g s = KeepsTickets-refl s
try_commit-KeepsTickets (r ∷ l) g s = elim (Bool-cases (all_queued (r ∷ l) s)) [
  | inl ready ↦
      rw (ready, try_commit)
        (finish_commit-KeepsTickets (r ∷ l) g s (change_all [] (r ∷ l) s)
          (change_all-KeepsTickets (r ∷ l) s))
  | inr not_ready ↦ rw (not_ready, try_commit) (KeepsTickets-refl s)
]

fail_all-Holds : (n : ℕ) (ptrs : List ℕ) (s : Server) → Holds n s → Holds n (fail_all ptrs s)
unfolding fail_all
fail_all-Holds n [] s v = v
fail_all-Holds n (a ∷ ptrs) s v =
    fail_all-Holds n ptrs (on_failed_matchmaking party a create_match_session s)
      (on_failed_matchmaking-Holds n party a create_match_session s v)

-- What a call leaves, unless it throws.
abbrev pub HoldsAfter : ℕ → Option (Group × Server × Bool) → Type 0
HoldsAfter n o = (g : Group) (s : Server) (done : Bool) → o ≡ some (g, s, done) → Holds n s

some-HoldsAfter :
    (n : ℕ) (g : Group) (s : Server) (done : Bool) → Holds n s → HoldsAfter n (some (g, s, done))
some-HoldsAfter n g s done v g' s' done' e = let same : s ≡ s' = cc in rw (← same) v

hand_over-HoldsAfter :
    (n now : ℕ) (g : Group) (s : Server) (o : Option Gathered)
    → Holds n s
    → HoldsAfter n (hand_over now g s o)
hand_over-HoldsAfter n now g s none v g' s' done e = absurd (cc)
hand_over-HoldsAfter n now g s (some x) v g' s' done e =
    some-HoldsAfter n _ _ true
      (if-Holds n (g.rule.match_player_count == x.sum) (create_session now g.group_key x.matched s)
        (fail_all x.matched s) (create_session-Holds n now g.group_key x.matched s v)
        (fail_all-Holds n x.matched s v))
      g' s' done e

after_commit-HoldsAfter :
    (n now : ℕ) (l : List Request) (s : Server) (o : Group × Tickets × Bool)
    → KeepsTickets s.tickets o.1
    → Holds n s
    → HoldsAfter n (after_commit now l s o)
after_commit-HoldsAfter n now l s (g, m, false) k v =
    some-HoldsAfter n g (record s { tickets = m }) false (Holds-heap n s m k v)
after_commit-HoldsAfter n now l s (g, m, true) k v =
    hand_over-HoldsAfter n now g (record s { tickets = m }) _ (Holds-heap n s m k v)

pub do_worker_async_job-HoldsAfter :
    (visit : Dict ℕ → Dict ℕ) (n now i : ℕ) (g : Group) (s : Server)
    → Holds n s
    → HoldsAfter n (do_worker_async_job visit now i g s)
unfolding do_worker_async_job
do_worker_async_job-HoldsAfter visit n now i g s v = elim (Option-cases (lookup i g.workers)) [
  | inl missing ↦ rw (missing, do_worker_async_job) (some-HoldsAfter n g s false v)
  | inr (w, found) ↦
      let l = make_matchmaking visit g.rule w s.tickets in
      rw (found, do_worker_async_job)
        (after_commit-HoldsAfter n now l s (try_commit l g s.tickets)
          (try_commit-KeepsTickets l g s.tickets) v)
]

pub cancel_match_ticket-KeepsTickets :
    (a : ℕ) (g : Group) (s : Tickets) → KeepsTickets s (cancel_match_ticket a g s).1
unfolding cancel_match_ticket
cancel_match_ticket-KeepsTickets a g s =
    elim (Bool-cases (call_on a (change_status cancelled) s).1) [
      | inl done ↦ rw done (call_on-KeepsTickets a cancelled s)
      | inr refused ↦ rw refused (call_on-KeepsTickets a cancelled s)
    ]
