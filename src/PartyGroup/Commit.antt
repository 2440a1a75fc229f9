-- ===== src/PartyGroup/Commit.antt =====
-- MM/matching/workers/PartyMatchmakingWorker.cpp: `TryCommitMatchmakingRequests` and the tickets. Its
-- loop over the tickets is the one that `CMatchSession::ChangeStatus` has.
use cpp_matchmaking_mvp.Common.{
  ℕ, ◌≡◌, refl, ap, Bool, true, false, List, [], ◌∷◌, ◌++◌, if◌then◌else◌, contains, Distinct,
}
use cpp_matchmaking_mvp.Types.{queued, searching}
use cpp_matchmaking_mvp.Ticket.{Tickets, change_status_if_current, call_on}
use cpp_matchmaking_mvp.Session.{roll_back, commit}
use cpp_matchmaking_mvp.Session.RollBack.{Statuses, addresses, restatus}
use cpp_matchmaking_mvp.Session.Commit.{CommitOutcome, commit_atomic}
use cpp_matchmaking_mvp.Request.{Request}
use cpp_matchmaking_mvp.PartyGroup.{force_queued, change_all}

-- The tickets of a list of requests.
abbrev pub tickets_of : List Request → List ℕ
tickets_of [] = []
tickets_of (r ∷ l) = r.ticket ∷ tickets_of l

abbrev pub all_at_queued : List ℕ → Statuses
all_at_queued [] = []
all_at_queued (a ∷ ptrs) = (a, queued) ∷ all_at_queued ptrs

force_queued-roll_back :
    (ptrs : List ℕ) (s : Tickets) → force_queued ptrs s ≡ roll_back (all_at_queued ptrs) s
unfolding force_queued roll_back
force_queued-roll_back [] s = refl
force_queued-roll_back (a ∷ ptrs) s = force_queued-roll_back ptrs _

all_at_queued-append :
    (ptrs : List ℕ) (a : ℕ)
    → all_at_queued (ptrs ++ a ∷ []) ≡ all_at_queued ptrs ++ (a, queued) ∷ []
all_at_queued-append [] a = refl
all_at_queued-append (b ∷ ptrs) a = ap (λ l. (b, queued) ∷ l) (all_at_queued-append ptrs a)

addresses-all_at_queued : (ptrs : List ℕ) → addresses (all_at_queued ptrs) ≡ ptrs
addresses-all_at_queued [] = refl
addresses-all_at_queued (a ∷ ptrs) = ap (λ l. a ∷ l) (addresses-all_at_queued ptrs)

-- The loop by which a match takes its tickets, at whatever tickets it meets and however many it has
-- changed, does what the loop of `CMatchSession::ChangeStatus` does to tickets that the snapshot has all
-- found queued and that are to be searching: the same tickets afterwards, and the same result.
pub change_all-commit :
    (changed : List ℕ) (l : List Request) (s : Tickets)
    → change_all changed l s
      ≡ commit searching (all_at_queued changed) (all_at_queued (tickets_of l)) s
unfolding change_all commit
change_all-commit changed [] s = refl
change_all-commit changed (r ∷ l) s =
    let called = call_on r.ticket (change_status_if_current queued searching) s in
    rw
      (
        change_all-commit (changed ++ r.ticket ∷ []) l called.0,
        all_at_queued-append changed r.ticket,
        force_queued-roll_back changed called.0,
      )
      refl

-- The tickets after a commit.
abbrev pub TicketOutcome : List Request → Tickets → Tickets × Bool → Type 0
TicketOutcome l s (s', true) =
    (b : ℕ) → s' b ≡ (if contains b (tickets_of l) then restatus searching (s b) else s b)
TicketOutcome l s (s', false) = (b : ℕ) → s' b ≡ s b

to-TicketOutcome :
    (l : List Request) (s : Tickets) (o : Tickets × Bool)
    → CommitOutcome searching s (all_at_queued (tickets_of l)) s o
    → TicketOutcome l s o
to-TicketOutcome l s (s', true) h = λ b. rw (addresses-all_at_queued (tickets_of l)) at (h b)
to-TicketOutcome l s (s', false) h = h

pub change_all-TicketOutcome :
    (l : List Request) (s : Tickets)
    → Distinct (tickets_of l)
    → TicketOutcome l s (change_all [] l s)
change_all-TicketOutcome l s d = rw (change_all-commit [] l s) (
    to-TicketOutcome l s _ (
      commit_atomic searching (all_at_queued (tickets_of l)) s
        (rw (addresses-all_at_queued (tickets_of l)) d)))
