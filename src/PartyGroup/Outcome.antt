-- ===== src/PartyGroup/Outcome.antt =====
-- MM/matching/workers/PartyMatchmakingWorker.cpp: `TryCommitMatchmakingRequests` and
-- `CancelMatchTicket` as wholes.
use cpp_matchmaking_mvp.Common.{
  ℕ, ◌≡◌, refl, sym, ◌∙◌, Bool, true, false, some, List, [], ◌∷◌, ◌==◌, if◌then◌else◌, Dict, All,
  All-map, Distinct, arith, Bool-cases, inl, inr,
}
use cpp_matchmaking_mvp.Types.{cancelled, can_change_status}
use cpp_matchmaking_mvp.Ticket.{Ticket, Tickets, with_status, change_status, call_on}
use cpp_matchmaking_mvp.Ticket.Kept.{KeepsTickets, call_on-KeepsTickets}
use cpp_matchmaking_mvp.Ticket.Heap.{
  ChangeOutcome, call_on-ChangeOutcome, may_change, call_on-may_change,
}
use cpp_matchmaking_mvp.Request.{Request}
use cpp_matchmaking_mvp.PartyWorker.{Worker}
use cpp_matchmaking_mvp.PartyGroup.{
  Group, last_index, all_queued, finish_commit, erase_ptr, try_commit, erase_everywhere,
  remove_match_ticket, cancel_match_ticket,
}
use cpp_matchmaking_mvp.PartyGroup.Commit.{tickets_of, TicketOutcome, change_all-TicketOutcome}
use cpp_matchmaking_mvp.PartyGroup.Gone.{Gone, erase_matched-GoneInReach, erase_ptr-waiting_self}
use cpp_matchmaking_mvp.PartyGroup.Everywhere.{Everywhere}
use cpp_matchmaking_mvp.PartyGroup.Kept.{change_all-KeepsTickets}
use cpp_matchmaking_mvp.PartyGroup.Agree.{
  AllConsistent, SizeAt, Absent, Gone-Absent, AbsentInReach, GoneInReach-AbsentInReach,
  KeepsTickets-SizeAt, AllSized, erase_matched-AllConsistent, erase_everywhere-AllConsistent,
}

-- How a commit ends.
abbrev pub CommitOutcome : List Request → Group → Tickets → Group × Tickets × Bool → Type 0
CommitOutcome l g s (g', s', true) =
    (all_queued l s ≡ true)
    × TicketOutcome l s (s', true)
    × AllConsistent g'.workers
    × All (AbsentInReach (last_index g) g.slots s' g'.workers) l
CommitOutcome l g s (g', s', false) = (g' ≡ g) × ((b : ℕ) → s' b ≡ s b)

finish_commit-CommitOutcome :
    (l : List Request) (g : Group) (s : Tickets) (o : Tickets × Bool)
    → AllConsistent g.workers
    → AllSized s g.workers l
    → KeepsTickets s o.0
    → all_queued l s ≡ true
    → TicketOutcome l s o
    → CommitOutcome l g s (finish_commit l g o)
finish_commit-CommitOutcome l g s (s', true) v sized keeps q h =
    let sized' =
      All-map _ (λ r. Everywhere (SizeAt r.ticket s') g.workers) l
        (λ r all. KeepsTickets-SizeAt r.ticket s s' g.workers keeps all) sized in
    let v' = erase_matched-AllConsistent (last_index g) l g.slots s' g.workers sized' v in
    (
      q,
      h,
      v',
      GoneInReach-AbsentInReach (last_index g) g.slots s' _ l v'
          (erase_matched-GoneInReach (last_index g) l g.slots s' g.workers),
    )
finish_commit-CommitOutcome l g s (s', false) v sized keeps q h = (refl, h)

-- A commit of requests that name no ticket twice succeeds as a whole or changes nothing. If it
-- succeeds, all the tickets were queued, exactly they are searching now, the maps of every worker agree
-- still, and no worker in reach of a request has a request under the id of its ticket, in its waiting
-- queue or in the queue of any size. If it fails, every ticket and the group are as they were. The maps
-- of every worker agree beforehand, and what waits under the id of one of the tickets has that ticket's
-- number of players.
pub try_commit-CommitOutcome :
    (l : List Request) (g : Group) (s : Tickets)
    → AllConsistent g.workers
    → AllSized s g.workers l
    → Distinct (tickets_of l)
    → CommitOutcome l g s (try_commit l g s)
unfolding try_commit
try_commit-CommitOutcome [] g s v sized d = (refl, λ b. refl)
try_commit-CommitOutcome (r ∷ l) g s v sized d = elim (Bool-cases (all_queued (r ∷ l) s)) [
  | inl all ↦ rw all (
      finish_commit-CommitOutcome (r ∷ l) g s _ v sized (change_all-KeepsTickets (r ∷ l) s) all
        (change_all-TicketOutcome (r ∷ l) s d))
  | inr not_all ↦ rw not_all (refl, λ b. refl)
]

-- A ticket that waits with no worker.
erase_everywhere-Gone :
    (a : ℕ) (s : Tickets) (t : Ticket) (ws : Dict Worker) (i : ℕ)
    → s a ≡ some t
    → Gone t.ticket_id i (erase_everywhere a s ws)
unfolding erase_everywhere
erase_everywhere-Gone a s t [] i at_a w e = absurd (cc)
erase_everywhere-Gone a s t ((j, v) ∷ ws) i at_a w e = elim (Bool-cases (i == j)) [
  | inl hit ↦
      let same : some (erase_ptr a s v) ≡ some w = rw hit at e in
      let is : erase_ptr a s v ≡ w = cc in rw (← is) (erase_ptr-waiting_self a s v t at_a)
  | inr miss ↦ erase_everywhere-Gone a s t ws i at_a w (rw miss at e)
]

abbrev pub CancelOutcome : (ticket : ℕ) → Group → Tickets → Group × Tickets × Bool → Type 0
CancelOutcome a g s (g', s', true) =
    (t : Ticket) × (s a ≡ some t)
    × (can_change_status t.status cancelled ≡ true)
    × ((b : ℕ) → s' b ≡ (if a == b then some (with_status cancelled t) else s b))
    × AllConsistent g'.workers
    × ((i : ℕ) → Absent t.ticket_id i g'.workers)
CancelOutcome a g s (g', s', false) =
    (may_change a cancelled s ≡ false) × (g' ≡ g) × ((b : ℕ) → s' b ≡ s b)

finish_cancel-CancelOutcome :
    (a : ℕ) (g : Group) (s : Tickets) (o : Tickets × Bool)
    → AllConsistent g.workers
    → Everywhere (SizeAt a s) g.workers
    → KeepsTickets s o.0
    → o.1 ≡ may_change a cancelled s
    → ChangeOutcome a cancelled s o
    → CancelOutcome a g s
        (if o.1 then (remove_match_ticket a o.0 g, o.0, true) else (g, o.0, false))
unfolding remove_match_ticket
finish_cancel-CancelOutcome a g s (s', false) v sized keeps e h = (sym e, refl, h)
finish_cancel-CancelOutcome a g s (s', true) v sized keeps e h =
    let (t, found, may, changed) = h in
    let self : (a == a) ≡ true = ground arith in
    let here : s' a ≡ some (with_status cancelled t) = changed a ∙ rw self refl in
    let v' =
      erase_everywhere-AllConsistent a s' g.workers
        (KeepsTickets-SizeAt a s s' g.workers keeps sized) v in
    (
      t,
      found,
      may,
      changed,
      v',
      λ i.
          Gone-Absent t.ticket_id i _ v'
            (erase_everywhere-Gone a s' (with_status cancelled t) g.workers i here),
    )

-- A cancellation succeeds exactly when the ticket is there and the table lets it be cancelled. Then it
-- cancels that ticket alone, the maps of every worker agree still, and no worker of the group has a
-- request under the id of the ticket, in its waiting queue or in the queue of any size. One that fails
-- changes neither the group nor any ticket. The maps of every worker agree beforehand, and what waits
-- under the id of the ticket has its number of players.
pub cancel_match_ticket-CancelOutcome :
    (a : ℕ) (g : Group) (s : Tickets)
    → AllConsistent g.workers
    → Everywhere (SizeAt a s) g.workers
    → CancelOutcome a g s (cancel_match_ticket a g s)
unfolding cancel_match_ticket
cancel_match_ticket-CancelOutcome a g s v sized =
    finish_cancel-CancelOutcome a g s (call_on a (change_status cancelled) s) v sized
      (call_on-KeepsTickets a cancelled s) (call_on-may_change a cancelled s)
      (call_on-ChangeOutcome a cancelled s)
