-- ===== src/SoloWorker/Cancel.antt =====
-- MM/matching/workers/SoloMatchmakingWorker.cpp: `Cancel`.
use cpp_matchmaking_mvp.Common.{
  ℕ, ◌≡◌, refl, sym, ap, ◌∙◌, Bool, true, false, none, some, ◌==◌, ==_iff, Dict, lookup, erase,
  lookup-erase, arith, Bool-cases, Option-cases, inl, inr,
}
use cpp_matchmaking_mvp.Types.{cancelled, can_change_status}
use cpp_matchmaking_mvp.Ticket.{Ticket, Tickets, with_status, change_status, store, call_on}
use cpp_matchmaking_mvp.SoloWorker.{Worker, erase_ticket, cancel}
use cpp_matchmaking_mvp.Request.{Request}

-- A ticket is cancelled and waits nowhere, or the worker is as it was and so is every ticket.
abbrev pub CancelOutcome :
    (ticket : ℕ) (s : Tickets) (w : Worker) → Worker × Tickets × Bool → Type 0
CancelOutcome a s w (w', s', true) =
    (t : Ticket) × (s a ≡ some t)
    × (s' a ≡ some (with_status cancelled t))
    × (lookup t.ticket_id w'.waiting ≡ none)
    × (lookup t.ticket_id w'.progressing ≡ none)
CancelOutcome a s w (w', s', false) = (w' ≡ w) × ((b : ℕ) → s' b ≡ s b)

lookup-erase_self : (id : ℕ) (m : Dict Request) → lookup id (erase id m) ≡ none
lookup-erase_self id m = let e = lookup-erase id id m in ground arith

call_on-found :
    (a : ℕ) (f : Ticket → Ticket × Bool) (s : Tickets) (t : Ticket)
    → s a ≡ some t
    → call_on a f s ≡ (store a (f t).0 s, (f t).1)
call_on-found a f s t e = rw e refl

cancel_done :
    (a : ℕ) (s : Tickets) (w : Worker) (t : Ticket)
    → s a ≡ some t
    → can_change_status t.status cancelled ≡ true
    → cancel a s w ≡ (erase_ticket t.ticket_id w, store a (with_status cancelled t) s, true)
unfolding cancel change_status
cancel_done a s w t found may =
    let called = call_on-found a (change_status cancelled) s t found in
    rw (found, cancel) (rw called (rw may refl))

cancel_refused :
    (a : ℕ) (s : Tickets) (w : Worker) (t : Ticket)
    → s a ≡ some t
    → can_change_status t.status cancelled ≡ false
    → cancel a s w ≡ (w, store a t s, false)
unfolding cancel change_status
cancel_refused a s w t found refused =
    let called = call_on-found a (change_status cancelled) s t found in
    rw (found, cancel) (rw called (rw refused refl))

store_same : (a b : ℕ) (s : Tickets) (t : Ticket) → s a ≡ some t → store a t s b ≡ s b
store_same a b s t e = elim (Bool-cases (a == b)) [
  | inl hit ↦ rw hit (sym e ∙ ap s ((==_iff a b).0 hit))
  | inr miss ↦ rw miss
]

-- A cancellation that succeeds cancels the ticket and leaves it in no queue of the worker; one that
-- fails changes neither the worker nor any ticket.
pub cancel-CancelOutcome : (a : ℕ) (s : Tickets) (w : Worker) → CancelOutcome a s w (cancel a s w)
unfolding cancel change_status erase_ticket
cancel-CancelOutcome a s w = elim (Option-cases (s a)) [
  | inl missing ↦ rw (missing, cancel) (refl, λ b. refl)
  | inr (t, found) ↦ elim (Bool-cases (can_change_status t.status cancelled)) [
    | inl may ↦ rw (cancel_done a s w t found may) (
      t,
      found,
      ground arith,
      lookup-erase_self t.ticket_id w.waiting,
      lookup-erase_self t.ticket_id w.progressing,
    )
    | inr refused ↦ rw (cancel_refused a s w t found refused) (refl, λ b. store_same a b s t found)
  ]
]
