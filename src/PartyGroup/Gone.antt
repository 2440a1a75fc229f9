-- ===== src/PartyGroup/Gone.antt =====
-- MM/matching/workers/PartyMatchmakingWorker.cpp: what a committed match and a cancelled ticket leave
-- in the queues of the workers.
use cpp_matchmaking_mvp.Common.{
  ℕ, zero, suc, ◌+◌, ◌≤◌, ◌<◌, ◌≡◌, ◌⊎◌, refl, sym, ap, ◌∙◌, false, none, some, List, [], ◌∷◌, ◌==◌,
  ==_iff, if◌then◌else◌, Dict, lookup, insert, lookup-insert, lookup-erase, All, length, arith,
  Bool-cases, Option-cases, inl, inr,
}
use cpp_matchmaking_mvp.Ticket.{Ticket, Tickets, get_players}
use cpp_matchmaking_mvp.Request.{Request, Slots, get_min_worker_index, get_max_worker_index}
use cpp_matchmaking_mvp.PartyWorker.{Worker, erase_ticket}
use cpp_matchmaking_mvp.PartyGroup.{erase_ptr, at_worker, erase_slots, erase_matched}

pub erase_ticket-waiting :
    (id k i : ℕ) (w : Worker)
    → lookup i (erase_ticket id k w).waiting ≡ (if id == i then none else lookup i w.waiting)
unfolding erase_ticket
erase_ticket-waiting id k i w = elim (Option-cases (lookup k w.by_player_count)) [
  | inl missing ↦ rw (missing, erase_ticket) (lookup-erase id i w.waiting)
  | inr (q, found) ↦ rw (found, erase_ticket) (lookup-erase id i w.waiting)
]

pub erase_ptr-none : (a : ℕ) (s : Tickets) (w : Worker) → s a ≡ none → erase_ptr a s w ≡ w
unfolding erase_ptr
erase_ptr-none a s w e = rw (e, erase_ptr) refl

pub erase_ptr-some :
    (a : ℕ) (s : Tickets) (w : Worker) (t : Ticket)
    → s a ≡ some t
    → erase_ptr a s w ≡ erase_ticket t.ticket_id (length (get_players t)) w
unfolding erase_ptr
erase_ptr-some a s w t e = rw (e, erase_ptr) refl

-- What waited nowhere waits nowhere still.
pub erase_ptr-waiting_none :
    (a : ℕ) (s : Tickets) (w : Worker) (id : ℕ)
    → lookup id w.waiting ≡ none
    → lookup id (erase_ptr a s w).waiting ≡ none
erase_ptr-waiting_none a s w id h = elim (Option-cases (s a)) [
  | inl null ↦ rw (erase_ptr-none a s w null) h
  | inr (t, found) ↦
      rw (erase_ptr-some a s w t found)
        (ground (arith, erase_ticket-waiting t.ticket_id (length (get_players t)) id w))
]

pub erase_ptr-waiting_kept :
    (a : ℕ) (s : Tickets) (w : Worker) (id : ℕ) (q : Request)
    → lookup id (erase_ptr a s w).waiting ≡ some q
    → lookup id w.waiting ≡ some q
erase_ptr-waiting_kept a s w id q e = elim (Option-cases (s a)) [
  | inl null ↦ rw (erase_ptr-none a s w null) at e
  | inr (t, found) ↦
      let e' = rw (erase_ptr-some a s w t found) at e in
      ground (arith, erase_ticket-waiting t.ticket_id (length (get_players t)) id w)
]

pub erase_ptr-waiting_self :
    (a : ℕ) (s : Tickets) (w : Worker) (t : Ticket)
    → s a ≡ some t
    → lookup t.ticket_id (erase_ptr a s w).waiting ≡ none
erase_ptr-waiting_self a s w t found =
    rw (erase_ptr-some a s w t found)
      (ground (arith, erase_ticket-waiting t.ticket_id (length (get_players t)) t.ticket_id w))

-- No request waits under an id in the queues of one worker.
abbrev pub Gone : (id index : ℕ) → Dict Worker → Type 0
Gone id i ws = (w : Worker) → lookup i ws ≡ some w → lookup id w.waiting ≡ none

pub at_worker_missing :
    (i : ℕ) (f : Worker → Worker) (ws : Dict Worker) → lookup i ws ≡ none → at_worker i f ws ≡ ws
at_worker_missing i f ws e = rw (e, at_worker) refl

pub at_worker_found :
    (i : ℕ) (f : Worker → Worker) (ws : Dict Worker) (w : Worker)
    → lookup i ws ≡ some w
    → at_worker i f ws ≡ insert i (f w) ws
at_worker_found i f ws w e = rw (e, at_worker) refl

-- What a lookup finds once one worker has changed.
pub insert-cases :
    (j i : ℕ) (v w : Worker) (ws : Dict Worker)
    → lookup i (insert j v ws) ≡ some w
    → ((j ≡ i) × (v ≡ w)) ⊎ (((j == i) ≡ false) × (lookup i ws ≡ some w))
insert-cases j i v w ws e = elim (Bool-cases (j == i)) [
  | inl hit ↦
      let same : some v ≡ some w = rw hit at (sym (lookup-insert j i v ws) ∙ e) in
      inl ((==_iff j i).0 hit, cc)
  | inr miss ↦ inr (miss, rw miss at (sym (lookup-insert j i v ws) ∙ e))
]

at_worker-Gone :
    (a : ℕ) (s : Tickets) (j id i : ℕ) (ws : Dict Worker)
    → Gone id i ws
    → Gone id i (at_worker j (erase_ptr a s) ws)
at_worker-Gone a s j id i ws g = elim (Option-cases (lookup j ws)) [
  | inl missing ↦ rw (at_worker_missing j (erase_ptr a s) ws missing) g
  | inr (v, found) ↦ rw (at_worker_found j (erase_ptr a s) ws v found) (λ w e.
      elim (insert-cases j i (erase_ptr a s v) w ws e) [
        | inl (same, is) ↦
            rw (← is)
              (erase_ptr-waiting_none a s v id (g v (ap (λ x. lookup x ws) (sym same) ∙ found)))
        | inr (_, old) ↦ g w old
      ])
]

at_worker-Gone_self :
    (a : ℕ) (s : Tickets) (i : ℕ) (ws : Dict Worker) (t : Ticket)
    → s a ≡ some t
    → Gone t.ticket_id i (at_worker i (erase_ptr a s) ws)
at_worker-Gone_self a s i ws t at_a = elim (Option-cases (lookup i ws)) [
  | inl missing ↦ rw (at_worker_missing i (erase_ptr a s) ws missing) (λ w e. absurd (cc))
  | inr (v, found) ↦ rw (at_worker_found i (erase_ptr a s) ws v found) (λ w e.
      elim (insert-cases i i (erase_ptr a s v) w ws e) [
        | inl (_, is) ↦ rw (← is) (erase_ptr-waiting_self a s v t at_a)
        | inr (differs, _) ↦ absurd (ground arith)
      ])
]

erase_slots-Gone :
    (n j : ℕ) (a : ℕ) (s : Tickets) (id i : ℕ) (ws : Dict Worker)
    → Gone id i ws
    → Gone id i (erase_slots n j a s ws)
unfolding erase_slots
erase_slots-Gone zero j a s id i ws g = g
erase_slots-Gone (suc n) j a s id i ws g =
    erase_slots-Gone n (j + 1) a s id i _ (at_worker-Gone a s j id i ws g)

erase_slots-Gone_self :
    (n j : ℕ) (a : ℕ) (s : Tickets) (i : ℕ) (ws : Dict Worker) (t : Ticket)
    → s a ≡ some t
    → j ≤ i
    → i < j + n
    → Gone t.ticket_id i (erase_slots n j a s ws)
unfolding erase_slots
erase_slots-Gone_self zero j a s i ws t at_a low high = absurd (omega arith)
erase_slots-Gone_self (suc n) j a s i ws t at_a low high = elim (Bool-cases (j == i)) [
  | inl hit ↦
      let same : j ≡ i = (==_iff j i).0 hit in
      erase_slots-Gone n (j + 1) a s t.ticket_id i _ (rw same (at_worker-Gone_self a s i ws t at_a))
  | inr miss ↦
      let above : j + 1 ≤ i = ground arith in
      erase_slots-Gone_self n (j + 1) a s i _ t at_a above (omega arith)
]

erase_matched-Gone :
    (last : ℕ) (l : List Request) (slots : Slots) (s : Tickets) (id i : ℕ) (ws : Dict Worker)
    → Gone id i ws
    → Gone id i (erase_matched last l slots s ws)
unfolding erase_matched
erase_matched-Gone last [] slots s id i ws g = g
erase_matched-Gone last (r ∷ l) slots s id i ws g =
    erase_matched-Gone last l slots s id i _ (erase_slots-Gone _ _ r.ticket s id i ws g)

-- The ticket of a request waits with no worker that the request has reached.
abbrev pub GoneInReach : (last : ℕ) → Slots → Tickets → Dict Worker → Request → Type 0
GoneInReach last slots s ws r =
    (t : Ticket) (i : ℕ)
    → s r.ticket ≡ some t
    → get_min_worker_index last (slots r.pointer) ≤ i
    → i ≤ get_max_worker_index last (slots r.pointer)
    → Gone t.ticket_id i ws

pub erase_matched-GoneInReach :
    (last : ℕ) (l : List Request) (slots : Slots) (s : Tickets) (ws : Dict Worker)
    → All (GoneInReach last slots s (erase_matched last l slots s ws)) l
unfolding erase_matched
erase_matched-GoneInReach last [] slots s ws = tt
erase_matched-GoneInReach last (r ∷ l) slots s ws = (
  λ t i at_r low high.
      erase_matched-Gone last l slots s t.ticket_id i _
        (erase_slots-Gone_self _ _ r.ticket s i ws t at_r low (omega arith)),
  erase_matched-GoneInReach last l slots s _,
)
