-- ===== src/Ticket/Kept.antt =====
-- MM/matching/core/MatchmakingTicket.cpp: what no method changes of a ticket on the heap.
use cpp_matchmaking_mvp.Common.{
  ℕ, ◌≡◌, refl, ◌∙◌, Bool, true, false, Option, none, some, ◌==◌, ==_iff, if◌then◌else◌, Bool-cases,
  inl, inr,
}
use cpp_matchmaking_mvp.Types.{MatchTicketStatus, ProtocolResult, can_change_status, eqb_status}
use cpp_matchmaking_mvp.Ticket.{
  Ticket, Tickets, with_status, with_reason, get_players, change_status, change_status_if_current,
  call_at, call_on, update_on, force_set_status,
}
use cpp_matchmaking_mvp.Ticket.Heap.{ChangeOutcome, call_on-ChangeOutcome}

-- What of a ticket never changes.
abbrev pub Kept : Option Ticket → Option Ticket → Type 0
Kept none o = o ≡ none
Kept (some t) o =
    (t' : Ticket) × (o ≡ some t') × (t'.ticket_id ≡ t.ticket_id) × (get_players t' ≡ get_players t)

-- The heap has kept its tickets.
abbrev pub KeepsTickets : Tickets → Tickets → Type 0
KeepsTickets s s' = (b : ℕ) → Kept (s b) (s' b)

pub Kept-refl : (o : Option Ticket) → Kept o o
Kept-refl none = refl
Kept-refl (some t) = (t, refl, refl, refl)

pub Kept-eq : (o o' : Option Ticket) → o' ≡ o → Kept o o'
Kept-eq o o' e = rw e (Kept-refl o)

pub KeepsTickets-eq : (s s' : Tickets) → ((b : ℕ) → s' b ≡ s b) → KeepsTickets s s'
KeepsTickets-eq s s' e b = Kept-eq (s b) (s' b) (e b)

-- A ticket whose status alone has changed.
pub KeepsTickets-with_status :
    (a : ℕ) (next : MatchTicketStatus) (t : Ticket) (s s' : Tickets)
    → s a ≡ some t
    → ((b : ℕ) → s' b ≡ (if a == b then some (with_status next t) else s b))
    → KeepsTickets s s'
KeepsTickets-with_status a next t s s' found changed b = elim (Bool-cases (a == b)) [
  | inl hit ↦
      let same : a ≡ b = (==_iff a b).0 hit in
      let at_b : s b ≡ some t = rw same at found in
      rw at_b (with_status next t, changed b ∙ rw hit refl, refl, refl)
  | inr miss ↦ Kept-eq (s b) (s' b) (changed b ∙ rw miss refl)
]

ChangeOutcome-KeepsTickets :
    (a : ℕ) (next : MatchTicketStatus) (s : Tickets) (o : Tickets × Bool)
    → ChangeOutcome a next s o
    → KeepsTickets s o.0
ChangeOutcome-KeepsTickets a next s (s', true) (t, found, may, changed) =
    KeepsTickets-with_status a next t s s' found changed
ChangeOutcome-KeepsTickets a next s (s', false) same = KeepsTickets-eq s s' same

pub call_on-KeepsTickets :
    (a : ℕ) (next : MatchTicketStatus) (s : Tickets)
    → KeepsTickets s (call_on a (change_status next) s).0
call_on-KeepsTickets a next s =
    ChangeOutcome-KeepsTickets a next s _ (call_on-ChangeOutcome a next s)

pub KeepsTickets-refl : (s : Tickets) → KeepsTickets s s
KeepsTickets-refl s b = Kept-refl (s b)

Kept-trans : (o o' o'' : Option Ticket) → Kept o o' → Kept o' o'' → Kept o o''
Kept-trans none none o'' e e' = e'
Kept-trans none (some t) o'' e e' = absurd (cc)
Kept-trans (some t) none o'' (t', e, id, ks) e' = absurd (cc)
Kept-trans (some t) (some u) o'' (t', e, id, ks) (t'', e', id', ks') =
    let same : u ≡ t' = cc in (t'', e', rw same at id' ∙ id, rw same at ks' ∙ ks)

pub KeepsTickets-trans :
    (s s' s'' : Tickets) → KeepsTickets s s' → KeepsTickets s' s'' → KeepsTickets s s''
KeepsTickets-trans s s' s'' k k' b = Kept-trans (s b) (s' b) (s'' b) (k b) (k' b)

-- What leaves a ticket its id and players.
abbrev KeepsTicket : Ticket → Ticket → Type 0
KeepsTicket t t' = (t'.ticket_id ≡ t.ticket_id) × (get_players t' ≡ get_players t)

Kept-updated :
    (f : Ticket → Ticket) (o : Option Ticket)
    → ((t : Ticket) → KeepsTicket t (f t))
    → Kept o (elim o [ none ↦ none | some t ↦ some (f t) ])
Kept-updated f none keeps = refl
Kept-updated f (some t) keeps = (f t, refl, (keeps t).0, (keeps t).1)

update_on-KeepsTickets :
    (a : ℕ) (f : Ticket → Ticket) (s : Tickets)
    → ((t : Ticket) → KeepsTicket t (f t))
    → KeepsTickets s (update_on a f s)
update_on-KeepsTickets a f s keeps b = elim (Bool-cases (a == b)) [
  | inl hit ↦ rw hit (Kept-updated f (s b) keeps)
  | inr miss ↦ rw miss (Kept-refl (s b))
]

pub with_reason-KeepsTickets :
    (a : ℕ) (r : ProtocolResult) (s : Tickets) → KeepsTickets s (update_on a (with_reason r) s)
with_reason-KeepsTickets a r s = update_on-KeepsTickets a (with_reason r) s (λ t. (refl, refl))

pub force_set_status-KeepsTickets :
    (a : ℕ) (status : MatchTicketStatus) (s : Tickets)
    → KeepsTickets s (force_set_status a status s)
unfolding force_set_status
force_set_status-KeepsTickets a status s =
    update_on-KeepsTickets a (with_status status) s (λ t. (refl, refl))

call_at-KeepsTickets :
    (a : ℕ) (f : Ticket → Ticket × Bool) (s : Tickets) (o : Option Ticket)
    → s a ≡ o
    → ((t : Ticket) → KeepsTicket t (f t).0)
    → KeepsTickets s (call_at a f s o).0
call_at-KeepsTickets a f s none e keeps b = Kept-refl (s b)
call_at-KeepsTickets a f s (some t) e keeps b = elim (Bool-cases (a == b)) [
  | inl hit ↦
      let same : a ≡ b = (==_iff a b).0 hit in
      let here : s b ≡ some t = rw same at e in
      rw here (rw hit ((f t).0, refl, (keeps t).0, (keeps t).1))
  | inr miss ↦ rw miss (Kept-refl (s b))
]

pub change_status_if_current-KeepsTickets :
    (a : ℕ) (expected next : MatchTicketStatus) (s : Tickets)
    → KeepsTickets s (call_on a (change_status_if_current expected next) s).0
unfolding change_status_if_current
change_status_if_current-KeepsTickets a expected next s =
    call_at-KeepsTickets a (change_status_if_current expected next) s (s a) refl (λ t. kept t)
  where
    kept : (t : Ticket) → KeepsTicket t (change_status_if_current expected next t).0
    kept t = elim (Bool-cases (eqb_status t.status expected)) [
      | inr other ↦ rw other (refl, refl)
      | inl current ↦ elim (Bool-cases (can_change_status t.status next)) [
        | inr refused ↦ rw current (rw refused (refl, refl))
        | inl may ↦ rw current (rw may (refl, refl))
      ]
    ]
