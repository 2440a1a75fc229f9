-- ===== src/Ticket/Heap.antt =====
-- MM/matching/core/MatchmakingTicket.cpp: a change of status as the other tickets see it.
use cpp_matchmaking_mvp.Common.{
  ℕ, ◌≡◌, refl, sym, ap, ◌∙◌, Bool, true, false, Option, none, some, ◌==◌, ==_iff, if◌then◌else◌,
  Bool-cases, Option-cases, inl, inr,
}
use cpp_matchmaking_mvp.Types.{MatchTicketStatus, can_change_status}
use cpp_matchmaking_mvp.Ticket.{
  Ticket, Tickets, with_status, get_players, players_at, change_status, store, call_at, call_on,
}

-- The ticket has changed and no other, or none has.
abbrev pub ChangeOutcome : (ticket : ℕ) → MatchTicketStatus → Tickets → Tickets × Bool → Type 0
ChangeOutcome a next s (s', true) =
    (t : Ticket) × (s a ≡ some t)
    × (can_change_status t.status next ≡ true)
    × ((b : ℕ) → s' b ≡ (if a == b then some (with_status next t) else s b))
ChangeOutcome a next s (s', false) = (b : ℕ) → s' b ≡ s b

store_same : (a b : ℕ) (s : Tickets) (t : Ticket) → s a ≡ some t → store a t s b ≡ s b
store_same a b s t e = elim (Bool-cases (a == b)) [
  | inl hit ↦ rw hit (sym e ∙ ap s ((==_iff a b).0 hit))
  | inr miss ↦ rw miss
]

call_at-ChangeOutcome :
    (a : ℕ) (next : MatchTicketStatus) (s : Tickets) (o : Option Ticket)
    → s a ≡ o
    → ChangeOutcome a next s (call_at a (change_status next) s o)
unfolding change_status
call_at-ChangeOutcome a next s none e = λ b. refl
call_at-ChangeOutcome a next s (some t) e = elim (Bool-cases (can_change_status t.status next)) [
  | inl may ↦ rw may (t, e, may, λ b. refl)
  | inr refused ↦ rw refused (λ b. store_same a b s t e)
]

pub call_on-ChangeOutcome :
    (a : ℕ) (next : MatchTicketStatus) (s : Tickets)
    → ChangeOutcome a next s (call_on a (change_status next) s)
call_on-ChangeOutcome a next s = call_at-ChangeOutcome a next s (s a) refl

pub players_at-some :
    (s : Tickets) (b : ℕ) (t : Ticket) → s b ≡ some t → players_at s b ≡ get_players t
players_at-some s b t e = rw (e, players_at) refl

-- Whether the ticket at an address may get a status.
abbrev pub may_change : (ticket : ℕ) → MatchTicketStatus → Tickets → Bool
may_change a next s = elim (s a) [ none ↦ false | some t ↦ can_change_status t.status next ]

pub call_on-may_change :
    (a : ℕ) (next : MatchTicketStatus) (s : Tickets)
    → (call_on a (change_status next) s).1 ≡ may_change a next s
unfolding change_status
call_on-may_change a next s = elim (Option-cases (s a)) [
  | inl missing ↦ rw (missing, may_change) refl
  | inr (t, found) ↦ elim (Bool-cases (can_change_status t.status next)) [
    | inl may ↦ rw (found, may_change) (rw may refl)
    | inr refused ↦ rw (found, may_change) (rw refused refl)
  ]
]
