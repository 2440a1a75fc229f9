-- ===== src/Session/Kept.antt =====
-- MM/matching/core/MatchSession.cpp: what the methods of a session leave of its tickets.
use cpp_matchmaking_mvp.Common.{
  ℕ, Bool, true, false, List, [], ◌∷◌, ◌++◌, Bool-cases, Option-cases, inl, inr,
}
use cpp_matchmaking_mvp.Types.{MatchTicketStatus, ProtocolResult, can_change_status}
use cpp_matchmaking_mvp.Ticket.{
  Tickets, with_reason, change_status_if_current, call_on, update_on, force_set_status,
}
use cpp_matchmaking_mvp.Ticket.Kept.{
  KeepsTickets, KeepsTickets-refl, KeepsTickets-trans, with_reason-KeepsTickets,
  force_set_status-KeepsTickets, change_status_if_current-KeepsTickets,
}
use cpp_matchmaking_mvp.Session.{
  Session, snapshot, roll_back, commit, finish_change, change_session_status, set_ticket_reasons,
}

roll_back-KeepsTickets :
    (changed : List (ℕ × MatchTicketStatus)) (s : Tickets) → KeepsTickets s (roll_back changed s)
unfolding roll_back
roll_back-KeepsTickets [] s = KeepsTickets-refl s
roll_back-KeepsTickets ((a, q) ∷ l) s =
    KeepsTickets-trans s (force_set_status a q s) _ (force_set_status-KeepsTickets a q s)
      (roll_back-KeepsTickets l (force_set_status a q s))

pub commit-KeepsTickets :
    (next : MatchTicketStatus) (changed pending : List (ℕ × MatchTicketStatus)) (s : Tickets)
    → KeepsTickets s (commit next changed pending s).0
unfolding commit
commit-KeepsTickets next changed [] s = KeepsTickets-refl s
commit-KeepsTickets next changed ((a, q) ∷ l) s =
    let s' = (call_on a (change_status_if_current q next) s).0 in
    let first : KeepsTickets s s' = change_status_if_current-KeepsTickets a q next s in
    elim (Bool-cases (call_on a (change_status_if_current q next) s).1) [
      | inl done ↦
          rw done (
            KeepsTickets-trans s s' _ first
              (commit-KeepsTickets next (changed ++ (a, q) ∷ []) l s'))
      | inr failed ↦ rw failed (KeepsTickets-trans s s' _ first (roll_back-KeepsTickets changed s'))
    ]

finish_change-KeepsTickets :
    (next : MatchTicketStatus) (x : Session) (s : Tickets) (o : Tickets × Bool)
    → KeepsTickets s o.0
    → KeepsTickets s (finish_change next x o).1
finish_change-KeepsTickets next x s (s', true) k = k
finish_change-KeepsTickets next x s (s', false) k = k

pub change_session_status-KeepsTickets :
    (next : MatchTicketStatus) (x : Session) (s : Tickets)
    → KeepsTickets s (change_session_status next x s).1
unfolding change_session_status
change_session_status-KeepsTickets next x s = elim (Bool-cases (can_change_status x.status next)) [
  | inr refused ↦ rw refused (KeepsTickets-refl s)
  | inl may ↦ elim (Option-cases (snapshot next x.ticket_list s)) [
    | inl missing ↦ rw may (rw missing (KeepsTickets-refl s))
    | inr (l, found) ↦ rw may (
        rw found (
          finish_change-KeepsTickets next x s (commit next [] l s)
            (commit-KeepsTickets next [] l s)))
  ]
]

pub set_ticket_reasons-KeepsTickets :
    (r : ProtocolResult) (ptrs : List ℕ) (s : Tickets)
    → KeepsTickets s (set_ticket_reasons r ptrs s)
unfolding set_ticket_reasons
set_ticket_reasons-KeepsTickets r [] s = KeepsTickets-refl s
set_ticket_reasons-KeepsTickets r (a ∷ ptrs) s =
    KeepsTickets-trans s (update_on a (with_reason r) s) _ (with_reason-KeepsTickets a r s)
      (set_ticket_reasons-KeepsTickets r ptrs (update_on a (with_reason r) s))
