-- ===== src/Server/Ending.antt =====
-- MM/matching/MatchSessionManager.cpp: what is left of a session that fails or times out.
use cpp_matchmaking_mvp.Common.{
  ℕ, ◌≡◌, refl, ◌∙◌, Bool, true, false, none, some, List, [], ◌∷◌, ◌==◌, if◌then◌else◌, contains,
  All, Distinct, All-map, contains_own, lookup, arith, Bool-cases, inl, inr, ◌||◌,
}
use cpp_matchmaking_mvp.Types.{
  MatchTicketStatus, can_change_status, eqb_status, failed, timed_out, requires_acceptance, placing,
  ProtocolResult, create_match_session,
}
use cpp_matchmaking_mvp.Ticket.{Ticket, Tickets, with_reason, update_on}
use cpp_matchmaking_mvp.Session.{Session, change_session_status, set_ticket_reasons}
use cpp_matchmaking_mvp.Session.Commit.{eqb_status-eq}
use cpp_matchmaking_mvp.Session.Status.{
  InStep, change_session_status-eq-can_change_status, change_session_status-InStep,
}
use cpp_matchmaking_mvp.Session.Change.{ChangeOutcome, change_session_status-ChangeOutcome}
use cpp_matchmaking_mvp.Registry.Outcome.{erase_entry-Erased}
use cpp_matchmaking_mvp.Server.{Server, session_keys, put_session}
use cpp_matchmaking_mvp.Server.Matching.{
  find_match_session, change_session, set_status_reason, erase_match_session, end_session,
  on_failed_match_session, on_time_out_accept_match_session, on_time_out_place_match_session,
}

-- The session has left the map, and each of its tickets has ended in `final` for `reason`.
pub record Ended (final : MatchTicketStatus) (reason : ProtocolResult) (id : ℕ) (x : Session)
    (s : Server) : Type 0 where
  pub gone : lookup id s.match_sessions.entries ≡ none
  pub told :
      All
        (λ a.
          (t : Ticket) × (s.tickets a ≡ some t) × (t.status ≡ final) × (t.status_reason ≡ reason))
        x.ticket_list

-- The tickets of a list after `SetStatusReason`: a ticket keeps its status, and a reason once
-- given.
abbrev Told : MatchTicketStatus → ProtocolResult → Bool → Tickets → ℕ → Type 0
Told q r true s a = (t : Ticket) × (s a ≡ some t) × (t.status ≡ q) × (t.status_reason ≡ r)
Told q r false s a = (t : Ticket) × (s a ≡ some t) × (t.status ≡ q)

update_on-found :
    (c a : ℕ) (f : Ticket → Ticket) (s : Tickets) (t : Ticket)
    → s a ≡ some t
    → update_on c f s a ≡ some (if c == a then f t else t)
update_on-found c a f s t e = elim (Bool-cases (c == a)) [
  | inl hit ↦ rw hit (rw e refl)
  | inr miss ↦ rw miss e
]

update-Told :
    (q : MatchTicketStatus) (r : ProtocolResult) (b : Bool) (s : Tickets) (a c : ℕ)
    → Told q r b s a
    → Told q r (c == a || b) (update_on c (with_reason r) s) a
update-Told q r true s a c (t, found, at, why) =
    let e = update_on-found c a (with_reason r) s t found in
    elim (Bool-cases (c == a)) [
      | inl hit ↦ rw hit (with_reason r t, e ∙ rw hit refl, at, refl)
      | inr miss ↦ rw miss (t, e ∙ rw miss refl, at, why)
    ]
update-Told q r false s a c (t, found, at) =
    let e = update_on-found c a (with_reason r) s t found in
    elim (Bool-cases (c == a)) [
      | inl hit ↦ rw hit (with_reason r t, e ∙ rw hit refl, at, refl)
      | inr miss ↦ rw miss (t, e ∙ rw miss refl, at)
    ]

update_each-Told :
    (q : MatchTicketStatus) (r : ProtocolResult) (c : ℕ) (s : Tickets) (xs : List ℕ)
    (seen : ℕ → Bool)
    → All (λ a. Told q r (seen a) s a) xs
    → All (λ a. Told q r (c == a || seen a) (update_on c (with_reason r) s) a) xs
update_each-Told q r c s [] seen h = tt
update_each-Told q r c s (a ∷ xs) seen (h, hs) =
    (update-Told q r (seen a) s a c h, update_each-Told q r c s xs seen hs)

reached-Told :
    (q : MatchTicketStatus) (r : ProtocolResult) (s : Tickets) (xs : List ℕ) (seen : ℕ → Bool)
    → All (λ a. Told q r (seen a) s a) xs
    → All (λ a. (seen a || false) ≡ true) xs
    → All (λ a. Told q r true s a) xs
reached-Told q r s [] seen h e = tt
reached-Told q r s (a ∷ xs) seen (h, hs) (e, es) =
    let e' : seen a ≡ true = ground arith in (rw e' at h, reached-Told q r s xs seen hs es)

-- The tickets that the loop has not reached yet are those of `ptrs`.
set_ticket_reasons-Told :
    (q : MatchTicketStatus) (r : ProtocolResult) (ptrs xs : List ℕ) (s : Tickets) (seen : ℕ → Bool)
    → All (λ a. Told q r (seen a) s a) xs
    → All (λ a. (seen a || contains a ptrs) ≡ true) xs
    → All (λ a. Told q r true (set_ticket_reasons r ptrs s) a) xs
unfolding set_ticket_reasons
set_ticket_reasons-Told q r [] xs s seen h e = reached-Told q r s xs seen h e
set_ticket_reasons-Told q r (c ∷ ptrs) xs s seen h e =
    set_ticket_reasons-Told q r ptrs xs (update_on c (with_reason r) s) (λ a. c == a || seen a)
      (update_each-Told q r c s xs seen h)
      (All-map (λ a. (seen a || contains a (c ∷ ptrs)) ≡ true)
        (λ a. ((c == a || seen a) || contains a ptrs) ≡ true) xs (λ a listed. ground arith) e)

-- After a change that is made, the tickets of the session are at the new status.
changed-Told :
    (q : MatchTicketStatus) (r : ProtocolResult) (x : Session) (s : Tickets)
    (o : Session × Tickets × Bool)
    → o.2 ≡ true
    → ChangeOutcome q x s o
    → InStep o.0 o.1
    → All (λ a. Told q r false o.1 a) x.ticket_list
changed-Told q r x s (x', s', true) e (same, may, m) h = rw same at h
changed-Told q r x s (x', s', false) e c h = absurd (cc)

may_time_out :
    (q waits_in : MatchTicketStatus)
    → eqb_status q waits_in ≡ true
    → can_change_status waits_in timed_out ≡ true
    → can_change_status q timed_out ≡ true
may_time_out q waits_in e may = rw (eqb_status-eq q waits_in e) may

-- A session in step with its tickets that may end does end: it leaves the map, and every ticket of
-- it ends in the same status and for the same reason.
pub end_session-Ended :
    (final : MatchTicketStatus) (reason : ProtocolResult) (id p : ℕ) (x : Session) (s : Server)
    → Distinct x.ticket_list
    → InStep x s.tickets
    → can_change_status x.status final ≡ true
    → Ended final reason id x (end_session final reason id p x s)
unfolding end_session change_session set_status_reason erase_match_session
end_session-Ended final reason id p x s d h may =
    let done = change_session_status-eq-can_change_status final x s.tickets d h ∙ may in
    let outcome = change_session_status-ChangeOutcome final x s.tickets d in
    let moved = change_session_status-InStep final x s.tickets d h in
    let changed = change_session_status final x s.tickets in
    let keys = session_keys (put_session p changed.0 (record s { tickets = changed.1 })) in
    let erased = (erase_entry-Erased keys id s.match_sessions).0.entry id in
    rw done (record {
      gone = erased ∙ ground arith;
      told =
          set_ticket_reasons-Told final reason x.ticket_list x.ticket_list changed.1 (λ a. false)
            (changed-Told final reason x s.tickets changed done outcome moved)
            (contains_own x.ticket_list);
    })

-- `OnFailedMatchSession` ends a session on file that lists no ticket twice, is in step with its
-- tickets, and is in a status that the table lets fail: it leaves the map, and its tickets have
-- failed for the reason given.
pub on_failed_match_session-Ended :
    (reason : ProtocolResult) (id p : ℕ) (x : Session) (s : Server)
    → find_match_session id s ≡ some (p, x)
    → Distinct x.ticket_list
    → InStep x s.tickets
    → can_change_status x.status failed ≡ true
    → Ended failed reason id x (on_failed_match_session id reason s)
unfolding on_failed_match_session
on_failed_match_session-Ended reason id p x s found d h may =
    rw (found, on_failed_match_session) (end_session-Ended failed reason id p x s d h may)

-- What the two time-outs do to a session on file.
abbrev pub TimeOutcome :
    (waits_in : MatchTicketStatus) (id : ℕ) → Session → (s s' : Server) → Type 0
TimeOutcome waits_in id x s s' =
    if eqb_status x.status waits_in then Ended timed_out create_match_session id x s' else s' ≡ s

-- For a session on file that lists no ticket twice and is in step with its tickets, the time-out of
-- the acceptance ends it if it still awaits that, and does nothing in any other status.
pub on_time_out_accept_match_session-TimeOutcome :
    (id p : ℕ) (x : Session) (s : Server)
    → find_match_session id s ≡ some (p, x)
    → Distinct x.ticket_list
    → InStep x s.tickets
    → TimeOutcome requires_acceptance id x s (on_time_out_accept_match_session id s)
unfolding on_time_out_accept_match_session can_change_status
on_time_out_accept_match_session-TimeOutcome id p x s found d h =
    elim (Bool-cases (eqb_status x.status requires_acceptance)) [
      | inr other ↦ rw (found, other, on_time_out_accept_match_session) refl
      | inl waits ↦
          rw (found, waits, on_time_out_accept_match_session)
            (end_session-Ended timed_out create_match_session id p x s d h
              (may_time_out x.status requires_acceptance waits refl))
    ]

-- For a session on file that lists no ticket twice and is in step with its tickets, the time-out of
-- the placement ends it if it is being placed, and does nothing in any other status.
pub on_time_out_place_match_session-TimeOutcome :
    (id p : ℕ) (x : Session) (s : Server)
    → find_match_session id s ≡ some (p, x)
    → Distinct x.ticket_list
    → InStep x s.tickets
    → TimeOutcome placing id x s (on_time_out_place_match_session id s)
unfolding on_time_out_place_match_session can_change_status
on_time_out_place_match_session-TimeOutcome id p x s found d h =
    elim (Bool-cases (eqb_status x.status placing)) [
      | inr other ↦ rw (found, other, on_time_out_place_match_session) refl
      | inl waits ↦
          rw (found, waits, on_time_out_place_match_session)
            (end_session-Ended timed_out create_match_session id p x s d h
              (may_time_out x.status placing waits refl))
    ]
