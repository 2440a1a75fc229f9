-- ===== src/Session/Change.antt =====
-- `CMatchSession::ChangeStatus` of MM/matching/core/MatchSession.cpp, from outside.
use cpp_matchmaking_mvp.Common.{
  ℕ, ◌≡◌, refl, ap, Bool, true, false, Option, none, some, List, [], ◌∷◌, if◌then◌else◌, contains,
  Distinct, Bool-cases, Option-cases, inl, inr, All,
}
use cpp_matchmaking_mvp.Types.{MatchTicketStatus, can_change_status}
use cpp_matchmaking_mvp.Ticket.{Ticket, Tickets}
use cpp_matchmaking_mvp.Session.{
  Session, snapshot, push_status, finish_change, commit_snapshot, commit, change_session_status,
}
use cpp_matchmaking_mvp.Session.Commit.{CommitOutcome, commit_atomic}
use cpp_matchmaking_mvp.Session.RollBack.{addresses, restatus}

abbrev pub Ready : MatchTicketStatus → Tickets → ℕ × MatchTicketStatus → Type 0
Ready next s (a, q) =
    (t : Ticket) × (s a ≡ some t) × (t.status ≡ q) × (can_change_status q next ≡ true)

-- The first loop lists the tickets in order, each ready to change.
abbrev pub SnapshotOutcome :
    MatchTicketStatus → List ℕ → Tickets → Option (List (ℕ × MatchTicketStatus)) → Type 0
SnapshotOutcome next ptrs s none = Unit
SnapshotOutcome next ptrs s (some l) = (addresses l ≡ ptrs) × All (Ready next s) l

push_status-SnapshotOutcome :
    (next q : MatchTicketStatus) (a : ℕ) (ptrs : List ℕ) (s : Tickets)
    (o : Option (List (ℕ × MatchTicketStatus)))
    → Ready next s (a, q)
    → SnapshotOutcome next ptrs s o
    → SnapshotOutcome next (a ∷ ptrs) s (push_status a q o)
push_status-SnapshotOutcome next q a ptrs s none r h = tt
push_status-SnapshotOutcome next q a ptrs s (some l) r h = (ap (λ t. a ∷ t) h.0, (r, h.1))

snapshot-missing :
    (next : MatchTicketStatus) (a : ℕ) (ptrs : List ℕ) (s : Tickets)
    → s a ≡ none
    → snapshot next (a ∷ ptrs) s ≡ none
unfolding snapshot
snapshot-missing next a ptrs s e = rw (e, snapshot)

pub snapshot-found :
    (next : MatchTicketStatus) (a : ℕ) (ptrs : List ℕ) (s : Tickets) (t : Ticket)
    → s a ≡ some t
    → snapshot next (a ∷ ptrs) s ≡ (
        if can_change_status t.status next
        then push_status a t.status (snapshot next ptrs s)
        else none)
unfolding snapshot
snapshot-found next a ptrs s t e = rw (e, snapshot)

pub snapshot-SnapshotOutcome :
    (next : MatchTicketStatus) (ptrs : List ℕ) (s : Tickets)
    → SnapshotOutcome next ptrs s (snapshot next ptrs s)
unfolding snapshot
snapshot-SnapshotOutcome next [] s = (refl, tt)
snapshot-SnapshotOutcome next (a ∷ ptrs) s = elim (Option-cases (s a)) [
  | inl missing ↦ rw (snapshot-missing next a ptrs s missing) tt
  | inr (t, found) ↦
      rw (snapshot-found next a ptrs s t found)
        (elim (Bool-cases (can_change_status t.status next)) [
          | inr refused ↦ rw refused tt
          | inl allowed ↦ rw allowed (
              push_status-SnapshotOutcome next t.status a ptrs s (snapshot next ptrs s)
                (t, found, refl, allowed) (snapshot-SnapshotOutcome next ptrs s))
        ])
]

-- What a change of status has done, by its result.
abbrev pub ChangeOutcome : MatchTicketStatus → Session → Tickets → Session × Tickets × Bool → Type 0
ChangeOutcome next x s (x', s', true) =
    (x' ≡ record x { status = next })
    × (can_change_status x.status next ≡ true)
    × ((b : ℕ) → s' b ≡ (if contains b x.ticket_list then restatus next (s b) else s b))
ChangeOutcome next x s (x', s', false) = (x' ≡ x) × ((b : ℕ) → s' b ≡ s b)

finish_change-ChangeOutcome :
    (next : MatchTicketStatus) (x : Session) (s : Tickets) (l : List (ℕ × MatchTicketStatus))
    (o : Tickets × Bool)
    → addresses l ≡ x.ticket_list
    → can_change_status x.status next ≡ true
    → CommitOutcome next s l s o
    → ChangeOutcome next x s (finish_change next x o)
finish_change-ChangeOutcome next x s l (s', true) e c h = (refl, c, λ b. rw (← e) (h b))
finish_change-ChangeOutcome next x s l (s', false) e c h = (refl, h)

commit_snapshot-ChangeOutcome :
    (next : MatchTicketStatus) (x : Session) (s : Tickets)
    (o : Option (List (ℕ × MatchTicketStatus)))
    → Distinct x.ticket_list
    → can_change_status x.status next ≡ true
    → SnapshotOutcome next x.ticket_list s o
    → ChangeOutcome next x s (commit_snapshot next x s o)
commit_snapshot-ChangeOutcome next x s none d c h = (refl, λ b. refl)
commit_snapshot-ChangeOutcome next x s (some l) d c h =
    finish_change-ChangeOutcome next x s l (commit next [] l s) h.0 c
      (commit_atomic next l s (rw h.0 d))

-- For a session that lists no ticket twice, a change of status gives the session and all of its
-- tickets the new status, which the table allows, and touches no other ticket; or it fails and
-- changes nothing.
pub change_session_status-ChangeOutcome :
    (next : MatchTicketStatus) (x : Session) (s : Tickets)
    → Distinct x.ticket_list
    → ChangeOutcome next x s (change_session_status next x s)
unfolding change_session_status
change_session_status-ChangeOutcome next x s d =
    elim (Bool-cases (can_change_status x.status next)) [
      | inr refused ↦ rw refused (refl, λ b. refl)
      | inl allowed ↦ rw allowed (
          commit_snapshot-ChangeOutcome next x s _ d allowed
            (snapshot-SnapshotOutcome next x.ticket_list s))
    ]
