-- ===== src/Session/Status.antt =====
-- `CMatchSession::ChangeStatus` as a whole: the session and its tickets move together.
use cpp_matchmaking_mvp.Common.{
  ℕ, ◌≡◌, refl, ◌∙◌, Bool, true, false, some, List, [], ◌∷◌, ◌++◌, ◌==◌, if◌then◌else◌, contains,
  contains_own, Distinct, arith, Bool-cases, inl, inr, All,
}
use cpp_matchmaking_mvp.Types.{MatchTicketStatus, can_change_status, eqb_status}
use cpp_matchmaking_mvp.Ticket.{Ticket, Tickets, with_status, change_status_if_current, store}
use cpp_matchmaking_mvp.Session.{Session, snapshot, finish_change, commit, change_session_status}
use cpp_matchmaking_mvp.Session.RollBack.{addresses, restatus}
use cpp_matchmaking_mvp.Session.Change.{
  ChangeOutcome, Ready, SnapshotOutcome, change_session_status-ChangeOutcome,
  snapshot-SnapshotOutcome, snapshot-found,
}

-- A ticket that may change, with its status.
-- Every ticket of the session exists and has the session's status.
abbrev pub InStep : Session → Tickets → Type 0
InStep x s = All (λ a. (t : Ticket) × (s a ≡ some t) × (t.status ≡ x.status)) x.ticket_list

eqb_status_self : (q : MatchTicketStatus) → eqb_status q q ≡ true
eqb_status_self q = ground arith

swap_succeeds :
    (current next : MatchTicketStatus) (t : Ticket)
    → t.status ≡ current
    → can_change_status current next ≡ true
    → change_status_if_current current next t ≡ (with_status next t, true)
unfolding change_status_if_current
swap_succeeds current next t e c = rw (e, eqb_status_self current, c)

Ready-store :
    (next : MatchTicketStatus) (a : ℕ) (t : Ticket) (s : Tickets) (l : List (ℕ × MatchTicketStatus))
    → contains a (addresses l) ≡ false
    → All (Ready next s) l
    → All (Ready next (store a t s)) l
Ready-store next a t s [] h r = tt
Ready-store next a t s ((b, q) ∷ l) h ((u, found, at, can), r) = elim (Bool-cases (a == b)) [
  | inl hit ↦ absurd (cc)
  | inr miss ↦ ((u, rw miss found, at, can), Ready-store next a t s l (rw miss at h) r)
]

commit_succeeds :
    (next : MatchTicketStatus) (changed pending : List (ℕ × MatchTicketStatus)) (s : Tickets)
    → Distinct (addresses pending)
    → All (Ready next s) pending
    → (commit next changed pending s).1 ≡ true
unfolding commit
commit_succeeds next changed [] s d r = refl
commit_succeeds next changed ((a, q) ∷ rest) s d ((t, found, at, can), r) =
    rw (found, swap_succeeds q next t at can)
      (commit_succeeds next (changed ++ (a, q) ∷ []) rest (store a (with_status next t) s) d.1
        (Ready-store next a (with_status next t) s rest d.0 r))

snapshot_succeeds :
    (next q : MatchTicketStatus) (ptrs : List ℕ) (s : Tickets)
    → can_change_status q next ≡ true
    → All (λ a. (t : Ticket) × (s a ≡ some t) × (t.status ≡ q)) ptrs
    → (l : List (ℕ × MatchTicketStatus)) × (snapshot next ptrs s ≡ some l)
unfolding snapshot
snapshot_succeeds next q [] s c h = ([], refl)
snapshot_succeeds next q (a ∷ ptrs) s c ((t, found, at), h) =
    let (l, e) = snapshot_succeeds next q ptrs s c h in
    let can : can_change_status t.status next ≡ true = rw at c in
    ((a, t.status) ∷ l, snapshot-found next a ptrs s t found ∙ rw (can, e))

finish_change_done :
    (next : MatchTicketStatus) (x : Session) (o : Tickets × Bool)
    → o.1 ≡ true
    → (finish_change next x o).2 ≡ true
finish_change_done next x (s, true) e = refl
finish_change_done next x (s, false) e = cc

-- A session that lists no ticket twice and is in step with its tickets changes status exactly when
-- the table allows it.
pub change_session_status-eq-can_change_status :
    (next : MatchTicketStatus) (x : Session) (s : Tickets)
    → Distinct x.ticket_list
    → InStep x s
    → (change_session_status next x s).2 ≡ can_change_status x.status next
unfolding change_session_status
change_session_status-eq-can_change_status next x s d h =
    elim (Bool-cases (can_change_status x.status next)) [
      | inr refused ↦ rw refused
      | inl allowed ↦
          let (l, e) = snapshot_succeeds next x.status x.ticket_list s allowed h in
          let o : SnapshotOutcome next x.ticket_list s (some l) =
            rw e at (snapshot-SnapshotOutcome next x.ticket_list s) in
          rw (allowed, e)
            (finish_change_done next x (commit next [] l s)
              (commit_succeeds next [] l s (rw o.0 d) o.1))
    ]

-- Moving tickets keeps them in step.
moved_in_step :
    (next : MatchTicketStatus) (q : MatchTicketStatus) (all ptrs : List ℕ) (s s' : Tickets)
    → ((b : ℕ) → s' b ≡ (if contains b all then restatus next (s b) else s b))
    → All (λ a. contains a all ≡ true) ptrs
    → All (λ a. (t : Ticket) × (s a ≡ some t) × (t.status ≡ q)) ptrs
    → All (λ a. (t : Ticket) × (s' a ≡ some t) × (t.status ≡ next)) ptrs
moved_in_step next q all [] s s' m c h = tt
moved_in_step next q all (a ∷ ptrs) s s' m c ((t, found, at), h) =
    ((with_status next t, m a ∙ rw (c.0, found), refl), moved_in_step next q all ptrs s s' m c.1 h)

same_in_step :
    (q : MatchTicketStatus) (ptrs : List ℕ) (s s' : Tickets)
    → ((b : ℕ) → s' b ≡ s b)
    → All (λ a. (t : Ticket) × (s a ≡ some t) × (t.status ≡ q)) ptrs
    → All (λ a. (t : Ticket) × (s' a ≡ some t) × (t.status ≡ q)) ptrs
same_in_step q [] s s' m h = tt
same_in_step q (a ∷ ptrs) s s' m ((t, found, at), h) =
    ((t, m a ∙ found, at), same_in_step q ptrs s s' m h)

ChangeOutcome-InStep :
    (next : MatchTicketStatus) (x : Session) (s : Tickets) (o : Session × Tickets × Bool)
    → InStep x s
    → ChangeOutcome next x s o
    → InStep o.0 o.1
ChangeOutcome-InStep next x s (x', s', true) h (e, c, m) =
    rw e (
      moved_in_step next x.status x.ticket_list x.ticket_list s s' m (contains_own x.ticket_list) h)
ChangeOutcome-InStep next x s (x', s', false) h (e, m) =
    rw e (same_in_step x.status x.ticket_list s s' m h)

-- A session that lists no ticket twice stays in step with its tickets through every change of
-- status.
pub change_session_status-InStep :
    (next : MatchTicketStatus) (x : Session) (s : Tickets)
    → Distinct x.ticket_list
    → InStep x s
    → InStep (change_session_status next x s).0 (change_session_status next x s).1
change_session_status-InStep next x s d h =
    ChangeOutcome-InStep next x s (change_session_status next x s) h
      (change_session_status-ChangeOutcome next x s d)
