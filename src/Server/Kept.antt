-- ===== src/Server/Kept.antt =====
-- MM/matching/MatchSessionManager.cpp: its methods keep the files of the two managers.
pub mod Created
use cpp_matchmaking_mvp.Common.{
  ℕ, ◌+◌, ◌*◌, ℤ, negsuc, eqb_ℤ, Bool, true, false, Option, none, some, List, [], ◌∷◌, ◌==◌,
  if◌then◌else◌, length, Bool-cases, Option-cases, inl, inr,
}
use cpp_matchmaking_mvp.Types.{
  ProtocolResult, create_match_session, is_success, accept_status, async_job_error,
  MatchTicketStatus, failed, timed_out, placing, requires_acceptance, completed, eqb_status,
  GroupKey, PlayerMatchAcceptInfo, IntegrationZoneInstanceInfo,
}
use cpp_matchmaking_mvp.Ticket.{change_status, call_on, update_on, with_reason}
use cpp_matchmaking_mvp.Ticket.Kept.{call_on-KeepsTickets, with_reason-KeepsTickets}
use cpp_matchmaking_mvp.Session.{Session, set_ticket_reasons, change_session_status}
use cpp_matchmaking_mvp.Session.Kept.{
  change_session_status-KeepsTickets, set_ticket_reasons-KeepsTickets,
}
use cpp_matchmaking_mvp.Server.{
  Server, Owner, solo, party, owner_of, erase_match_ticket, on_failed_matchmaking,
  notify_matchmaking_failure, notify_all, expire_matchmaking_ownership, expire_all,
}
use cpp_matchmaking_mvp.Server.Matching.{
  get_next_integration_world_no, contains_world, insert_match_session, erase_match_session,
  find_match_session, change_session, set_status_reason, end_session, on_failed_match_session,
  on_time_out_accept_match_session, on_time_out_place_match_session, place_match_session,
}
use cpp_matchmaking_mvp.Server.File.{Holds, Holds-heap, erase_match_ticket-Holds}

pub if-Holds :
    (n : ℕ) (b : Bool) (s s' : Server) → Holds n s → Holds n s' → Holds n (if b then s else s')
if-Holds n true s s' v v' = v
if-Holds n false s s' v v' = v'

pub on_failed_matchmaking-Holds :
    (n : ℕ) (o : Owner) (a : ℕ) (r : ProtocolResult) (s : Server)
    → Holds n s
    → Holds n (on_failed_matchmaking o a r s)
unfolding on_failed_matchmaking
on_failed_matchmaking-Holds n o a r s v = elim (Option-cases (s.tickets a)) [
  | inl missing ↦ rw (missing, on_failed_matchmaking) v
  | inr (t, found) ↦
      let m = (call_on a (change_status failed) s.tickets).0 in
      let vm = Holds-heap n s m (call_on-KeepsTickets a failed s.tickets) v in
      let erased = erase_match_ticket o t.ticket_id (record s { tickets = m }) in
      let ve = erase_match_ticket-Holds n t.ticket_id o (record s { tickets = m }) vm in
      let told =
        Holds-heap n erased (update_on a (with_reason r) erased.tickets)
          (with_reason-KeepsTickets a r erased.tickets) ve in
      let both =
        if-Holds n (call_on a (change_status failed) s.tickets).1
          (record erased { tickets = update_on a (with_reason r) erased.tickets })
          (record s { tickets = m }) told vm in
      rw (found, on_failed_matchmaking) both
]

pub change_session-Holds :
    (n : ℕ) (next : MatchTicketStatus) (p : ℕ) (x : Session) (s : Server)
    → Holds n s
    → Holds n (change_session next p x s).0
unfolding change_session
change_session-Holds n next p x s v =
    Holds-heap n s (change_session_status next x s.tickets).1
      (change_session_status-KeepsTickets next x s.tickets) v

set_status_reason-Holds :
    (n : ℕ) (r : ProtocolResult) (p : ℕ) (x : Session) (s : Server)
    → Holds n s
    → Holds n (set_status_reason r p x s)
unfolding set_status_reason
set_status_reason-Holds n r p x s v =
    Holds-heap n s (set_ticket_reasons r x.ticket_list s.tickets)
      (set_ticket_reasons-KeepsTickets r x.ticket_list s.tickets) v

pub erase_match_session-Holds :
    (n id : ℕ) (s : Server) → Holds n s → Holds n (erase_match_session id s)
unfolding erase_match_session
erase_match_session-Holds n id s v = v

end_session-Holds :
    (n : ℕ) (final : MatchTicketStatus) (r : ProtocolResult) (id p : ℕ) (x : Session) (s : Server)
    → Holds n s
    → Holds n (end_session final r id p x s)
unfolding end_session
end_session-Holds n final r id p x s v =
    let changed = (change_session final p x s).0 in
    let vc : Holds n changed = change_session-Holds n final p x s v in
    if-Holds n (change_session final p x s).1
      (set_status_reason r p (record x { status = final }) (erase_match_session id changed)) changed
      (set_status_reason-Holds n r p (record x { status = final }) (erase_match_session id changed)
        (erase_match_session-Holds n id changed vc))
      vc

pub on_failed_match_session-Holds :
    (n id : ℕ) (r : ProtocolResult) (s : Server)
    → Holds n s
    → Holds n (on_failed_match_session id r s)
unfolding on_failed_match_session
on_failed_match_session-Holds n id r s v = elim (Option-cases (find_match_session id s)) [
  | inl missing ↦ rw (missing, on_failed_match_session) v
  | inr ((p, x), found) ↦
      rw (found, on_failed_match_session) (end_session-Holds n failed r id p x s v)
]

pub on_time_out_accept-Holds :
    (n id : ℕ) (s : Server) → Holds n s → Holds n (on_time_out_accept_match_session id s)
unfolding on_time_out_accept_match_session
on_time_out_accept-Holds n id s v = elim (Option-cases (find_match_session id s)) [
  | inl missing ↦ rw (missing, on_time_out_accept_match_session) v
  | inr ((p, x), found) ↦
      rw (found, on_time_out_accept_match_session)
        (if-Holds n (eqb_status x.status requires_acceptance)
          (end_session timed_out create_match_session id p x s) s
          (end_session-Holds n timed_out create_match_session id p x s v) v)
]

pub on_time_out_place-Holds :
    (n id : ℕ) (s : Server) → Holds n s → Holds n (on_time_out_place_match_session id s)
unfolding on_time_out_place_match_session
on_time_out_place-Holds n id s v = elim (Option-cases (find_match_session id s)) [
  | inl missing ↦ rw (missing, on_time_out_place_match_session) v
  | inr ((p, x), found) ↦
      rw (found, on_time_out_place_match_session)
        (if-Holds n (eqb_status x.status placing)
          (end_session timed_out create_match_session id p x s) s
          (end_session-Holds n timed_out create_match_session id p x s v) v)
]

pub place_match_session-Holds :
    (n now id : ℕ) (s : Server) → Holds n s → Holds n (place_match_session now id s)
unfolding place_match_session
place_match_session-Holds n now id s v = elim (Option-cases (find_match_session id s)) [
  | inl missing ↦ rw (missing, place_match_session) v
  | inr ((p, x), found) ↦
      let changed = (change_session placing p x s).0 in
      let vc : Holds n changed = change_session-Holds n placing p x s v in
      rw (found, place_match_session)
        (if-Holds n (eqb_status x.status placing) s _ v (
          if-Holds n (change_session placing p x s).1 _
            (on_failed_match_session x.match_id async_job_error changed) vc
            (on_failed_match_session-Holds n x.match_id async_job_error changed vc)))
]

pub notify_all-Holds :
    (n : ℕ) (ptrs : List ℕ) (r : ProtocolResult) (s : Server)
    → Holds n s
    → Holds n (notify_all ptrs r s)
unfolding notify_all notify_matchmaking_failure
notify_all-Holds n [] r s v = v
notify_all-Holds n (a ∷ ptrs) r s v =
    notify_all-Holds n ptrs r (notify_matchmaking_failure a r s) told
  where
    told : Holds n (notify_matchmaking_failure a r s)
    told = elim (Option-cases (s.tickets a)) [
      | inl missing ↦ rw (missing, notify_matchmaking_failure) v
      | inr (t, found) ↦
          rw (found, notify_matchmaking_failure)
            (on_failed_matchmaking-Holds n (owner_of t) a r s v)
    ]

pub expire_all-Holds :
    (n : ℕ) (ptrs : List ℕ) (s : Server) → Holds n s → Holds n (expire_all ptrs s)
unfolding expire_all expire_matchmaking_ownership
expire_all-Holds n [] s v = v
expire_all-Holds n (a ∷ ptrs) s v =
    expire_all-Holds n ptrs (expire_matchmaking_ownership a s) expired
  where
    expired : Holds n (expire_matchmaking_ownership a s)
    expired = elim (Option-cases (s.tickets a)) [
      | inl missing ↦ rw (missing, expire_matchmaking_ownership) v
      | inr (t, found) ↦
          rw (found, expire_matchmaking_ownership)
            (erase_match_ticket-Holds n t.ticket_id (owner_of t) s v)
    ]
