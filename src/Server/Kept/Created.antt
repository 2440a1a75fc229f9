-- ===== src/Server/Kept/Created.antt =====
-- MM/matching/MatchSessionManager.cpp: `CreateMatchSession`, `AcceptMatchSession` and
-- `OnCompleteMatchSession` keep the files of the two managers.
use cpp_matchmaking_mvp.Common.{
  ℕ, ◌+◌, ◌*◌, ℤ, negsuc, eqb_ℤ, true, Option, none, some, List, [], ◌∷◌, ◌==◌, length, Bool-cases,
  Option-cases, inl, inr,
}
use cpp_matchmaking_mvp.Types.{
  ProtocolResult, success, is_success, create_match_session, accept_status, async_job_error,
  requires_acceptance, completed, searching, eqb_status, GroupKey, PlayerMatchAcceptInfo,
  IntegrationZoneInstanceInfo,
}
use cpp_matchmaking_mvp.Session.{
  Session, all_players, make_session, accept_info, all_accepted, accept_player_session,
}
use cpp_matchmaking_mvp.Zones.{Zone, insert_zone, erase_zone}
use cpp_matchmaking_mvp.Penalty.{add_dodge_penalty}
use cpp_matchmaking_mvp.Server.{
  Server, SessionJob, time_out_accept, time_out_place, demo_accept, demo_complete, notify_all,
  expire_all, put_session,
}
use cpp_matchmaking_mvp.Server.Matching.{
  get_next_integration_world_no, contains_world, insert_match_session, erase_match_session,
  find_match_session, find_match_session_by_player_key, change_session, on_failed_match_session,
  schedule_job, place_match_session,
}
use cpp_matchmaking_mvp.Server.Create.{
  schedule_demo_accepts, request_acceptance, register_session, create_session, accept_match_session,
  insert_completed, after_answer, on_complete_match_session, run_session_job,
}
use cpp_matchmaking_mvp.Server.File.{Holds}
use cpp_matchmaking_mvp.Server.Kept.{
  if-Holds, change_session-Holds, erase_match_session-Holds, on_failed_match_session-Holds,
  on_time_out_accept-Holds, on_time_out_place-Holds, place_match_session-Holds, notify_all-Holds,
  expire_all-Holds,
}

schedule_demo_accepts-Holds :
    (n now order : ℕ) (ks : List ℕ) (s : Server)
    → Holds n s
    → Holds n (schedule_demo_accepts now order ks s)
unfolding schedule_demo_accepts
schedule_demo_accepts-Holds n now order [] s v = v
schedule_demo_accepts-Holds n now order (k ∷ ks) s v =
    schedule_demo_accepts-Holds n now (order + 1) ks
      (schedule_job (now + 1000 * (order + 1)) (demo_accept k) s) v

request_acceptance-Holds :
    (n now p : ℕ) (x : Session) (s : Server) → Holds n s → Holds n (request_acceptance now p x s)
unfolding request_acceptance
request_acceptance-Holds n now p x s v =
    let changed = (change_session requires_acceptance p x s).0 in
    let vc : Holds n changed = change_session-Holds n requires_acceptance p x s v in
    let released = expire_all x.ticket_list changed in
    let vr : Holds n released = expire_all-Holds n x.ticket_list changed vc in
    if-Holds n (change_session requires_acceptance p x s).1 _
      (on_failed_match_session x.match_id accept_status changed)
      (schedule_demo_accepts-Holds n now 0 (all_players released.tickets x.ticket_list)
        (schedule_job (now + 60000) (time_out_accept x.match_id) released) vr)
      (on_failed_match_session-Holds n x.match_id accept_status changed vc)

register_session-Holds :
    (n now p : ℕ) (x : Session) (s : Server) → Holds n s → Holds n (register_session now p x s)
unfolding register_session insert_match_session
register_session-Holds n now p x s v =
    let s' = (insert_match_session p x s).0 in
    let v' : Holds n s' = v in
    if-Holds n (insert_match_session p x s).1 (request_acceptance now p x s') _
      (request_acceptance-Holds n now p x s' v')
      (notify_all-Holds n x.ticket_list create_match_session (erase_match_session x.match_id s')
        (erase_match_session-Holds n x.match_id s' v'))

get_next-Holds :
    (n : ℕ) (g : ℤ) (s : Server) → Holds n s → Holds n (get_next_integration_world_no g s).0
unfolding get_next_integration_world_no
get_next-Holds n g s v = elim (Bool-cases (length s.integrate_worlds == 0)) [
  | inl empty ↦ rw (empty, get_next_integration_world_no) v
  | inr worlds ↦ elim (Bool-cases (contains_world g s.integrate_worlds)) [
    | inl own ↦ rw (worlds, get_next_integration_world_no) (rw own v)
    | inr other ↦ rw (worlds, get_next_integration_world_no) (rw other v)
  ]
]

pub create_session-Holds :
    (n now : ℕ) (group : GroupKey) (ptrs : List ℕ) (s : Server)
    → Holds n s
    → Holds n (create_session now group ptrs s)
unfolding create_session
create_session-Holds n now group [] s v = v
create_session-Holds n now group (a ∷ ptrs) s v = elim (Option-cases (s.tickets a)) [
  | inl missing ↦ rw (missing, create_session) v
  | inr (t, found) ↦
      let s' = (get_next_integration_world_no group.world_group s).0 in
      let world_no = (get_next_integration_world_no group.world_group s).1 in
      let v' : Holds n s' = get_next-Holds n group.world_group s v in
      let p = s'.next_session in
      let x = record (make_session group.zone_id world_no t.ticket_id (a ∷ ptrs) s'.tickets) {
        status = searching;
      } in
      rw (found, create_session)
        (if-Holds n (eqb_ℤ world_no (negsuc 0)) (notify_all (a ∷ ptrs) create_match_session s') _
          (notify_all-Holds n (a ∷ ptrs) create_match_session s' v')
          (register_session-Holds n now p x (put_session p x (record s' { next_session = p + 1 }))
            v'))
]

after_answer-Holds :
    (n now p : ℕ) (info : PlayerMatchAcceptInfo) (x : Session) (s : Server)
    → Holds n s
    → Holds n (after_answer now p info x s)
after_answer-Holds n now p info x s v =
    if-Holds n info.is_accept _ _
      (if-Holds n (all_accepted x.accept_infos) (place_match_session now x.match_id s) s
        (place_match_session-Holds n now x.match_id s v) v)
      (on_failed_match_session-Holds n x.match_id accept_status
        (record s { penalties = add_dodge_penalty info.player_key (now + 15000) s.penalties }) v)

pub accept_match_session-Holds :
    (n now : ℕ) (info : PlayerMatchAcceptInfo) (s : Server)
    → Holds n s
    → Holds n (accept_match_session now info s)
unfolding accept_match_session
accept_match_session-Holds n now info s v =
    elim (Option-cases (find_match_session_by_player_key info.player_key s)) [
      | inl missing ↦ rw (missing, accept_match_session) v
      | inr ((p, x), found) ↦
          let x' = (accept_player_session info x).0 in
          rw (found, accept_match_session)
            (if-Holds n (all_accepted x.accept_infos) s _ v (
              if-Holds n (eqb_status x.status requires_acceptance) _ s
                (if-Holds n (accept_player_session info x).1 _ s
                  (after_answer-Holds n now p info x' (put_session p x' s) v) v)
                v))
    ]

insert_completed-Holds :
    (n id p : ℕ) (x : Session) (o : Option Zone) (s : Server)
    → Holds n s
    → Holds n (insert_completed id p x o s)
insert_completed-Holds n id p x none s v = on_failed_match_session-Holds n id async_job_error s v
insert_completed-Holds n id p x (some zone) s v =
    let changed = (change_session completed p x s).0 in
    let vc : Holds n changed = change_session-Holds n completed p x s v in
    if-Holds n (change_session completed p x s).1 (erase_match_session id changed) _
      (erase_match_session-Holds n id changed vc)
      (on_failed_match_session-Holds n id async_job_error
        (record changed { zones = (erase_zone zone.key changed.zones).0 }) vc)

pub on_complete_match_session-Holds :
    (n now : ℕ) (info : IntegrationZoneInstanceInfo) (r : ProtocolResult) (s : Server)
    → Holds n s
    → Holds n (on_complete_match_session now info r s)
unfolding on_complete_match_session
on_complete_match_session-Holds n now info r s v =
    if-Holds n (is_success r) _ (on_failed_match_session info.match_id r s)
      (elim (Option-cases (find_match_session info.match_id s)) [
        | inl missing ↦
            rw missing (on_failed_match_session-Holds n info.match_id async_job_error s v)
        | inr ((p, x), found) ↦ rw found (
            insert_completed-Holds n info.match_id p x (insert_zone now info s.zones).1
              (record s { zones = (insert_zone now info s.zones).0 }) v)
      ])
      (on_failed_match_session-Holds n info.match_id r s v)

pub run_session_job-Holds :
    (n now : ℕ) (j : SessionJob) (s : Server) → Holds n s → Holds n (run_session_job now j s)
unfolding run_session_job
run_session_job-Holds n now (time_out_accept id) s v = on_time_out_accept-Holds n id s v
run_session_job-Holds n now (time_out_place id) s v = on_time_out_place-Holds n id s v
run_session_job-Holds n now (demo_accept k) s v =
    accept_match_session-Holds n now (accept_info k true) s v
run_session_job-Holds n now (demo_complete info) s v =
    on_complete_match_session-Holds n now info success s v
