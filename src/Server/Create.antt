-- ===== src/Server/Create.antt =====
-- MM/matching/MatchSessionManager.cpp: how a session comes about, how its players answer, and how
-- it is completed. The observer of new sessions only records statistics; it is left out.
use cpp_matchmaking_mvp.Common.{
  ℕ, ◌+◌, ◌*◌, negsuc, eqb_ℤ, true, Option, none, some, List, [], ◌∷◌, if◌then◌else◌,
}
use cpp_matchmaking_mvp.Types.{
  ProtocolResult, success, is_success, create_match_session, accept_status, async_job_error,
  eqb_status, searching, requires_acceptance, completed, GroupKey, PlayerMatchAcceptInfo,
  IntegrationZoneInstanceInfo,
}
use cpp_matchmaking_mvp.Session.{
  Session, all_players, accept_info, make_session, all_accepted, accept_player_session,
}
use cpp_matchmaking_mvp.Penalty.{add_dodge_penalty}
use cpp_matchmaking_mvp.Zones.{Zone, insert_zone, erase_zone}
use cpp_matchmaking_mvp.Server.{
  Server, SessionJob, time_out_accept, demo_accept, demo_complete, time_out_place, notify_all,
  expire_all, put_session,
}
use cpp_matchmaking_mvp.Server.Matching.{
  get_next_integration_world_no, insert_match_session, erase_match_session, find_match_session,
  find_match_session_by_player_key, change_session, on_failed_match_session,
  on_time_out_accept_match_session, on_time_out_place_match_session, schedule_job,
  place_match_session,
}

-- The players of a session answer one after the other, a second apart.
unfoldable pub schedule_demo_accepts : (now order : ℕ) (players : List ℕ) → Server → Server
schedule_demo_accepts now order [] s = s
schedule_demo_accepts now order (k ∷ ks) s =
    schedule_demo_accepts now (order + 1) ks
      (schedule_job (now + 1000 * (order + 1)) (demo_accept k) s)

-- `CreateMatchSession` from the change of status on, for the session at `p`.
unfoldable pub request_acceptance : (now p : ℕ) → Session → Server → Server
request_acceptance now p x s =
    let (changed, done) = change_session requires_acceptance p x s in
    let released = expire_all x.ticket_list changed in
    if done
    then schedule_demo_accepts now 0 (all_players released.tickets x.ticket_list)
        (schedule_job (now + 60000) (time_out_accept x.match_id) released)
    else on_failed_match_session x.match_id accept_status changed

-- `CreateMatchSession` from the insertion on.
unfoldable pub register_session : (now p : ℕ) → Session → Server → Server
register_session now p x s =
    let (s', inserted) = insert_match_session p x s in
    if inserted
    then request_acceptance now p x s'
    else notify_all x.ticket_list create_match_session (erase_match_session x.match_id s')

-- `CreateMatchSession`; the lists of the workers hold no null pointer, which the source would
-- follow.
unfoldable pub create_session : (now : ℕ) → GroupKey → (tickets : List ℕ) → Server → Server
create_session now group [] s = s
create_session now group (a ∷ ptrs) s = elim (s.tickets a) [
  | none ↦ s
  | some t ↦
      (let (s', world_no) = get_next_integration_world_no group.world_group s in
        let x = record (make_session group.zone_id world_no t.ticket_id (a ∷ ptrs) s'.tickets) {
          status = searching;
        } in
        let p = s'.next_session in
        if eqb_ℤ world_no (negsuc 0)
        then notify_all (a ∷ ptrs) create_match_session s'
        else register_session now p x (put_session p x (record s' { next_session = p + 1 })))
]

-- The rest of `AcceptMatchSession` once the answer is noted on the session at `p`.
abbrev pub after_answer : (now p : ℕ) → PlayerMatchAcceptInfo → Session → Server → Server
after_answer now p info x s =
    if info.is_accept
    then (if all_accepted x.accept_infos then place_match_session now x.match_id s else s)
    else on_failed_match_session x.match_id accept_status
        (record s { penalties = add_dodge_penalty info.player_key (now + 15000) s.penalties })

-- `AcceptMatchSession`
unfoldable pub accept_match_session : (now : ℕ) → PlayerMatchAcceptInfo → Server → Server
accept_match_session now info s = elim (find_match_session_by_player_key info.player_key s) [
  | none ↦ s
  | some (p, x) ↦
      (let (x', noted) = accept_player_session info x in
        if all_accepted x.accept_infos
        then s
        else if eqb_status x.status requires_acceptance
        then (if noted then after_answer now p info x' (put_session p x' s) else s)
        else s)
]

-- `OnCompleteMatchSession` from the change of status on, once the instance `zone` is there.
abbrev complete_session : (id p : ℕ) → Session → Zone → Server → Server
complete_session id p x zone s =
    let (changed, done) = change_session completed p x s in
    if done
    then erase_match_session id changed
    else on_failed_match_session id async_job_error
        (record changed { zones = (erase_zone zone.key changed.zones).0 })

abbrev pub insert_completed : (id p : ℕ) → Session → Option Zone → Server → Server
insert_completed id p x none s = on_failed_match_session id async_job_error s
insert_completed id p x (some zone) s = complete_session id p x zone s

-- `OnCompleteMatchSession`
unfoldable pub on_complete_match_session :
    (now : ℕ) → IntegrationZoneInstanceInfo → ProtocolResult → Server → Server
on_complete_match_session now info result s =
    let (zones, zone) = insert_zone now info s.zones in
    if is_success result
    then (elim (find_match_session info.match_id s) [
      | none ↦ on_failed_match_session info.match_id async_job_error s
      | some (p, x) ↦ insert_completed info.match_id p x zone (record s { zones = zones })
    ])
    else on_failed_match_session info.match_id result s

-- A job that the worker of the session manager runs.
unfoldable pub run_session_job : (now : ℕ) → SessionJob → Server → Server
run_session_job now (time_out_accept id) s = on_time_out_accept_match_session id s
run_session_job now (time_out_place id) s = on_time_out_place_match_session id s
run_session_job now (demo_accept k) s = accept_match_session now (accept_info k true) s
run_session_job now (demo_complete info) s = on_complete_match_session now info success s
