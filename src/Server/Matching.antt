-- ===== src/Server/Matching.antt =====
-- MM/matching/MatchSessionManager.cpp: the life of a session. Each method is a step of the server;
-- the ones that read the clock take `now`.
use cpp_matchmaking_mvp.Common.{
  ℕ, ◌+◌, ◌-◌, ◌%◌, ltb, ℤ, pos, negsuc, eqb_ℤ, Bool, false, Option, none, some, List, [], ◌∷◌,
  ◌==◌, if◌then◌else◌, zero, suc, length, ◌||◌,
}
use cpp_matchmaking_mvp.Types.{
  ProtocolResult, create_match_session, async_job_error, MatchTicketStatus, eqb_status,
  requires_acceptance, placing, failed, timed_out, IntegrationZoneInstanceInfo,
}
use cpp_matchmaking_mvp.Session.{
  Session, all_players, change_session_status, set_ticket_reasons, set_session_reason,
  session_players,
}
use cpp_matchmaking_mvp.Registry.{insert_entry, erase_entry, find_entry, find_by_player}
use cpp_matchmaking_mvp.Jobs.{do_async_job}
use cpp_matchmaking_mvp.Server.{
  Server, SessionJob, time_out_place, demo_complete, session_keys, put_session,
}

-- `integration_worlds[index]`
abbrev pub world_at : ℕ → List ℤ → ℤ
world_at i [] = negsuc 0
world_at zero (w ∷ ws) = w
world_at (suc i) (w ∷ ws) = world_at i ws

abbrev pub contains_world : ℤ → List ℤ → Bool
contains_world w [] = false
contains_world w (v ∷ ws) = eqb_ℤ w v || contains_world w ws

-- `integration_worlds[next_index]` for a counter of 32 bits: one of 2^31 or more is a negative `int`, whose
-- remainder is negative or 0.
unfoldable pub world_of_turn : (turn : ℕ) → Server → ℤ
world_of_turn k s =
    if ltb k 2147483648
    then world_at (k % length s.integrate_worlds) s.integrate_worlds
    else if (4294967296 - k) % length s.integrate_worlds == 0
    then world_at 0 s.integrate_worlds
    else s.stray_world

-- `GetNextIntegrationWorldNo`
unfoldable pub get_next_integration_world_no : (world_group : ℤ) → Server → Server × ℤ
get_next_integration_world_no g s =
    if length s.integrate_worlds == 0
    then (s, negsuc 0)
    else if contains_world g s.integrate_worlds
    then (s, g)
    else (
      record s { world_turns = (s.world_turns + 1) % 4294967296 },
      world_of_turn s.world_turns s,
    )

-- `InsertMatchSession` of the session at `p`.
unfoldable pub insert_match_session : (p : ℕ) → Session → Server → Server × Bool
insert_match_session p x s =
    let (r, done) =
      insert_entry x.match_id p (all_players s.tickets x.ticket_list) s.match_sessions in
    (record s { match_sessions = r }, done)

-- `EraseMatchSession`
unfoldable pub erase_match_session : (id : ℕ) → Server → Server
erase_match_session id s = record s {
  match_sessions = (erase_entry (session_keys s) id s.match_sessions).0;
}

-- The session that a pointer from the map leads to.
abbrev session_at : Server → Option ℕ → Option (ℕ × Session)
session_at s none = none
session_at s (some p) = elim (s.sessions p) [ none ↦ none | some x ↦ some (p, x) ]

-- `FindMatchSession`
unfoldable pub find_match_session : (id : ℕ) → Server → Option (ℕ × Session)
find_match_session id s = session_at s (find_entry id s.match_sessions)

-- `FindMatchSessionByPlayerKey`
unfoldable pub find_match_session_by_player_key : (player : ℕ) → Server → Option (ℕ × Session)
find_match_session_by_player_key k s = session_at s (find_by_player k s.match_sessions)

-- `match_session_ptr->ChangeStatus(...)`
unfoldable pub change_session : MatchTicketStatus → (p : ℕ) → Session → Server → Server × Bool
change_session next p x s =
    let (x', tickets, done) = change_session_status next x s.tickets in
    (put_session p x' (record s { tickets = tickets }), done)

-- `match_session_ptr->SetStatusReason(...)`; the session is on no map any more, but still shared.
unfoldable pub set_status_reason : ProtocolResult → (p : ℕ) → Session → Server → Server
set_status_reason reason p x s =
    put_session p (set_session_reason reason x)
      (record s { tickets = set_ticket_reasons reason x.ticket_list s.tickets })

-- A session ends in `final`: its status changes, it leaves the maps, and its tickets learn why.
unfoldable pub end_session :
    (final : MatchTicketStatus) → ProtocolResult → (id p : ℕ) → Session → Server → Server
end_session final reason id p x s =
    let (changed, done) = change_session final p x s in
    if done
    then set_status_reason reason p (record x { status = final }) (erase_match_session id changed)
    else changed

-- `OnFailedMatchSession`
unfoldable pub on_failed_match_session : (id : ℕ) → ProtocolResult → Server → Server
on_failed_match_session id reason s = elim (find_match_session id s) [
  | none ↦ s
  | some (p, x) ↦ end_session failed reason id p x s
]

-- `OnTimeOutAcceptMatchSession`
unfoldable pub on_time_out_accept_match_session : (id : ℕ) → Server → Server
on_time_out_accept_match_session id s = elim (find_match_session id s) [
  | none ↦ s
  | some (p, x) ↦
      if eqb_status x.status requires_acceptance
      then end_session timed_out create_match_session id p x s
      else s
]

-- `OnTimeOutPlaceMatchSession`
unfoldable pub on_time_out_place_match_session : (id : ℕ) → Server → Server
on_time_out_place_match_session id s = elim (find_match_session id s) [
  | none ↦ s
  | some (p, x) ↦
      if eqb_status x.status placing then end_session timed_out create_match_session id p x s else s
]

-- `m_AsyncJobWorker.DoAsyncJob(...)`
abbrev pub schedule_job : (time : ℕ) → SessionJob → Server → Server
schedule_job t j s = record s { session_jobs = (do_async_job t j s.session_jobs).0 }

-- The instance that `PlaceMatchSession` asks for.
abbrev pub placed_zone : (id : ℕ) → Session → IntegrationZoneInstanceInfo
placed_zone id x = record {
  zone_guid = id;
  world_no = x.match_world_no;
  world_session_key = pos id;
  match_id = id;
  zone_id = x.match_zone_id;
  players = session_players x.accept_infos;
  enter_players = [];
  paid_players = [];
}

-- `PlaceMatchSession`
unfoldable pub place_match_session : (now id : ℕ) → Server → Server
place_match_session now id s = elim (find_match_session id s) [
  | none ↦ s
  | some (p, x) ↦
      (let (changed, done) = change_session placing p x s in
        if eqb_status x.status placing
        then s
        else if done
        then schedule_job (now + 2000) (demo_complete (placed_zone id x))
            (schedule_job (now + 10000) (time_out_place id) changed)
        else on_failed_match_session x.match_id async_job_error changed)
]
