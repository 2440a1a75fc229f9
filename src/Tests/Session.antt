-- ===== src/Tests/Session.antt =====
-- MM/matching/core/MatchSession.cpp: a session of two tickets that await the acceptance of their
-- players.
use cpp_matchmaking_mvp.Common.{
  true, ℕ, ◌≡◌, refl, pos, false, none, some, [], ◌∷◌, if◌then◌else◌, ◌==◌,
}
use cpp_matchmaking_mvp.Types.{
  searching, requires_acceptance, placing, no_result, MatchPlayerInfo, can_change_status,
}
use cpp_matchmaking_mvp.Ticket.{Ticket, Tickets}
use cpp_matchmaking_mvp.Session.Answers.{accept_player_session-twice}
use cpp_matchmaking_mvp.Session.{
  accept_info, accept_player_session, Session, change_session_status, commit,
}
use cpp_matchmaking_mvp.Session.Commit.{CommitOutcome, commit_atomic}
use cpp_matchmaking_mvp.Session.Status.{
  change_session_status-eq-can_change_status, InStep, change_session_status-InStep,
}
use cpp_matchmaking_mvp.Session.Change.{ChangeOutcome, change_session_status-ChangeOutcome}

abbrev pub player : ℕ → MatchPlayerInfo
player k = record { player_key = k; offense_power = pos 100; player_level = pos 10; job = pos 1 }

abbrev pub ticket_of : ℕ → Ticket
ticket_of k = record {
  request = record {
    world_no = pos 1;
    match_zone_id = 0;
    match_ticket_id = pos k;
    party_key = pos 0;
    request_player_key = k;
    players = player k ∷ [];
  };
  ticket_id = k;
  start_time_msec = 0;
  world_group_id = pos 1;
  status = requires_acceptance;
  status_reason = no_result;
}

abbrev pub two_tickets : Tickets
two_tickets a = if a == 10 then some (ticket_of 1) else if a == 11 then some (ticket_of 2) else none

abbrev pub waiting : Session
waiting = record {
  match_zone_id = 0;
  match_id = 1;
  ticket_list = 10 ∷ 11 ∷ [];
  match_world_no = pos 1;
  is_backfill = false;
  status = requires_acceptance;
  status_reason = no_result;
  accept_infos = [];
}

pub waiting-InStep : InStep waiting two_tickets
waiting-InStep = ((ticket_of 1, refl, refl), ((ticket_of 2, refl, refl), tt))

-- The second ticket is no longer in the state of the snapshot.
commit_atomic_example :
    CommitOutcome placing two_tickets
      ((10, requires_acceptance) ∷ (11, searching) ∷ [])
      two_tickets
      (commit placing [] ((10, requires_acceptance) ∷ (11, searching) ∷ []) two_tickets)
commit_atomic_example =
    commit_atomic placing ((10, requires_acceptance) ∷ (11, searching) ∷ []) two_tickets
      (refl, (refl, tt))

change_session_status-ChangeOutcome_example :
    ChangeOutcome placing waiting two_tickets (change_session_status placing waiting two_tickets)
change_session_status-ChangeOutcome_example =
    change_session_status-ChangeOutcome placing waiting two_tickets (refl, (refl, tt))

change_session_status-eq-can_change_status_example :
    (change_session_status placing waiting two_tickets).2
    ≡ can_change_status requires_acceptance placing
change_session_status-eq-can_change_status_example =
    change_session_status-eq-can_change_status placing waiting two_tickets (refl, (refl, tt))
      waiting-InStep

change_session_status-InStep_example :
    InStep
      (change_session_status placing waiting two_tickets).0
      (change_session_status placing waiting two_tickets).1
change_session_status-InStep_example =
    change_session_status-InStep placing waiting two_tickets (refl, (refl, tt)) waiting-InStep

-- A session that asks player 7, who refuses and then accepts.
abbrev asking : Session
asking = record waiting { accept_infos = (7, accept_info 7 false) ∷ [] }

refusal_noted : (accept_player_session (accept_info 7 false) asking).1 ≡ true
unfolding accept_player_session
refusal_noted = refl

accept_player_session-twice_example :
    accept_player_session
      (accept_info 7 true)
      (accept_player_session (accept_info 7 false) asking).0
    ≡ ((accept_player_session (accept_info 7 false) asking).0, false)
accept_player_session-twice_example =
    accept_player_session-twice (accept_info 7 false) (accept_info 7 true) asking refusal_noted refl
