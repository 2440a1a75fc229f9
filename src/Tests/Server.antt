-- ===== src/Tests/Server.antt =====
-- MM/matching/MatchSessionManager.cpp: a server with one session that awaits acceptance.
use cpp_matchmaking_mvp.Common.{
  ◌≡◌, refl, pos, All, true, none, some, [], ◌∷◌, if◌then◌else◌, ◌==◌, arith, lookup,
}
use cpp_matchmaking_mvp.Types.{requires_acceptance, failed, accept_status, can_change_status}
use cpp_matchmaking_mvp.Server.{Server, new_server}
use cpp_matchmaking_mvp.Server.Matching.{
  find_match_session, on_failed_match_session, on_time_out_accept_match_session, contains_world,
}
use cpp_matchmaking_mvp.Server.Create.{register_session}
use cpp_matchmaking_mvp.Server.Ending.{
  Ended, TimeOutcome, on_failed_match_session-Ended, on_time_out_accept_match_session-TimeOutcome,
}
use cpp_matchmaking_mvp.Server.Worlds.{worlds_for, worlds_for-contains_world}
use cpp_matchmaking_mvp.Server.Clash.{register_session-taken}
use cpp_matchmaking_mvp.Tests.Session.{two_tickets, waiting, waiting-InStep}

abbrev pub awaiting : Server
awaiting = record new_server {
  tickets = two_tickets;
  sessions = λ p. if p == 0 then some waiting else none;
  next_session = 1;
  match_sessions = record { entries = (1, 0) ∷ []; by_player = (1, 1) ∷ (2, 1) ∷ [] };
}

waiting_found : find_match_session 1 awaiting ≡ some (0, waiting)
unfolding find_match_session
waiting_found = refl

may_fail : can_change_status requires_acceptance failed ≡ true
unfolding can_change_status
may_fail = refl

on_failed_match_session-Ended_example :
    Ended failed accept_status 1 waiting (on_failed_match_session 1 accept_status awaiting)
on_failed_match_session-Ended_example =
    on_failed_match_session-Ended accept_status 1 0 waiting awaiting waiting_found
      (refl, (refl, tt)) waiting-InStep may_fail

on_time_out_accept_match_session-TimeOutcome_example :
    TimeOutcome requires_acceptance 1 waiting awaiting (on_time_out_accept_match_session 1 awaiting)
on_time_out_accept_match_session-TimeOutcome_example =
    on_time_out_accept_match_session-TimeOutcome 1 0 waiting awaiting waiting_found
      (refl, (refl, tt)) waiting-InStep

worlds_for-contains_world_example :
    All
      (λ w. contains_world w new_server.integrate_worlds ≡ true)
      (worlds_for (pos 9 ∷ pos 2 ∷ pos 8 ∷ []) new_server)
worlds_for-contains_world_example =
    worlds_for-contains_world (pos 9 ∷ pos 2 ∷ pos 8 ∷ []) new_server (omega arith) (omega arith)

register_session-taken_example :
    lookup 1 (register_session 100 1 waiting awaiting).match_sessions.entries ≡ none
register_session-taken_example = register_session-taken 100 1 0 waiting awaiting refl
