-- ===== src/Tests/SoloWorker.antt =====
-- MM/matching/workers/SoloMatchmakingWorker.cpp: a match of two, and three requests that wait.
use cpp_matchmaking_mvp.Common.{refl, ℕ, pos, [], ◌∷◌, arith, ◌+◌}
use cpp_matchmaking_mvp.Server.{Server, new_server}
use cpp_matchmaking_mvp.Rule.{MatchmakingRule}
use cpp_matchmaking_mvp.SoloWorker.{Worker, make_worker, fill, cancel, do_worker_async_job}
use cpp_matchmaking_mvp.Request.{Request}
use cpp_matchmaking_mvp.SoloWorker.Matched.{JobOutcome, do_worker_async_job-JobOutcome}
use cpp_matchmaking_mvp.SoloWorker.Cancel.{CancelOutcome, cancel-CancelOutcome}
use cpp_matchmaking_mvp.Tests.Session.{two_tickets}
use cpp_matchmaking_mvp.Tests.PartyWorker.{queued_tickets}

abbrev request_of : ℕ → Request
request_of k = record {
  pointer = k + 19;
  ticket = k + 9;
  ticket_id = k;
  player_count = 1;
  start_time_msec = 0;
}

abbrev pairs : MatchmakingRule
pairs = record { match_zone_id = 0; match_player_count = 2; combination = [] }

abbrev three_waiting : Worker
three_waiting = record (make_worker pairs (record { world_group = pos 0; zone_id = 0 })) {
  waiting = (1, request_of 1) ∷ (2, request_of 2) ∷ (3, request_of 3) ∷ [];
}

abbrev queued_server : Server
queued_server = record new_server { tickets = queued_tickets }

do_worker_async_job-JobOutcome_example :
    JobOutcome 50 three_waiting queued_server (do_worker_async_job 50 three_waiting queued_server)
unfolding fill
do_worker_async_job-JobOutcome_example =
    do_worker_async_job-JobOutcome 50 three_waiting queued_server (omega arith) (refl, (refl, tt))

cancel-CancelOutcome_example :
    CancelOutcome 10 two_tickets three_waiting (cancel 10 two_tickets three_waiting)
cancel-CancelOutcome_example = cancel-CancelOutcome 10 two_tickets three_waiting
