-- ===== src/Lib.antt =====
-- A matchmaking server (MM/): players ask for a match alone or as a party; tickets wait in queues
-- until a worker finds a set of them that fills a match; a session then asks every player to accept
-- and places the match on an integration server, where a zone instance is kept for its players.
--
-- The parts and the files that model them:
-- - Types, Types/Status, Types/QueueTime: MM/matching/MatchmakingTypes.h, the records, the statuses
--   of tickets and sessions with the table of allowed changes, and the queue statistics.
-- - Rule: MM/matching/core/MatchmakingRule.cpp, `Number::MakeCombination`: which sets of parties fill
--   a match. Rule/Partitions lists the partitions by recursion; Rule/Loop is about the loop over
--   an explicit stack, Rule/Sound and Rule/Complete about the result.
-- - Ticket: MM/matching/core/MatchmakingTicket.h and .cpp. Tickets are shared objects on a heap.
-- - Session: MM/matching/core/MatchSession.h and .cpp. Session/Commit, Session/Change and
--   Session/Status are about `CMatchSession::ChangeStatus`, Session/Answers about the players' answers.
-- - Registry: the two maps, by id and by player, of MM/matching/MatchSessionManager.cpp,
--   SoloMatchmakingManager.cpp and PartyMatchmakingManager.cpp.
-- - SafeMap: MM/common/TSafeMap.h.
-- - Jobs: MM/workers/AsyncJobWorker.cpp and the workers of MM/workers/WorkerGroup.h.
-- - Penalty: MM/matching/MatchPenaltyManager.cpp.
-- - Zones: MM/integration/IntegrationZoneInstance.cpp and IntegrationZoneInstanceManager.cpp.
--   Zones/Reach is the step relation of the manager's calls and jobs.
-- - Server: the state that MM/matching/MatchSessionManager.cpp shares with the solo and the party
--   manager, and how it hands tickets back to them. Server/Matching and Server/Create are the session
--   manager's methods and jobs, Server/Ending and Server/Clash what becomes of a session.
-- - Request: MM/workers/WorkerJobRequest.h and .cpp. What of a request never changes stands in the
--   queues; the worker indices that change stand on a heap of their own.
-- - SoloWorker, SoloGroup: MM/matching/workers/SoloMatchmakingWorker.h and .cpp, a worker with the
--   queue of solo players, and the workers of one world and zone. SoloWorker/Filling and Matched are
--   about the worker's job.
-- - PartyWorker: MM/matching/workers/PartyMatchmakingWorker.cpp, `CPartyMatchmakingWorker`, the queues
--   by party size and the search for a match. PartyWorker/Queues, Invariant and History are about the
--   queues; PartyWorker/Match, Oldest and Found about what the search returns and when.
-- - PartyGroup: the same file, `CPartyMatchmakingWorkerGroup`. PartyGroup/Commit, Gone, Agree and
--   Outcome are about the commit of a match and cancellation; PartyGroup/Everywhere, Reach, Placed and
--   History about the workers that a request waits with; PartyGroup/Enqueued about `EnqueueJobRequest`.
-- - Managers: MM/matching/SoloMatchmakingManager.cpp, PartyMatchmakingManager.cpp, MatchmakingConfig.h
--   and `TWorkerGroupMap` of MM/workers/WorkerGroup.h: the calls by which players start and stop
--   matchmaking, over the state of the whole program. Managers/Party/Started, Stopped and Taken are
--   about those of the party manager. Managers/History is about all that the managers and their workers
--   can be called to do; the modules Kept beside the parts (Ticket/Kept, Session/Kept, Server/Kept and so
--   on) follow the files of the two managers, of Server/File, through it.
-- - Common holds the shared tests, lists, integers and ordered maps; Tests the concrete inputs.
--
-- State is passed explicitly. Each method that holds a lock throughout is one step, and methods that
-- read the clock take the time as `now`. A closure that is handed to a worker is data: what it will
-- call, with its arguments. Times, keys and counts are natural numbers, which the program's `long
-- long` holds as long as no clock comes near 2^63 milliseconds; values that may be negative in the
-- program are of type ℤ. Two values of the program are C++ integers that are converted on use: the count
-- of players of a rule stands as the `size_t` that it is compared with, and the counter that chooses a
-- world as the 32 bits of an `int`, with its wrap-around; what a read outside the vector of worlds gives
-- is left open.
--
-- The loop of `MakeCombination` has 2 ^ (players + 2) rounds of fuel; Rule/Cost counts the rounds that
-- the loop takes. All other loops are by recursion on what they read.
--
-- Not modelled: threads and condition variables (any order of steps is allowed instead), text
-- formatting, output to the players and the log, and the demo driver. The order in which a worker
-- walks through its unordered map of counts is a parameter of the search, of which only the search that
-- is to succeed asks that it passes every entry. In `DoWorkerAsyncJob` the search and the commit follow
-- one another; what is stated of the commit holds for any requests and tickets that it meets.
pub mod Common
pub mod Types
pub mod Rule
pub mod Registry
pub mod Ticket
pub mod Session
pub mod SafeMap
pub mod Jobs
pub mod Penalty
pub mod Zones
pub mod Server
pub mod Request
pub mod SoloWorker
pub mod SoloGroup
pub mod PartyWorker
pub mod PartyGroup
pub mod Managers
pub mod Tests
