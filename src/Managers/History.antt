-- ===== src/Managers/History.antt =====
-- MM/matching/SoloMatchmakingManager.cpp, PartyMatchmakingManager.cpp and MatchSessionManager.cpp: what
-- holds of the managers' files, whatever has been called.
use cpp_matchmaking_mvp.Common.{ℤ, ℕ, ◌≡◌, refl, Bool, some, List, Option-cases, inl, inr}
use cpp_matchmaking_mvp.Types.{
  MatchTicketRequest, GroupKey, ProtocolResult, PlayerMatchAcceptInfo, IntegrationZoneInstanceInfo,
}
use cpp_matchmaking_mvp.Ticket.{players_at}
use cpp_matchmaking_mvp.Registry.{empty_registry}
use cpp_matchmaking_mvp.Registry.Invariant.{empty-IsIndexed}
use cpp_matchmaking_mvp.Rule.{MatchmakingRule}
use cpp_matchmaking_mvp.Zones.{ZoneManager}
use cpp_matchmaking_mvp.Penalty.{PenaltyManager}
use cpp_matchmaking_mvp.Server.{Server, SessionJob, new_server}
use cpp_matchmaking_mvp.Server.File.{OnFile}
use cpp_matchmaking_mvp.Server.Create.{
  accept_match_session, on_complete_match_session, run_session_job,
}
use cpp_matchmaking_mvp.Server.Kept.Created.{
  accept_match_session-Holds, on_complete_match_session-Holds, run_session_job-Holds,
}
use cpp_matchmaking_mvp.Jobs
use cpp_matchmaking_mvp.PartyGroup.{do_worker_async_job}
use cpp_matchmaking_mvp.PartyGroup.Kept.{do_worker_async_job-HoldsAfter}
use cpp_matchmaking_mvp.Managers.{
  Hub, new_hub, group_key_eq, get_worker_group, insert_matchmaking_rule, terminate,
}
use cpp_matchmaking_mvp.Managers.Kept.{IsKept}
use cpp_matchmaking_mvp.Managers.Solo.{init_solo, stop_solo, start_solo, run_solo_worker}
use cpp_matchmaking_mvp.Managers.Solo.Kept.{
  stop_solo-IsKept, start_solo-IsKept, run_solo_worker-IsKept,
}
use cpp_matchmaking_mvp.Managers.Party.{
  init_party, stop_party, start_party, start_match_backfill, stop_match_backfill, run_party_worker,
  run_party_expansion, put_party_group,
}
use cpp_matchmaking_mvp.Managers.Party.Kept.{
  stop_party-IsKept, start_party-IsKept, start_match_backfill-IsKept, stop_match_backfill-IsKept,
}

abbrev pub with_server : Server → Hub → Hub
with_server s h = record h { server = s }

-- One call, or one run of a job. A worker's job is a step unless it throws. What the managers of zones
-- and penalties do, and what lies beside the vector of worlds, is left open.
pub data Step : Hub → Hub → Type 0 where
  rule_party :
      (rule : MatchmakingRule) (h : Hub)
      → Step h (record h { party_manager = (insert_matchmaking_rule rule h.party_manager).0 })
  rule_solo :
      (rule : MatchmakingRule) (h : Hub)
      → Step h (record h { solo_manager = (insert_matchmaking_rule rule h.solo_manager).0 })
  party_initialised : (h : Hub) → Step h (init_party h)
  party_terminated : (h : Hub) → Step h (record h { party_manager = terminate h.party_manager })
  solo_initialised : (h : Hub) → Step h (init_solo h)
  solo_terminated : (h : Hub) → Step h (record h { solo_manager = terminate h.solo_manager })
  party_started :
      (now now_sec : ℕ) (request : MatchTicketRequest) (h : Hub)
      → Step h (start_party now now_sec request h).0
  party_stopped : (player : ℕ) (h : Hub) → Step h (stop_party player h).0
  backfill_started :
      (now now_sec : ℕ) (request : MatchTicketRequest) (h : Hub)
      → Step h (start_match_backfill now now_sec request h)
  backfill_stopped : (id : ℕ) (h : Hub) → Step h (stop_match_backfill id h)
  party_worked :
      (visit : List (ℕ × ℕ) → List (ℕ × ℕ)) (now index : ℕ) (key : GroupKey) (h h' : Hub)
      → run_party_worker visit now index key h ≡ some h'
      → Step h h'
  party_expanded :
      (now_sec : ℕ) (key : GroupKey) (h : Hub) → Step h (run_party_expansion now_sec key h)
  solo_started :
      (now : ℕ) (request : MatchTicketRequest) (h : Hub) → Step h (start_solo now request h).0
  solo_stopped :
      (apply_dodge_penalty : Bool) (now player : ℕ) (h : Hub)
      → Step h (stop_solo apply_dodge_penalty now player h).0
  solo_worked :
      (now index : ℕ) (key : GroupKey) (h : Hub) → Step h (run_solo_worker now index key h)
  answered :
      (now : ℕ) (info : PlayerMatchAcceptInfo) (h : Hub)
      → Step h (with_server (accept_match_session now info h.server) h)
  instance_made :
      (now : ℕ) (info : IntegrationZoneInstanceInfo) (result : ProtocolResult) (h : Hub)
      → Step h (with_server (on_complete_match_session now info result h.server) h)
  session_job_run :
      (now : ℕ) (job : SessionJob) (h : Hub)
      → Step h (with_server (run_session_job now job h.server) h)
  elsewhere :
      (zones : ZoneManager) (penalties : PenaltyManager) (jobs : Jobs.Group SessionJob) (stray : ℤ)
      (h : Hub)
      → Step h (
          with_server
            (record h.server {
              zones = zones;
              penalties = penalties;
              session_jobs = jobs;
              stray_world = stray;
            })
            h)

pub data Reach : Hub → Hub → Type 0 where
  here : {h : Hub} → Reach h h
  next : {h h' h'' : Hub} → Reach h h' → Step h' h'' → Reach h h''

run_party_worker-IsKept :
    (visit : List (ℕ × ℕ) → List (ℕ × ℕ)) (now i : ℕ) (key : GroupKey) (h h' : Hub)
    → run_party_worker visit now i key h ≡ some h'
    → IsKept h
    → IsKept h'
unfolding run_party_worker
run_party_worker-IsKept visit now i key h h' e v =
    elim (Option-cases (get_worker_group key h.party_manager)) [
      | inl missing ↦
          let same : some h ≡ some h' = rw (missing, run_party_worker) at e in
          let is : h ≡ h' = cc in rw (← is) v
      | inr (g, at_key) ↦ elim (Option-cases (do_worker_async_job visit now i g h.server)) [
        | inl thrown ↦ absurd (cc (rw (at_key, thrown, run_party_worker) at e))
        | inr ((g', s, done), ran) ↦
            let same : some (put_party_group key g' (record h { server = s })) ≡ some h' =
              rw (at_key, ran, run_party_worker) at e in
            let is : put_party_group key g' (record h { server = s }) ≡ h' = cc in
            rw (← is)
              (do_worker_async_job-HoldsAfter visit h.next_ticket now i g h.server v g' s done ran)
      ]
    ]

run_party_expansion-IsKept :
    (now : ℕ) (key : GroupKey) (h : Hub) → IsKept h → IsKept (run_party_expansion now key h)
unfolding run_party_expansion
run_party_expansion-IsKept now key h v =
    elim (Option-cases (get_worker_group key h.party_manager)) [
      | inl missing ↦ rw (missing, run_party_expansion) v
      | inr (g, at_key) ↦ rw (at_key, run_party_expansion) v
    ]

Step-IsKept : {h h' : Hub} → Step h h' → IsKept h → IsKept h'
Step-IsKept (rule_party rule h) v = v
Step-IsKept (rule_solo rule h) v = v
Step-IsKept (party_initialised h) v = v
Step-IsKept (party_terminated h) v = v
Step-IsKept (solo_initialised h) v = v
Step-IsKept (solo_terminated h) v = v
Step-IsKept (party_started now now_sec request h) v = start_party-IsKept now now_sec request h v
Step-IsKept (party_stopped k h) v = stop_party-IsKept k h v
Step-IsKept (backfill_started now now_sec request h) v =
    start_match_backfill-IsKept now now_sec request h v
Step-IsKept (backfill_stopped id h) v = stop_match_backfill-IsKept id h v
Step-IsKept (party_worked visit now i key h h' e) v =
    run_party_worker-IsKept visit now i key h h' e v
Step-IsKept (party_expanded now key h) v = run_party_expansion-IsKept now key h v
Step-IsKept (solo_started now request h) v = start_solo-IsKept now request h v
Step-IsKept (solo_stopped apply now k h) v = stop_solo-IsKept apply now k h v
Step-IsKept (solo_worked now i key h) v = run_solo_worker-IsKept now i key h v
Step-IsKept (answered now info h) v = accept_match_session-Holds h.next_ticket now info h.server v
Step-IsKept (instance_made now info result h) v =
    on_complete_match_session-Holds h.next_ticket now info result h.server v
Step-IsKept (session_job_run now job h) v = run_session_job-Holds h.next_ticket now job h.server v
Step-IsKept (elsewhere zones penalties jobs stray h) v = v

empty-OnFile : OnFile 0 new_server.tickets empty_registry
empty-OnFile = record {
  fresh = λ b le. refl;
  file = record {
    indexed = empty-IsIndexed (players_at new_server.tickets);
    filed = λ id a e. absurd (cc);
  };
}

new_hub-IsKept : IsKept new_hub
new_hub-IsKept = (empty-OnFile, empty-OnFile)

-- Whatever the managers and their workers have been called to do since the start, the maps of each
-- manager agree: a player leads to a ticket on file that has the player, and each player of a ticket on
-- file leads to it; every ticket on file stands on the heap under its own id; and no ticket stands at an
-- address that has not been given out. A worker's job is followed unless it throws, and what the
-- managers of instances and penalties do to their own state is arbitrary.
pub Reach-IsKept : {h : Hub} → Reach new_hub h → IsKept h
Reach-IsKept here = new_hub-IsKept
Reach-IsKept (next r st) = Step-IsKept st (Reach-IsKept r)
