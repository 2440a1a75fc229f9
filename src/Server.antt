-- ===== src/Server.antt =====
-- The state that MM/matching/MatchSessionManager.cpp shares with the solo and the party manager,
-- and the calls by which it hands tickets back to them. A pointer is an address on a heap: one of
-- tickets, one of sessions. The queues of the workers stand with Managers.
pub mod Matching
pub mod Create
pub mod Ending
pub mod Clash
pub mod Worlds
pub mod File
pub mod Kept
use cpp_matchmaking_mvp.Common.{
  ℕ, ◌+◌, ◌%◌, ℤ, pos, negsuc, eqb_ℤ, Bool, true, false, Option, none, some, List, [], ◌∷◌, ◌==◌,
  if◌then◌else◌, zero, suc, length, ◌||◌,
}
use cpp_matchmaking_mvp.Types.{ProtocolResult, failed, IntegrationZoneInstanceInfo}
use cpp_matchmaking_mvp.Ticket.{
  Ticket, Tickets, change_status, call_on, update_on, with_reason, is_party_ticket, players_at,
}
use cpp_matchmaking_mvp.Session.{Session, all_players}
use cpp_matchmaking_mvp.Registry.{Registry, empty_registry, erase_entry}
use cpp_matchmaking_mvp.Jobs.{Group, make_group}
use cpp_matchmaking_mvp.Zones.{ZoneManager, make_zone_manager}
use cpp_matchmaking_mvp.Penalty.{PenaltyManager, make_penalty_manager}

-- The closures that `CMatchSessionManager` hands to its worker.
pub data SessionJob : Type 0 where
  time_out_accept : (match_id : ℕ) → SessionJob
  time_out_place : (match_id : ℕ) → SessionJob
  demo_accept : (player_key : ℕ) → SessionJob
  demo_complete : IntegrationZoneInstanceInfo → SessionJob

-- `CSoloMatchmakingManager` or `CPartyMatchmakingManager`.
pub data Owner : Type 0 where
  solo party : Owner

-- `world_turns` is `m_LastIntegrationWorldNo` plus one, as 32 bits without a sign. `stray_world` is what a
-- read outside the vector of worlds gives, which the language leaves undefined.
pub record Server : Type 0 where
  pub tickets : Tickets
  pub solo_tickets : Registry
  pub party_tickets : Registry
  pub sessions : ℕ → Option Session
  pub next_session : ℕ
  pub match_sessions : Registry
  pub session_jobs : Group SessionJob
  pub integrate_worlds : List ℤ
  pub world_turns : ℕ
  pub stray_world : ℤ
  pub zones : ZoneManager
  pub penalties : PenaltyManager

-- The worlds of `MatchmakingConfig::kDefaultWorldGroups`, and no tickets.
abbrev pub new_server : Server
new_server = record {
  tickets = λ a. none;
  solo_tickets = empty_registry;
  party_tickets = empty_registry;
  sessions = λ p. none;
  next_session = 0;
  match_sessions = empty_registry;
  session_jobs = make_group 1;
  integrate_worlds = pos 0 ∷ pos 1 ∷ pos 2 ∷ pos 3 ∷ [];
  world_turns = 0;
  stray_world = negsuc 0;
  zones = make_zone_manager;
  penalties = make_penalty_manager;
}

abbrev pub owned : Owner → Server → Registry
owned solo s = s.solo_tickets
owned party s = s.party_tickets

abbrev pub put_owned : Owner → Registry → Server → Server
put_owned solo r s = record s { solo_tickets = r }
put_owned party r s = record s { party_tickets = r }

-- `EraseMatchTicket` of a manager.
unfoldable pub erase_match_ticket : Owner → (id : ℕ) → Server → Server
erase_match_ticket o id s = put_owned o (erase_entry (players_at s.tickets) id (owned o s)).0 s

-- `OnFailedMatchmaking` of a manager.
unfoldable pub on_failed_matchmaking : Owner → (ticket : ℕ) → ProtocolResult → Server → Server
on_failed_matchmaking o a reason s = elim (s.tickets a) [
  | none ↦ s
  | some t ↦
      (let (tickets, done) = call_on a (change_status failed) s.tickets in
        let erased = erase_match_ticket o t.ticket_id (record s { tickets = tickets }) in
        if done
        then record erased { tickets = update_on a (with_reason reason) erased.tickets }
        else record s { tickets = tickets })
]

-- `OnExpireMatchmaking` of a manager.
abbrev pub on_expire_matchmaking : Owner → (id : ℕ) → Server → Server
on_expire_matchmaking o id s = erase_match_ticket o id s

abbrev pub owner_of : Ticket → Owner
owner_of t = if is_party_ticket t then party else solo

-- `NotifyMatchmakingFailure`
unfoldable pub notify_matchmaking_failure : (ticket : ℕ) → ProtocolResult → Server → Server
notify_matchmaking_failure a reason s = elim (s.tickets a) [
  | none ↦ s
  | some t ↦ on_failed_matchmaking (owner_of t) a reason s
]

-- Its loops in `CreateMatchSession`.
unfoldable pub notify_all : (tickets : List ℕ) → ProtocolResult → Server → Server
notify_all [] reason s = s
notify_all (a ∷ ptrs) reason s = notify_all ptrs reason (notify_matchmaking_failure a reason s)

-- `ExpireMatchmakingOwnership`
unfoldable pub expire_matchmaking_ownership : (ticket : ℕ) → Server → Server
expire_matchmaking_ownership a s = elim (s.tickets a) [
  | none ↦ s
  | some t ↦ on_expire_matchmaking (owner_of t) t.ticket_id s
]

-- Its loop in `CreateMatchSession`.
unfoldable pub expire_all : (tickets : List ℕ) → Server → Server
expire_all [] s = s
expire_all (a ∷ ptrs) s = expire_all ptrs (expire_matchmaking_ownership a s)

-- The players of the session at `p`, for `EraseMatchSession`.
abbrev pub session_keys : Server → (p : ℕ) → List ℕ
session_keys s p = elim (s.sessions p) [ none ↦ [] | some x ↦ all_players s.tickets x.ticket_list ]

abbrev pub put_session : (p : ℕ) → Session → Server → Server
put_session p x s = record s { sessions = λ q. if p == q then some x else s.sessions q }
