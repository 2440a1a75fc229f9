-- ===== src/Managers.antt =====
-- What MM/matching/SoloMatchmakingManager.h and .cpp and PartyMatchmakingManager.h and .cpp have in
-- common, and `TWorkerGroupMap` of MM/workers/WorkerGroup.h. The managers are singletons that call one
-- another, so that they stand in one state. New objects get the next address.
pub mod Groups
pub mod Kept
pub mod Solo
pub mod Party
pub mod History
use cpp_matchmaking_mvp.Common.{
  ℕ, suc, ◌+◌, ℤ, pos, eqb_ℤ, eqb_ℤ_iff, ==_iff, ◌≡◌, ◌↔◌, Bool, true, false, Option, none, some,
  List, [], ◌∷◌, ◌==◌, if◌then◌else◌, length, arith,
}
use cpp_matchmaking_mvp.Types.{MatchTicketRequest, GroupKey, eqb_group}
use cpp_matchmaking_mvp.SafeMap.{Eq, nat_eq, find, assign, safe_insert}
use cpp_matchmaking_mvp.Ticket.{Ticket, make_ticket, get_players, store}
use cpp_matchmaking_mvp.Request.{Request, make_request}
use cpp_matchmaking_mvp.Registry.{insert_entry}
use cpp_matchmaking_mvp.Rule.{MatchmakingRule}
use cpp_matchmaking_mvp.Server.{Server, Owner, new_server, owned, put_owned}
use cpp_matchmaking_mvp.SoloGroup
use cpp_matchmaking_mvp.PartyGroup

pub eqb_group_iff : (a b : GroupKey) → (eqb_group a b ≡ true) ↔ (a ≡ b)
eqb_group_iff a b =
    ground (arith, eqb_ℤ_iff a.world_group b.world_group, ==_iff a.zone_id b.zone_id)

instance abbrev pub group_key_eq : Eq GroupKey
group_key_eq = record { beq = eqb_group; beq_iff = eqb_group_iff }

-- The rules by zone, the worker groups by world group and zone, and the flag of one manager.
pub record Manager (G : Type 0) : Type 0 where
  pub rules : List (ℕ × MatchmakingRule)
  pub groups : List (GroupKey × G)
  pub is_running : Bool

-- The state of the program. `next_ticket_id` is the counter of `IssueMatchTicketId`.
pub record Hub : Type 0 where
  pub server : Server
  pub solo_manager : Manager SoloGroup.Group
  pub party_manager : Manager PartyGroup.Group
  pub next_ticket_id : ℕ
  pub next_ticket : ℕ
  pub next_request : ℕ

abbrev pub new_manager : {G : Type 0} → Manager G
new_manager = record { rules = []; groups = []; is_running = false }

abbrev pub new_hub : Hub
new_hub = record {
  server = new_server;
  solo_manager = new_manager;
  party_manager = new_manager;
  next_ticket_id = 1000;
  next_ticket = 0;
  next_request = 0;
}

-- `MatchmakingConfig::kDefaultWorkerCount` and `kDefaultWorldGroups`
abbrev pub default_worker_count : ℕ
default_worker_count = 1

abbrev pub default_world_groups : List ℤ
default_world_groups = pos 0 ∷ pos 1 ∷ pos 2 ∷ pos 3 ∷ []

module _ {G : Type 0} (make_group : GroupKey → MatchmakingRule → ℕ → G) where
  -- The inner loop of `Init`; `TWorkerGroupMap::Insert` keeps a group that is there.
  unfoldable pub insert_worlds :
      (worlds : List ℤ) → MatchmakingRule → List (GroupKey × G) → List (GroupKey × G)
  insert_worlds [] rule m = m
  insert_worlds (n ∷ worlds) rule m =
      let key : GroupKey = record { world_group = n; zone_id = rule.match_zone_id } in
      insert_worlds worlds rule
        (safe_insert key (make_group key rule default_worker_count) false m).0

  -- The outer loop.
  unfoldable pub insert_groups :
      (rules : List (ℕ × MatchmakingRule)) → List (GroupKey × G) → List (GroupKey × G)
  insert_groups [] m = m
  insert_groups ((zone, rule) ∷ rules) m =
      insert_groups rules (insert_worlds default_world_groups rule m)

  -- `Init`
  unfoldable pub init_manager : Manager G → Manager G
  init_manager m = record m { groups = insert_groups m.rules m.groups; is_running = true }

module _ {G : Type 0} where
  -- `Terminate`, with `TWorkerGroupMap::Stop`.
  unfoldable pub terminate : Manager G → Manager G
  terminate m = record m { groups = []; is_running = false }

  -- `InsertMatchmakingRule`
  unfoldable pub insert_matchmaking_rule : MatchmakingRule → Manager G → Manager G × Bool
  insert_matchmaking_rule rule m =
      let (rules, done) = safe_insert rule.match_zone_id rule false m.rules in
      (record m { rules = rules }, done)

  -- `GetWorkerGroup`
  abbrev pub get_worker_group : GroupKey → Manager G → Option G
  get_worker_group key m = find key m.groups

  -- A group that a method has changed; groups are shared objects.
  abbrev pub put_group : GroupKey → G → Manager G → Manager G
  put_group key g m = record m { groups = assign key g m.groups }

-- `GetMatchmakingRequestSize` of a manager.
unfoldable pub get_request_size : Owner → Server → ℕ
get_request_size o s = length (owned o s).entries

-- `InsertMatchTicket` of a manager; a null pointer is refused.
unfoldable pub insert_match_ticket : Owner → (ticket : ℕ) → Server → Server × Bool
insert_match_ticket o a s = elim (s.tickets a) [
  | none ↦ (s, false)
  | some t ↦
      (let (r, done) = insert_entry t.ticket_id a (get_players t) (owned o s) in
        (put_owned o r s, done))
]

-- `std::make_shared<CMatchTicket>(...)` and `std::make_shared<CMatchmakingRequest>(...)`: the state,
-- the ticket with its address, and the request.
unfoldable pub allocate : (now : ℕ) → MatchTicketRequest → Hub → Hub × Ticket × ℕ × Request
allocate now request h =
    let (t, next_id) = make_ticket request.world_no request now h.next_ticket_id in
    (
      record h {
        server = record h.server { tickets = store h.next_ticket t h.server.tickets };
        next_ticket_id = next_id;
        next_ticket = h.next_ticket + 1;
        next_request = h.next_request + 1;
      },
      t,
      h.next_ticket,
      make_request h.next_request h.next_ticket now t,
    )
