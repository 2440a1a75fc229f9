-- ===== src/Ticket.antt =====
-- MM/matching/core/MatchmakingTicket.h and .cpp. A ticket is a shared object: `Tickets` is the part
-- of the heap that holds them, and a pointer with no ticket there is null. Status messages are
-- printed only and left out.
pub mod Heap
pub mod Kept
use cpp_matchmaking_mvp.Common.{
  ℕ, ◌+◌, ℤ, pos, negsuc, Bool, true, false, Option, none, some, List, ◌==◌, if◌then◌else◌,
  is_positive, ltb, ◌||◌, length,
}
use cpp_matchmaking_mvp.Types.{
  MatchTicketStatus, unset, eqb_status, can_change_status, ProtocolResult, no_result,
  MatchTicketRequest, GroupKey, player_keys,
}

pub record Ticket : Type 0 where
  pub request : MatchTicketRequest
  pub ticket_id : ℕ
  pub start_time_msec : ℕ
  pub world_group_id : ℤ
  pub status : MatchTicketStatus
  pub status_reason : ProtocolResult

-- `CMatchTicket::NormalizeRequest` and `IssueMatchTicketId`: the id of the ticket, and the next id
-- to issue.
unfoldable pub normalize_request : MatchTicketRequest → (next_id : ℕ) → ℕ × ℕ
normalize_request r next_id = elim r.match_ticket_id [
  | pos id ↦ (id, next_id)
  | negsuc _ ↦ (next_id, next_id + 1)
]

-- The constructor; the second part is the next id to issue.
unfoldable pub make_ticket : (world_group : ℤ) → MatchTicketRequest → (now next_id : ℕ) → Ticket × ℕ
unfolding normalize_request
make_ticket world_group r now next_id =
    let (id, next) = normalize_request r next_id in
    (
      record {
        request = record r { match_ticket_id = pos id };
        ticket_id = id;
        start_time_msec = now;
        world_group_id = world_group;
        status = unset;
        status_reason = no_result;
      },
      next,
    )

-- `GetPlayers`, by key.
abbrev pub get_players : Ticket → List ℕ
get_players t = player_keys t.request.players

-- `GetMatchingGroupKey`
abbrev pub get_group_key : Ticket → GroupKey
get_group_key t = record { world_group = t.world_group_id; zone_id = t.request.match_zone_id }

abbrev pub with_status : MatchTicketStatus → Ticket → Ticket
with_status s t = record t { status = s }

-- `SetStatusReason`
abbrev pub with_reason : ProtocolResult → Ticket → Ticket
with_reason r t = record t { status_reason = r }

-- `ChangeStatus`
unfoldable pub change_status : MatchTicketStatus → Ticket → Ticket × Bool
change_status next t =
    if can_change_status t.status next then (with_status next t, true) else (t, false)

-- `ChangeStatusIfCurrent`
unfoldable pub change_status_if_current :
    (expected next : MatchTicketStatus) → Ticket → Ticket × Bool
change_status_if_current expected next t =
    if eqb_status t.status expected
    then (if can_change_status t.status next then (with_status next t, true) else (t, false))
    else (t, false)

-- The tickets on the heap, by address.
abbrev pub Tickets : Type 0
Tickets = ℕ → Option Ticket

abbrev pub store : ℕ → Ticket → Tickets → Tickets
store a t s b = if a == b then some t else s b

-- A call of a method that may change the ticket at `a`, and its result.
abbrev pub call_at : ℕ → (Ticket → Ticket × Bool) → Tickets → Option Ticket → Tickets × Bool
call_at a f s none = (s, false)
call_at a f s (some t) = (store a (f t).0 s, (f t).1)

abbrev pub call_on : ℕ → (Ticket → Ticket × Bool) → Tickets → Tickets × Bool
call_on a f s = call_at a f s (s a)

-- A call of a method that returns nothing.
abbrev pub update_on : ℕ → (Ticket → Ticket) → Tickets → Tickets
update_on a f s b = if a == b then (elim (s b) [ none ↦ none | some t ↦ some (f t) ]) else s b

-- `ForceSetStatus`
unfoldable pub force_set_status : ℕ → MatchTicketStatus → Tickets → Tickets
force_set_status a status = update_on a (with_status status)

-- `IsPartyTicket` of MM/matching/MatchSessionManager.cpp
unfoldable pub is_party_ticket : Ticket → Bool
is_party_ticket t = is_positive t.request.party_key || ltb 1 (length (get_players t))

abbrev pub players_at : Tickets → ℕ → List ℕ
players_at s a = elim (s a) [ none ↦ List.[] | some t ↦ get_players t ]
