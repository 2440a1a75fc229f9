-- ===== src/Types.antt =====
-- MM/matching/MatchmakingTypes.h: the enumerations, the transition table, and the plain records.
-- Keys that the program only compares (players, matches, tickets) are natural numbers; a zone id
-- is the number of an interned `std::wstring`.
pub mod Status
pub mod QueueTime
pub mod Statistics
use cpp_matchmaking_mvp.Common.{
  ℕ, ℤ, pos, negsuc, Bool, true, false, List, [], ◌∷◌, ◌||◌, ◌==◌, if◌then◌else◌, eqb_ℤ,
}
pub use Status.{
  MatchTicketStatus, unset, queued, searching, requires_acceptance, placing, completed, failed,
  cancelled, timed_out,
}
unfoldable pub use Status.{can_change_status, eqb_status}

-- `EProtocol_Result`
pub data ProtocolResult : Type 0 where
  no_result success packet_error create_match_session accept_status async_job_error : ProtocolResult

-- `nProtocol_Result::asInt`
pub as_int : ProtocolResult → ℤ
as_int no_result = negsuc 0
as_int success = pos 0
as_int packet_error = pos 1
as_int create_match_session = pos 2
as_int accept_status = pos 3
as_int async_job_error = pos 4

abbrev pub is_success : ProtocolResult → Bool
is_success success = true
is_success _ = false

-- `MatchmakingGroupKey`: the world group and the zone id.
pub record GroupKey : Type 0 where
  pub world_group : ℤ
  pub zone_id : ℕ

abbrev pub eqb_group : GroupKey → GroupKey → Bool
eqb_group a b = if eqb_ℤ a.world_group b.world_group then a.zone_id == b.zone_id else false

pub record MatchPlayerInfo : Type 0 where
  pub player_key : ℕ
  pub offense_power : ℤ
  pub player_level : ℤ
  pub job : ℤ

-- A negative `match_ticket_id` asks for a new one.
pub record MatchTicketRequest : Type 0 where
  pub world_no : ℤ
  pub match_zone_id : ℕ
  pub match_ticket_id : ℤ
  pub party_key : ℤ
  pub request_player_key : ℕ
  pub players : List MatchPlayerInfo

abbrev pub player_keys : List MatchPlayerInfo → List ℕ
player_keys [] = []
player_keys (p ∷ ps) = p.player_key ∷ player_keys ps

pub record PlayerMatchDodgePenalty : Type 0 where
  pub player_key : ℕ
  pub penalty_expire_time_msec : ℕ

pub record PlayerMatchAcceptInfo : Type 0 where
  pub player_key : ℕ
  pub is_accept : Bool
  pub additional_info : Bool
  pub has_responded : Bool

pub record IntegrationZoneInstanceInfo : Type 0 where
  pub zone_guid : ℕ
  pub world_no : ℤ
  pub world_session_key : ℤ
  pub match_id : ℕ
  pub zone_id : ℕ
  pub players : List ℕ
  pub enter_players : List ℕ
  pub paid_players : List ℕ
