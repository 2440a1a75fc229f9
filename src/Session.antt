-- ===== src/Session.antt =====
-- MM/matching/core/MatchSession.h and .cpp. The ticket list of a session is a set of pointers in
-- the order of their addresses.
pub mod RollBack
pub mod Commit
pub mod Change
pub mod Status
pub mod Answers
pub mod Kept
use cpp_matchmaking_mvp.Common.{
  ℕ, ℤ, Bool, true, false, not, ◌||◌, Option, none, some, List, [], ◌∷◌, ◌++◌, ◌==◌, if◌then◌else◌,
  Dict, lookup, insert,
}
use cpp_matchmaking_mvp.Types.{
  MatchTicketStatus, unset, can_change_status, ProtocolResult, no_result, PlayerMatchAcceptInfo,
}
use cpp_matchmaking_mvp.Ticket.{
  Ticket, Tickets, with_reason, change_status_if_current, call_on, update_on, force_set_status,
  players_at,
}

pub record Session : Type 0 where
  pub match_zone_id : ℕ
  pub match_id : ℕ
  pub ticket_list : List ℕ
  pub match_world_no : ℤ
  pub is_backfill : Bool
  pub status : MatchTicketStatus
  pub status_reason : ProtocolResult
  pub accept_infos : Dict PlayerMatchAcceptInfo

abbrev pub all_players : Tickets → List ℕ → List ℕ
all_players s [] = []
all_players s (a ∷ ptrs) = players_at s a ++ all_players s ptrs

-- `PlayerMatchAcceptInfo(player_key, ...)`
abbrev pub accept_info : (player_key : ℕ) (is_accept : Bool) → PlayerMatchAcceptInfo
accept_info k b = record {
  player_key = k;
  is_accept = b;
  additional_info = false;
  has_responded = false;
}

-- `m_PlayerMatchAcceptInfos.emplace(...)` for each player: a key that is there stays as it is.
unfoldable pub emplace_players : List ℕ → Dict PlayerMatchAcceptInfo → Dict PlayerMatchAcceptInfo
emplace_players [] m = m
emplace_players (k ∷ ks) m =
    emplace_players ks (elim (lookup k m) [ none ↦ insert k (accept_info k false) m | some _ ↦ m ])

-- The constructor.
unfoldable pub make_session :
    (zone_id : ℕ) (world_no : ℤ) (match_id : ℕ) (tickets : List ℕ) → Tickets → Session
make_session zone_id world_no match_id tickets s = record {
  match_zone_id = zone_id;
  match_id = match_id;
  ticket_list = tickets;
  match_world_no = world_no;
  is_backfill = false;
  status = unset;
  status_reason = no_result;
  accept_infos = emplace_players (all_players s tickets) [];
}

abbrev pub push_status :
    ℕ
    → MatchTicketStatus
    → Option (List (ℕ × MatchTicketStatus))
    → Option (List (ℕ × MatchTicketStatus))
push_status a q none = none
push_status a q (some l) = some ((a, q) ∷ l)

-- The first loop of `ChangeStatus`: the tickets with their statuses, if all may change.
unfoldable pub snapshot :
    MatchTicketStatus → List ℕ → Tickets → Option (List (ℕ × MatchTicketStatus))
snapshot next [] s = some []
snapshot next (a ∷ ptrs) s =
    let rest = snapshot next ptrs s in
    elim (s a) [
      | none ↦ none
      | some t ↦ if can_change_status t.status next then push_status a t.status rest else none
    ]

-- The inner loop of `ChangeStatus`, which takes back what was changed.
unfoldable pub roll_back : List (ℕ × MatchTicketStatus) → Tickets → Tickets
roll_back [] s = s
roll_back ((a, previous) ∷ rest) s = roll_back rest (force_set_status a previous s)

-- The second loop of `ChangeStatus`. Other threads may have changed tickets since the snapshot.
unfoldable pub commit :
    MatchTicketStatus → (changed pending : List (ℕ × MatchTicketStatus)) → Tickets → Tickets × Bool
commit next changed [] s = (s, true)
commit next changed ((a, current) ∷ rest) s =
    let (s', done) = call_on a (change_status_if_current current next) s in
    let more = commit next (changed ++ (a, current) ∷ []) rest s' in
    if done then more else (roll_back changed s', false)

-- The session's own status follows a commit that succeeds.
abbrev pub finish_change : MatchTicketStatus → Session → Tickets × Bool → Session × Tickets × Bool
finish_change next x (s, true) = (record x { status = next }, s, true)
finish_change next x (s, false) = (x, s, false)

abbrev pub commit_snapshot :
    MatchTicketStatus
    → Session
    → Tickets
    → Option (List (ℕ × MatchTicketStatus))
    → Session × Tickets × Bool
commit_snapshot next x s none = (x, s, false)
commit_snapshot next x s (some statuses) = finish_change next x (commit next [] statuses s)

-- `CMatchSession::ChangeStatus`
unfoldable pub change_session_status :
    MatchTicketStatus → Session → Tickets → Session × Tickets × Bool
change_session_status next x s =
    if can_change_status x.status next
    then commit_snapshot next x s (snapshot next x.ticket_list s)
    else (x, s, false)

-- `CMatchSession::SetStatusReason`
unfoldable pub set_ticket_reasons : ProtocolResult → List ℕ → Tickets → Tickets
set_ticket_reasons r [] s = s
set_ticket_reasons r (a ∷ ptrs) s = set_ticket_reasons r ptrs (update_on a (with_reason r) s)

abbrev pub set_session_reason : ProtocolResult → Session → Session
set_session_reason r x = record x { status_reason = r }

-- The loop of `CMatchSession::IsAllAcceptPlayerSession`
unfoldable pub all_accepted : Dict PlayerMatchAcceptInfo → Bool
all_accepted [] = true
all_accepted ((k, info) ∷ m) = let rest = all_accepted m in if info.is_accept then rest else false

-- `CMatchSession::AcceptPlayerSession`
unfoldable pub accept_player_session : PlayerMatchAcceptInfo → Session → Session × Bool
accept_player_session info x = elim (lookup info.player_key x.accept_infos) [
  | none ↦ (x, false)
  | some old ↦ if old.has_responded then (x, false) else (
    record x {
      accept_infos = insert info.player_key (record info { has_responded = true }) x.accept_infos;
    },
    true,
  )
]

-- `CMatchSession::GetPlayers`
unfoldable pub session_players : Dict PlayerMatchAcceptInfo → List ℕ
session_players [] = []
session_players ((k, info) ∷ m) = k ∷ session_players m
