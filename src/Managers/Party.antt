-- ===== src/Managers/Party.antt =====
-- MM/matching/PartyMatchmakingManager.cpp. The maps of tickets, `OnFailedMatchmaking` and
-- `OnExpireMatchmaking` stand with `Server`.
pub mod Taken
pub mod Started
pub mod Stopped
pub mod Kept
use cpp_matchmaking_mvp.Common.{
  ℕ, Bool, true, false, not, ◌||◌, Option, none, some, List, [], ◌∷◌, if◌then◌else◌, has_value,
}
use cpp_matchmaking_mvp.Types.{MatchTicketRequest, GroupKey, player_keys, failed, cancelled}
use cpp_matchmaking_mvp.Ticket.{Ticket, get_group_key, change_status, call_on}
use cpp_matchmaking_mvp.Request.{Request}
use cpp_matchmaking_mvp.Registry.{find_entry, find_by_player}
use cpp_matchmaking_mvp.Penalty.{any_dodge_penalty}
use cpp_matchmaking_mvp.Zones.{process_player_leave}
use cpp_matchmaking_mvp.Server.{Server, party, erase_match_ticket}
use cpp_matchmaking_mvp.PartyGroup.{
  Group, make_group, enqueue_job_request, cancel_match_ticket, do_worker_async_job,
  expand_worker_slot,
}
use cpp_matchmaking_mvp.Managers.{
  Hub, Manager, group_key_eq, init_manager, get_worker_group, put_group, insert_match_ticket,
  allocate,
}

-- `Init`
abbrev pub init_party : Hub → Hub
init_party h = record h { party_manager = init_manager make_group h.party_manager }

abbrev pub put_party_group : GroupKey → Group → Hub → Hub
put_party_group key g h = record h { party_manager = put_group key g h.party_manager }

-- A change of a ticket's status that is not read.
abbrev pub mark_failed : (ticket : ℕ) → Server → Server
mark_failed a s = record s { tickets = (call_on a (change_status failed) s.tickets).0 }

-- `EnqueueWorkerJobRequest` from the call of the group on.
abbrev pub finish_enqueue :
    GroupKey → (id : ℕ) → Hub → Server → Group × (ℕ → Option Ticket) × Bool → Hub × Bool
finish_enqueue key id h s (g, tickets, true) =
    (put_party_group key g (record h { server = record s { tickets = tickets } }), true)
finish_enqueue key id h s (g, tickets, false) = (
  put_party_group key g
      (record h { server = erase_match_ticket party id (record s { tickets = tickets }) }),
  false,
)

-- `EnqueueWorkerJobRequest` of a request for the ticket `t`.
unfoldable pub enqueue_party : (now_sec : ℕ) → Ticket → Request → Hub → Hub × Bool
enqueue_party now t r h = elim (get_worker_group (get_group_key t) h.party_manager) [
  | none ↦ (h, false)
  | some g ↦
      (let (s, inserted) = insert_match_ticket party r.ticket h.server in
        if inserted
        then finish_enqueue (get_group_key t) t.ticket_id h s
            (enqueue_job_request now r g s.tickets)
        else (record h { server = s }, false))
]

-- `StopMatchmaking` and `StopMatchBackfill` from the call of `CancelMatchTicket` on.
abbrev pub finish_cancel : GroupKey → (id : ℕ) → Hub → Group × (ℕ → Option Ticket) × Bool → Hub
finish_cancel key id h (g, tickets, false) =
    put_party_group key g (record h { server = record h.server { tickets = tickets } })
finish_cancel key id h (g, tickets, true) =
    put_party_group key g
      (record h { server = erase_match_ticket party id (record h.server { tickets = tickets }) })

-- The part that `StopMatchmaking` and `StopMatchBackfill` share, once they have found a ticket.
unfoldable pub cancel_party : (ticket : ℕ) → Ticket → Hub → Hub
cancel_party a t h = elim (get_worker_group (get_group_key t) h.party_manager) [
  | none ↦
      (let (tickets, done) = call_on a (change_status cancelled) h.server.tickets in
        let s = record h.server { tickets = tickets } in
        record h { server = (if done then erase_match_ticket party t.ticket_id s else s) })
  | some g ↦
      finish_cancel (get_group_key t) t.ticket_id h (cancel_match_ticket a g h.server.tickets)
]

-- The ticket that a pointer from the map leads to.
abbrev pub ticket_at : Server → Option ℕ → Option (ℕ × Ticket)
ticket_at s none = none
ticket_at s (some a) = elim (s.tickets a) [ none ↦ none | some t ↦ some (a, t) ]

-- `StopMatchmaking`
unfoldable pub stop_party : (player : ℕ) → Hub → Hub × Option ℕ
stop_party k h = elim (ticket_at h.server (find_by_player k h.server.party_tickets)) [
  | none ↦ (h, none)
  | some (a, t) ↦ (cancel_party a t h, some a)
]

-- `CleanupPrevMatchmaking` of one player; it asks for the ticket first, as `StopMatchmaking` does.
unfoldable pub cleanup_party_player : (now player : ℕ) → Hub → Hub × Bool
cleanup_party_player now k h =
    let (h', stopped) = stop_party k h in
    let (zones, left) = process_player_leave now k false h'.server.zones in
    (record h' { server = record h'.server { zones = zones } }, has_value stopped || left)

-- `CleanupPrevMatchmaking` of a request.
unfoldable pub cleanup_party : (now : ℕ) (players : List ℕ) → Hub → Hub × Bool
cleanup_party now [] h = (h, false)
cleanup_party now (k ∷ ks) h =
    let (h', processed) = cleanup_party_player now k h in
    let (h'', more) = cleanup_party now ks h' in (h'', processed || more)

-- `StartMatchmaking` from the result of `EnqueueWorkerJobRequest` on.
abbrev pub finish_start : (ticket id : ℕ) → Hub × Bool → Hub × Option ℕ
finish_start a id (h, true) = (h, some a)
finish_start a id (h, false) =
    (record h { server = erase_match_ticket party id (mark_failed a h.server) }, some a)

-- `StartMatchmaking` once the checks are passed.
unfoldable pub request_party : (now now_sec : ℕ) → MatchTicketRequest → Hub → Hub × Option ℕ
request_party now now_sec request h =
    let (h1, t, a, r) = allocate now request h in
    finish_start a t.ticket_id (enqueue_party now_sec t r h1)

-- `StartMatchmaking`
unfoldable pub start_party : (now now_sec : ℕ) → MatchTicketRequest → Hub → Hub × Option ℕ
start_party now now_sec request h =
    let ks = player_keys request.players in
    let (h1, cleaned) = cleanup_party now ks h in
    if h.party_manager.is_running
    then (if cleaned
        then (h1, none)
        else if any_dodge_penalty ks now h1.server.penalties
        then (h1, none)
        else request_party now now_sec request h1)
    else (h, none)

-- `StartMatchBackfill`
unfoldable pub start_match_backfill : (now now_sec : ℕ) → MatchTicketRequest → Hub → Hub
start_match_backfill now now_sec request h =
    let (h1, t, a, r) = allocate now request h in
    let (h2, done) = enqueue_party now_sec t r h1 in
    if done
    then h2
    else record h2 { server = mark_failed a (erase_match_ticket party t.ticket_id h2.server) }

-- `StopMatchBackfill`
unfoldable pub stop_match_backfill : (id : ℕ) → Hub → Hub
stop_match_backfill id h = elim (ticket_at h.server (find_entry id h.server.party_tickets)) [
  | none ↦ h
  | some (a, t) ↦ cancel_party a t h
]

-- What the thread of one worker runs, for a group on file.
unfoldable pub run_party_worker :
    (visit : List (ℕ × ℕ) → List (ℕ × ℕ)) (now index : ℕ) → GroupKey → Hub → Option Hub
run_party_worker visit now i key h = elim (get_worker_group key h.party_manager) [
  | none ↦ some h
  | some g ↦ elim (do_worker_async_job visit now i g h.server) [
    | none ↦ none
    | some (g', s, _) ↦ some (put_party_group key g' (record h { server = s }))
  ]
]

-- What the thread of a group runs.
unfoldable pub run_party_expansion : (now_sec : ℕ) → GroupKey → Hub → Hub
run_party_expansion now key h = elim (get_worker_group key h.party_manager) [
  | none ↦ h
  | some g ↦ put_party_group key (expand_worker_slot now h.server.tickets g) h
]
