-- ===== src/Managers/Solo.antt =====
-- MM/matching/SoloMatchmakingManager.cpp. The maps of tickets, `OnFailedMatchmaking` and
-- `OnExpireMatchmaking` stand with `Server`.
pub mod Kept
use cpp_matchmaking_mvp.Common.{
  ℕ, ◌+◌, Bool, true, false, ◌||◌, Option, none, some, List, [], ◌∷◌, if◌then◌else◌, ltb, length,
  has_value,
}
use cpp_matchmaking_mvp.Types.{
  MatchTicketRequest, GroupKey, player_keys, cancelled, requires_acceptance, eqb_status,
  can_change_status,
}
use cpp_matchmaking_mvp.Ticket.{Ticket, get_group_key}
use cpp_matchmaking_mvp.Request.{Request}
use cpp_matchmaking_mvp.Registry.{find_by_player}
use cpp_matchmaking_mvp.Session.{accept_info}
use cpp_matchmaking_mvp.Penalty.{add_dodge_penalty, any_dodge_penalty}
use cpp_matchmaking_mvp.Zones.{process_player_leave}
use cpp_matchmaking_mvp.Server.{Server, solo, erase_match_ticket}
use cpp_matchmaking_mvp.Server.Create.{accept_match_session}
use cpp_matchmaking_mvp.SoloGroup.{
  Group, make_group, enqueue_job_request, cancel_match_ticket, run_worker,
}
use cpp_matchmaking_mvp.Managers.{
  Hub, group_key_eq, init_manager, get_worker_group, put_group, insert_match_ticket, allocate,
}
use cpp_matchmaking_mvp.Managers.Party.{mark_failed, ticket_at, stop_party}

-- `Init`
abbrev pub init_solo : Hub → Hub
init_solo h = record h { solo_manager = init_manager make_group h.solo_manager }

abbrev pub put_solo_group : GroupKey → Group → Hub → Hub
put_solo_group key g h = record h { solo_manager = put_group key g h.solo_manager }

-- `EnqueueWorkerJobRequest` from the call of the group on.
abbrev pub finish_enqueue :
    GroupKey → (id : ℕ) → Hub → Server → Group × (ℕ → Option Ticket) × Bool → Hub × Bool
finish_enqueue key id h s (g, tickets, true) =
    (put_solo_group key g (record h { server = record s { tickets = tickets } }), true)
finish_enqueue key id h s (g, tickets, false) = (
  put_solo_group key g
      (record h { server = erase_match_ticket solo id (record s { tickets = tickets }) }),
  false,
)

-- `EnqueueWorkerJobRequest` of a request for the ticket `t`.
unfoldable pub enqueue_solo : Ticket → Request → Hub → Hub × Bool
enqueue_solo t r h = elim (get_worker_group (get_group_key t) h.solo_manager) [
  | none ↦ (h, false)
  | some g ↦
      (let (s, inserted) = insert_match_ticket solo r.ticket h.server in
        if inserted
        then finish_enqueue (get_group_key t) t.ticket_id h s (enqueue_job_request r g s.tickets)
        else (record h { server = s }, false))
]

-- The end of `StopMatchmaking`.
abbrev pub leave_solo : (apply_dodge_penalty : Bool) (now player id : ℕ) → Server → Server
leave_solo apply now k id s =
    let erased = erase_match_ticket solo id s in
    if apply
    then record erased { penalties = add_dodge_penalty k (now + 15000) erased.penalties }
    else erased

-- `StopMatchmaking` from the call of `CancelMatchTicket` on.
abbrev pub finish_cancel :
    (apply_dodge_penalty : Bool) (now player : ℕ)
    → GroupKey
    → (id : ℕ) → Hub
    → Group × (ℕ → Option Ticket) × Bool
    → Hub
finish_cancel apply now k key id h (g, tickets, false) =
    put_solo_group key g (record h { server = record h.server { tickets = tickets } })
finish_cancel apply now k key id h (g, tickets, true) =
    put_solo_group key g
      (record h { server = leave_solo apply now k id (record h.server { tickets = tickets }) })

-- `StopMatchmaking` of a ticket that may be cancelled.
unfoldable pub cancel_solo :
    (apply_dodge_penalty : Bool) (now player ticket : ℕ) → Ticket → Hub → Hub
cancel_solo apply now k a t h = elim (get_worker_group (get_group_key t) h.solo_manager) [
  | none ↦ record h { server = leave_solo apply now k t.ticket_id h.server }
  | some g ↦
      finish_cancel apply now k (get_group_key t) t.ticket_id h
        (cancel_match_ticket a g h.server.tickets)
]

-- `StopMatchmaking`. To cancel while an answer is awaited is to decline.
unfoldable pub stop_solo : (apply_dodge_penalty : Bool) (now player : ℕ) → Hub → Hub × Option ℕ
stop_solo apply now k h = elim (ticket_at h.server (find_by_player k h.server.solo_tickets)) [
  | none ↦ (h, none)
  | some (a, t) ↦ (
    (if eqb_status t.status requires_acceptance
        then record h { server = accept_match_session now (accept_info k false) h.server }
        else if can_change_status t.status cancelled
        then cancel_solo apply now k a t h
        else h),
    some a,
  )
]

-- `CleanupPrevMatchmaking` of one player.
unfoldable pub cleanup_solo_player : (now player : ℕ) → Hub → Hub × Bool
cleanup_solo_player now k h =
    let (h', stopped) = stop_solo false now k h in
    let (zones, left) = process_player_leave now k false h'.server.zones in
    (record h' { server = record h'.server { zones = zones } }, has_value stopped || left)

-- `CleanupPrevMatchmaking` of a request.
unfoldable pub cleanup_solo : (now : ℕ) (players : List ℕ) → Hub → Hub × Bool
cleanup_solo now [] h = (h, false)
cleanup_solo now (k ∷ ks) h =
    let (h', processed) = cleanup_solo_player now k h in
    let (h'', more) = cleanup_solo now ks h' in (h'', processed || more)

-- `StartMatchmaking` once the checks are passed.
unfoldable pub request_solo : (now : ℕ) → MatchTicketRequest → Hub → Hub × Option ℕ
request_solo now request h =
    let (h1, t, a, r) = allocate now request h in
    let (h2, done) = enqueue_solo t r h1 in
    if done then (h2, some a) else (
      record h2 { server = erase_match_ticket solo t.ticket_id (mark_failed a h2.server) },
      some a,
    )

-- `StartMatchmaking`
unfoldable pub start_solo : (now : ℕ) → MatchTicketRequest → Hub → Hub × Option ℕ
start_solo now request h =
    let ks = player_keys request.players in
    let (h1, cleaned) = cleanup_solo now ks h in
    if h.solo_manager.is_running
    then (if ltb 1 (length ks)
        then (h, none)
        else if cleaned
        then (h1, none)
        else if any_dodge_penalty ks now h1.server.penalties
        then (h1, none)
        else request_solo now request h1)
    else (h, none)

-- What the thread of one worker runs, for a group on file.
unfoldable pub run_solo_worker : (now index : ℕ) → GroupKey → Hub → Hub
run_solo_worker now i key h = elim (get_worker_group key h.solo_manager) [
  | none ↦ h
  | some g ↦
      (let (g', s, _) = run_worker now i g h.server in
        put_solo_group key g' (record h { server = s }))
]

-- `Process_PlayerLogin` of MM/integration/IntegrationZoneInstanceManager.cpp; what it reads of the
-- player's zone has no effect.
unfoldable pub process_player_login : (now player : ℕ) → Hub → Hub
process_player_login now k h = (stop_solo false now k (stop_party k h).0).0
