-- ===== src/Managers/Solo/Kept.antt =====
-- MM/matching/SoloMatchmakingManager.cpp: its calls keep the files of the two managers.
use cpp_matchmaking_mvp.Common.{
  ℕ, Bool, true, false, none, some, List, [], ◌∷◌, ltb, length, Option-cases, inl, inr,
}
use cpp_matchmaking_mvp.Types.{
  MatchTicketRequest, GroupKey, player_keys, cancelled, requires_acceptance, eqb_status,
  can_change_status,
}
use cpp_matchmaking_mvp.Ticket.{Ticket, Tickets, get_group_key}
use cpp_matchmaking_mvp.Request.{Request}
use cpp_matchmaking_mvp.Registry.{find_by_player}
use cpp_matchmaking_mvp.Session.{accept_info}
use cpp_matchmaking_mvp.Penalty.{any_dodge_penalty}
use cpp_matchmaking_mvp.Server.{Server, solo}
use cpp_matchmaking_mvp.Server.File.{Holds, Holds-heap, erase_match_ticket-Holds}
use cpp_matchmaking_mvp.Server.Kept.Created.{accept_match_session-Holds}
use cpp_matchmaking_mvp.SoloGroup.{Group, enqueue_job_request, cancel_match_ticket}
use cpp_matchmaking_mvp.SoloGroup.Kept.{
  enqueue_job_request-KeepsTickets, cancel_match_ticket-KeepsTickets, run_worker-Holds,
}
use cpp_matchmaking_mvp.Managers.{
  Hub, group_key_eq, get_worker_group, insert_match_ticket, allocate,
}
use cpp_matchmaking_mvp.Managers.Kept.{
  IsKept, insert_match_ticket-Holds, allocate-IsKept, if-IsKept, if_first-IsKept,
}
use cpp_matchmaking_mvp.Managers.Party.{mark_failed, ticket_at}
use cpp_matchmaking_mvp.Managers.Party.Kept.{mark_failed-Holds}
use cpp_matchmaking_mvp.Managers.Solo.{
  finish_enqueue, enqueue_solo, leave_solo, finish_cancel, cancel_solo, stop_solo,
  cleanup_solo_player, cleanup_solo, request_solo, start_solo, run_solo_worker,
}

finish_enqueue-IsKept :
    (key : GroupKey) (id : ℕ) (h : Hub) (s : Server) (o : Group × Tickets × Bool)
    → Holds h.next_ticket (record s { tickets = o.1 })
    → IsKept (finish_enqueue key id h s o).0
finish_enqueue-IsKept key id h s (g, m, true) v = v
finish_enqueue-IsKept key id h s (g, m, false) v =
    erase_match_ticket-Holds h.next_ticket id solo (record s { tickets = m }) v

enqueue_solo-IsKept :
    (t : Ticket) (r : Request) (h : Hub) → IsKept h → IsKept (enqueue_solo t r h).0
unfolding enqueue_solo
enqueue_solo-IsKept t r h v =
    elim (Option-cases (get_worker_group (get_group_key t) h.solo_manager)) [
      | inl missing ↦ rw (missing, enqueue_solo) v
      | inr (g, at_key) ↦
          let s = (insert_match_ticket solo r.ticket h.server).0 in
          let holds : Holds h.next_ticket s =
            insert_match_ticket-Holds h.next_ticket solo r.ticket h.server v in
          let o = enqueue_job_request r g s.tickets in
          rw (at_key, enqueue_solo)
            (if_first-IsKept (insert_match_ticket solo r.ticket h.server).1
              (finish_enqueue (get_group_key t) t.ticket_id h s o) (record h { server = s }, false)
              (finish_enqueue-IsKept (get_group_key t) t.ticket_id h s o (
                Holds-heap h.next_ticket s o.1 (enqueue_job_request-KeepsTickets r g s.tickets)
                  holds))
              holds)
    ]

leave_solo-Holds :
    (n : ℕ) (apply : Bool) (now k id : ℕ) (s : Server)
    → Holds n s
    → Holds n (leave_solo apply now k id s)
leave_solo-Holds n true now k id s v = erase_match_ticket-Holds n id solo s v
leave_solo-Holds n false now k id s v = erase_match_ticket-Holds n id solo s v

finish_cancel-IsKept :
    (apply : Bool) (now k : ℕ) (key : GroupKey) (id : ℕ) (h : Hub) (o : Group × Tickets × Bool)
    → Holds h.next_ticket (record h.server { tickets = o.1 })
    → IsKept (finish_cancel apply now k key id h o)
finish_cancel-IsKept apply now k key id h (g, m, false) v = v
finish_cancel-IsKept apply now k key id h (g, m, true) v =
    leave_solo-Holds h.next_ticket apply now k id (record h.server { tickets = m }) v

cancel_solo-IsKept :
    (apply : Bool) (now k a : ℕ) (t : Ticket) (h : Hub)
    → IsKept h
    → IsKept (cancel_solo apply now k a t h)
unfolding cancel_solo
cancel_solo-IsKept apply now k a t h v =
    elim (Option-cases (get_worker_group (get_group_key t) h.solo_manager)) [
      | inl missing ↦
          rw (missing, cancel_solo)
            (leave_solo-Holds h.next_ticket apply now k t.ticket_id h.server v)
      | inr (g, at_key) ↦
          let o = cancel_match_ticket a g h.server.tickets in
          rw (at_key, cancel_solo)
            (finish_cancel-IsKept apply now k (get_group_key t) t.ticket_id h o (
              Holds-heap h.next_ticket h.server o.1
                (cancel_match_ticket-KeepsTickets a g h.server.tickets) v))
    ]

pub stop_solo-IsKept :
    (apply : Bool) (now k : ℕ) (h : Hub) → IsKept h → IsKept (stop_solo apply now k h).0
unfolding stop_solo
stop_solo-IsKept apply now k h v =
    elim (Option-cases (ticket_at h.server (find_by_player k h.server.solo_tickets))) [
      | inl missing ↦ rw (missing, stop_solo) v
      | inr ((a, t), found) ↦
          rw (found, stop_solo)
            (if-IsKept (eqb_status t.status requires_acceptance) _ _
              (accept_match_session-Holds h.next_ticket now (accept_info k false) h.server v)
              (if-IsKept (can_change_status t.status cancelled) (cancel_solo apply now k a t h) h
                (cancel_solo-IsKept apply now k a t h v) v))
    ]

cleanup_solo-IsKept :
    (now : ℕ) (ks : List ℕ) (h : Hub) → IsKept h → IsKept (cleanup_solo now ks h).0
unfolding cleanup_solo cleanup_solo_player
cleanup_solo-IsKept now [] h v = v
cleanup_solo-IsKept now (k ∷ ks) h v =
    cleanup_solo-IsKept now ks (cleanup_solo_player now k h).0 (stop_solo-IsKept false now k h v)

request_solo-IsKept :
    (now : ℕ) (request : MatchTicketRequest) (h : Hub)
    → IsKept h
    → IsKept (request_solo now request h).0
unfolding request_solo
request_solo-IsKept now request h v =
    let (h1, t, a, r) = allocate now request h in
    let h2 = (enqueue_solo t r h1).0 in
    let v2 : IsKept h2 = enqueue_solo-IsKept t r h1 (allocate-IsKept now request h v) in
    if_first-IsKept (enqueue_solo t r h1).1 (h2, some a) _ v2
      (erase_match_ticket-Holds h2.next_ticket t.ticket_id solo (mark_failed a h2.server)
        (mark_failed-Holds h2.next_ticket a h2.server v2))

pub start_solo-IsKept :
    (now : ℕ) (request : MatchTicketRequest) (h : Hub)
    → IsKept h
    → IsKept (start_solo now request h).0
unfolding start_solo
start_solo-IsKept now request h v =
    let ks = player_keys request.players in
    let h1 = (cleanup_solo now ks h).0 in
    let v1 : IsKept h1 = cleanup_solo-IsKept now ks h v in
    if_first-IsKept h.solo_manager.is_running _ (h, none)
      (if_first-IsKept (ltb 1 (length ks)) (h, none) _ v
        (if_first-IsKept (cleanup_solo now ks h).1 (h1, none) _ v1
          (if_first-IsKept (any_dodge_penalty ks now h1.server.penalties) (h1, none)
            (request_solo now request h1) v1 (request_solo-IsKept now request h1 v1))))
      v

pub run_solo_worker-IsKept :
    (now i : ℕ) (key : GroupKey) (h : Hub) → IsKept h → IsKept (run_solo_worker now i key h)
unfolding run_solo_worker
run_solo_worker-IsKept now i key h v = elim (Option-cases (get_worker_group key h.solo_manager)) [
  | inl missing ↦ rw (missing, run_solo_worker) v
  | inr (g, at_key) ↦
      rw (at_key, run_solo_worker) (run_worker-Holds h.next_ticket now i g h.server v)
]
