-- ===== src/Managers/Party/Kept.antt =====
-- MM/matching/PartyMatchmakingManager.cpp: every call of the manager keeps the files of the two
-- managers.
use cpp_matchmaking_mvp.Common.{
  ℕ, ap, Bool, true, false, none, List, [], ◌∷◌, Option-cases, inl, inr, Bool-cases,
}
use cpp_matchmaking_mvp.Types.{MatchTicketRequest, GroupKey, player_keys, queued, failed, cancelled}
use cpp_matchmaking_mvp.Ticket.{Ticket, Tickets, get_group_key, change_status, call_on}
use cpp_matchmaking_mvp.Request.{Request}
use cpp_matchmaking_mvp.Registry.{find_entry, find_by_player}
use cpp_matchmaking_mvp.Penalty.{any_dodge_penalty}
use cpp_matchmaking_mvp.Server.{Server, party, erase_match_ticket}
use cpp_matchmaking_mvp.PartyGroup.{Group, cancel_match_ticket}
use cpp_matchmaking_mvp.PartyGroup.Enqueued.{EnqueueOutcome, enqueue_job_request-EnqueueOutcome}
use cpp_matchmaking_mvp.PartyGroup.Kept.{cancel_match_ticket-KeepsTickets}
use cpp_matchmaking_mvp.Managers.{
  Hub, group_key_eq, get_worker_group, insert_match_ticket, allocate,
}
use cpp_matchmaking_mvp.Managers.Kept.{
  IsKept, insert_match_ticket-Holds, allocate-IsKept, if_first-IsKept,
}
use cpp_matchmaking_mvp.Managers.Party.{
  finish_enqueue, enqueue_party, finish_cancel, cancel_party, mark_failed, ticket_at, stop_party,
  cleanup_party_player, cleanup_party, finish_start, request_party, start_party,
  start_match_backfill, stop_match_backfill,
}
use cpp_matchmaking_mvp.Ticket.Kept.{KeepsTickets-eq, call_on-KeepsTickets}
use cpp_matchmaking_mvp.Server.File.{Holds, Holds-heap, erase_match_ticket-Holds}

pub mark_failed-Holds : (n a : ℕ) (s : Server) → Holds n s → Holds n (mark_failed a s)
mark_failed-Holds n a s v =
    Holds-heap n s (call_on a (change_status failed) s.tickets).0
      (call_on-KeepsTickets a failed s.tickets) v

finish_enqueue-IsKept :
    (key : GroupKey) (id : ℕ) (r : Request) (h : Hub) (s : Server) (g : Group)
    (o : Group × Tickets × Bool)
    → Holds h.next_ticket s
    → EnqueueOutcome r g s.tickets o
    → IsKept (finish_enqueue key id h s o).0
finish_enqueue-IsKept key id r h s g (g', s', true) v n =
    Holds-heap h.next_ticket s s' (rw n.1 (call_on-KeepsTickets r.ticket queued s.tickets)) v
finish_enqueue-IsKept key id r h s g (g', s', false) v n =
    erase_match_ticket-Holds h.next_ticket id party (record s { tickets = s' })
      (Holds-heap h.next_ticket s s'
        (KeepsTickets-eq s.tickets s' (λ b. ap (λ (m : Tickets). m b) n)) v)

enqueue_party-IsKept :
    (now : ℕ) (t : Ticket) (r : Request) (h : Hub) → IsKept h → IsKept (enqueue_party now t r h).0
unfolding enqueue_party
enqueue_party-IsKept now t r h v =
    elim (Option-cases (get_worker_group (get_group_key t) h.party_manager)) [
      | inl missing ↦ rw (missing, enqueue_party) v
      | inr (g, at_key) ↦
          let s = (insert_match_ticket party r.ticket h.server).0 in
          let holds : Holds h.next_ticket s =
            insert_match_ticket-Holds h.next_ticket party r.ticket h.server v in
          rw (at_key, enqueue_party)
            (elim (Bool-cases (insert_match_ticket party r.ticket h.server).1) [
              | inl done ↦ rw done (
                  finish_enqueue-IsKept (get_group_key t) t.ticket_id r h s g _ holds
                    (enqueue_job_request-EnqueueOutcome now r g s.tickets))
              | inr refused ↦ rw refused holds
            ])
    ]

finish_start-IsKept : (a id : ℕ) (o : Hub × Bool) → IsKept o.0 → IsKept (finish_start a id o).0
finish_start-IsKept a id (h, true) v = v
finish_start-IsKept a id (h, false) v =
    erase_match_ticket-Holds h.next_ticket id party (mark_failed a h.server)
      (mark_failed-Holds h.next_ticket a h.server v)

request_party-IsKept :
    (now now_sec : ℕ) (request : MatchTicketRequest) (h : Hub)
    → IsKept h
    → IsKept (request_party now now_sec request h).0
unfolding request_party
request_party-IsKept now now_sec request h v =
    let (h1, t, a, r) = allocate now request h in
    finish_start-IsKept a t.ticket_id (enqueue_party now_sec t r h1)
      (enqueue_party-IsKept now_sec t r h1 (allocate-IsKept now request h v))

pub start_match_backfill-IsKept :
    (now now_sec : ℕ) (request : MatchTicketRequest) (h : Hub)
    → IsKept h
    → IsKept (start_match_backfill now now_sec request h)
unfolding start_match_backfill
start_match_backfill-IsKept now now_sec request h v =
    let (h1, t, a, r) = allocate now request h in
    let h2 = (enqueue_party now_sec t r h1).0 in
    let v2 : IsKept h2 = enqueue_party-IsKept now_sec t r h1 (allocate-IsKept now request h v) in
    elim (Bool-cases (enqueue_party now_sec t r h1).1) [
      | inl done ↦ rw done v2
      | inr refused ↦ rw refused (
          mark_failed-Holds h2.next_ticket a (erase_match_ticket party t.ticket_id h2.server)
            (erase_match_ticket-Holds h2.next_ticket t.ticket_id party h2.server v2))
    ]

finish_cancel-IsKept :
    (key : GroupKey) (id : ℕ) (h : Hub) (o : Group × Tickets × Bool)
    → Holds h.next_ticket (record h.server { tickets = o.1 })
    → IsKept (finish_cancel key id h o)
finish_cancel-IsKept key id h (g, s, false) v = v
finish_cancel-IsKept key id h (g, s, true) v =
    erase_match_ticket-Holds h.next_ticket id party (record h.server { tickets = s }) v

cancel_party-IsKept : (a : ℕ) (t : Ticket) (h : Hub) → IsKept h → IsKept (cancel_party a t h)
unfolding cancel_party
cancel_party-IsKept a t h v =
    elim (Option-cases (get_worker_group (get_group_key t) h.party_manager)) [
      | inl missing ↦
          let s = record h.server {
            tickets = (call_on a (change_status cancelled) h.server.tickets).0;
          } in
          let holds : Holds h.next_ticket s =
            Holds-heap h.next_ticket h.server s.tickets
              (call_on-KeepsTickets a cancelled h.server.tickets) v in
          rw (missing, cancel_party)
            (elim (Bool-cases (call_on a (change_status cancelled) h.server.tickets).1) [
              | inl done ↦
                  rw done (erase_match_ticket-Holds h.next_ticket t.ticket_id party s holds)
              | inr refused ↦ rw refused holds
            ])
      | inr (g, at_key) ↦
          let o = cancel_match_ticket a g h.server.tickets in
          rw (at_key, cancel_party)
            (finish_cancel-IsKept (get_group_key t) t.ticket_id h o (
              Holds-heap h.next_ticket h.server o.1
                (cancel_match_ticket-KeepsTickets a g h.server.tickets) v))
    ]

pub stop_party-IsKept : (k : ℕ) (h : Hub) → IsKept h → IsKept (stop_party k h).0
unfolding stop_party
stop_party-IsKept k h v =
    elim (Option-cases (ticket_at h.server (find_by_player k h.server.party_tickets))) [
      | inl missing ↦ rw (missing, stop_party) v
      | inr ((a, t), found) ↦ rw (found, stop_party) (cancel_party-IsKept a t h v)
    ]

pub stop_match_backfill-IsKept : (id : ℕ) (h : Hub) → IsKept h → IsKept (stop_match_backfill id h)
unfolding stop_match_backfill
stop_match_backfill-IsKept id h v =
    elim (Option-cases (ticket_at h.server (find_entry id h.server.party_tickets))) [
      | inl missing ↦ rw (missing, stop_match_backfill) v
      | inr ((a, t), found) ↦ rw (found, stop_match_backfill) (cancel_party-IsKept a t h v)
    ]

cleanup_party-IsKept :
    (now : ℕ) (ks : List ℕ) (h : Hub) → IsKept h → IsKept (cleanup_party now ks h).0
unfolding cleanup_party cleanup_party_player
cleanup_party-IsKept now [] h v = v
cleanup_party-IsKept now (k ∷ ks) h v =
    cleanup_party-IsKept now ks (cleanup_party_player now k h).0 (stop_party-IsKept k h v)

pub start_party-IsKept :
    (now now_sec : ℕ) (request : MatchTicketRequest) (h : Hub)
    → IsKept h
    → IsKept (start_party now now_sec request h).0
unfolding start_party
start_party-IsKept now now_sec request h v =
    let ks = player_keys request.players in
    let h1 = (cleanup_party now ks h).0 in
    let v1 : IsKept h1 = cleanup_party-IsKept now ks h v in
    if_first-IsKept h.party_manager.is_running _ (h, none)
      (if_first-IsKept (cleanup_party now ks h).1 (h1, none) _ v1
        (if_first-IsKept (any_dodge_penalty ks now h1.server.penalties) (h1, none)
          (request_party now now_sec request h1) v1
          (request_party-IsKept now now_sec request h1 v1)))
      v
