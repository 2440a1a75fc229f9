-- ===== src/Managers/Party/Started.antt =====
-- MM/matching/PartyMatchmakingManager.cpp: how `StartMatchmaking` ends once the checks are passed.
use cpp_matchmaking_mvp.Common.{
  ℕ, ◌≡◌, ◌⊎◌, refl, ap, ◌∙◌, Bool, true, false, Option, none, some, ◌==◌, if◌then◌else◌, lookup,
  contains, arith, Option-cases, inl, inr,
}
use cpp_matchmaking_mvp.Types.{
  MatchTicketRequest, MatchTicketStatus, unset, queued, failed, can_change_status,
}
use cpp_matchmaking_mvp.Ticket.{
  Ticket, Tickets, with_status, make_ticket, get_group_key, get_players, players_at, change_status,
  call_on,
}
use cpp_matchmaking_mvp.Request.{Request, make_request}
use cpp_matchmaking_mvp.Registry.{Registry, insert_entry, find_by_player}
use cpp_matchmaking_mvp.Registry.Outcome.{
  Inserted, InsertOutcome, insert_entry-InsertOutcome, erase_entry-Erased,
}
use cpp_matchmaking_mvp.Server.{Server, party, erase_match_ticket}
use cpp_matchmaking_mvp.PartyGroup.{Group, enqueue_job_request}
use cpp_matchmaking_mvp.PartyGroup.Enqueued.{
  WaitsAtBase, EnqueueOutcome, enqueue_job_request-EnqueueOutcome,
}
use cpp_matchmaking_mvp.Managers.{
  Hub, group_key_eq, get_worker_group, insert_match_ticket, allocate,
}
use cpp_matchmaking_mvp.Managers.Groups.{get_worker_group-put_group}
use cpp_matchmaking_mvp.Managers.Party.{
  finish_enqueue, enqueue_party, mark_failed, finish_start, request_party,
}

-- A ticket on file, which each of its players finds.
abbrev pub IsListed : (ticket : ℕ) → Ticket → Registry → Type 0
IsListed a t r =
    (lookup t.ticket_id r.entries ≡ some a)
    × ((k : ℕ) → contains k (get_players t) ≡ true → find_by_player k r ≡ some a)

Inserted-IsListed :
    (a : ℕ) (t : Ticket) (r r' : Registry)
    → Inserted t.ticket_id a (get_players t) r r'
    → IsListed a t r'
unfolding find_by_player
Inserted-IsListed a t r r' n =
    let self : (t.ticket_id == t.ticket_id) ≡ true = ground arith in
    let on_file : lookup t.ticket_id r'.entries ≡ some a = n.entry t.ticket_id ∙ rw self refl in
    (
      on_file,
      λ k mine.
          let leads : lookup k r'.by_player ≡ some t.ticket_id = n.players k ∙ rw mine refl in
          rw (leads, find_by_player) on_file,
    )

-- How the enqueuing of a request for the ticket at `a` ends.
abbrev pub Accepted : (ticket : ℕ) → Ticket → Request → Hub → Type 0
Accepted a t r h =
    (h.server.tickets a ≡ some (with_status queued t))
    × IsListed a t h.server.party_tickets
    × (g : Group) × (get_worker_group (get_group_key t) h.party_manager ≡ some g)
    × WaitsAtBase r g

abbrev EnqueuePartyOutcome : Ticket → Request → Hub → Hub × Bool → Type 0
EnqueuePartyOutcome t r h (h', true) = Accepted r.ticket t r h'
EnqueuePartyOutcome t r h (h', false) = h'.server.tickets r.ticket ≡ h.server.tickets r.ticket

changed_self :
    (a : ℕ) (next : MatchTicketStatus) (s : Tickets) (t : Ticket)
    → s a ≡ some t
    → can_change_status t.status next ≡ true
    → (call_on a (change_status next) s).0 a ≡ some (with_status next t)
unfolding change_status
changed_self a next s t found may =
    let self : (a == a) ≡ true = ground arith in rw found (rw (may, self) refl)

finish_enqueue-Outcome :
    (t : Ticket) (r : Request) (h : Hub) (s : Server) (g : Group) (o : Group × Tickets × Bool)
    → s.tickets r.ticket ≡ some t
    → s.tickets r.ticket ≡ h.server.tickets r.ticket
    → can_change_status t.status queued ≡ true
    → IsListed r.ticket t s.party_tickets
    → EnqueueOutcome r g s.tickets o
    → EnqueuePartyOutcome t r h (finish_enqueue (get_group_key t) t.ticket_id h s o)
unfolding erase_match_ticket
finish_enqueue-Outcome t r h s g (g', tickets, false) found same may listed n =
    ap (λ (m : Tickets). m r.ticket) n ∙ same
finish_enqueue-Outcome t r h s g (g', tickets, true) found same may listed n = (
  ap (λ (m : Tickets). m r.ticket) n.1 ∙ changed_self r.ticket queued s.tickets t found may,
  listed,
  g',
  get_worker_group-put_group (get_group_key t) g' h.party_manager,
  n.0,
)

enqueue_party_missing :
    (now : ℕ) (t : Ticket) (r : Request) (h : Hub)
    → get_worker_group (get_group_key t) h.party_manager ≡ none
    → enqueue_party now t r h ≡ (h, false)
unfolding enqueue_party
enqueue_party_missing now t r h e = rw (e, enqueue_party) refl

-- The state after the ticket has been put on file, and what follows.
abbrev with_party_tickets : Registry → Server → Server
with_party_tickets r s = record s { party_tickets = r }

abbrev enqueue_inserted : (now : ℕ) → Ticket → Request → Hub → Group → Registry × Bool → Hub × Bool
enqueue_inserted now t r h g o =
    if o.1
    then finish_enqueue (get_group_key t) t.ticket_id h (with_party_tickets o.0 h.server)
        (enqueue_job_request now r g h.server.tickets)
    else (record h { server = with_party_tickets o.0 h.server }, false)

enqueue_party_found :
    (now : ℕ) (t : Ticket) (r : Request) (h : Hub) (g : Group)
    → h.server.tickets r.ticket ≡ some t
    → get_worker_group (get_group_key t) h.party_manager ≡ some g
    → enqueue_party now t r h
      ≡ enqueue_inserted now t r h g
          (insert_entry t.ticket_id r.ticket (get_players t) h.server.party_tickets)
unfolding enqueue_party insert_match_ticket
enqueue_party_found now t r h g found at_key =
    rw (at_key, enqueue_party) (rw (found, insert_match_ticket) refl)

enqueue_inserted-Outcome :
    (now : ℕ) (t : Ticket) (r : Request) (h : Hub) (g : Group) (o : Registry × Bool)
    → h.server.tickets r.ticket ≡ some t
    → can_change_status t.status queued ≡ true
    → InsertOutcome t.ticket_id r.ticket (get_players t) h.server.party_tickets o
    → EnqueuePartyOutcome t r h (enqueue_inserted now t r h g o)
enqueue_inserted-Outcome now t r h g (r', false) found may n = refl
enqueue_inserted-Outcome now t r h g (r', true) found may n =
    finish_enqueue-Outcome t r h (with_party_tickets r' h.server) g _ found refl may
      (Inserted-IsListed r.ticket t h.server.party_tickets r' n)
      (enqueue_job_request-EnqueueOutcome now r g h.server.tickets)

enqueue_party-Outcome :
    (now : ℕ) (t : Ticket) (r : Request) (h : Hub)
    → h.server.tickets r.ticket ≡ some t
    → can_change_status t.status queued ≡ true
    → EnqueuePartyOutcome t r h (enqueue_party now t r h)
enqueue_party-Outcome now t r h found may =
    elim (Option-cases (get_worker_group (get_group_key t) h.party_manager)) [
      | inl missing ↦ rw (enqueue_party_missing now t r h missing) refl
      | inr (g, at_key) ↦ rw (enqueue_party_found now t r h g found at_key) (
          enqueue_inserted-Outcome now t r h g
            (insert_entry t.ticket_id r.ticket (get_players t) h.server.party_tickets) found may
            (insert_entry-InsertOutcome t.ticket_id r.ticket (get_players t)
              h.server.party_tickets))
    ]

-- A ticket that has failed and is on no file.
abbrev pub Refused : (ticket : ℕ) → Ticket → Hub → Type 0
Refused a t h =
    (h.server.tickets a ≡ some (with_status failed t))
    × (lookup t.ticket_id h.server.party_tickets.entries ≡ none)

abbrev pub StartOutcome : (ticket : ℕ) → Ticket → Request → Hub × Option ℕ → Type 0
StartOutcome a t r (h, o) = (o ≡ some a) × (Accepted a t r h ⊎ Refused a t h)

erase_match_ticket_gone :
    (id : ℕ) (s : Server) → lookup id (erase_match_ticket party id s).party_tickets.entries ≡ none
unfolding erase_match_ticket
erase_match_ticket_gone id s =
    let gone = (erase_entry-Erased (players_at s.tickets) id s.party_tickets).0.entry id in
    ground arith

erase_match_ticket-tickets :
    (id : ℕ) (s : Server) → (erase_match_ticket party id s).tickets ≡ s.tickets
unfolding erase_match_ticket
erase_match_ticket-tickets id s = refl

finish_start-StartOutcome :
    (t : Ticket) (r : Request) (h : Hub) (o : Hub × Bool)
    → h.server.tickets r.ticket ≡ some t
    → can_change_status t.status failed ≡ true
    → EnqueuePartyOutcome t r h o
    → StartOutcome r.ticket t r (finish_start r.ticket t.ticket_id o)
finish_start-StartOutcome t r h (h', true) found may n = (refl, inl n)
finish_start-StartOutcome t r h (h', false) found may n =
    let failed_now = changed_self r.ticket failed h'.server.tickets t (n ∙ found) may in
    let after = mark_failed r.ticket h'.server in
    (
      refl,
      inr (
        ap (λ (m : Tickets). m r.ticket) (erase_match_ticket-tickets t.ticket_id after)
            ∙ failed_now,
        erase_match_ticket_gone t.ticket_id after,
      ),
    )

may_change :
    (t : Ticket)
    → t.status ≡ unset
    → (can_change_status t.status queued ≡ true) × (can_change_status t.status failed ≡ true)
unfolding can_change_status
may_change t e = rw e (refl, refl)

-- The ticket and the request that are made for a request.
abbrev pub ticket_for : (now : ℕ) → MatchTicketRequest → Hub → Ticket
ticket_for now request h = (make_ticket request.world_no request now h.next_ticket_id).0

abbrev pub request_for : (now : ℕ) → MatchTicketRequest → Hub → Request
request_for now request h = make_request h.next_request h.next_ticket now (ticket_for now request h)

-- Once the checks are passed, `StartMatchmaking` returns the ticket it has made for the request, and the
-- request is either accepted or refused. Accepted: the ticket is queued, it is on file under its id,
-- each of its players finds it, and its request waits with a worker of the group of its world and zone,
-- in its waiting queue and in the queue of its size.
-- Refused: the ticket has failed, and there is none on file under its id.
pub request_party-StartOutcome :
    (now now_sec : ℕ) (request : MatchTicketRequest) (h : Hub)
    → StartOutcome h.next_ticket
        (ticket_for now request h)
        (request_for now request h)
        (request_party now now_sec request h)
unfolding request_party allocate make_request make_ticket
request_party-StartOutcome now now_sec request h =
    let t = ticket_for now request h in
    let h1 = (allocate now request h).0 in
    let r = request_for now request h in
    let self : (h.next_ticket == h.next_ticket) ≡ true = ground arith in
    let stored : h1.server.tickets h.next_ticket ≡ some t = rw self refl in
    let may = may_change t refl in
    finish_start-StartOutcome t r h1 (enqueue_party now_sec t r h1) stored may.1
      (enqueue_party-Outcome now_sec t r h1 stored may.0)
