-- ===== src/Managers/Party/Taken.antt =====
-- MM/matching/PartyMatchmakingManager.cpp: a backfill request under the id of a ticket on file.
use cpp_matchmaking_mvp.Common.{
  ℕ, pos, ◌≡◌, ◌≢◌, refl, ◌∙◌, Bool, true, false, none, some, ◌==◌, lookup, arith, Option-cases,
  inl, inr,
}
use cpp_matchmaking_mvp.Types.{MatchTicketRequest, failed}
use cpp_matchmaking_mvp.Ticket.{
  Ticket, Tickets, make_ticket, get_group_key, get_players, store, players_at, change_status,
  call_on,
}
use cpp_matchmaking_mvp.Ticket.Heap.{ChangeOutcome, call_on-ChangeOutcome}
use cpp_matchmaking_mvp.Request.{Request, make_request}
use cpp_matchmaking_mvp.Registry.Outcome.{insert_entry-taken, erase_entry-Erased}
use cpp_matchmaking_mvp.Server.{Server, party, erase_match_ticket}
use cpp_matchmaking_mvp.Managers.{Hub, get_worker_group, insert_match_ticket, allocate}
use cpp_matchmaking_mvp.Managers.Party.{enqueue_party, mark_failed, start_match_backfill}

-- The id of a request is kept where it has one.
make_ticket-id :
    (request : MatchTicketRequest) (now next_id id : ℕ)
    → request.match_ticket_id ≡ pos id
    → (make_ticket request.world_no request now next_id).0.ticket_id ≡ id
unfolding make_ticket
make_ticket-id request now next_id id e = rw (e, make_ticket) refl

erase_match_ticket-gone :
    (id : ℕ) (s : Server) → lookup id (erase_match_ticket party id s).party_tickets.entries ≡ none
unfolding erase_match_ticket
erase_match_ticket-gone id s =
    let gone = (erase_entry-Erased (players_at s.tickets) id s.party_tickets).0.entry id in
    ground arith

insert_match_ticket-taken :
    (a old : ℕ) (t : Ticket) (s : Server)
    → s.tickets a ≡ some t
    → lookup t.ticket_id s.party_tickets.entries ≡ some old
    → insert_match_ticket party a s ≡ (s, false)
unfolding insert_match_ticket
insert_match_ticket-taken a old t s at_a e =
    rw (at_a, insert_match_ticket)
      (rw (insert_entry-taken t.ticket_id a old (get_players t) s.party_tickets e) refl)

enqueue_party-taken :
    (now old : ℕ) (t : Ticket) (r : Request) (h : Hub)
    → h.server.tickets r.ticket ≡ some t
    → lookup t.ticket_id h.server.party_tickets.entries ≡ some old
    → enqueue_party now t r h ≡ (h, false)
unfolding enqueue_party
enqueue_party-taken now old t r h at_r e =
    elim (Option-cases (get_worker_group (get_group_key t) h.party_manager)) [
      | inl missing ↦ rw (missing, enqueue_party) refl
      | inr (g, found) ↦
          rw (found, enqueue_party)
            (rw (insert_match_ticket-taken r.ticket old t h.server at_r e) refl)
    ]

-- A ticket that fails, and no other.
mark_failed-tickets : (a b : ℕ) (s : Server) → a ≢ b → (mark_failed a s).tickets b ≡ s.tickets b
mark_failed-tickets a b s differs =
    others (call_on a (change_status failed) s.tickets) (call_on-ChangeOutcome a failed s.tickets)
  where
    others : (o : Tickets × Bool) → ChangeOutcome a failed s.tickets o → o.0 b ≡ s.tickets b
    others (s', true) (t, found, may, changed) =
        let miss : (a == b) ≡ false = ground arith in changed b ∙ rw miss refl
    others (s', false) same = same b

stored_elsewhere : (a b : ℕ) (t : Ticket) (s : Tickets) → a ≢ b → store a t s b ≡ s b
stored_elsewhere a b t s differs = let miss : (a == b) ≡ false = ground arith in rw miss refl

-- A backfill request that names the id of a ticket on file is refused, and takes that ticket off the
-- file: afterwards the id leads to no ticket, while the status of every ticket but the new one and the
-- queues of all workers are as before. The ticket that was on file waits on and nobody finds it.
pub start_match_backfill-taken :
    (now now_sec id old : ℕ) (request : MatchTicketRequest) (h : Hub)
    → request.match_ticket_id ≡ pos id
    → lookup id h.server.party_tickets.entries ≡ some old
    → (lookup id (start_match_backfill now now_sec request h).server.party_tickets.entries ≡ none)
      × ((b : ℕ)
          → h.next_ticket ≢ b
          → (start_match_backfill now now_sec request h).server.tickets b ≡ h.server.tickets b)
      × ((start_match_backfill now now_sec request h).party_manager ≡ h.party_manager)
unfolding start_match_backfill allocate erase_match_ticket make_request
start_match_backfill-taken now now_sec id old request h e taken =
    let t = (make_ticket request.world_no request now h.next_ticket_id).0 in
    let h1 = (allocate now request h).0 in
    let r = make_request h.next_request h.next_ticket now t in
    let named : t.ticket_id ≡ id = make_ticket-id request now h.next_ticket_id id e in
    let self : (h.next_ticket == h.next_ticket) ≡ true = ground arith in
    let stored : h1.server.tickets h.next_ticket ≡ some t = rw self refl in
    let on_file : lookup t.ticket_id h.server.party_tickets.entries ≡ some old = rw named taken in
    let refused : enqueue_party now_sec t r h1 ≡ (h1, false) =
      enqueue_party-taken now_sec old t r h1 stored on_file in
    let after = erase_match_ticket party t.ticket_id h1.server in
    rw refused (
      rw (← named) (erase_match_ticket-gone t.ticket_id h1.server),
      λ b differs.
          mark_failed-tickets h.next_ticket b after differs
          ∙ stored_elsewhere h.next_ticket b t h.server.tickets differs,
      refl,
    )
