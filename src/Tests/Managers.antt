-- ===== src/Tests/Managers.antt =====
-- MM/matching/PartyMatchmakingManager.cpp: a player whose ticket waits, a request for the same, and a
-- first request.
use cpp_matchmaking_mvp.Common.{
  ℕ, ◌≡◌, ◌≢◌, refl, true, none, some, [], ◌∷◌, ◌==◌, ==_iff, lookup, Bool-cases, inl, inr, arith,
}
use cpp_matchmaking_mvp.Types.{MatchTicketRequest, queued, eqb_group}
use cpp_matchmaking_mvp.Ticket.{Ticket, get_group_key, players_at}
use cpp_matchmaking_mvp.Registry.{Registry, empty_registry, insert_entry, insert_players}
use cpp_matchmaking_mvp.Registry.Invariant.{IsIndexed, empty-IsIndexed, insert_entry-IsIndexed}
use cpp_matchmaking_mvp.Server.{new_server}
use cpp_matchmaking_mvp.Managers.{Hub, new_hub, insert_matchmaking_rule}
use cpp_matchmaking_mvp.Managers.Party.{
  start_match_backfill, request_party, stop_party, init_party, start_party,
}
use cpp_matchmaking_mvp.Managers.Party.Taken.{start_match_backfill-taken}
use cpp_matchmaking_mvp.Managers.Party.Started.{
  ticket_for, request_for, StartOutcome, request_party-StartOutcome,
}
use cpp_matchmaking_mvp.Managers.Party.Stopped.{
  IsFiled, IsSized, StopOutcome, stop_party-StopOutcome,
}
use cpp_matchmaking_mvp.Managers.Kept.{IsKept}
use cpp_matchmaking_mvp.Managers.History.{
  rule_party, party_initialised, party_started, here, next, Reach-IsKept,
}
use cpp_matchmaking_mvp.Tests.Session.{ticket_of}
use cpp_matchmaking_mvp.Tests.PartyWorker.{pairs, queued_tickets}
use cpp_matchmaking_mvp.Tests.PartyGroup.{world_group, joined, joined-AllConsistent, joined-SizeAt}

abbrev one_on_file : Registry
one_on_file = record { entries = (1, 10) ∷ []; by_player = (1, 1) ∷ [] }

abbrev busy : Hub
busy = record new_hub {
  server = record new_server { tickets = queued_tickets; party_tickets = one_on_file };
  party_manager = record {
    rules = (0, pairs) ∷ [];
    groups = (world_group, joined) ∷ [];
    is_running = true;
  };
  next_ticket = 12;
  next_request = 30;
}

abbrev same_again : MatchTicketRequest
same_again = (ticket_of 1).request

abbrev another : MatchTicketRequest
another = (ticket_of 5).request

inserting_first :
    insert_entry 1 10 (players_at queued_tickets 10) empty_registry ≡ (one_on_file, true)
unfolding insert_entry insert_players
inserting_first = refl

one_on_file-IsIndexed : IsIndexed (players_at queued_tickets) one_on_file
one_on_file-IsIndexed =
    let v =
      insert_entry-IsIndexed (players_at queued_tickets) 1 10 empty_registry
        (empty-IsIndexed (players_at queued_tickets)) in
    rw inserting_first at v

busy-IsFiled : IsFiled busy.server
busy-IsFiled id a e = elim (Bool-cases (id == 1)) [
  | inl hit ↦
      let same : id ≡ 1 = (==_iff id 1).0 hit in
      let found : some 10 ≡ some a = rw hit at e in
      let is : 10 ≡ a = cc in
      (record (ticket_of 1) { status = queued }, rw (← is) refl, ground arith)
  | inr miss ↦ let found : none ≡ some a = rw miss at e in absurd (cc)
]

busy-IsSized :
    (id a : ℕ) (t : Ticket)
    → lookup id busy.server.party_tickets.entries ≡ some a
    → busy.server.tickets a ≡ some t
    → IsSized a t busy
busy-IsSized id a t e at_a g at_key = elim (Bool-cases (eqb_group (get_group_key t) world_group)) [
  | inl hit ↦
      let is : some joined ≡ some g = rw hit at at_key in
      let same : joined ≡ g = cc in rw (← same) (joined-AllConsistent, joined-SizeAt a)
  | inr miss ↦ let nothing : none ≡ some g = rw miss at at_key in absurd (cc)
]

start_match_backfill-taken_example :
    (lookup 1 (start_match_backfill 100 0 same_again busy).server.party_tickets.entries ≡ none)
    × ((b : ℕ)
        → busy.next_ticket ≢ b
        → (start_match_backfill 100 0 same_again busy).server.tickets b ≡ busy.server.tickets b)
    × ((start_match_backfill 100 0 same_again busy).party_manager ≡ busy.party_manager)
start_match_backfill-taken_example = start_match_backfill-taken 100 0 1 10 same_again busy refl refl

request_party-StartOutcome_example :
    StartOutcome 12
      (ticket_for 100 another busy)
      (request_for 100 another busy)
      (request_party 100 0 another busy)
request_party-StartOutcome_example = request_party-StartOutcome 100 0 another busy

stop_party-StopOutcome_example : StopOutcome 1 busy (stop_party 1 busy)
stop_party-StopOutcome_example =
    stop_party-StopOutcome 1 busy one_on_file-IsIndexed busy-IsFiled busy-IsSized

-- The manager is given a rule, is started, and is asked for a match.
abbrev with_rule : Hub
with_rule = record new_hub {
  party_manager = (insert_matchmaking_rule pairs new_hub.party_manager).0;
}

abbrev asked : Hub
asked = (start_party 100 0 another (init_party with_rule)).0

Reach-IsKept_example : IsKept asked
Reach-IsKept_example = Reach-IsKept (
    next (next (next here (rule_party pairs new_hub)) (party_initialised with_rule))
      (party_started 100 0 another (init_party with_rule)))
