-- ===== src/Tests/PartyWorker.antt =====
-- MM/matching/workers/PartyMatchmakingWorker.cpp: a match of two players, and two players who wait alone.
use cpp_matchmaking_mvp.Common.{
  ℕ, ◌+◌, ◌≡◌, ◌≢◌, ◌≤◌, refl, none, some, List, [], ◌∷◌, ◌==◌, ==_iff, if◌then◌else◌, Dict, lookup,
  Among, arith, Bool-cases, inl, inr,
}
use cpp_matchmaking_mvp.Types.{queued}
use cpp_matchmaking_mvp.Ticket.{Tickets}
use cpp_matchmaking_mvp.Request.{Request}
use cpp_matchmaking_mvp.Rule.{
  MatchmakingRule, run_stack, record_parts, grouped, emplace_back_each, make_combination, make_rule,
}
use cpp_matchmaking_mvp.PartyWorker.{
  Worker, make_worker, enqueue_request, erase_ticket, has_counts, take_queued, collect,
  build_candidate, sum_player_count, oldest_ticket_id, make_matchmaking,
}
use cpp_matchmaking_mvp.PartyWorker.Match.{IsMatch, make_matchmaking-IsMatch}
use cpp_matchmaking_mvp.PartyWorker.Invariant.{Consistent}
use cpp_matchmaking_mvp.PartyWorker.History.{
  here, next, join, Reach-Consistent, Same, erase_ticket-enqueue_request,
}
use cpp_matchmaking_mvp.PartyWorker.Oldest.{make_matchmaking-oldest}
use cpp_matchmaking_mvp.PartyWorker.Found.{Ready, make_matchmaking-finds}
use cpp_matchmaking_mvp.Tests.Session.{ticket_of}

abbrev pub request_of : ℕ → Request
request_of k = record {
  pointer = k + 19;
  ticket = k + 9;
  ticket_id = k;
  player_count = 1;
  start_time_msec = 0;
}

abbrev pub pairs : MatchmakingRule
pairs = record {
  match_zone_id = 0;
  match_player_count = 2;
  combination = (1, ((1, 2) ∷ []) ∷ []) ∷ [];
}

abbrev pub queued_tickets : Tickets
queued_tickets a =
    if a == 10
    then some (record (ticket_of 1) { status = queued })
    else if a == 11
    then some (record (ticket_of 2) { status = queued })
    else none

abbrev pub two_queued : Dict Request
two_queued = (1, request_of 1) ∷ (2, request_of 2) ∷ []

abbrev pub two_waiting : Worker
two_waiting = record {
  waiting = two_queued;
  by_player_count = (1, two_queued) ∷ [];
  queued_count = (1, 2) ∷ [];
}

abbrev in_order : Dict ℕ → Dict ℕ
in_order m = m

make_matchmaking-IsMatch_example :
    IsMatch 2 two_waiting.by_player_count queued_tickets
      (make_matchmaking in_order pairs two_waiting queued_tickets)
make_matchmaking-IsMatch_example =
    make_matchmaking-IsMatch in_order pairs two_waiting queued_tickets

two_join :
    (enqueue_request (request_of 2) (enqueue_request (request_of 1) make_worker).0).0 ≡ two_waiting
unfolding enqueue_request
two_join = refl

Reach-Consistent_example :
    Consistent (enqueue_request (request_of 2) (enqueue_request (request_of 1) make_worker).0).0
Reach-Consistent_example = Reach-Consistent (
    next (next here (join (request_of 1) make_worker))
      (join (request_of 2) (enqueue_request (request_of 1) make_worker).0))

two_waiting-Consistent : Consistent two_waiting
two_waiting-Consistent =
    let v = Reach-Consistent (
      next (next here (join (request_of 1) make_worker))
        (join (request_of 2) (enqueue_request (request_of 1) make_worker).0)) in
    rw two_join at v

erase_ticket-enqueue_request_example :
    Same (erase_ticket 3 1 (enqueue_request (request_of 3) two_waiting).0) two_waiting
unfolding enqueue_request
erase_ticket-enqueue_request_example =
    erase_ticket-enqueue_request (request_of 3) two_waiting two_waiting-Consistent refl

abbrev the_pair : List Request
the_pair = request_of 1 ∷ request_of 2 ∷ []

make_matchmaking-oldest_example :
    (make_matchmaking in_order pairs two_waiting queued_tickets ≢ [])
    × (oldest_ticket_id (make_matchmaking in_order pairs two_waiting queued_tickets)
        ≤ oldest_ticket_id the_pair)
unfolding build_candidate has_counts collect take_queued sum_player_count oldest_ticket_id
make_matchmaking-oldest_example =
    make_matchmaking-oldest in_order pairs two_waiting queued_tickets 1 1 ((1, 2) ∷ []) the_pair
      (omega arith) (inl refl) (inl refl) refl (refl, omega arith)

in_order_passes : (m : Dict ℕ) (j i : ℕ) → lookup j m ≡ some i → Among (j, i) (in_order m)
in_order_passes [] j i e = absurd (cc)
in_order_passes ((k, n) ∷ m) j i e = elim (Bool-cases (j == k)) [
  | inl hit ↦
      let same : j ≡ k = (==_iff j k).0 hit in
      let value : some n ≡ some i = rw hit at e in inl (ground arith)
  | inr miss ↦ inr (in_order_passes m j i (rw miss at e))
]

two_waiting-Ready : Ready two_waiting queued_tickets
two_waiting-Ready id r e = elim (Bool-cases (id == 1)) [
  | inl first ↦
      let found : some (request_of 1) ≡ some r = rw first at e in
      let is : request_of 1 ≡ r = cc in (rw (← is) refl, ground arith)
  | inr later ↦ elim (Bool-cases (id == 2)) [
    | inl second ↦
        let found : some (request_of 2) ≡ some r = rw (later, second) at e in
        let is : request_of 2 ≡ r = cc in (rw (← is) refl, ground arith)
    | inr none_left ↦ let found : none ≡ some r = rw (later, none_left) at e in absurd (cc)
  ]
]

make_matchmaking-finds_example :
    make_matchmaking in_order (make_rule 0 2 1) two_waiting queued_tickets ≢ []
unfolding make_rule make_combination run_stack record_parts grouped emplace_back_each has_counts
make_matchmaking-finds_example =
    make_matchmaking-finds in_order 0 2 1 1 ((1, 2) ∷ []) two_waiting queued_tickets in_order_passes
      two_waiting-Consistent two_waiting-Ready (inl refl) refl
