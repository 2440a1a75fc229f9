-- ===== src/Tests/PartyGroup.antt =====
-- MM/matching/workers/PartyMatchmakingWorker.cpp: a group of one worker that one request has joined.
use cpp_matchmaking_mvp.Common.{
  ℕ, ◌≡◌, refl, sym, ◌∙◌, pos, lookup, length, none, some, [], ◌∷◌, ◌==◌, All, Bool-cases, inl, inr,
  arith,
}
use cpp_matchmaking_mvp.Types.{queued, searching, GroupKey, can_change_status}
use cpp_matchmaking_mvp.Ticket.{Ticket, get_players, change_status_if_current}
use cpp_matchmaking_mvp.Request.{Request}
use cpp_matchmaking_mvp.Session.{commit}
use cpp_matchmaking_mvp.PartyWorker.{Worker, make_worker, enqueue_request}
use cpp_matchmaking_mvp.PartyWorker.Invariant.{make_worker-Consistent, enqueue_request-Consistent}
use cpp_matchmaking_mvp.PartyGroup.{
  Group, init_workers, make_group, all_queued, change_all, try_commit, cancel_match_ticket,
  enqueue_job_request, place_request,
}
use cpp_matchmaking_mvp.PartyGroup.Everywhere.{Everywhere}
use cpp_matchmaking_mvp.PartyGroup.Agree.{AllConsistent, SizeAt}
use cpp_matchmaking_mvp.PartyGroup.Commit.{all_at_queued, change_all-commit}
use cpp_matchmaking_mvp.PartyGroup.Outcome.{
  CommitOutcome, try_commit-CommitOutcome, CancelOutcome, cancel_match_ticket-CancelOutcome,
}
use cpp_matchmaking_mvp.PartyGroup.Reach.{Fresh}
use cpp_matchmaking_mvp.PartyGroup.Placed.{IsPlaced}
use cpp_matchmaking_mvp.PartyGroup.History.{
  here, next, enqueued, Reach-IsPlaced, NoneLeft, try_commit-NoneLeft,
}
use cpp_matchmaking_mvp.Tests.Session.{ticket_of}
use cpp_matchmaking_mvp.Tests.PartyWorker.{request_of, pairs, queued_tickets}

abbrev pub world_group : GroupKey
world_group = record { world_group = pos 1; zone_id = 0 }

abbrev pub one_worker : Group
one_worker = make_group world_group pairs 1

abbrev pub joined : Group
joined = (enqueue_job_request 5 (request_of 1) one_worker queued_tickets).0

the_first-Fresh : Fresh (request_of 1) one_worker
unfolding make_group init_workers
the_first-Fresh i id w q at_i e = elim (Bool-cases (i == 0)) [
  | inl hit ↦
      let is : some make_worker ≡ some w = rw hit at at_i in
      let same : make_worker ≡ w = cc in
      let nothing : none ≡ some q = rw (← same) at e in absurd (cc)
  | inr miss ↦ let nothing : none ≡ some w = rw miss at at_i in absurd (cc)
]

Reach-IsPlaced_example : IsPlaced joined
Reach-IsPlaced_example =
    Reach-IsPlaced world_group pairs 1 (omega arith)
      (next here (enqueued 5 (request_of 1) one_worker queued_tickets the_first-Fresh))

joined-IsPlaced : IsPlaced joined
joined-IsPlaced =
    let reached = next here (enqueued 5 (request_of 1) one_worker queued_tickets the_first-Fresh) in
    Reach-IsPlaced world_group pairs 1 (omega arith) reached

-- Its worker has the first request alone.
joined-workers : joined.workers ≡ (0, (enqueue_request (request_of 1) make_worker).0) ∷ []
unfolding enqueue_job_request place_request make_group init_workers enqueue_request
joined-workers = refl

joined-worker :
    (i : ℕ) (w : Worker)
    → lookup i joined.workers ≡ some w
    → w ≡ (enqueue_request (request_of 1) make_worker).0
joined-worker i w e =
    let e' = rw joined-workers at e in
    elim (Bool-cases (i == 0)) [
      | inl hit ↦
          let is : some (enqueue_request (request_of 1) make_worker).0 ≡ some w = rw hit at e' in cc
      | inr miss ↦ let nothing : none ≡ some w = rw miss at e' in absurd (cc)
    ]

pub joined-AllConsistent : AllConsistent joined.workers
joined-AllConsistent i w e =
    rw (joined-worker i w e)
      (enqueue_request-Consistent (request_of 1) make_worker make_worker-Consistent)

-- Every request and every ticket of the example has one player.
request_of_one :
    (id : ℕ) (q : Request)
    → lookup id (enqueue_request (request_of 1) make_worker).0.waiting ≡ some q
    → q.player_count ≡ 1
unfolding enqueue_request
request_of_one id q e = elim (Bool-cases (id == 1)) [
  | inl hit ↦
      let is : some (request_of 1) ≡ some q = rw hit at e in
      let same : request_of 1 ≡ q = cc in rw (← same) refl
  | inr miss ↦ let nothing : none ≡ some q = rw miss at e in absurd (cc)
]

ticket_of_one : (a : ℕ) (t : Ticket) → queued_tickets a ≡ some t → length (get_players t) ≡ 1
ticket_of_one a t e = elim (Bool-cases (a == 10)) [
  | inl first ↦
      let is : some (record (ticket_of 1) { status = queued }) ≡ some t = rw first at e in
      let same : record (ticket_of 1) { status = queued } ≡ t = cc in rw (← same) refl
  | inr other ↦ elim (Bool-cases (a == 11)) [
    | inl second ↦
        let e' = rw other at e in
        let is : some (record (ticket_of 2) { status = queued }) ≡ some t = rw second at e' in
        let same : record (ticket_of 2) { status = queued } ≡ t = cc in rw (← same) refl
    | inr neither ↦
        let e' = rw other at e in let nothing : none ≡ some t = rw neither at e' in absurd (cc)
  ]
]

pub joined-SizeAt : (a : ℕ) → Everywhere (SizeAt a queued_tickets) joined.workers
joined-SizeAt a i id w q at_i e t at_a same =
    request_of_one id q (rw (joined-worker i w at_i) at e) ∙ sym (ticket_of_one a t at_a)

change_all-commit_example :
    change_all [] (request_of 1 ∷ []) queued_tickets
    ≡ commit searching [] (all_at_queued (10 ∷ [])) queued_tickets
change_all-commit_example = change_all-commit [] (request_of 1 ∷ []) queued_tickets

try_commit-CommitOutcome_example :
    CommitOutcome
      (request_of 1 ∷ request_of 2 ∷ [])
      joined
      queued_tickets
      (try_commit (request_of 1 ∷ request_of 2 ∷ []) joined queued_tickets)
try_commit-CommitOutcome_example =
    try_commit-CommitOutcome (request_of 1 ∷ request_of 2 ∷ []) joined queued_tickets
      joined-AllConsistent (joined-SizeAt 10, (joined-SizeAt 11, tt)) (refl, (refl, tt))

try_commit-NoneLeft_example :
    All
      (NoneLeft
        (try_commit (request_of 1 ∷ []) joined queued_tickets).0
        (try_commit (request_of 1 ∷ []) joined queued_tickets).1)
      (request_of 1 ∷ [])
unfolding try_commit all_queued change_all change_status_if_current can_change_status
try_commit-NoneLeft_example =
    try_commit-NoneLeft (request_of 1 ∷ []) joined queued_tickets joined-IsPlaced
      joined-AllConsistent (joined-SizeAt 10, tt) (refl, tt) refl

cancel_match_ticket-CancelOutcome_example :
    CancelOutcome 10 joined queued_tickets (cancel_match_ticket 10 joined queued_tickets)
cancel_match_ticket-CancelOutcome_example =
    cancel_match_ticket-CancelOutcome 10 joined queued_tickets joined-AllConsistent
      (joined-SizeAt 10)
