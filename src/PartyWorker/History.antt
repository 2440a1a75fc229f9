-- ===== src/PartyWorker/History.antt =====
-- MM/matching/workers/PartyMatchmakingWorker.cpp: the queues of a worker over any course of calls.
use cpp_matchmaking_mvp.Common.{
  ℕ, ◌≡◌, refl, sym, ap, ◌∙◌, true, none, lookup, Bool-cases, inl, inr, arith, ◌==◌, ==_iff, length,
}
use cpp_matchmaking_mvp.Request.{Request}
use cpp_matchmaking_mvp.Rule.{count_of}
use cpp_matchmaking_mvp.PartyWorker.{Worker, make_worker, queue_of, enqueue_request, erase_ticket}
use cpp_matchmaking_mvp.PartyWorker.Queues.{erase-insert}
use cpp_matchmaking_mvp.PartyWorker.Invariant.{
  Consistent, HasSize, Added, Erased, make_worker-Consistent, enqueue_request-Added,
  Added-Consistent, enqueue_request-Consistent, erase_ticket-Erased, erase_ticket-Consistent,
  unlisted,
}

-- The calls that change a worker. A ticket that leaves is given with its own size, which never changes.
pub data Step : Worker → Worker → Type 0 where
  join : (r : Request) (w : Worker) → Step w (enqueue_request r w).0
  leave : (id k : ℕ) (w : Worker) → HasSize id k w → Step w (erase_ticket id k w)

pub data Reach (s : Worker) : Worker → Type 0 where
  here : Reach s s
  next : {w u : Worker} → Reach s w → Step w u → Reach s u

Step-Consistent : {w u : Worker} → Step w u → Consistent w → Consistent u
Step-Consistent (join r w) v = enqueue_request-Consistent r w v
Step-Consistent (leave id k w h) v = erase_ticket-Consistent id k w v h

-- Whatever requests have joined a new worker and left it, in any order, the queue of each size lists
-- exactly the waiting requests of that size, in the order of their ids and under them, and the count
-- kept for the size is the length of that queue. A ticket that leaves is given with the size of its
-- waiting request.
pub Reach-Consistent : {w : Worker} → Reach make_worker w → Consistent w
Reach-Consistent here = make_worker-Consistent
Reach-Consistent (next r st) = Step-Consistent st (Reach-Consistent r)

-- Two workers that no call tells apart.
pub record Same (w u : Worker) : Type 0 where
  pub waiting : (id : ℕ) → lookup id w.waiting ≡ lookup id u.waiting
  pub queue : (k : ℕ) → queue_of k w.by_player_count ≡ queue_of k u.by_player_count
  pub count : (k : ℕ) → count_of k w.queued_count ≡ count_of k u.queued_count

module _ (r : Request) (w w' w'' : Worker) (v : Consistent w)
    (absent : lookup r.ticket_id w.waiting ≡ none) (n : Added r w w')
    (e : Erased r.ticket_id r.player_count w' w'') where
  same_queue : (k : ℕ) → queue_of k w''.by_player_count ≡ queue_of k w.by_player_count
  same_queue k = elim (Bool-cases (r.player_count == k)) [
    | inr other ↦ rw (e.queue k, other) (n.queue k ∙ rw other refl)
    | inl mine ↦
        let same : r.player_count ≡ k = (==_iff r.player_count k).0 mine in
        let self : (r.player_count == r.player_count) ≡ true = ground arith in
        let back =
          erase-insert r.ticket_id r (queue_of r.player_count w.by_player_count)
            (unlisted r.player_count r.ticket_id w v absent) in
        rw (e.queue k, mine, n.queue r.player_count, self) (back ∙ rw same refl)
  ]

  Added-Erased-Same : Consistent w'' → Same w'' w
  Added-Erased-Same v'' = record {
    waiting = λ id. ground (arith, n.waiting id, e.waiting id);
    queue = same_queue;
    count = λ k. v''.counted k ∙ ap length (same_queue k) ∙ sym (v.counted k);
  }

-- A request that joins a worker whose maps agree and leaves it again leaves no trace: the same
-- requests wait, and every queue and every count is as before.
pub erase_ticket-enqueue_request :
    (r : Request) (w : Worker)
    → Consistent w
    → (enqueue_request r w).1 ≡ true
    → Same (erase_ticket r.ticket_id r.player_count (enqueue_request r w).0) w
erase_ticket-enqueue_request r w v done = elim (enqueue_request-Added r w v) [
  | inl (kept, _) ↦ absurd (cc)
  | inr (absent, _, n) ↦
      let w' = (enqueue_request r w).0 in
      let v' = Added-Consistent r w w' v n absent in
      let size : HasSize r.ticket_id r.player_count w' =
        λ q f. ground (arith, n.waiting r.ticket_id) in
      Added-Erased-Same r w w' (erase_ticket r.ticket_id r.player_count w') v absent n
        (erase_ticket-Erased r.ticket_id r.player_count w' v' size)
        (erase_ticket-Consistent r.ticket_id r.player_count w' v' size)
]
