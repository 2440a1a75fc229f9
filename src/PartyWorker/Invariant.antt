-- ===== src/PartyWorker/Invariant.antt =====
-- MM/matching/workers/PartyMatchmakingWorker.cpp: the three maps of a worker agree.
use cpp_matchmaking_mvp.Common.{
  ℕ, ◌+◌, ◌≡◌, ◌⊎◌, refl, ◌∙◌, true, false, ◌&&◌, none, some, [], ◌==◌, ==_iff, if◌then◌else◌,
  length, Dict, lookup, insert, erase, lookup-insert, lookup-erase, IsOrdered, IsOrdered-insert,
  has_value, Bool-cases, Option-cases, inl, inr, arith,
}
use cpp_matchmaking_mvp.Request.{Request, emplace}
use cpp_matchmaking_mvp.Rule.{count_of}
use cpp_matchmaking_mvp.PartyWorker.{
  Worker, make_worker, queue_of, enqueue_request, discount, erase_ticket,
}
use cpp_matchmaking_mvp.PartyWorker.Queues.{
  length-insert_new, IsOrdered-erase, length-erase_absent, length-erase, queue_of-insert,
  count_of-insert, count_of-discount,
}

-- A request waits exactly where the queue of its size lists it, under the id of its ticket, and each
-- count is the length of its queue.
pub record Consistent (w : Worker) : Type 0 where
  pub sized :
      (k id : ℕ) (r : Request)
      → lookup id (queue_of k w.by_player_count) ≡ some r
      → (r.player_count ≡ k) × (lookup id w.waiting ≡ some r)
  pub listed :
      (id : ℕ) (r : Request)
      → lookup id w.waiting ≡ some r
      → (r.ticket_id ≡ id) × (lookup id (queue_of r.player_count w.by_player_count) ≡ some r)
  pub counted : (k : ℕ) → count_of k w.queued_count ≡ length (queue_of k w.by_player_count)
  pub ordered : (k : ℕ) → IsOrdered (queue_of k w.by_player_count)

pub make_worker-Consistent : Consistent make_worker
make_worker-Consistent = record {
  sized = λ k id r e. absurd (cc);
  listed = λ id r e. absurd (cc);
  counted = λ k. refl;
  ordered = λ k. tt;
}

-- What a request that joins changes.
pub record Added (r : Request) (w w' : Worker) : Type 0 where
  pub waiting :
      (i : ℕ) → lookup i w'.waiting ≡ (if r.ticket_id == i then some r else lookup i w.waiting)
  pub queue :
      (k : ℕ)
      → queue_of k w'.by_player_count ≡ (
          if r.player_count == k
          then insert r.ticket_id r (queue_of r.player_count w.by_player_count)
          else queue_of k w.by_player_count)
  pub count :
      (k : ℕ)
      → count_of k w'.queued_count ≡ (
          if r.player_count == k
          then count_of r.player_count w.queued_count + 1
          else count_of k w.queued_count)

pub unlisted :
    (k id : ℕ) (w : Worker)
    → Consistent w
    → lookup id w.waiting ≡ none
    → lookup id (queue_of k w.by_player_count) ≡ none
unlisted k id w v e = elim (Option-cases (lookup id (queue_of k w.by_player_count))) [
  | inl absent ↦ absent
  | inr (r, found) ↦ let h = v.sized k id r found in absurd (cc)
]

-- A request joins, unless one with its id waits already.
pub enqueue_request-Added :
    (r : Request) (w : Worker)
    → Consistent w
    → ((enqueue_request r w ≡ (w, false)) × (has_value (lookup r.ticket_id w.waiting) ≡ true))
      ⊎ ((lookup r.ticket_id w.waiting ≡ none)
          × ((enqueue_request r w).1 ≡ true)
          × Added r w (enqueue_request r w).0)
unfolding enqueue_request
enqueue_request-Added r w v = elim (Option-cases (lookup r.ticket_id w.waiting)) [
  | inr (old, found) ↦ inl (rw (found, emplace) refl, rw found refl)
  | inl absent ↦
      let absent' = unlisted r.player_count r.ticket_id w v absent in
      inr (
        absent,
        rw (absent, absent', emplace) refl,
        rw (absent, absent', emplace)
            (record {
              waiting = λ i. lookup-insert r.ticket_id i r w.waiting;
              queue = λ k. queue_of-insert r.player_count k _ w.by_player_count;
              count = λ k. count_of-insert r.player_count k _ w.queued_count;
            }),
      )
]

module _ (r : Request) (w w' : Worker) (v : Consistent w) (n : Added r w w')
    (absent : lookup r.ticket_id w.waiting ≡ none) where
  Added-lookup :
      (k id : ℕ)
      → lookup id (queue_of k w'.by_player_count) ≡ (
          if r.player_count == k && r.ticket_id == id
          then some r
          else lookup id (queue_of k w.by_player_count))
  Added-lookup k id = elim (Bool-cases (r.player_count == k)) [
    | inl mine ↦
        let same : r.player_count ≡ k = (==_iff r.player_count k).0 mine in
        rw (n.queue k, mine)
          (lookup-insert r.ticket_id id r (queue_of r.player_count w.by_player_count)
            ∙ rw same refl)
    | inr other ↦ rw (n.queue k, other) refl
  ]

  Added-sized :
      (k id : ℕ) (q : Request)
      → lookup id (queue_of k w'.by_player_count) ≡ some q
      → (q.player_count ≡ k) × (lookup id w'.waiting ≡ some q)
  Added-sized k id q e = ground (arith, Added-lookup k id, n.waiting id, v.sized k id q)

  Added-listed :
      (id : ℕ) (q : Request)
      → lookup id w'.waiting ≡ some q
      → (q.ticket_id ≡ id) × (lookup id (queue_of q.player_count w'.by_player_count) ≡ some q)
  Added-listed id q e = ground (arith, Added-lookup q.player_count id, n.waiting id, v.listed id q)

  Added-counted : (k : ℕ) → count_of k w'.queued_count ≡ length (queue_of k w'.by_player_count)
  Added-counted k = elim (Bool-cases (r.player_count == k)) [
    | inl mine ↦
        rw (n.count k, n.queue k, mine)
          (omega (
            arith,
            v.counted r.player_count,
            length-insert_new r.ticket_id r (queue_of r.player_count w.by_player_count)
                (unlisted r.player_count r.ticket_id w v absent),
          ))
    | inr other ↦ rw (n.count k, n.queue k, other) (v.counted k)
  ]

  Added-IsOrdered : (k : ℕ) → IsOrdered (queue_of k w'.by_player_count)
  Added-IsOrdered k = elim (Bool-cases (r.player_count == k)) [
    | inl mine ↦ rw (n.queue k, mine) (IsOrdered-insert r.ticket_id r _ (v.ordered r.player_count))
    | inr other ↦ rw (n.queue k, other) (v.ordered k)
  ]

  pub Added-Consistent : Consistent w'
  Added-Consistent = record {
    sized = Added-sized;
    listed = Added-listed;
    counted = Added-counted;
    ordered = Added-IsOrdered;
  }

pub enqueue_request-Consistent :
    (r : Request) (w : Worker) → Consistent w → Consistent (enqueue_request r w).0
enqueue_request-Consistent r w v = elim (enqueue_request-Added r w v) [
  | inl (kept, _) ↦ rw kept v
  | inr (absent, _, n) ↦ Added-Consistent r w (enqueue_request r w).0 v n absent
]

-- What the end of a ticket changes.
pub record Erased (id k : ℕ) (w w' : Worker) : Type 0 where
  pub waiting : (i : ℕ) → lookup i w'.waiting ≡ (if id == i then none else lookup i w.waiting)
  pub queue :
      (j : ℕ)
      → queue_of j w'.by_player_count
        ≡ (if k == j then erase id (queue_of k w.by_player_count) else queue_of j w.by_player_count)
  pub count :
      (j : ℕ)
      → count_of j w'.queued_count ≡ (
          if k == j
          then length (erase id (queue_of k w.by_player_count))
          else count_of j w.queued_count)

-- The tickets of an id all have the size that is given.
abbrev pub HasSize : (id k : ℕ) → Worker → Type 0
HasSize id k w = (r : Request) → lookup id w.waiting ≡ some r → r.player_count ≡ k

unlisted_waits :
    (id k : ℕ) (w : Worker)
    → Consistent w
    → HasSize id k w
    → lookup id (queue_of k w.by_player_count) ≡ none
    → lookup id w.waiting ≡ none
unlisted_waits id k w v h e = elim (Option-cases (lookup id w.waiting)) [
  | inl absent ↦ absent
  | inr (r, found) ↦ let listed = (v.listed id r found).1 in absurd (cc (rw (h r found) at listed))
]

queue_of_found :
    (k : ℕ) (m : Dict (Dict Request)) (q : Dict Request) → lookup k m ≡ some q → queue_of k m ≡ q
queue_of_found k m q e = rw (e, queue_of) refl

queue_of_missing : (k : ℕ) (m : Dict (Dict Request)) → lookup k m ≡ none → queue_of k m ≡ []
queue_of_missing k m e = rw (e, queue_of) refl

-- Nothing changes for a ticket that the queue does not list.
absent-count :
    (id k j : ℕ) (w : Worker)
    → Consistent w
    → lookup id (queue_of k w.by_player_count) ≡ none
    → count_of j w.queued_count ≡ (
        if k == j
        then length (erase id (queue_of k w.by_player_count))
        else count_of j w.queued_count)
absent-count id k j w v e = elim (Bool-cases (k == j)) [
  | inl mine ↦
      let same : k ≡ j = (==_iff k j).0 mine in
      rw (mine, length-erase_absent id _ e, ← same) (v.counted k)
  | inr other ↦ rw other refl
]

present-count :
    (id k j : ℕ) (r : Request) (w : Worker)
    → Consistent w
    → lookup id (queue_of k w.by_player_count) ≡ some r
    → count_of j (discount k w.queued_count) ≡ (
        if k == j
        then length (erase id (queue_of k w.by_player_count))
        else count_of j w.queued_count)
present-count id k j r w v e = count_of-discount k j w.queued_count ∙ elim (Bool-cases (k == j)) [
  | inl mine ↦
      rw mine (
        omega
          (arith, v.counted k, length-erase id (queue_of k w.by_player_count) r (v.ordered k) e))
  | inr other ↦ rw other refl
]

pub erase_ticket-Erased :
    (id k : ℕ) (w : Worker) → Consistent w → HasSize id k w → Erased id k w (erase_ticket id k w)
unfolding erase_ticket
erase_ticket-Erased id k w v h = elim (Option-cases (lookup k w.by_player_count)) [
  | inl missing ↦
      let empty = queue_of_missing k w.by_player_count missing in
      rw (missing, erase_ticket)
        (record {
          waiting = λ i. lookup-erase id i w.waiting;
          queue = λ j. elim (Bool-cases (k == j)) [
            | inl mine ↦ let same : k ≡ j = (==_iff k j).0 mine in rw (mine, ← same, empty) refl
            | inr other ↦ rw other refl
          ];
          count = λ j. absent-count id k j w v (rw empty refl);
        })
  | inr (q, found) ↦
      let at_k = queue_of_found k w.by_player_count q found in
      let queues = λ (j : ℕ). queue_of-insert k j (erase id q) w.by_player_count in
      elim (Option-cases (lookup id q)) [
        | inl absent ↦
            let absent' : lookup id (queue_of k w.by_player_count) ≡ none = rw at_k absent in
            rw (found, erase_ticket)
              (record {
                waiting = λ i. lookup-erase id i w.waiting;
                queue = λ j. rw at_k (queues j);
                count = λ j.
                    rw (absent, unlisted_waits id k w v h absent')
                      (absent-count id k j w v absent');
              })
        | inr (r, listed) ↦
            let listed' : lookup id (queue_of k w.by_player_count) ≡ some r = rw at_k listed in
            let waits : lookup id w.waiting ≡ some r = (v.sized k id r listed').1 in
            rw (found, erase_ticket)
              (record {
                waiting = λ i. lookup-erase id i w.waiting;
                queue = λ j. rw at_k (queues j);
                count = λ j. rw (listed, waits) (present-count id k j r w v listed');
              })
      ]
]

module _ (id k : ℕ) (w w' : Worker) (v : Consistent w) (h : HasSize id k w)
    (n : Erased id k w w') where
  Erased-lookup :
      (j i : ℕ)
      → lookup i (queue_of j w'.by_player_count)
        ≡ (if k == j && id == i then none else lookup i (queue_of j w.by_player_count))
  Erased-lookup j i = elim (Bool-cases (k == j)) [
    | inl mine ↦
        let same : k ≡ j = (==_iff k j).0 mine in
        rw (n.queue j, mine) (lookup-erase id i (queue_of k w.by_player_count) ∙ rw same refl)
    | inr other ↦ rw (n.queue j, other) refl
  ]

  Erased-sized :
      (j i : ℕ) (q : Request)
      → lookup i (queue_of j w'.by_player_count) ≡ some q
      → (q.player_count ≡ j) × (lookup i w'.waiting ≡ some q)
  Erased-sized j i q e = ground (arith, Erased-lookup j i, n.waiting i, v.sized j i q, h q)

  Erased-listed :
      (i : ℕ) (q : Request)
      → lookup i w'.waiting ≡ some q
      → (q.ticket_id ≡ i) × (lookup i (queue_of q.player_count w'.by_player_count) ≡ some q)
  Erased-listed i q e = ground (arith, Erased-lookup q.player_count i, n.waiting i, v.listed i q)

  Erased-counted : (j : ℕ) → count_of j w'.queued_count ≡ length (queue_of j w'.by_player_count)
  Erased-counted j = elim (Bool-cases (k == j)) [
    | inl mine ↦ rw (n.count j, n.queue j, mine) refl
    | inr other ↦ rw (n.count j, n.queue j, other) (v.counted j)
  ]

  Erased-IsOrdered : (j : ℕ) → IsOrdered (queue_of j w'.by_player_count)
  Erased-IsOrdered j = elim (Bool-cases (k == j)) [
    | inl mine ↦ rw (n.queue j, mine) (IsOrdered-erase id _ (v.ordered k))
    | inr other ↦ rw (n.queue j, other) (v.ordered j)
  ]

  Erased-Consistent : Consistent w'
  Erased-Consistent = record {
    sized = Erased-sized;
    listed = Erased-listed;
    counted = Erased-counted;
    ordered = Erased-IsOrdered;
  }

pub erase_ticket-Consistent :
    (id k : ℕ) (w : Worker) → Consistent w → HasSize id k w → Consistent (erase_ticket id k w)
erase_ticket-Consistent id k w v h =
    Erased-Consistent id k w (erase_ticket id k w) v h (erase_ticket-Erased id k w v h)
