-- ===== src/Jobs/Order.antt =====
-- The order in which jobs run.
use native.Mathlib.Nat.{mod-lt}
use cpp_matchmaking_mvp.Common.{
  ℕ, zero, suc, ◌+◌, ◌%◌, ◌≤◌, ◌<◌, ◌≡◌, refl, sym, ap, ◌∙◌, if◌then◌else◌, true, some, Option,
  none, some, [], ◌∷◌, ◌++◌, leb, ltb, ◌==◌, Dict, lookup, insert, lookup-insert, All, arith,
  Bool-cases, Option-cases, inl, inr, has_value,
}
use cpp_matchmaking_mvp.Jobs.{
  Queue, enqueue, take_job, Group, make_group, init_workers, get_worker_index, do_async_job,
}

module _ {J : Type 0} where
  -- No job stands before one that is due earlier.
  abbrev pub IsSorted : Queue J → Type 0
  IsSorted [] = Unit
  IsSorted ((t, j) ∷ q) = All (λ e. t ≤ e.0) q × IsSorted q

  All-enqueue :
      (P : ℕ × J → Type 0) (t : ℕ) (j : J) (q : Queue J)
      → P (t, j)
      → All P q
      → All P (enqueue t j q)
  unfolding enqueue
  All-enqueue P t j [] h a = (h, tt)
  All-enqueue P t j ((u, i) ∷ q) h a = elim (Bool-cases (leb u t)) [
    | inl le ↦ rw le (a.0, All-enqueue P t j q h a.1)
    | inr gt ↦ rw gt (h, a)
  ]

  All-le_mono : (t u : ℕ) (q : Queue J) → t ≤ u → All (λ e. u ≤ e.0) q → All (λ e. t ≤ e.0) q
  All-le_mono t u [] h a = tt
  All-le_mono t u ((v, j) ∷ q) h a = (omega arith, All-le_mono t u q h a.1)

  -- A queue in the order of the times is so after a job is put in.
  pub enqueue-IsSorted : (t : ℕ) (j : J) (q : Queue J) → IsSorted q → IsSorted (enqueue t j q)
  unfolding enqueue
  enqueue-IsSorted t j [] s = (tt, tt)
  enqueue-IsSorted t j ((u, i) ∷ q) s = elim (Bool-cases (leb u t)) [
    | inl le ↦
        rw le (All-enqueue (λ e. u ≤ e.0) t j q (ground arith) s.0, enqueue-IsSorted t j q s.1)
    | inr gt ↦ rw gt ((ground arith, All-le_mono t u q (ground arith) s.0), s)
  ]

  -- What taking a job has done.
  abbrev pub TakeOutcome : (now : ℕ) → Queue J → Queue J × Option J → Type 0
  TakeOutcome now q (q', none) = (q' ≡ q) × All (λ e. now < e.0) q
  TakeOutcome now q (q', some j) = (t : ℕ) × (q ≡ (t, j) ∷ q') × (t ≤ now) × All (λ e. t ≤ e.0) q'

  All-lt : (now t : ℕ) (q : Queue J) → now < t → All (λ e. t ≤ e.0) q → All (λ e. now < e.0) q
  All-lt now t [] h a = tt
  All-lt now t ((v, j) ∷ q) h a = (omega arith, All-lt now t q h a.1)

  -- From a queue in the order of the times a worker takes the job that is due first, never before
  -- its time; it takes none only if all jobs lie in the future, and then changes nothing.
  pub take_job-TakeOutcome :
      (now : ℕ) (q : Queue J) → IsSorted q → TakeOutcome now q (take_job now q)
  unfolding take_job
  take_job-TakeOutcome now [] s = (refl, tt)
  take_job-TakeOutcome now ((t, j) ∷ q) s = elim (Bool-cases (ltb now t)) [
    | inl early ↦ rw early (refl, (ground arith, All-lt now t q (ground arith) s.0))
    | inr due ↦ rw due (t, refl, ground arith, s.0)
  ]

  -- A job stands in a queue behind all that are due no later, and ahead of the others; nothing else has
  -- changed.
  abbrev pub Placed : (time : ℕ) → J → (q q' : Queue J) → Type 0
  Placed t j q q' =
      (before : Queue J) × (after : Queue J) × (q ≡ before ++ after)
      × (q' ≡ before ++ (t, j) ∷ after)
      × All (λ e. e.0 ≤ t) before
      × All (λ e. t < e.0) after

  pub enqueue-Placed : (t : ℕ) (j : J) (q : Queue J) → IsSorted q → Placed t j q (enqueue t j q)
  unfolding enqueue
  enqueue-Placed t j [] s = ([], [], refl, refl, tt, tt)
  enqueue-Placed t j ((u, i) ∷ q) s = elim (Bool-cases (leb u t)) [
    | inl le ↦
        let (before, after, old, new, early, late) = enqueue-Placed t j q s.1 in
        rw le (
          (u, i) ∷ before,
          after,
          ap (λ r. (u, i) ∷ r) old,
          ap (λ r. (u, i) ∷ r) new,
          (ground arith, early),
          late,
        )
    | inr gt ↦
        let ahead : t < u = ground arith in
        rw gt ([], (u, i) ∷ q, refl, refl, tt, (ahead, All-lt t u q ahead s.0))
  ]

-- Every worker index below the count has a worker.
abbrev pub IsComplete : {J : Type 0} → Group J → Type 0
IsComplete g =
    (1 ≤ g.worker_count) × ((i : ℕ) → i < g.worker_count → has_value (lookup i g.workers) ≡ true)

lookup-init_workers :
    (J : Type 0) (n i k : ℕ)
    → i ≤ k
    → k < i + n
    → has_value (lookup k (init_workers {J = J} n i)) ≡ true
lookup-init_workers J zero i k a b = absurd (omega arith)
lookup-init_workers J (suc n) i k a b = elim (Bool-cases (k == i)) [
  | inl hit ↦ rw hit
  | inr miss ↦ rw miss (lookup-init_workers J n (i + 1) k (ground arith) (omega arith))
]

pub make_group-IsComplete : (J : Type 0) (n : ℕ) → 1 ≤ n → IsComplete (make_group {J = J} n)
make_group-IsComplete J n h = (h, λ i lt. lookup-init_workers J n 0 i (omega arith) (omega arith))

has_value-insert :
    {V : Type 0} (k i : ℕ) (v : V) (m : Dict V)
    → has_value (lookup i m) ≡ true
    → has_value (lookup i (insert k v m)) ≡ true
has_value-insert k i v m h = elim (Bool-cases (k == i)) [
  | inl hit ↦ rw (lookup-insert k i v m, hit)
  | inr miss ↦ rw (lookup-insert k i v m, miss) h
]

-- Each worker's queue is in the order of the times.
abbrev pub AllSorted : {J : Type 0} → Group J → Type 0
AllSorted {J = J} g = (i : ℕ) (q : Queue J) → lookup i g.workers ≡ some q → IsSorted q

module _ {J : Type 0} where
  -- One worker has got the job, and the others are as they were.
  abbrev pub Scheduled : (time : ℕ) → J → (g g' : Group J) → Type 0
  Scheduled t j g g' =
      (q : Queue J) × (q' : Queue J) × (lookup (get_worker_index t g) g.workers ≡ some q)
      × Placed t j q q'
      × ((i : ℕ)
          → lookup i g'.workers
            ≡ (if get_worker_index t g == i then some q' else lookup i g.workers))

  insert-AllSorted :
      (k : ℕ) (q : Queue J) (g : Group J)
      → IsSorted q
      → AllSorted g
      → AllSorted (record g { workers = insert k q g.workers })
  insert-AllSorted k q g sorted all i q' e = elim (Bool-cases (k == i)) [
    | inl hit ↦
        let is : some q ≡ some q' = rw hit at (sym (lookup-insert k i q g.workers) ∙ e) in
        let same : q ≡ q' = cc in rw (← same) sorted
    | inr miss ↦ all i q' (rw miss at (sym (lookup-insert k i q g.workers) ∙ e))
  ]

  -- `DoAsyncJob` on a group that has all its workers, with their queues in the order of the times,
  -- succeeds: the worker of the time gets the job, behind all that are due no later and ahead of all
  -- that are due later, no job is lost, and the other workers are as they were. The group has all its
  -- workers then, and their queues are in order.
  pub do_async_job-Scheduled :
      (t : ℕ) (j : J) (g : Group J)
      → IsComplete g
      → AllSorted g
      → ((do_async_job t j g).1 ≡ true)
        × Scheduled t j g (do_async_job t j g).0
        × IsComplete (do_async_job t j g).0
        × AllSorted (do_async_job t j g).0
  unfolding do_async_job
  do_async_job-Scheduled t j g (some_worker, all) sorted =
      elim (Option-cases (lookup (t % g.worker_count) g.workers)) [
        | inl missing ↦ let present = all (t % g.worker_count) (mod-lt t some_worker) in absurd (cc)
        | inr (q, found) ↦
            let in_order : IsSorted q = sorted (t % g.worker_count) q found in
            rw (found, do_async_job)
              (
                refl,
                (
                  q,
                  enqueue t j q,
                  refl,
                  enqueue-Placed t j q in_order,
                  λ i. lookup-insert (t % g.worker_count) i (enqueue t j q) g.workers,
                ),
                (
                  some_worker,
                  λ i lt.
                      has_value-insert (t % g.worker_count) i (enqueue t j q) g.workers (all i lt),
                ),
                insert-AllSorted (t % g.worker_count) (enqueue t j q) g
                    (enqueue-IsSorted t j q in_order) sorted,
              )
      ]

  init_workers-AllSorted :
      (n i k : ℕ) (q : Queue J) → lookup k (init_workers {J = J} n i) ≡ some q → IsSorted q
  init_workers-AllSorted zero i k q e = absurd (cc)
  init_workers-AllSorted (suc n) i k q e = elim (Bool-cases (k == i)) [
    | inl hit ↦
        let empty : Queue J = [] in
        let is : some empty ≡ some q = rw hit at e in let same : empty ≡ q = cc in rw (← same) tt
    | inr miss ↦ init_workers-AllSorted n (i + 1) k q (rw miss at e)
  ]

  pub make_group-AllSorted : (n : ℕ) → AllSorted (make_group {J = J} n)
  make_group-AllSorted n i q e = init_workers-AllSorted n 0 i q e
