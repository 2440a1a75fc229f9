-- ===== src/Jobs.antt =====
-- MM/workers/AsyncJobWorker.h and .cpp, and the part of WorkerGroup.h that they use. A job is what
-- its closure does, as data of a type `J`. `std::multimap` puts an entry behind those of its key.
pub mod Order
use cpp_matchmaking_mvp.Common.{
  ℕ, zero, suc, ◌+◌, ◌%◌, ◌≡◌, Bool, true, false, Option, none, some, List, [], ◌∷◌, leb, ltb,
  if◌then◌else◌, Dict, lookup, insert, length,
}

-- `std::multimap<long long, CAsyncJobRequestPtr>`
abbrev pub Queue {ℓ} : Type ℓ → Type ℓ
Queue J = List (ℕ × J)

module _ {ℓ} {J : Type ℓ} where
  -- `CAsyncJobWorker::EnqueueJobRequest`
  unfoldable pub enqueue : (time : ℕ) → J → Queue J → Queue J
  enqueue t j [] = (t, j) ∷ []
  enqueue t j ((u, i) ∷ q) = if leb u t then (u, i) ∷ enqueue t j q else (t, j) ∷ (u, i) ∷ q

  -- `CAsyncJobWorker::IsWorkerJobAvailable`
  unfoldable pub is_job_available : (now : ℕ) → Queue J → Bool
  is_job_available now [] = false
  is_job_available now ((t, j) ∷ q) = leb t now

  -- `CAsyncJobWorker::DoWorkerAsyncJob`: the job that it takes from the queue and runs.
  unfoldable pub take_job : (now : ℕ) → Queue J → Queue J × Option J
  take_job now [] = ([], none)
  take_job now ((t, j) ∷ q) = if ltb now t then ((t, j) ∷ q, none) else (q, some j)

  -- `CAsyncJobWorker::GetJobExecuteTimeMSec`
  unfoldable pub get_job_execute_time : (now : ℕ) → Queue J → ℕ
  get_job_execute_time now [] = now + 600000
  get_job_execute_time now ((t, j) ∷ q) = t

-- `CAsyncJobWorkerGroup`
pub record Group {ℓ} (J : Type ℓ) : Type ℓ where
  pub worker_count : ℕ
  pub workers : Dict (Queue J)

module _ {ℓ} {J : Type ℓ} where
  -- `InitWorkers`: workers from index `i` on.
  abbrev pub init_workers : (left i : ℕ) → Dict (Queue J)
  init_workers zero i = []
  init_workers (suc n) i = (i, []) ∷ init_workers n (i + 1)

  abbrev pub make_group : ℕ → Group J
  make_group n = record { worker_count = n; workers = init_workers n 0 }

  -- `CAsyncJobWorkerGroup::GetWorkerIndex`
  abbrev pub get_worker_index : (time : ℕ) → Group J → ℕ
  get_worker_index t g = t % g.worker_count

  -- `CAsyncJobWorkerGroup::EnqueueJobRequest`, and `DoAsyncJob`.
  unfoldable pub do_async_job : (time : ℕ) → J → Group J → Group J × Bool
  do_async_job t j g = elim (lookup (get_worker_index t g) g.workers) [
    | none ↦ (g, false)
    | some q ↦
        (record g { workers = insert (get_worker_index t g) (enqueue t j q) g.workers }, true)
  ]
