-- ===== src/Tests/Jobs.antt =====
-- The job queue, with jobs named by numbers, and the penalties.
use cpp_matchmaking_mvp.Common.{ℕ, ◌≡◌, true, [], ◌∷◌, arith, if◌then◌else◌, ltb, ◌==◌}
use cpp_matchmaking_mvp.Jobs.{Queue, Group, take_job, make_group, do_async_job}
use cpp_matchmaking_mvp.Jobs.Order.{
  IsSorted, TakeOutcome, take_job-TakeOutcome, IsComplete, make_group-IsComplete, AllSorted,
  Scheduled, do_async_job-Scheduled, make_group-AllSorted,
}
use cpp_matchmaking_mvp.Penalty.{
  PenaltyManager, make_penalty_manager, add_dodge_penalty, expire_dodge_penalty, has_dodge_penalty,
}
use cpp_matchmaking_mvp.Penalty.Observe.{
  has_dodge_penalty-add_dodge_penalty, has_dodge_penalty-expire_dodge_penalty,
}

abbrev two_jobs : Queue ℕ
two_jobs = (5, 1) ∷ (9, 2) ∷ []

two_jobs-IsSorted : IsSorted two_jobs
two_jobs-IsSorted = ((omega arith, tt), (tt, tt))

take_job-TakeOutcome_example : TakeOutcome 6 two_jobs (take_job 6 two_jobs)
take_job-TakeOutcome_example = take_job-TakeOutcome 6 two_jobs two_jobs-IsSorted

abbrev one_worker : Group ℕ
one_worker = make_group 1

abbrev one_scheduled : Group ℕ
one_scheduled = (do_async_job 5 1 one_worker).0

one_scheduled-ready :
    ((do_async_job 5 1 one_worker).1 ≡ true)
    × Scheduled 5 1 one_worker one_scheduled
    × IsComplete one_scheduled
    × AllSorted one_scheduled
one_scheduled-ready =
    do_async_job-Scheduled 5 1 one_worker (make_group-IsComplete ℕ 1 (omega arith))
      (make_group-AllSorted 1)

do_async_job-Scheduled_example :
    ((do_async_job 4 2 one_scheduled).1 ≡ true)
    × Scheduled 4 2 one_scheduled (do_async_job 4 2 one_scheduled).0
    × IsComplete (do_async_job 4 2 one_scheduled).0
    × AllSorted (do_async_job 4 2 one_scheduled).0
do_async_job-Scheduled_example =
    do_async_job-Scheduled 4 2 one_scheduled one_scheduled-ready.2 one_scheduled-ready.3

abbrev one_dodger : PenaltyManager
one_dodger = add_dodge_penalty 7 15000 make_penalty_manager

has_dodge_penalty-add_dodge_penalty_example :
    has_dodge_penalty 7 14000 (add_dodge_penalty 7 16000 one_dodger)
    ≡ (if 7 == 7 then ltb 14000 16000 else has_dodge_penalty 7 14000 one_dodger)
has_dodge_penalty-add_dodge_penalty_example =
    has_dodge_penalty-add_dodge_penalty 7 7 16000 14000 one_dodger

has_dodge_penalty-expire_dodge_penalty_example :
    has_dodge_penalty 7 20000 (expire_dodge_penalty 15000 7 one_dodger)
    ≡ has_dodge_penalty 7 20000 one_dodger
has_dodge_penalty-expire_dodge_penalty_example =
    has_dodge_penalty-expire_dodge_penalty 7 7 15000 20000 one_dodger (omega arith)
