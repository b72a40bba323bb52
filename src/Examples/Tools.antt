-- ===== src/Examples/Tools.antt =====
-- The theorems on the scripts at concrete inputs.
use distributed_code_executi.Common.{
  ℕ, Text, ◌/◌, ◌+◌, ◌≡◌, ◌↔◌, refl, true, false, none, some, List, [], ◌∷◌, length, arith,
}
use distributed_code_executi.Contracts.{SubmissionStatus}
use distributed_code_executi.Scripts.Statistics.{calculate_stats}
use distributed_code_executi.Scripts.Percentiles.{InOrder, calculate_stats-InOrder}
use distributed_code_executi.Scripts.Pool.{
  PoolEvent, turn, completion, exception, pool_start, on_pool_event, on_pool_events,
}
use distributed_code_executi.Scripts.Draining.{on_pool_events-drained}
use distributed_code_executi.Scripts.Recovery.{
  JobResult, ended, timed_out, poll_until_terminal, is_over, job_result, row, refused, is_completed,
  is_failed, filter, all_recovered,
}
use distributed_code_executi.Scripts.Reports.{TrackedJob, results_of, is_timeout, all_recovered_iff}

-- Only the whole part is kept.
abbrev whole_part : ℕ → ℕ → ℕ → Text
whole_part a b digits = (a / b) ∷ []

abbrev some_latencies : List ℕ
some_latencies = 40 ∷ 10 ∷ 30 ∷ 20 ∷ []

calculate_stats-InOrder_example : InOrder (calculate_stats whole_part some_latencies 100 4)
calculate_stats-InOrder_example =
    calculate_stats-InOrder whole_part some_latencies 100 (omega arith) (omega arith)

-- Two clients and three jobs, of which the second fails.
abbrev turns : List PoolEvent
turns =
    turn 0
    ∷ turn 1
    ∷ exception 1
    ∷ turn 1
    ∷ completion 0 70
    ∷ turn 0
    ∷ completion 1 90
    ∷ turn 1
    ∷ []

on_pool_events-drained_example :
    ((on_pool_events 3 turns (pool_start 2)).submitted_count ≡ 3)
    × ((on_pool_events 3 turns (pool_start 2)).completed_count
        ≡ length (on_pool_events 3 turns (pool_start 2)).latencies)
    × (length (on_pool_events 3 turns (pool_start 2)).latencies
          + length (on_pool_events 3 turns (pool_start 2)).errors
        ≡ 3)
unfolding on_pool_events on_pool_event pool_start
on_pool_events-drained_example = on_pool_events-drained 3 2 turns (refl, (refl, tt)) (omega arith)

-- The row of one job says TIMEOUT, and the other job is not over before the deadline.
abbrev timed_jobs : List TrackedJob
timed_jobs =
    record {
      checks =
          record { now = 5; reply = row SubmissionStatus.running 0; after = 6 }
          ∷ record { now = 7; reply = row SubmissionStatus.timeout 0; after = 8 }
          ∷ [];
      completed_at = 8;
    }
    ∷ record {
      checks =
          record { now = 5; reply = row SubmissionStatus.pending 1; after = 6 }
          ∷ record { now = 100; reply = refused; after = 101 }
          ∷ [];
      completed_at = 100;
    }
    ∷ []

abbrev reported : List JobResult
reported =
    record {
      index = 0;
      status = ended SubmissionStatus.timeout;
      retry_count = some 0;
      recovery_ms = some 5;
      was_retried = false;
    }
    ∷ record {
      index = 1;
      status = timed_out;
      retry_count = none;
      recovery_ms = none;
      was_retried = false;
    }
    ∷ []

as_reported : results_of 3 60 0 timed_jobs ≡ some reported
unfolding results_of poll_until_terminal is_over job_result
as_reported = refl

all_recovered_iff_example :
    (length (filter is_completed reported)
        + length (filter is_failed reported)
        + length (filter is_timeout reported)
      ≡ length reported)
    × ((all_recovered reported ≡ true) ↔ (
        length (filter is_completed reported) + length (filter is_timeout reported)
        ≡ length reported))
all_recovered_iff_example = all_recovered_iff 3 60 0 timed_jobs reported as_reported
