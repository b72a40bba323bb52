-- ===== src/Services/Runtime.antt =====
-- What a handler of a service acts on: the database, the Redis server, the clock and the traces of
-- what it publishes and counts; and the faults that its calls are going to meet.
use distributed_code_executi.Common.{ℕ, Option, List, Text}
use distributed_code_executi.Contracts.{SubmissionStatus, Language}
use distributed_code_executi.Services.Server.{Services}

-- The calls of shared/metrics that change a metric.
pub data Metric : Type 0 where
  dead_letter_jobs dead_worker_recoveries reaper_terminal_skips enqueue_failures : Metric
  output_truncations stream_output_limit_hits active_workers_inc active_workers_dec : Metric
  queue_depth : ℕ → Metric
  -- the two times whose difference is observed
  queue_wait_time : Language → ℕ → ℕ → Metric
  worker_job_counter : Text → SubmissionStatus → Language → Metric
  execution_duration : Language → SubmissionStatus → ℕ → Metric

-- How a call of a service ends: as it should; refused, with nothing done; done, with the reply
-- lost, so that the caller sees an error; or never, since the process dies before it.
pub data Fault : Type 0 where
  calm refused lost killed : Fault

pub data Exception : Type 0 where
  service_failed bad_json key_violation : Exception

pub data Outcome {ℓ} (A : Type ℓ) : Type ℓ where
  returned : A → Outcome A
  thrown : Exception → Outcome A
  crashed : Outcome A

module _ ⦃S : Services⦄ where
  pub record State : Type 0 where
    pub db : S.Db
    -- what an open transaction goes back to
    pub open_tx : Option S.Db
    pub redis : S.Store
    pub now : ℕ
    -- (channel, message), newest first
    pub published : List (Text × Text)
    -- newest first
    pub metrics : List Metric

  pub record World : Type 0 where
    pub state : State
    pub schedule : List Fault
