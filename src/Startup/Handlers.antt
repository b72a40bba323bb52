-- ===== src/Startup/Handlers.antt =====
-- recoverOrphanedJobsOnStartup of services/system-monitor/src/index.ts.
use distributed_code_executi.Common.{ℕ, zero, suc, List, [], ◌∷◌, Bool, length}
use distributed_code_executi.Contracts.{SubmissionStatus, QueuePayload, status_eq}
use distributed_code_executi.Contracts.Keys.{pending_key}
use distributed_code_executi.Services.{Services, State, Submission}
use distributed_code_executi.Services.Effects.{M, pure, call, ◌>>=◌, ◌>>◌}
use distributed_code_executi.Jobs.{with_status, lpush}

-- WHERE status = $2
abbrev pub in_status : SubmissionStatus → Submission → Bool
in_status status r = status_eq r.status status

module _ ⦃S : Services⦄ where
  abbrev pub row_payload : Submission → QueuePayload
  row_payload r = record {
    job_id = r.id;
    user_id = r.user_id;
    code = r.source_code;
    language = r.language;
    retry_count = r.retry_count;
    submitted_at = S.iso r.created_at;
  }

  abbrev pub running_reset : State → State
  running_reset s = record s {
    db =
        S.update (in_status SubmissionStatus.running) (with_status SubmissionStatus.pending s.now)
          s.db;
  }

  -- The rows that RETURNING gives are only counted.
  abbrev pub reset_running : M Unit
  reset_running = call (λ s. (tt, running_reset s))

  unfoldable pub push_rows : List Submission → M Unit
  push_rows [] = pure tt
  push_rows (r ∷ rs) = do lpush pending_key (S.stringify_job (row_payload r)); push_rows rs

  -- An empty pending queue is filled from the database.
  unfoldable pub rehydrate : ℕ → M Unit
  rehydrate zero = do
    rows ← call (λ s. (S.select_oldest (in_status SubmissionStatus.pending) s.db, s))
    push_rows rows
  rehydrate (suc n) = pure tt

  unfoldable pub recover_orphaned_jobs_on_startup : M Unit
  recover_orphaned_jobs_on_startup = do
    reset_running
    pending_queue_len ← call (λ s. (length (S.lrange s.redis pending_key), s))
    rehydrate pending_queue_len
