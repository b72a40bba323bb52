-- ===== src/Jobs/Statements.antt =====
-- The SQL statements of the worker and of the reaper, each one call of the database.
use mathlib.Core.Option
use distributed_code_executi.Common.{
  ℕ, Bool, true, false, Option, none, some, [], ◌++◌, Text, codes, text_eq, if◌then◌else◌,
}
use distributed_code_executi.Contracts.{SubmissionStatus, QueuePayload, DlqPayload, worker_crash}
use distributed_code_executi.Contracts.Keys.{dead_letter_key}
use distributed_code_executi.Services.{
  Services, State, Submission, SubmissionResult, key_violation, dead_letter_jobs,
}
use distributed_code_executi.Services.Effects.{
  M, pure, throw, call, count, time, transaction, ◌>>=◌, ◌>>◌,
}

-- WHERE id = $1
abbrev pub has_id : Text → Submission → Bool
has_id i r = text_eq i r.id

abbrev pub with_status : SubmissionStatus → ℕ → Submission → Submission
with_status status now r = record r { status = status; updated_at = now }

abbrev pub with_retry : ℕ → SubmissionStatus → ℕ → Submission → Submission
with_retry retry status now r = record r { retry_count = retry; status = status; updated_at = now }

module _ ⦃S : Services⦄ where
  -- UPDATE submissions SET status = $1, updated_at = NOW() WHERE id = $2
  abbrev pub status_set : SubmissionStatus → Text → State → Unit {0} × State
  status_set status i s =
      (tt, record s { db = S.update (has_id i) (with_status status s.now) s.db })

  abbrev pub set_status : SubmissionStatus → Text → M Unit
  set_status status i = call (status_set status i)

  -- UPDATE submissions SET retry_count = $1, status = $2, updated_at = NOW() WHERE id = $3
  abbrev pub retry_set : ℕ → SubmissionStatus → Text → State → Unit {0} × State
  retry_set retry status i s =
      (tt, record s { db = S.update (has_id i) (with_retry retry status s.now) s.db })

  abbrev pub set_retry : ℕ → SubmissionStatus → Text → M Unit
  set_retry retry status i = call (retry_set retry status i)

  abbrev pub status_of : Text → State → Option SubmissionStatus
  status_of i s = Option.map (λ r. r.status) (S.submission s.db i)

  -- SELECT status FROM submissions WHERE id = $1, and `rows[0]?.status`
  abbrev pub select_status : Text → M (Option SubmissionStatus)
  select_status i = call (λ s. (status_of i s, s))

  abbrev pub is_some {ℓ} : {A : Type ℓ} → Option A → Bool
  is_some none = false
  is_some (some a) = true

  abbrev pub result_stored :
      SubmissionResult
      → (SubmissionResult → SubmissionResult → SubmissionResult)
      → State
      → Bool × State
  result_stored r merge s =
      if is_some (S.submission s.db r.job_id)
      then (true, record s { db = S.upsert_result r merge s.db })
      else (false, s)

  abbrev pub unless_stored : Bool → M Unit
  unless_stored true = pure tt
  unless_stored false = throw key_violation

  -- INSERT INTO submission_results … ON CONFLICT (job_id) DO UPDATE SET …; the foreign key refuses
  -- a job that is not in `submissions`.
  unfoldable pub store_result :
      SubmissionResult → (SubmissionResult → SubmissionResult → SubmissionResult) → M Unit
  store_result r merge = do stored ← call (result_stored r merge); unless_stored stored

  -- What the conflict clause of the dead letter statement assigns.
  abbrev pub dlq_conflict : SubmissionResult → SubmissionResult → SubmissionResult
  dlq_conflict old r = record old {
    exit_code = r.exit_code;
    stdout = r.stdout;
    stderr = r.stderr;
    error_message = r.error_message;
    error_category = r.error_category;
    output_truncated = r.output_truncated;
    stream_output_limit_exceeded = r.stream_output_limit_exceeded;
  }

  abbrev pub dlq_result : Text → Text → SubmissionResult
  dlq_result job_id reason = record {
    job_id = job_id;
    exit_code = none;
    stdout = [];
    stderr = [];
    error_message = some (codes "Dead Letter: " ++ reason);
    error_category = some worker_crash;
    execution_time_ms = none;
    memory_used_bytes = none;
    output_truncated = false;
    stream_output_limit_exceeded = false;
  }

  abbrev pub dlq_payload : QueuePayload → Text → Text → DlqPayload
  dlq_payload job failed_at reason = record {
    job_id = job.job_id;
    user_id = job.user_id;
    code = job.code;
    language = job.language;
    retry_count = job.retry_count;
    submitted_at = job.submitted_at;
    failed_at = failed_at;
    reason = reason;
  }

  -- LPUSH key value
  abbrev pub lpush : Text → Text → M Unit
  lpush key v = call (λ s. (tt, record s { redis = S.lpush key v s.redis }))

  -- LREM key 1 value
  abbrev pub lrem : Text → Text → M Unit
  lrem key v = call (λ s. (tt, record s { redis = S.lrem key v s.redis }))

  -- The statements of the transaction of `sendToDLQ`.
  unfoldable pub fail_job : Text → Text → M Unit
  fail_job job_id reason = do
    set_status SubmissionStatus.failed job_id
    store_result (dlq_result job_id reason) dlq_conflict

  -- `sendToDLQ` of the reaper, and that of the worker up to its last line.
  unfoldable pub send_to_dlq : QueuePayload → Text → M Unit
  send_to_dlq job reason = do
    failed_at ← time
    transaction (fail_job job.job_id reason)
    lpush dead_letter_key (S.stringify_dlq (dlq_payload job (S.iso failed_at) reason))
    count dead_letter_jobs
