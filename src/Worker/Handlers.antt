-- ===== src/Worker/Handlers.antt =====
-- The handlers of services/execution-worker/src/index.ts. A run of the sandbox is the parameter
-- `execute`; a rejected run is a fault of that call.
use distributed_code_executi.Common.{
  ℕ, zero, suc, ◌+◌, ◌*◌, ◌^◌, Bool, false, ◌&&◌, ◌||◌, not, Option, none, some, List, [], ◌∷◌,
  ◌++◌, Text, codes, text_eq, ltb, if◌then◌else◌,
}
use distributed_code_executi.Contracts.{
  SubmissionStatus, Language, QueuePayload, system, status_eq, max_retry_count,
  stream_retention_count, stream_ttl_seconds,
}
use distributed_code_executi.Contracts.Keys.{
  pending_key, make_processing_key, make_heartbeat_key, make_stream_key,
}
use distributed_code_executi.Services.{
  Services, State, Submission, SubmissionResult, bad_json, queue_wait_time, worker_job_counter,
  execution_duration, output_truncations, stream_output_limit_hits, active_workers_inc,
  active_workers_dec,
}
use distributed_code_executi.Services.Effects.{
  M, pure, throw, try_catch, call, count, time, sleep, transaction, ◌>>=◌, ◌>>◌,
}
use distributed_code_executi.Jobs.{
  with_status, set_status, set_retry, select_status, store_result, lpush, lrem, send_to_dlq,
}
use distributed_code_executi.Jobs.Queues.{split_last}
use distributed_code_executi.Worker.Verdict.{SandboxResult, Verdict, verdict, decimal}

unfoldable pub backoff_ms : ℕ → ℕ
backoff_ms retry_count = 2 ^ retry_count * 1000

-- WHERE id = $2 AND status = $3
abbrev pub claimable : Text → Submission → Bool
claimable i r = text_eq i r.id && status_eq r.status SubmissionStatus.pending

-- The comparison of the claim's fallback with the three terminal statuses.
abbrev pub is_terminal : Option SubmissionStatus → Bool
is_terminal none = false
is_terminal (some s) =
    status_eq s SubmissionStatus.completed
    || status_eq s SubmissionStatus.failed
    || status_eq s SubmissionStatus.timeout

abbrev pub exceeded_reason : Text
exceeded_reason = codes "Exceeded maximum retry count of " ++ decimal max_retry_count

abbrev pub result_row : Text → SandboxResult → Verdict → SubmissionResult
result_row job_id r v = record {
  job_id = job_id;
  exit_code = r.exit_code;
  stdout = r.stdout;
  stderr = r.stderr;
  error_message = v.error_message;
  error_category = v.error_category;
  execution_time_ms = some r.execution_time_ms;
  memory_used_bytes = r.memory_used_bytes;
  output_truncated = r.output_truncated;
  stream_output_limit_exceeded = r.stream_output_limit_exceeded;
}

-- ON CONFLICT (job_id) DO UPDATE SET every other column
abbrev pub result_conflict : SubmissionResult → SubmissionResult → SubmissionResult
result_conflict old r = record old {
  exit_code = r.exit_code;
  stdout = r.stdout;
  stderr = r.stderr;
  error_message = r.error_message;
  error_category = r.error_category;
  execution_time_ms = r.execution_time_ms;
  memory_used_bytes = r.memory_used_bytes;
  output_truncated = r.output_truncated;
  stream_output_limit_exceeded = r.stream_output_limit_exceeded;
}

abbrev pub with_retry_count : ℕ → QueuePayload → QueuePayload
with_retry_count n job = record job { retry_count = n }

module _ ⦃S : Services⦄ where
  abbrev pub xadd : Text → Text → M Unit
  xadd key v = call (λ s. (tt, record s { redis = S.xadd key stream_retention_count v s.redis }))

  abbrev pub publish : Text → Text → M Unit
  publish channel v = call (λ s. (tt, record s { published = (channel, v) ∷ s.published }))

  abbrev pub expire : Text → ℕ → M Unit
  expire key seconds = call (λ s. (tt, record s { redis = S.expire key seconds s.redis }))

  unfoldable pub publish_system_chunk : Text → Text → M Unit
  publish_system_chunk job_id content = do
    now ← time
    let serialized =
        S.stringify_chunk (record { type = system; content = content; timestamp = now })
    let stream_key = make_stream_key job_id
    xadd stream_key serialized
    publish stream_key serialized
    expire stream_key stream_ttl_seconds

  -- `sendToDLQ` of the worker ends by telling the client.
  unfoldable pub bury : QueuePayload → Text → M Unit
  bury job reason = do
    send_to_dlq job reason
    publish_system_chunk job.job_id (codes "EXECUTION_COMPLETE")

  unfoldable pub requeue_with_backoff : QueuePayload → Text → Text → M Unit
  requeue_with_backoff job processing_queue raw_job =
      let next_retry = job.retry_count + 1 in
      if ltb max_retry_count next_retry
      then (do lrem processing_queue raw_job; bury job exceeded_reason)
      else do
        set_retry next_retry SubmissionStatus.pending job.job_id
        sleep (backoff_ms next_retry)
        lpush pending_key (S.stringify_job (with_retry_count next_retry job))
        lrem processing_queue raw_job

  -- UPDATE submissions SET status = 'RUNNING' … WHERE id = $2 AND status = 'PENDING' RETURNING status
  abbrev pub claim : Text → M (List Submission)
  claim i = call (λ s. (
    S.select (claimable i) s.db,
    record s { db = S.update (claimable i) (with_status SubmissionStatus.running s.now) s.db },
  ))

  -- BRPOPLPUSH pending processing: the oldest entry, or nothing when the wait is over.
  abbrev pub popped : Text → Option (List Text × Text) → State → Option Text × State
  popped queue none s = (none, s)
  popped queue (some (rest, raw)) s =
      (some raw, record s { redis = S.rpoplpush pending_key queue s.redis })

  abbrev pub dequeue : Text → M (Option Text)
  dequeue queue = call (λ s. popped queue (split_last (S.lrange s.redis pending_key)) s)

  -- A job that could not be claimed goes back unless it is over, and leaves the processing queue.
  unfoldable pub decline : Text → Text → QueuePayload → M Unit
  decline queue raw_job job = do
    current_status ← select_status job.job_id
    if not (is_terminal current_status) then lpush pending_key raw_job else pure tt
    lrem queue raw_job

  -- The statements of the transaction that stores a result.
  unfoldable pub persist : Text → SandboxResult → M Unit
  persist job_id r = do
    store_result (result_row job_id r (verdict r)) result_conflict
    set_status (verdict r).final_status job_id

  unfoldable pub observe : Text → QueuePayload → SandboxResult → M Unit
  observe worker_id job r = do
    count (worker_job_counter worker_id (verdict r).final_status job.language)
    count (execution_duration job.language (verdict r).final_status r.execution_time_ms)
    if r.output_truncated then count output_truncations else pure tt
    if r.stream_output_limit_exceeded then count stream_output_limit_hits else pure tt

  unfoldable pub send_heartbeat : Text → M Unit
  send_heartbeat worker_id =
      try_catch
        (call (λ s. (
          tt,
          record s {
            redis = S.set (make_heartbeat_key worker_id) (codes "alive") (some 15000) s.redis;
          },
        )))
        (λ _. pure tt)

  module _ (execute : Text → Text → Language → SandboxResult) where
    abbrev pub run_in_sandbox : QueuePayload → M SandboxResult
    run_in_sandbox job = call (λ s.
        let r = execute job.job_id job.code job.language in
        (r, record s { now = s.now + r.execution_time_ms }))

    -- From a successful claim to the metrics.
    unfoldable pub carry_out : Text → Text → QueuePayload → M Unit
    carry_out worker_id raw_job job = do
      now ← time
      count (queue_wait_time job.language now (S.parse_date job.submitted_at))
      r ← run_in_sandbox job
      transaction (persist job.job_id r)
      lrem (make_processing_key worker_id) raw_job
      publish_system_chunk job.job_id (codes "EXECUTION_COMPLETE")
      observe worker_id job r

    abbrev pub proceed : Text → Text → QueuePayload → List Submission → M Unit
    proceed worker_id raw_job job [] = decline (make_processing_key worker_id) raw_job job
    proceed worker_id raw_job job (row ∷ rows) = carry_out worker_id raw_job job

    -- The body of the `try` once the payload is parsed.
    unfoldable pub run_job : Text → Text → QueuePayload → M Unit
    run_job worker_id raw_job job = do rows ← claim job.job_id; proceed worker_id raw_job job rows

    -- The `catch` block.
    unfoldable pub give_back : Text → Text → QueuePayload → M Unit
    give_back worker_id raw_job job =
        try_catch (requeue_with_backoff job (make_processing_key worker_id) raw_job) (λ _. pure tt)

    abbrev pub process_payload : Text → Text → Option QueuePayload → M Unit
    process_payload worker_id raw_job none = throw bad_json
    process_payload worker_id raw_job (some job) =
        try_catch (run_job worker_id raw_job job) (λ _. give_back worker_id raw_job job)

    abbrev pub process_popped : Text → Option Text → M Unit
    process_popped worker_id none = pure tt
    process_popped worker_id (some raw_job) =
        process_payload worker_id raw_job (S.parse_job raw_job)

    -- One round of the loop of `processQueue`. With no job in hand the `catch` block does nothing.
    unfoldable pub process_next : Text → M Unit
    process_next worker_id =
        try_catch
          (do raw_job ← dequeue (make_processing_key worker_id); process_popped worker_id raw_job)
          (λ _. pure tt)

    unfoldable pub rounds : ℕ → Text → M Unit
    rounds zero worker_id = pure tt
    rounds (suc n) worker_id = do process_next worker_id; rounds n worker_id

    -- `processQueue`, told to stop after so many rounds.
    unfoldable pub process_queue : ℕ → Text → M Unit
    process_queue n worker_id = do
      count active_workers_inc
      send_heartbeat worker_id
      rounds n worker_id
      count active_workers_dec
