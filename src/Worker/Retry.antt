-- ===== src/Worker/Retry.antt =====
-- With no fault to come, the worker's `catch` block leaves the job in the pending queue or over.
use distributed_code_executi.Common.{ℕ, ◌≡◌, refl, true, Text, text_eq_refl, arith, ltb, ◌+◌}
use distributed_code_executi.Contracts.{
  SubmissionStatus, QueuePayload, max_retry_count, failed, is_terminal_status,
}
use distributed_code_executi.Contracts.Keys.{
  pending_key, make_processing_key, text_eq-processing-pending,
}
use distributed_code_executi.Services.{Services, State, Exception}
use distributed_code_executi.Services.Triples.{
  Triple, quiet, Triple-bind, Triple-call_quiet, Triple-when, Triple-sleep, Triple-count,
  Triple-time,
}
use distributed_code_executi.Services.Transactions.{InTx, Triple-transaction_quiet}
use distributed_code_executi.Jobs.{
  has_id, with_retry, with_status, send_to_dlq, fail_job, dlq_result, dlq_conflict, status_set,
}
use distributed_code_executi.Jobs.Results.{
  Triple-store_result_quiet, known-with_result, ended-with_result,
}
use distributed_code_executi.Jobs.Places.{Known, Settled, lrange-lpush_self, lrange-lrem_ne}
use distributed_code_executi.Jobs.Updates.{known, ended, known-update, ended-with_status}
use distributed_code_executi.Worker.Handlers.{
  requeue_with_backoff, bury, publish_system_chunk, with_retry_count, exceeded_reason,
}

module _ ⦃S : Services⦄ where
  -- The job has a row, with a terminal status.
  abbrev Ended : Text → State → Type 0
  Ended i s = (known i s.db ≡ true) × (ended i s.db ≡ true)

  requeued_Settled :
      (n : ℕ) (job : QueuePayload) (s : State)
      → Known job.job_id s
      → Settled job.job_id (record s {
        redis = S.lpush pending_key (S.stringify_job (with_retry_count n job)) s.redis;
      })
  requeued_Settled n job s h = (
    h,
    rw (
      lrange-lpush_self pending_key (S.stringify_job (with_retry_count n job)) s.redis,
      S.parse-stringify (with_retry_count n job),
      text_eq_refl job.job_id,
    ),
  )

  removed_Settled :
      (worker_id raw i : Text) (s : State)
      → Settled i s
      → Settled i (record s { redis = S.lrem (make_processing_key worker_id) raw s.redis })
  removed_Settled worker_id raw i s h = (
    h.0,
    rw (
      lrange-lrem_ne (make_processing_key worker_id) raw s.redis pending_key
          (text_eq-processing-pending worker_id),
      h.1,
    ),
  )

  failed_Ended :
      (i : Text) (s : State)
      → InTx (Known i) s × Known i s
      → InTx (Known i) (status_set SubmissionStatus.failed i s).1
        × Ended i (status_set SubmissionStatus.failed i s).1
  failed_Ended i s h = (
    h.0,
    (
      rw (known-update (has_id i) (with_status failed s.now) (λ r. refl) s.db i) h.1,
      ended-with_status i failed s.now s.db (unfold is_terminal_status in refl) h.1,
    ),
  )

  fail_job_quiet :
      (i reason : Text)
      → Triple quiet
          (λ s. InTx (Known i) s × Known i s)
          (fail_job i reason)
          (λ _ s. InTx (Known i) s × Ended i s)
          (λ _ _. ⊥)
          (λ _. ⊥)
  unfolding fail_job
  fail_job_quiet i reason =
      Triple-bind (Triple-call_quiet {Q = λ _ s. InTx (Known i) s × Ended i s} _ (failed_Ended i))
        λ _.
          Triple-store_result_quiet (dlq_result i reason) dlq_conflict (λ s h. h.1.0)
            (λ s h. (
              h.0,
              (
                rw (known-with_result (dlq_result i reason) dlq_conflict s i) h.1.0,
                rw (ended-with_result (dlq_result i reason) dlq_conflict s i) h.1.1,
              ),
            ))

module _ ⦃S : Services⦄ {E : Exception → State → Type 0} {C : State → Type 0} where
  pub dlq_quiet :
      (job : QueuePayload) (reason : Text)
      → Triple quiet (Known job.job_id) (send_to_dlq job reason) (λ _ s. Ended job.job_id s) E C
  unfolding send_to_dlq
  dlq_quiet job reason = Triple-bind Triple-time λ now.
      Triple-bind
        (Triple-transaction_quiet {P = Known job.job_id} {Q = Ended job.job_id} (λ s o h. h)
          (λ s o h. h) (fail_job_quiet job.job_id reason))
        λ _.
          Triple-bind (Triple-call_quiet {Q = λ _ s. Ended job.job_id s} _ (λ s h. h))
            λ _. Triple-count _ (λ s h. h)

  chunk_quiet :
      (i job_id content : Text)
      → Triple quiet (Ended i) (publish_system_chunk job_id content) (λ _ s. Settled i s) E C
  unfolding publish_system_chunk
  chunk_quiet i job_id content = Triple-bind Triple-time λ now.
      Triple-bind (Triple-call_quiet {Q = λ _ s. Ended i s} _ (λ s h. h)) λ _.
        Triple-bind (Triple-call_quiet {Q = λ _ s. Ended i s} _ (λ s h. h))
          λ _. Triple-call_quiet _ (λ s h. (h.0, ground arith))

  pub retry_quiet :
      (worker_id raw : Text) (job : QueuePayload)
      → Triple quiet
          (Known job.job_id)
          (requeue_with_backoff job (make_processing_key worker_id) raw)
          (λ _ s. Settled job.job_id s)
          E
          C
  unfolding requeue_with_backoff bury
  retry_quiet worker_id raw job =
      Triple-when (ltb max_retry_count (job.retry_count + 1))
        (λ e.
          Triple-bind (Triple-call_quiet {Q = λ _ s. Known job.job_id s} _ (λ s h. h)) λ _.
            Triple-bind (dlq_quiet job exceeded_reason) λ _. chunk_quiet job.job_id job.job_id _)
        λ e.
          Triple-bind
            (Triple-call_quiet {Q = λ _ s. Known job.job_id s} _ (λ s h.
              rw
                (known-update (has_id job.job_id)
                  (with_retry (job.retry_count + 1) SubmissionStatus.pending s.now) (λ r. refl) s.db
                  job.job_id)
                h))
            λ _. Triple-bind (Triple-sleep _ (λ s h. h)) λ _.
              Triple-bind (Triple-call_quiet _ (requeued_Settled (job.retry_count + 1) job))
                λ _. Triple-call_quiet _ (removed_Settled worker_id raw job.job_id)
