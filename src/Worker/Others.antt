-- ===== src/Worker/Others.antt =====
-- The worker's round for one job, seen from another job and the queue of any worker.
use distributed_code_executi.Common.{
  ℕ, ◌+◌, ◌≡◌, refl, false, not, List, [], ◌∷◌, Text, text_eq, ltb,
}
use distributed_code_executi.Contracts.{SubmissionStatus, Language, QueuePayload, max_retry_count}
use distributed_code_executi.Contracts.Keys.{pending_key, make_processing_key}
use distributed_code_executi.Services.{Services, State, Submission, Metric}
use distributed_code_executi.Services.Effects.{count}
use distributed_code_executi.Services.Triples.{
  Mode, Keeps, Keeps-call, Triple-when, Triple-bind, Triple-time,
}
use distributed_code_executi.Services.Keeping.{
  Keeps-pure, Keeps-bind, Keeps-catch, Keeps-transaction, Keeps-count, Keeps-sleep,
}
use distributed_code_executi.Jobs.{with_retry, with_status, lpush, lrem}
use distributed_code_executi.Jobs.Queues.{names}
use distributed_code_executi.Jobs.Places.{Safe}
use distributed_code_executi.Jobs.Bystanders.{queue, Stable, Stable-has_id, Safe-lrem}
use distributed_code_executi.Jobs.Rollbacks.{
  Steady, store_result-Steady, set_status-Steady, Keeps-send_to_dlq,
}
use distributed_code_executi.Worker.Verdict.{SandboxResult, verdict}
use distributed_code_executi.Worker.Handlers.{
  claimable, is_terminal, result_row, result_conflict, publish_system_chunk, bury,
  requeue_with_backoff, decline, persist, observe, carry_out, proceed, run_job, give_back,
  exceeded_reason,
}

-- A predicate that does not see the calls with which a worker ends its work on an entry.
pub record Unaware ⦃S : Services⦄ (queue raw : Text) (I : State → Type 0) : Type 0 where
  pub removed : (s : State) → I s → I (record s { redis = S.lrem queue raw s.redis })
  pub streamed :
      (k : Text) (n : ℕ) (x : Text) (s : State)
      → I s
      → I (record s { redis = S.xadd k n x s.redis })
  pub expiring :
      (k : Text) (n : ℕ) (s : State) → I s → I (record s { redis = S.expire k n s.redis })
  pub told : (p : List (Text × Text)) (s : State) → I s → I (record s { published = p })
  pub passed : (now : ℕ) (s : State) → I s → I (record s { now = now })

-- What is known of a job in a queue is kept by the work on an entry of another job.
pub Safe-Unaware :
    ⦃S : Services⦄
    → (v i w raw : Text) → names i (S.parse_job raw) ≡ false
    → Unaware (make_processing_key w) raw (Safe (queue v i) i)
Safe-Unaware ⦃S⦄ v i w raw unnamed = record {
  removed = Safe-lrem v i w raw unnamed;
  streamed = λ k n x s h.
      rw (S.lrange-xadd k n x s.redis pending_key, S.lrange-xadd k n x s.redis (queue v i)) h;
  expiring = λ k n s h.
      rw (S.lrange-expire k n s.redis pending_key, S.lrange-expire k n s.redis (queue v i)) h;
  told = λ p s h. h;
  passed = λ now s h. h;
}

-- The predicate is about the job `i`; the entry in hand is one of another job.
module _ ⦃S : Services⦄ {I : State → Type 0} (i worker_id raw : Text) (job : QueuePayload)
    (st : Stable i I) (un : Unaware (make_processing_key worker_id) raw I)
    (other : text_eq job.job_id i ≡ false) where
  acknowledged : {m : Mode} → Keeps I m (lrem (make_processing_key worker_id) raw)
  acknowledged = Keeps-call _ un.removed

  returned_entry : {m : Mode} (x : Text) → Keeps I m (lpush pending_key x)
  returned_entry x = Keeps-call _ (st.pushed x)

  chunk_other : {m : Mode} (j content : Text) → Keeps I m (publish_system_chunk j content)
  unfolding publish_system_chunk
  chunk_other j content = Keeps-bind Triple-time λ now.
      Keeps-bind (Keeps-call _ (λ s h. un.streamed _ _ _ s h)) λ _.
        Keeps-bind (Keeps-call _ (λ s h. un.told _ s h))
          λ _. Keeps-call _ (λ s h. un.expiring _ _ s h)

  counted_other : {m : Mode} (c : Metric) → Keeps I m (count c)
  counted_other c = Keeps-count c (st.counted c)

  retry_other :
      {m : Mode} → Keeps I m (requeue_with_backoff job (make_processing_key worker_id) raw)
  unfolding requeue_with_backoff bury
  retry_other =
      Triple-when (ltb max_retry_count (job.retry_count + 1))
        (λ e. Keeps-bind acknowledged λ _.
          Keeps-bind (Keeps-send_to_dlq i I st job exceeded_reason other)
            λ _. chunk_other job.job_id _)
        λ e.
          Keeps-bind
            (Keeps-call _ λ s h.
              Stable-has_id st job.job_id
                (with_retry (job.retry_count + 1) SubmissionStatus.pending s.now) (λ r. refl) other
                s h)
            λ _.
              Keeps-bind (Keeps-sleep _ (λ s h. un.passed _ s h))
                λ _. Keeps-bind (returned_entry _) λ _. acknowledged

  decline_other : {m : Mode} → Keeps I m (decline (make_processing_key worker_id) raw job)
  unfolding decline
  decline_other = Keeps-bind (Keeps-call _ (λ s h. h)) λ o.
      Keeps-bind (Triple-when (not (is_terminal o)) (λ e. returned_entry raw) (λ e. Keeps-pure tt))
        λ _. acknowledged

  persist_other : {m : Mode} (r : SandboxResult) → Steady I m (persist job.job_id r)
  unfolding persist
  persist_other r =
      Triple-bind
        (store_result-Steady I st.stored (result_row job.job_id r (verdict r)) result_conflict)
        λ _. set_status-Steady i I st (verdict r).final_status job.job_id other

  observe_other : {m : Mode} (r : SandboxResult) → Keeps I m (observe worker_id job r)
  unfolding observe
  observe_other r = Keeps-bind (counted_other _) λ _. Keeps-bind (counted_other _) λ _.
      Keeps-bind (Triple-when r.output_truncated (λ e. counted_other _) (λ e. Keeps-pure tt))
        λ _. Triple-when r.stream_output_limit_exceeded (λ e. counted_other _) (λ e. Keeps-pure tt)

  module _ (execute : Text → Text → Language → SandboxResult) where
    carry_out_other : {m : Mode} → Keeps I m (carry_out execute worker_id raw job)
    unfolding carry_out
    carry_out_other = Keeps-bind Triple-time λ now. Keeps-bind (counted_other _) λ _.
        Keeps-bind (Keeps-call _ (λ s h. un.passed _ s h)) λ r.
          Keeps-bind (Keeps-transaction st.blind (persist_other r)) λ _.
            Keeps-bind acknowledged λ _. Keeps-bind (chunk_other job.job_id _) λ _. observe_other r

    proceed_other :
        {m : Mode} (rows : List Submission) → Keeps I m (proceed execute worker_id raw job rows)
    proceed_other [] = decline_other
    proceed_other (row ∷ rows) = carry_out_other

    pub run_job_other : {m : Mode} → Keeps I m (run_job execute worker_id raw job)
    unfolding run_job
    run_job_other =
        Keeps-bind
          (Keeps-call _ λ s h.
            st.updated (claimable job.job_id) (with_status SubmissionStatus.running s.now)
              (λ r. refl) (λ r e. rw (e, other)) s h)
          proceed_other

    pub give_back_other : {m : Mode} → Keeps I m (give_back execute worker_id raw job)
    unfolding give_back
    give_back_other = Keeps-catch retry_other (λ e. Keeps-pure tt)
