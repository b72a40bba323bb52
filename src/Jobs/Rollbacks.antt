-- ===== src/Jobs/Rollbacks.antt =====
-- Transactions that are about one job, seen from another.
use distributed_code_executi.Common.{◌≡◌, refl, Bool, true, false, Text, text_eq, if◌then◌else◌}
use distributed_code_executi.Contracts.{SubmissionStatus, QueuePayload, failed}
use distributed_code_executi.Services.{Services, State, SubmissionResult, key_violation}
use distributed_code_executi.Services.Effects.{M, call}
use distributed_code_executi.Services.Triples.{
  Mode, Keeps, Triple, spent-key_violation, Keeps-call, Triple-pure, Triple-throw, Triple-bind,
  Triple-call, Triple-time,
}
use distributed_code_executi.Services.Transactions.{InTx}
use distributed_code_executi.Services.Keeping.{
  Keeps-pure, Keeps-bind, Keeps-count, Keeps-transaction,
}
use distributed_code_executi.Jobs.Statements.{
  with_status, set_status, status_set, result_stored, unless_stored, store_result, fail_job,
  send_to_dlq, is_some, dlq_result, dlq_conflict,
}
use distributed_code_executi.Jobs.Results.{with_result}
use distributed_code_executi.Jobs.Bystanders.{Stable, Stable-has_id}

module _ ⦃S : Services⦄ (I : State → Type 0) where
  -- `I` holds, and holds again after a rollback.
  abbrev pub InBoth : State → Type 0
  InBoth s = InTx I s × I s

  abbrev pub Steady : {A : Type 0} → Mode → M A → Type 0
  Steady m act = Triple m InBoth act (λ _ s. InBoth s) (λ _ s. InTx I s) (InTx I)

  pub Steady-call :
      {m : Mode} {A : Type 0} (f : State → A × State)
      → ((s : State) → InBoth s → InBoth (f s).1)
      → Steady m (call f)
  Steady-call f keep = Triple-call f keep (λ s h. h.0) (λ s h. (keep s h).0) (λ s h. h.0)

-- `I` does not see what is stored in `submission_results`.
module _ ⦃S : Services⦄ (I : State → Type 0)
    (kept : (r : SubmissionResult) (merge : SubmissionResult → SubmissionResult → SubmissionResult)
        (s : State)
      → I s
      → I (with_result r merge s)) where
  chosen :
      (r : SubmissionResult) (merge : SubmissionResult → SubmissionResult → SubmissionResult)
      (s : State) (b : Bool)
      → InBoth I s
      → InBoth I
          (let x : Bool × State = if b then (true, with_result r merge s) else (false, s) in x.1)
  chosen r merge s true h = (h.0, kept r merge s h.1)
  chosen r merge s false h = h

  unless_Steady : (m : Mode) (b : Bool) → Steady I m (unless_stored b)
  unless_Steady m true = Triple-pure tt (λ s h. h)
  unless_Steady m false = Triple-throw key_violation (spent-key_violation m) (λ s h. h.0)

  pub store_result-Steady :
      {m : Mode} (r : SubmissionResult)
      (merge : SubmissionResult → SubmissionResult → SubmissionResult)
      → Steady I m (store_result r merge)
  unfolding store_result
  store_result-Steady {m} r merge =
      Triple-bind
        (Steady-call I (result_stored r merge)
          (λ s h. chosen r merge s (is_some (S.submission s.db r.job_id)) h))
        (unless_Steady m)

  pub Keeps-unless_stored : {m : Mode} (b : Bool) → Keeps I m (unless_stored b)
  Keeps-unless_stored true = Keeps-pure tt
  Keeps-unless_stored {m} false = Triple-throw key_violation (spent-key_violation m) (λ s h. h)

  -- The statement alone, outside of a transaction.
  pub Keeps-store_result :
      {m : Mode} (r : SubmissionResult)
      (merge : SubmissionResult → SubmissionResult → SubmissionResult)
      → Keeps I m (store_result r merge)
  unfolding store_result
  Keeps-store_result r merge =
      Keeps-bind
        (Keeps-call (result_stored r merge)
          (λ s h. stored s (is_some (S.submission s.db r.job_id)) h))
        Keeps-unless_stored
    where
      stored :
          (s : State) (b : Bool)
          → I s
          → I (
              let x : Bool × State = if b then (true, with_result r merge s) else (false, s) in x.1)
      stored s true h = kept r merge s h
      stored s false h = h

module _ ⦃S : Services⦄ (i : Text) (I : State → Type 0) (st : Stable i I) where
  pub set_status-Steady :
      {m : Mode} (status : SubmissionStatus) (j : Text)
      → text_eq j i ≡ false
      → Steady I m (set_status status j)
  set_status-Steady status j other =
      Steady-call I (status_set status j)
        λ s h. (h.0, Stable-has_id st j (with_status status s.now) (λ r. refl) other s h.1)

  -- The transaction of `sendToDLQ`.
  fail_job-Steady :
      {m : Mode} (j reason : Text) → text_eq j i ≡ false → Steady I m (fail_job j reason)
  unfolding fail_job
  fail_job-Steady j reason other =
      Triple-bind (set_status-Steady failed j other)
        (λ _. store_result-Steady I st.stored (dlq_result j reason) dlq_conflict)

  pub Keeps-send_to_dlq :
      {m : Mode} (job : QueuePayload) (reason : Text)
      → text_eq job.job_id i ≡ false
      → Keeps I m (send_to_dlq job reason)
  unfolding send_to_dlq
  Keeps-send_to_dlq job reason other = Keeps-bind Triple-time λ now.
      Keeps-bind (Keeps-transaction st.blind (fail_job-Steady job.job_id reason other))
        λ _. Keeps-bind (Keeps-call _ (st.buried _)) λ _. Keeps-count _ (st.counted _)
