-- ===== src/Worker/Serving.antt =====
-- processQueue of services/execution-worker/src/index.ts, one round of it where no call fails.
use distributed_code_executi.Common.{
  ◌+◌, ◌≡◌, refl, ap, ◌∙◌, subst, true, false, some, List, [], ◌∷◌, ◌++◌, Text, if◌then◌else◌,
  text_eq, text_eq_refl, text_eq_iff, ◌⊎◌, Bool-cases, inl, inr,
}
use distributed_code_executi.Contracts.{SubmissionStatus, QueuePayload, Language}
use distributed_code_executi.Contracts.Keys.{
  pending_key, make_processing_key, pending_key-ne-processing, text_eq-pending-processing,
}
use distributed_code_executi.Services.{Services, State, Submission, returned, has_row, remove_first}
use distributed_code_executi.Services.Effects.{
  ◌>>=◌, call, local, try_catch, transaction, begin_commit, released, count, time,
}
use distributed_code_executi.Services.Triples.{at}
use distributed_code_executi.Jobs.{with_status, has_id, store_result}
use distributed_code_executi.Jobs.Queues.{split_last-append}
use distributed_code_executi.Worker.Handlers.{
  observe, carry_out, run_job, process_next, persist, publish_system_chunk, result_row,
  result_conflict, claimable,
}
use distributed_code_executi.Worker.Verdict.{SandboxResult, verdict}

module _ ⦃S : Services⦄ where
  -- Counting a run changes neither the database nor the queues.
  observe-calm :
      (worker_id : Text) (job : QueuePayload) (r : SandboxResult) (s : State)
      → (observe worker_id job r (at s [])
          ≡ (returned tt, at (observe worker_id job r (at s [])).1.state []))
        × ((observe worker_id job r (at s [])).1.state.db ≡ s.db)
        × ((observe worker_id job r (at s [])).1.state.redis ≡ s.redis)
  unfolding observe count local ◌>>=◌
  observe-calm worker_id job r s = elim (Bool-cases r.output_truncated) [
    | inl a ↦ elim (Bool-cases r.stream_output_limit_exceeded) [
      | inl b ↦ rw (a, b) (refl, refl, refl)
      | inr b ↦ rw (a, b) (refl, refl, refl)
    ]
    | inr a ↦ elim (Bool-cases r.stream_output_limit_exceeded) [
      | inl b ↦ rw (a, b) (refl, refl, refl)
      | inr b ↦ rw (a, b) (refl, refl, refl)
    ]
  ]

  module _ (execute : Text → Text → Language → SandboxResult) (worker_id raw : Text)
      (job : QueuePayload) where
    abbrev pub result : SandboxResult
    result = execute job.job_id job.code job.language

    queue : Text
    queue = make_processing_key worker_id

    -- The run is stored, and its entry leaves the processing queue.
    carry_out-calm :
        (s : State) (row : Submission)
        → S.submission s.db job.job_id ≡ some row
        → let t = (carry_out execute worker_id raw job (at s [])).1.state in
          (carry_out execute worker_id raw job (at s []) ≡ (returned tt, at t []))
          × (t.db
              ≡ S.update
                  (has_id job.job_id)
                  (with_status (verdict result).final_status (s.now + result.execution_time_ms))
                  (S.upsert_result
                    (result_row job.job_id result (verdict result))
                    result_conflict
                    s.db))
          × ((k : Text) → S.lrange t.redis k ≡ S.lrange (S.lrem queue raw s.redis) k)
    unfolding queue carry_out publish_system_chunk transaction persist store_result released
        begin_commit try_catch call local count time ◌>>=◌
    carry_out-calm s row h = rw h (
      (observe-calm worker_id job result _).0,
      (observe-calm worker_id job result _).1,
      λ k.
          ap (λ x. S.lrange x k) (observe-calm worker_id job result _).2
          ∙ S.lrange-expire _ _ _ k
          ∙ S.lrange-xadd _ _ _ _ k,
    )

    -- An entry that was moved and then acknowledged is only missed by the pending queue.
    lrange-served :
        (r : S.Store) (xs : List Text) (k : Text)
        → S.lrange r pending_key ≡ xs ++ raw ∷ []
        → S.lrange (S.lrem queue raw (S.rpoplpush pending_key queue r)) k
          ≡ (if text_eq pending_key k then xs else S.lrange r k)
    unfolding queue remove_first
    lrange-served r xs k h =
        S.lrange-lrem queue raw (S.rpoplpush pending_key queue r) k
        ∙ by_cases (Bool-cases (text_eq queue k))
      where
        moved : S.lrange (S.rpoplpush pending_key queue r) k ≡ (
            if text_eq pending_key k
            then xs
            else if text_eq queue k
            then raw ∷ S.lrange r k
            else S.lrange r k)
        moved =
            S.lrange-rpoplpush pending_key queue raw xs r k (pending_key-ne-processing worker_id) h

        by_cases :
            ((text_eq queue k ≡ true) ⊎ (text_eq queue k ≡ false))
            → (if text_eq queue k
                then remove_first raw (S.lrange (S.rpoplpush pending_key queue r) k)
                else S.lrange (S.rpoplpush pending_key queue r) k)
              ≡ (if text_eq pending_key k then xs else S.lrange r k)
        by_cases (inl e) =
            let n : text_eq pending_key k ≡ false =
              subst (λ x. text_eq pending_key x ≡ false) ((text_eq_iff queue k).0 e)
                (text_eq-pending-processing worker_id) in
            rw (moved, e, n) (rw (text_eq_refl raw))
        by_cases (inr e) = rw (moved, e)

    -- The claim of a row that is PENDING returns it.
    claimed_some :
        (s : State) (row : Submission)
        → S.submission s.db job.job_id ≡ some row
        → row.status ≡ SubmissionStatus.pending
        → (x : Submission) × (xs : List Submission) × (S.select (claimable job.job_id) s.db
            ≡ x ∷ xs)
    claimed_some s row h e = found (S.select (claimable job.job_id) s.db) (
        S.has_row-select (claimable job.job_id) s.db job.job_id row h
          (rw (S.id-submission s.db job.job_id row h, text_eq_refl job.job_id, e)))
      where
        found :
            (l : List Submission)
            → has_row job.job_id l ≡ true
            → (x : Submission) × (xs : List Submission) × (l ≡ x ∷ xs)
        found [] g = cc
        found (x ∷ xs) g = (x, xs, refl)

    -- The database of the claim.
    abbrev pub claimed : State → S.Db
    claimed s = S.update (claimable job.job_id) (with_status SubmissionStatus.running s.now) s.db

    -- The row of the job after the claim.
    pub submission-claimed :
        (s : State) (row : Submission)
        → S.submission s.db job.job_id ≡ some row
        → row.status ≡ SubmissionStatus.pending
        → S.submission (claimed s) job.job_id
          ≡ some (with_status SubmissionStatus.running s.now row)
    submission-claimed s row h e =
        S.submission-update (claimable job.job_id) (with_status SubmissionStatus.running s.now)
          (λ _. refl) s.db job.job_id
        ∙ rw (h, S.id-submission s.db job.job_id row h, text_eq_refl job.job_id, e)

    -- A round in which no call fails takes the oldest entry of the pending queue. If it is a payload of
    -- a job whose row is PENDING, the round stores the verdict on its run and changes no other list.
    pub process_next-serves :
        (s : State) (row : Submission) (xs : List Text)
        → S.lrange s.redis pending_key ≡ xs ++ raw ∷ []
        → S.parse_job raw ≡ some job
        → S.submission s.db job.job_id ≡ some row
        → row.status ≡ SubmissionStatus.pending
        → let t = (process_next execute worker_id (at s [])).1.state in
          (process_next execute worker_id (at s []) ≡ (returned tt, at t []))
          × (t.db
              ≡ S.update
                  (has_id job.job_id)
                  (with_status (verdict result).final_status (s.now + result.execution_time_ms))
                  (S.upsert_result
                    (result_row job.job_id result (verdict result))
                    result_conflict
                    (claimed s)))
          × ((k : Text)
              → S.lrange t.redis k ≡ (if text_eq pending_key k then xs else S.lrange s.redis k))
    unfolding process_next run_job queue call try_catch ◌>>=◌
    process_next-serves s row xs waits parsed h e =
        let (x, ys, got) = claimed_some s row h e in
        rw (waits, split_last-append xs raw, parsed, got)
          (let u = record s { db = claimed s; redis = S.rpoplpush pending_key queue s.redis } in
            let o =
              carry_out-calm u (with_status SubmissionStatus.running s.now row)
                (submission-claimed s row h e) in
            rw (o.0) (refl, o.1, λ k. o.2 k ∙ lrange-served s.redis xs k waits))
