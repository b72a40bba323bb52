-- ===== src/Worker/Custody.antt =====
-- The worker's own job, from the claim to the acknowledgement: at every point where the process may
-- die the job is in its processing queue, in the pending queue, or over.
use distributed_code_executi.Common.{◌≡◌, refl, some, inl, inr, List, [], ◌∷◌, Text}
use distributed_code_executi.Contracts.{SubmissionStatus, Language, QueuePayload}
use distributed_code_executi.Contracts.Keys.{make_processing_key}
use distributed_code_executi.Services.{Services, State, Submission, service_failed}
use distributed_code_executi.Services.Effects.{transaction}
use distributed_code_executi.Services.Triples.{
  Mode, Triple, Triple-bind, Triple-call, Triple-count, Triple-time, Triple-weaken,
}
use distributed_code_executi.Services.Transactions.{InTx, Triple-transaction}
use distributed_code_executi.Jobs.{has_id, with_status}
use distributed_code_executi.Jobs.Updates.{known-update, ended-with_status}
use distributed_code_executi.Jobs.Results.{Triple-store_result, known-with_result}
use distributed_code_executi.Jobs.Places.{Known, Settled, Safe, Held}
use distributed_code_executi.Worker.Verdict.{SandboxResult, verdict}
use distributed_code_executi.Worker.Verdicts.{verdict_terminal}
use distributed_code_executi.Worker.Handlers.{
  claimable, result_row, result_conflict, persist, carry_out, proceed, run_job,
}
use distributed_code_executi.Worker.Possession.{
  Caught, Done, Mine-Safe, Done-Safe, decline_custody, Done-step, chunk_custody, observe_custody,
}

module _ ⦃S : Services⦄ (worker_id raw : Text) (job : QueuePayload)
    (parsed : S.parse_job raw ≡ some job) where
  abbrev queue : Text
  queue = make_processing_key worker_id

  abbrev Mine : State → Type 0
  Mine = Held queue raw job.job_id

  module _ {m : Mode} where
    -- The result is stored and the row has the final status, or the transaction goes back.
    persist_custody :
        (r : SandboxResult)
        → Triple m
            (λ s. InTx Mine s × Mine s)
            (persist job.job_id r)
            (λ _ s. InTx Mine s × Done job.job_id s)
            (λ e s. (e ≡ service_failed) × InTx Mine s)
            (InTx Mine)
    unfolding persist
    persist_custody r =
        Triple-bind {R = λ _ s. InTx Mine s × Known job.job_id s}
          (Triple-store_result (result_row job.job_id r (verdict r)) result_conflict (λ s h. h.1.0)
            (λ s h. (
              h.0,
              rw
                  (known-with_result (result_row job.job_id r (verdict r)) result_conflict s
                    job.job_id)
                  h.1.0,
            ))
            (λ s h. (refl, h.0)) (λ s h. (refl, h.0)) (λ s h. h.0))
          λ _.
            Triple-call _
              (λ s h. (
                h.0,
                (
                  rw
                      (known-update (has_id job.job_id) (with_status (verdict r).final_status s.now)
                        (λ _. refl) s.db job.job_id)
                      h.1,
                  ended-with_status job.job_id (verdict r).final_status s.now s.db
                      (verdict_terminal r).0 h.1,
                ),
              ))
              (λ s h. (refl, h.0)) (λ s h. (refl, h.0)) (λ s h. h.0)

    stored :
        (r : SandboxResult)
        → Triple m Mine
            (transaction (persist job.job_id r))
            (λ _ s. Done job.job_id s)
            (Caught job.job_id)
            (Safe queue job.job_id)
    stored r =
        Triple-weaken (λ s h. h) (λ _ s h. h)
          (λ e s h. (h.0, elim h.1 [ inl mine ↦ mine.0 | inr done ↦ done.0 ]))
          (λ s h. elim h [
            | inl mine ↦ Mine-Safe worker_id raw job parsed s mine
            | inr done ↦ Done-Safe worker_id raw job parsed s done
          ])
          (Triple-transaction Mine (Done job.job_id) (λ e. e ≡ service_failed) refl (λ s o h. h)
            (λ s o h. h) (persist_custody r))

    module _ (execute : Text → Text → Language → SandboxResult) where
      carry_out_custody :
          Triple m Mine
            (carry_out execute worker_id raw job)
            (λ _ s. Settled job.job_id s)
            (Caught job.job_id)
            (Safe queue job.job_id)
      unfolding carry_out
      carry_out_custody = Triple-bind Triple-time λ now.
          Triple-bind {R = λ _ s. Mine s} (Triple-count _ (λ s h. h)) λ _.
            Triple-bind {R = λ _ s. Mine s}
              (Triple-call _ (λ s h. h) (λ s h. (refl, h.0)) (λ s h. (refl, h.0))
                (Mine-Safe worker_id raw job parsed))
              λ r. Triple-bind (stored r) λ _.
                Triple-bind {R = λ _ s. Done job.job_id s}
                  (Done-step worker_id raw job parsed _ (λ s h. h))
                  λ _.
                    Triple-bind (chunk_custody worker_id raw job parsed _)
                      λ _. observe_custody worker_id raw job parsed r

      proceed_custody :
          (rows : List Submission)
          → Triple m Mine
              (proceed execute worker_id raw job rows)
              (λ _ s. Settled job.job_id s)
              (Caught job.job_id)
              (Safe queue job.job_id)
      proceed_custody [] = decline_custody worker_id raw job parsed
      proceed_custody (row ∷ rows) = carry_out_custody

      -- Whatever faults it meets, the body of the loop leaves its job in the pending queue or over;
      -- where the process dies, the job is at least in the processing queue.
      pub run_job_custody :
          Triple m Mine
            (run_job execute worker_id raw job)
            (λ _ s. Settled job.job_id s)
            (Caught job.job_id)
            (Safe queue job.job_id)
      unfolding run_job
      run_job_custody =
          Triple-bind
            (Triple-call {Q = λ _ s. Mine s} _ claimed (λ s h. (refl, h.0))
              (λ s h. (refl, (claimed s h).0)) (Mine-Safe worker_id raw job parsed))
            proceed_custody
        where
          claimed :
              (s : State)
              → Mine s
              → Mine (record s {
                db =
                    S.update
                      (claimable job.job_id)
                      (with_status SubmissionStatus.running s.now)
                      s.db;
              })
          claimed s h = (
            rw
                (known-update (claimable job.job_id) (with_status SubmissionStatus.running s.now)
                  (λ _. refl) s.db job.job_id)
                h.0,
            h.1,
          )
