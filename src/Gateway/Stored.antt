-- ===== src/Gateway/Stored.antt =====
-- What GET /submissions/:id of services/api-gateway/src/routes/submissions.ts tells of a job whose
-- result the worker has stored.
use distributed_code_executi.Common.{
  ℕ, ◌≡◌, refl, ap, ◌∙◌, Option, none, some, [], Text, text_eq_refl,
}
use distributed_code_executi.Services.{Services, State, Submission, SubmissionResult, returned}
use distributed_code_executi.Services.Effects.{
  ◌>>=◌, call, local, try_catch, transaction, begin_commit, released,
}
use distributed_code_executi.Services.Triples.{at}
use distributed_code_executi.Jobs.{has_id, with_status, store_result}
use distributed_code_executi.Worker.{persist, result_row, result_conflict}
use distributed_code_executi.Worker.Verdict.{SandboxResult, verdict}
use distributed_code_executi.Gateway.Routes.{Detail, detail, detail_of, get_submission}

module _ ⦃S : Services⦄ where
  -- The database after the transaction of `persist`.
  persisted : Text → SandboxResult → State → State
  persisted i r s = record s {
    db =
        S.update (has_id i) (with_status (verdict r).final_status s.now)
          (S.upsert_result (result_row i r (verdict r)) result_conflict s.db);
    open_tx = none;
  }

  -- Without faults the transaction of a job with a row is committed.
  transaction-persist :
      (i : Text) (r : SandboxResult) (s : State) (row : Submission)
      → S.submission s.db i ≡ some row
      → transaction (persist i r) (at s []) ≡ (returned tt, at (persisted i r s) [])
  unfolding persisted transaction persist store_result released begin_commit try_catch call local
      ◌>>=◌
  transaction-persist i r s row h = rw h refl

  submission-persisted :
      (i : Text) (r : SandboxResult) (s : State) (row : Submission)
      → S.submission s.db i ≡ some row
      → S.submission (persisted i r s).db i ≡ some (with_status (verdict r).final_status s.now row)
  unfolding persisted
  submission-persisted i r s row h =
      S.submission-update (has_id i) (with_status (verdict r).final_status s.now) (λ _. refl)
        (S.upsert_result (result_row i r (verdict r)) result_conflict s.db) i
      ∙ rw (
        S.submission-upsert_result (result_row i r (verdict r)) result_conflict s.db i,
        h,
        S.id-submission s.db i row h,
        text_eq_refl i,
      )

  -- What the result of the run is merged into.
  merged : Text → SandboxResult → Option SubmissionResult → SubmissionResult
  merged i r none = result_row i r (verdict r)
  merged i r (some old) = result_conflict old (result_row i r (verdict r))

  result_of-persisted :
      (i : Text) (r : SandboxResult) (s : State)
      → S.result_of (persisted i r s).db i ≡ some (merged i r (S.result_of s.db i))
  unfolding persisted merged
  result_of-persisted i r s =
      S.result_of-update (has_id i) (with_status (verdict r).final_status s.now)
        (S.upsert_result (result_row i r (verdict r)) result_conflict s.db) i
      ∙ S.result_of-upsert_result (result_row i r (verdict r)) result_conflict s.db i
      ∙ rw (text_eq_refl i) (ap some (by_cases (S.result_of s.db i)))
    where
      by_cases :
          (o : Option SubmissionResult)
          → elim o [
            | none ↦ result_row i r (verdict r)
            | some old ↦ result_conflict old (result_row i r (verdict r))
          ]
            ≡ merged i r o
      by_cases none = refl
      by_cases (some old) = refl

  -- What the client is told of a run.
  abbrev pub Tells : Submission → SandboxResult → Detail → Type 0
  Tells row r d =
      (d.status ≡ (verdict r).final_status)
      × (d.stdout ≡ some r.stdout)
      × (d.stderr ≡ some r.stderr)
      × (d.exit_code ≡ r.exit_code)
      × (d.error_message ≡ (verdict r).error_message)
      × (d.error_category ≡ (verdict r).error_category)
      × (d.output_truncated ≡ r.output_truncated)
      × (d.stream_output_limit_exceeded ≡ r.stream_output_limit_exceeded)
      × (d.execution_time_ms ≡ some r.execution_time_ms)
      × (d.source_code ≡ row.source_code)
      × (d.retry_count ≡ row.retry_count)

  merged-Tells :
      (i : Text) (r : SandboxResult) (row : Submission) (now : ℕ) (o : Option SubmissionResult)
      → Tells row r (detail_of (with_status (verdict r).final_status now row) (some (merged i r o)))
  unfolding merged
  merged-Tells i r row now none = (refl, refl, refl, refl, refl, refl, refl, refl, refl, refl, refl)
  merged-Tells i r row now (some old) =
      (refl, refl, refl, refl, refl, refl, refl, refl, refl, refl, refl)

  -- If no call fails, then after the worker has stored the result of a run of a job that has a row,
  -- GET /submissions/:id finds the job and tells the status, the message and the category of the
  -- verdict, and the outputs, the exit code, the time and the flags of that run, whether or not an
  -- earlier run of the job had left a result.
  pub get_submission-persist :
      (i : Text) (r : SandboxResult) (s : State) (row : Submission)
      → S.submission s.db i ≡ some row
      → (d : Detail) × ((get_submission i (transaction (persist i r) (at s [])).1).0
          ≡ returned (detail d))
        × Tells row r d
  unfolding get_submission call
  get_submission-persist i r s row h = (
    detail_of (with_status (verdict r).final_status s.now row)
        (some (merged i r (S.result_of s.db i))),
    rw
        (
          transaction-persist i r s row h,
          submission-persisted i r s row h,
          result_of-persisted i r s,
        )
        refl,
    merged-Tells i r row s.now (S.result_of s.db i),
  )

  -- The same for any state with that database.
  pub get_submission-stored :
      (i : Text) (r : SandboxResult) (s u : State) (row : Submission)
      → S.submission s.db i ≡ some row
      → u.db
        ≡ S.update
            (has_id i)
            (with_status (verdict r).final_status s.now)
            (S.upsert_result (result_row i r (verdict r)) result_conflict s.db)
      → (d : Detail) × ((get_submission i (at u [])).0 ≡ returned (detail d)) × Tells row r d
  unfolding get_submission call persisted
  get_submission-stored i r s u row h e = (
    detail_of (with_status (verdict r).final_status s.now row)
        (some (merged i r (S.result_of s.db i))),
    rw (e, submission-persisted i r s row h, result_of-persisted i r s) refl,
    merged-Tells i r row s.now (S.result_of s.db i),
  )
