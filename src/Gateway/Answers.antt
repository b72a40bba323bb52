-- ===== src/Gateway/Answers.antt =====
-- What the replies of POST /submissions say of a job, and what its statements leave.
use mathlib.Core.Option
use distributed_code_executi.Common.{
  ℕ, ◌≡◌, refl, Bool, true, false, Option, none, some, Text, text_eq_refl, arith,
}
use distributed_code_executi.Contracts.{SubmissionStatus, ErrorCategory, unknown}
use distributed_code_executi.Contracts.Keys.{pending_key}
use distributed_code_executi.Services.{Services, State, SubmissionResult}
use distributed_code_executi.Services.Triples.{Mode, Triple, Triple-pure}
use distributed_code_executi.Jobs.{status_of, with_status, has_id, unless_stored}
use distributed_code_executi.Jobs.Results.{with_result}
use distributed_code_executi.Jobs.Updates.{submission-update_id}
use distributed_code_executi.Jobs.Places.{in_pending, lrange-lpush_self}
use distributed_code_executi.Gateway.Handlers.{
  SubmissionBody, Reply, created, unavailable, submission_row, submission_payload, enqueue_result,
  enqueue_conflict, inserted,
}

module _ ⦃S : Services⦄ where
  abbrev category_of : Text → State → Option (Option ErrorCategory)
  category_of i s = Option.map (λ r. r.error_category) (S.result_of s.db i)

  -- What a reply says about the job.
  abbrev pub Answered : Text → Reply → State → Type 0
  Answered i created s = (status_of i s ≡ some SubmissionStatus.pending) × (in_pending i s ≡ true)
  Answered i unavailable s =
      (status_of i s ≡ some SubmissionStatus.failed) × (category_of i s ≡ some (some unknown))

module _ ⦃S : Services⦄ (i : Text) (body : SubmissionBody) where
  abbrev Fresh : State → Type 0
  Fresh s = S.submission s.db i ≡ none

  abbrev Pending : State → Type 0
  Pending s = status_of i s ≡ some SubmissionStatus.pending

  abbrev Failed : State → Type 0
  Failed s = status_of i s ≡ some SubmissionStatus.failed

  pub row_inserted :
      (now : ℕ) (s : State)
      → Fresh s
      → (X : Bool × State → Type 0) → ((t : State) → Pending t → X (true, t))
      → X (inserted (submission_row i body now) s)
  row_inserted now s fresh X x = rw fresh (
      x (record s { db = S.insert (submission_row i body now) s.db })
        (rw (S.submission-insert (submission_row i body now) s.db i fresh, text_eq_refl i)))

  pub pushed_Created :
      (now : ℕ) (s : State)
      → Pending s
      → Answered i created (record s {
        redis =
            S.lpush pending_key (S.stringify_job (submission_payload i body (S.iso now))) s.redis;
      })
  pushed_Created now s h = (
    h,
    rw (
      lrange-lpush_self pending_key (S.stringify_job (submission_payload i body (S.iso now)))
          s.redis,
      S.parse-stringify (submission_payload i body (S.iso now)),
      text_eq_refl i,
    ),
  )

  pub status_failed :
      (s : State)
      → Pending s
      → Failed
          (record s { db = S.update (has_id i) (with_status SubmissionStatus.failed s.now) s.db })
  status_failed s h =
      rw
        (
          submission-update_id i (with_status SubmissionStatus.failed s.now) (λ r. refl) s.db i,
          text_eq_refl i,
        )
        (ground arith)

  merged :
      (o : Option SubmissionResult)
      → Option.map
          (λ r. r.error_category)
          (some (elim o [
            | none ↦ enqueue_result i
            | some old ↦ enqueue_conflict old (enqueue_result i)
          ]))
        ≡ some (some unknown)
  merged none = refl
  merged (some old) = refl

  pub result_told :
      (s : State)
      → Failed s
      → Answered i unavailable (with_result (enqueue_result i) enqueue_conflict s)
  result_told s h = (
    rw (S.submission-upsert_result (enqueue_result i) enqueue_conflict s.db i) h,
    rw (S.result_of-upsert_result (enqueue_result i) enqueue_conflict s.db i, text_eq_refl i)
        (merged (S.result_of s.db i)),
  )

  pub stored_then :
      {m : Mode} (b : Bool)
      → Triple m
          (λ s. Pending s × (b ≡ true))
          (unless_stored b)
          (λ _ s. Pending s)
          (λ _ _. Unit {0})
          (λ _. Unit {0})
  stored_then true = Triple-pure tt (λ s h. h.0)
  stored_then false = record { run = λ s fs ok h. cc (h.1) }
