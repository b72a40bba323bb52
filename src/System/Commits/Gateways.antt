-- ===== src/System/Commits/Gateways.antt =====
-- What the requests to services/api-gateway/src/routes/submissions.ts commit to the rows.
use distributed_code_executi.Common.{ℕ, ◌≡◌, refl, true, false, Bool, Option, List, [], ◌∷◌, Text}
use distributed_code_executi.Contracts.{SubmissionStatus, QueuePayload}
use distributed_code_executi.Services.{Services, State, Submission}
use distributed_code_executi.Services.Effects.{M}
use distributed_code_executi.Services.Triples.{any, Keeps, Keeps-call, Triple-time}
use distributed_code_executi.Services.Keeping.{Keeps-pure, Keeps-bind, Keeps-catch, Keeps-count}
use distributed_code_executi.Gateway.{
  SubmissionBody, submission_row, submission_payload, insert_submission, fail_enqueue, enqueue,
  submit,
}
use distributed_code_executi.Gateway.Routes.{
  remove_if, remove_each, remove_from_dlq, unless_removed, item_of,
}
use distributed_code_executi.System.Interleavings.{
  Change, claiming, storing, burying, retrying, resetting, inserting, refusing, row_after,
  row-inserted,
}
use distributed_code_executi.System.Commits.{Row, commit, Keeps-mark, Row-with_result}
use distributed_code_executi.Jobs.Rollbacks.{Keeps-store_result, Keeps-unless_stored}

-- A submission inserts the row of its job, and marks it as FAILED if it could not be enqueued.
abbrev pub BySubmission : Text → SubmissionBody → Change → Type 0
BySubmission job_id body (claiming j) = ⊥
BySubmission job_id body (storing j r) = ⊥
BySubmission job_id body (burying j reason) = ⊥
BySubmission job_id body (retrying n j) = ⊥
BySubmission job_id body resetting = ⊥
BySubmission job_id body (inserting j b now) = (j ≡ job_id) × (b ≡ body)
BySubmission job_id body (refusing j) = j ≡ job_id

module _ ⦃S : Services⦄ (i : Text) (o : Option Submission) (j : Text) (body : SubmissionBody) where
  abbrev I : State → Type 0
  I = Row (BySubmission j body) i o

  insert_Row : (now : ℕ) → Keeps I any (insert_submission (submission_row j body now))
  unfolding insert_submission
  insert_Row now =
      Keeps-bind
        (Keeps-call _ λ s h.
          commit (BySubmission j body) i o (inserting j body now) s _ (refl, refl)
            (row-inserted i s j body now) h)
        (Keeps-unless_stored I (Row-with_result (BySubmission j body) i o))

  refuse_Row : Keeps I any (fail_enqueue j)
  unfolding fail_enqueue row_after
  refuse_Row = Keeps-bind (Keeps-count _ (λ s h. h)) λ _.
      Keeps-bind
        (Keeps-mark (BySubmission j body) i o (refusing j) SubmissionStatus.failed j refl
          (λ now p. refl))
        λ _.
          Keeps-bind (Keeps-store_result I (Row-with_result (BySubmission j body) i o) _ _)
            λ _. Keeps-pure _

  enqueue_Row : (payload : QueuePayload) → Keeps I any (enqueue payload)
  unfolding enqueue
  enqueue_Row payload = Keeps-bind (Keeps-call _ (λ s h. h)) λ _.
      Keeps-bind (Keeps-call _ (λ s h. h))
        λ depth. Keeps-bind (Keeps-count _ (λ s h. h)) λ _. Keeps-pure _

  pub submit_Row : Keeps I any (submit j body)
  unfolding submit
  submit_Row = Keeps-bind Triple-time λ now.
      Keeps-bind (insert_Row now)
        λ _. Keeps-catch (enqueue_Row (submission_payload j body (S.iso now))) (λ e. refuse_Row)

module _ ⦃S : Services⦄ (A : Change → Type 0) (i : Text) (o : Option Submission) where
  abbrev K : State → Type 0
  K = Row A i o

  remove_Row : (b : Bool) (raw : Text) → Keeps K any (remove_if b raw)
  remove_Row false raw = Keeps-pure _
  remove_Row true raw =
      Keeps-catch (Keeps-bind (Keeps-call _ (λ s h. h)) (λ _. Keeps-pure _)) (λ e. Keeps-pure _)

  removed_Row :
      (rest : M Bool) → Keeps K any rest → (done : Bool) → Keeps K any (unless_removed done rest)
  removed_Row rest h true = Keeps-pure _
  removed_Row rest h false = h

  removals_Row : (j : Text) (raws : List Text) → Keeps K any (remove_each j raws)
  removals_Row j [] = Keeps-pure _
  removals_Row j (raw ∷ raws) =
      Keeps-bind (remove_Row (item_of j (S.parse_dlq raw)) raw)
        (removed_Row (remove_each j raws) (removals_Row j raws))

  pub remove_from_dlq_Row : (j : Text) → Keeps K any (remove_from_dlq j)
  unfolding remove_from_dlq
  remove_from_dlq_Row j =
      Keeps-bind (Keeps-call _ (λ s h. h))
        λ raws. Keeps-bind (removals_Row j raws) λ done. Keeps-pure _
