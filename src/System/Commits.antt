-- ===== src/System/Commits.antt =====
-- What the handlers of services/execution-worker, services/system-monitor and services/api-gateway
-- commit to the row of one job: changes of `Interleavings`, each service those of its own kind.
pub mod Workers
pub mod Monitor
pub mod Gateways
use distributed_code_executi.Common.{ℕ, ◌≡◌, refl, sym, ◌∙◌, subst, Option, Text}
use distributed_code_executi.Contracts.{SubmissionStatus, QueuePayload}
use distributed_code_executi.Services.{Services, State, Submission, SubmissionResult}
use distributed_code_executi.Services.Effects.{transaction}
use distributed_code_executi.Services.Triples.{Mode, Keeps, Keeps-call, Triple-bind, Triple-time}
use distributed_code_executi.Services.Keeping.{Keeps-bind, Keeps-count, Keeps-transaction}
use distributed_code_executi.Jobs.{
  with_status, with_retry, status_set, set_status, set_retry, fail_job, send_to_dlq, dlq_result,
  dlq_conflict,
}
use distributed_code_executi.Jobs.Updates.{updated, submission-update_id}
use distributed_code_executi.Jobs.Results.{with_result}
use distributed_code_executi.Jobs.Rollbacks.{Steady, Steady-call, store_result-Steady}
use distributed_code_executi.Worker.{persist, result_row, result_conflict}
use distributed_code_executi.Worker.Verdict.{SandboxResult, verdict}
use distributed_code_executi.System.Interleavings.{Change, storing, burying, retrying, row_after}

module _ ⦃S : Services⦄ where
  -- From the row `o` of the job, changes of the kind `A` lead to another, at any times.
  pub data Changed (A : Change → Type 0) (i : Text) (o : Option Submission)
      : Option Submission → Type 0 where
    unchanged : Changed A i o o
    changed :
        {p : Option Submission} (c : Change) (now : ℕ)
        → A c
        → Changed A i o p
        → Changed A i o (row_after i c now p)

  pub Changed-widen :
      {A B : Change → Type 0} {i : Text} {o p : Option Submission}
      → ((c : Change) → A c → B c)
      → Changed A i o p
      → Changed B i o p
  Changed-widen f unchanged = unchanged
  Changed-widen f (changed c now a past) = changed c now (f c a) (Changed-widen f past)

  pub Changed-trans :
      {A : Change → Type 0} {i : Text} {o p q : Option Submission}
      → Changed A i o p
      → Changed A i p q
      → Changed A i o q
  Changed-trans past unchanged = past
  Changed-trans past (changed c now a more) = changed c now a (Changed-trans past more)

module _ ⦃S : Services⦄ (A : Change → Type 0) (i : Text) (o : Option Submission) where
  abbrev pub Row : State → Type 0
  Row s = Changed A i o (S.submission s.db i)

  -- A statement that does what the change does to the row.
  pub commit :
      (c : Change) (s : State) (q : Option Submission)
      → A c
      → q ≡ row_after i c s.now (S.submission s.db i)
      → Row s
      → Changed A i o q
  commit c s q a e h = subst (Changed A i o) (sym e) (changed c s.now a h)

  pub Row-with_result :
      (r : SubmissionResult) (merge : SubmissionResult → SubmissionResult → SubmissionResult)
      (s : State)
      → Row s
      → Row (with_result r merge s)
  Row-with_result r merge s h = rw (S.submission-upsert_result r merge s.db i) h

  -- The row is given its status, in the step of a transaction that does it.
  marked :
      (c : Change) (status : SubmissionStatus) (j : Text)
      → A c
      → ((now : ℕ) (p : Option Submission)
          → row_after i c now p ≡ updated j (with_status status now) i p)
      → (s : State) → Row s
      → Row (status_set status j s).1
  marked c status j a e s h =
      commit c s _ a
        (submission-update_id j (with_status status s.now) (λ _. refl) s.db i
          ∙ sym (e s.now (S.submission s.db i)))
        h

  module _ {m : Mode} where
    pub Keeps-mark :
        (c : Change) (status : SubmissionStatus) (j : Text)
        → A c
        → ((now : ℕ) (p : Option Submission)
            → row_after i c now p ≡ updated j (with_status status now) i p)
        → Keeps Row m (set_status status j)
    Keeps-mark c status j a e = Keeps-call _ (marked c status j a e)

    pub mark-Steady :
        (c : Change) (status : SubmissionStatus) (j : Text)
        → A c
        → ((now : ℕ) (p : Option Submission)
            → row_after i c now p ≡ updated j (with_status status now) i p)
        → Steady Row m (set_status status j)
    mark-Steady c status j a e = Steady-call Row _ λ s h. (h.0, marked c status j a e s h.1)

    pub Keeps-set_retry :
        (n : ℕ) (j : Text) → A (retrying n j) → Keeps Row m (set_retry n SubmissionStatus.pending j)
    unfolding row_after
    Keeps-set_retry n j a = Keeps-call _ λ s h.
        commit (retrying n j) s _ a
          (submission-update_id j (with_retry n SubmissionStatus.pending s.now) (λ _. refl) s.db i)
          h

    pub Keeps-send_to_dlq :
        (job : QueuePayload) (reason : Text)
        → A (burying job.job_id reason)
        → Keeps Row m (send_to_dlq job reason)
    unfolding send_to_dlq fail_job row_after
    Keeps-send_to_dlq job reason a = Keeps-bind Triple-time λ now.
        Keeps-bind
          (Keeps-transaction (λ s o h. h)
            (Triple-bind
              (mark-Steady (burying job.job_id reason) SubmissionStatus.failed job.job_id a
                (λ now p. refl))
              λ _.
                store_result-Steady Row Row-with_result (dlq_result job.job_id reason)
                  dlq_conflict))
          λ _. Keeps-bind (Keeps-call _ (λ s h. h)) λ _. Keeps-count _ (λ s h. h)

    pub Keeps-persist :
        (j : Text) (r : SandboxResult) → A (storing j r) → Keeps Row m (transaction (persist j r))
    unfolding persist row_after
    Keeps-persist j r a =
        Keeps-transaction (λ s o h. h)
          (Triple-bind
            (store_result-Steady Row Row-with_result (result_row j r (verdict r)) result_conflict)
            λ _. mark-Steady (storing j r) (verdict r).final_status j a (λ now p. refl))
