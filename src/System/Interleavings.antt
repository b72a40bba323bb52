-- ===== src/System/Interleavings.antt =====
-- Everything that services/execution-worker, services/system-monitor and services/api-gateway do to
-- the rows of `submissions`, in any order: each statement or transaction takes effect at once, when
-- it is committed, and between two of one process may stand any number of others.
use mathlib.Core.Option
use distributed_code_executi.Common.{
  ℕ, ◌≡◌, refl, sym, ap, ◌∙◌, Bool, true, false, Option, none, some, [], Text, if◌then◌else◌,
  text_eq, text_eq_iff, ◌⊎◌, Bool-cases, Option-cases, inl, inr,
}
use distributed_code_executi.Contracts.{SubmissionStatus}
use distributed_code_executi.Services.{Services, State, Submission}
use distributed_code_executi.Services.Effects.{
  M, call, ◌>>=◌, transaction, begin_commit, released, try_catch,
}
use distributed_code_executi.Services.Triples.{at}
use distributed_code_executi.Jobs.{
  unless_stored, set_status, set_retry, fail_job, store_result, with_status, with_retry, has_id,
  dlq_result, dlq_conflict,
}
use distributed_code_executi.Jobs.Updates.{updated, submission-update_id}
use distributed_code_executi.Worker.{claim, claimable, persist, result_row, result_conflict}
use distributed_code_executi.Worker.Verdict.{SandboxResult, verdict}
use distributed_code_executi.Startup.{reset_running, in_status}
use distributed_code_executi.Gateway.{inserted, SubmissionBody, submission_row, insert_submission}

-- A change, by whichever process.
pub data Change : Type 0 where
  claiming : Text → Change
  storing : Text → SandboxResult → Change
  burying : Text → Text → Change
  retrying : ℕ → Text → Change
  resetting : Change
  inserting : Text → SubmissionBody → ℕ → Change
  refusing : Text → Change

module _ ⦃S : Services⦄ where
  abbrev after_act : {A : Type 0} → M A → State → State
  after_act act s = (act (at s [])).1.state

  unfoldable pub apply_change : Change → State → State
  apply_change (claiming i) s = after_act (claim i) s
  apply_change (storing i r) s = after_act (transaction (persist i r)) s
  apply_change (burying i reason) s = after_act (transaction (fail_job i reason)) s
  apply_change (retrying n i) s = after_act (set_retry n SubmissionStatus.pending i) s
  apply_change resetting s = after_act reset_running s
  apply_change (inserting i body now) s =
      after_act (insert_submission (submission_row i body now)) s
  apply_change (refusing i) s = after_act (set_status SubmissionStatus.failed i) s

  -- What a change makes of the row of a job, which is `none` before it is inserted.
  unfoldable pub row_after : Text → Change → ℕ → Option Submission → Option Submission
  row_after i (claiming j) now o =
      Option.map (λ r. if claimable j r then with_status SubmissionStatus.running now r else r) o
  row_after i (storing j r) now o = updated j (with_status (verdict r).final_status now) i o
  row_after i (burying j reason) now o = updated j (with_status SubmissionStatus.failed now) i o
  row_after i (retrying n j) now o = updated j (with_retry n SubmissionStatus.pending now) i o
  row_after i resetting now o =
      Option.map
        (λ r.
          if in_status SubmissionStatus.running r
          then with_status SubmissionStatus.pending now r
          else r)
        o
  row_after i (inserting j body t) now none =
      if text_eq j i then some (submission_row j body t) else none
  row_after i (inserting j body t) now (some r) = some r
  row_after i (refusing j) now o = updated j (with_status SubmissionStatus.failed now) i o

  -- A refused insertion changes nothing.
  unless-state : (x : Bool × State) → (unless_stored x.0 (at x.1 [])).1.state ≡ x.1
  unless-state (true, s) = refl
  unless-state (false, s) = refl

  module _ (i : Text) (s : State) where
    -- Without a row of the job the update has nothing to change.
    updated_none :
        (j : Text) (f : Submission → Submission)
        → S.submission s.db j ≡ none
        → S.submission s.db i ≡ updated j f i (S.submission s.db i)
    updated_none j f h = elim (Bool-cases (text_eq j i)) [
      | inl e ↦ rw (e, ← (text_eq_iff j i).0 e, h) refl
      | inr e ↦ rw e refl
    ]

    after-storing :
        (j : Text) (r : SandboxResult)
        → S.submission (apply_change (storing j r) s).db i
          ≡ row_after i (storing j r) s.now (S.submission s.db i)
    unfolding apply_change row_after transaction persist store_result released begin_commit
        try_catch call ◌>>=◌
    after-storing j r = elim (Option-cases (S.submission s.db j)) [
      | inl h ↦ rw h (updated_none j (with_status (verdict r).final_status s.now) h)
      | inr (row, h) ↦
          rw
            (
              h,
              submission-update_id j (with_status (verdict r).final_status s.now) (λ _. refl)
                  (S.upsert_result (result_row j r (verdict r)) result_conflict s.db) i,
              S.submission-upsert_result (result_row j r (verdict r)) result_conflict s.db i,
            )
            refl
    ]

    after-burying :
        (j reason : Text)
        → S.submission (apply_change (burying j reason) s).db i
          ≡ row_after i (burying j reason) s.now (S.submission s.db i)
    unfolding apply_change row_after transaction fail_job store_result released begin_commit
        try_catch call ◌>>=◌
    after-burying j reason = elim (Option-cases (S.submission s.db j)) [
      | inl h ↦ rw (marked j, h) (updated_none j (with_status SubmissionStatus.failed s.now) h)
      | inr (row, h) ↦
          rw
            (
              marked j,
              h,
              S.submission-upsert_result (dlq_result j reason) dlq_conflict
                  (S.update (has_id j) (with_status SubmissionStatus.failed s.now) s.db) i,
              submission-update_id j (with_status SubmissionStatus.failed s.now) (λ _. refl) s.db i,
            )
            refl
    ]
      where
        marked :
            (j : Text)
            → S.submission (S.update (has_id j) (with_status SubmissionStatus.failed s.now) s.db) j
              ≡ Option.map
                  (λ r. if has_id j r then with_status SubmissionStatus.failed s.now r else r)
                  (S.submission s.db j)
        marked j =
            S.submission-update (has_id j) (with_status SubmissionStatus.failed s.now) (λ _. refl)
              s.db j

    -- The row of a new job is inserted, or none.
    pub row-inserted :
        (j : Text) (body : SubmissionBody) (t : ℕ)
        → S.submission (inserted (submission_row j body t) s).1.db i
          ≡ row_after i (inserting j body t) s.now (S.submission s.db i)
    unfolding row_after
    row-inserted j body t =
        by_cases (Option-cases (S.submission s.db j)) (S.submission s.db i) refl
          (Bool-cases (text_eq j i))
      where
        by_cases :
            ((S.submission s.db j ≡ none) ⊎ ((r : Submission) × (S.submission s.db j ≡ some r)))
            → (o : Option Submission) → S.submission s.db i ≡ o
            → (text_eq j i ≡ true) ⊎ (text_eq j i ≡ false)
            → S.submission (inserted (submission_row j body t) s).1.db i
              ≡ row_after i (inserting j body t) s.now o
        by_cases (inl h) none e b =
            rw (h, S.submission-insert (submission_row j body t) s.db i h, e) refl
        by_cases (inl h) (some r) e (inl same) =
            cc (sym h ∙ ap (S.submission s.db) ((text_eq_iff j i).0 same) ∙ e)
        by_cases (inl h) (some r) e (inr other) =
            rw (h, S.submission-insert (submission_row j body t) s.db i h, other) e
        by_cases (inr (r, h)) none e (inl same) =
            cc (sym h ∙ ap (S.submission s.db) ((text_eq_iff j i).0 same) ∙ e)
        by_cases (inr (r, h)) none e (inr other) = rw (h, other) e
        by_cases (inr (r, h)) (some x) e b = rw h e

    after-inserting :
        (j : Text) (body : SubmissionBody) (t : ℕ)
        → S.submission (apply_change (inserting j body t) s).db i
          ≡ row_after i (inserting j body t) s.now (S.submission s.db i)
    unfolding apply_change insert_submission call ◌>>=◌
    after-inserting j body t =
        rw (unless-state (inserted (submission_row j body t) s)) (row-inserted j body t)

    -- A change makes of the row of each job what `row_after` says: the rows change one by one, each
    -- by what it holds itself, also where the statement is refused or the transaction rolled back.
    pub submission-apply_change :
        (c : Change)
        → S.submission (apply_change c s).db i ≡ row_after i c s.now (S.submission s.db i)
    unfolding apply_change row_after call
    submission-apply_change (claiming j) =
        S.submission-update (claimable j) (with_status SubmissionStatus.running s.now) (λ _. refl)
          s.db i
    submission-apply_change (storing j r) = after-storing j r
    submission-apply_change (burying j reason) = after-burying j reason
    submission-apply_change (retrying n j) =
        submission-update_id j (with_retry n SubmissionStatus.pending s.now) (λ _. refl) s.db i
    submission-apply_change resetting =
        S.submission-update (in_status SubmissionStatus.running)
          (with_status SubmissionStatus.pending s.now) (λ _. refl) s.db i
    submission-apply_change (inserting j body t) = after-inserting j body t
    submission-apply_change (refusing j) =
        submission-update_id j (with_status SubmissionStatus.failed s.now) (λ _. refl) s.db i
