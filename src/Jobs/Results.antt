-- ===== src/Jobs/Results.antt =====
-- The rules for the statement that stores a result: on a job with a row the foreign key holds.
use distributed_code_executi.Common.{◌≡◌, refl, Bool, true, false, Text}
use distributed_code_executi.Services.{Services, State, SubmissionResult, Exception, service_failed}
use distributed_code_executi.Services.Triples.{
  Mode, quiet, Triple, Triple-pure, Triple-bind, Triple-call, Triple-call_quiet,
}
use distributed_code_executi.Jobs.Statements.{store_result, result_stored, unless_stored}
use distributed_code_executi.Jobs.Updates.{known, ended}

module _ ⦃S : Services⦄ where
  -- The state after a result has been stored.
  abbrev pub with_result :
      SubmissionResult → (SubmissionResult → SubmissionResult → SubmissionResult) → State → State
  with_result r merge s = record s { db = S.upsert_result r merge s.db }

  pub known-with_result :
      (r : SubmissionResult) (merge : SubmissionResult → SubmissionResult → SubmissionResult)
      (s : State) (i : Text)
      → known i (with_result r merge s).db ≡ known i s.db
  known-with_result r merge s i = rw (S.submission-upsert_result r merge s.db i)

  pub ended-with_result :
      (r : SubmissionResult) (merge : SubmissionResult → SubmissionResult → SubmissionResult)
      (s : State) (i : Text)
      → ended i (with_result r merge s).db ≡ ended i s.db
  ended-with_result r merge s i = rw (S.submission-upsert_result r merge s.db i)

module _ ⦃S : Services⦄ (m : Mode) (Q : State → Type 0) (E : Exception → State → Type 0)
    (C : State → Type 0) where
  stored_then : (b : Bool) → Triple m (λ s. Q s × (b ≡ true)) (unless_stored b) (λ _ s. Q s) E C
  stored_then true = Triple-pure tt (λ s h. h.0)
  stored_then false = record { run = λ s fs ok h. cc (h.1) }

module _ ⦃S : Services⦄ where
  result_stored_lem :
      (r : SubmissionResult) (merge : SubmissionResult → SubmissionResult → SubmissionResult)
      (X : Bool × State → Type 0) (s : State)
      → known r.job_id s.db ≡ true
      → X (true, with_result r merge s)
      → X (result_stored r merge s)
  result_stored_lem r merge X s k x = rw k x

module _ ⦃S : Services⦄ {P Q : State → Type 0} {E : Exception → State → Type 0} {C : State → Type 0}
    (r : SubmissionResult) (merge : SubmissionResult → SubmissionResult → SubmissionResult)
    (row : (s : State) → P s → known r.job_id s.db ≡ true)
    (done : (s : State) → P s → Q (with_result r merge s)) where
  pub Triple-store_result :
      {m : Mode}
      → ((s : State) → P s → E service_failed s)
      → ((s : State) → P s → E service_failed (with_result r merge s))
      → ((s : State) → P s → C s)
      → Triple m P (store_result r merge) (λ _ s. Q s) E C
  unfolding store_result
  Triple-store_result {m} e l c =
      Triple-bind
        (Triple-call {Q = λ b s. Q s × (b ≡ true)} (result_stored r merge)
          (λ s p.
            result_stored_lem r merge (λ x. Q x.1 × (x.0 ≡ true)) s (row s p) (done s p, refl))
          e (λ s p. result_stored_lem r merge (λ x. E service_failed x.1) s (row s p) (l s p)) c)
        (stored_then m Q E C)

  pub Triple-store_result_quiet : Triple quiet P (store_result r merge) (λ _ s. Q s) E C
  unfolding store_result
  Triple-store_result_quiet =
      Triple-bind
        (Triple-call_quiet {Q = λ b s. Q s × (b ≡ true)} (result_stored r merge) (λ s p.
          result_stored_lem r merge (λ x. Q x.1 × (x.0 ≡ true)) s (row s p) (done s p, refl)))
        (stored_then quiet Q E C)
