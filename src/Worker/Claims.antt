-- ===== src/Worker/Claims.antt =====
-- The claim: UPDATE … WHERE id = $2 AND status = 'PENDING' RETURNING status.
use mathlib.Core.Option
use mathlib.Core.Option.{some-injective}
use distributed_code_executi.Common.{
  ℕ, ◌≡◌, refl, sym, ap, ◌∙◌, false, Option, none, some, [], Text, Bool-cases, inl, inr, arith,
  if◌then◌else◌,
}
use distributed_code_executi.Contracts.{SubmissionStatus}
use distributed_code_executi.Services.{Services, State, Submission, returned}
use distributed_code_executi.Services.Effects.{call}
use distributed_code_executi.Services.Triples.{at}
use distributed_code_executi.Jobs.{with_status}
use distributed_code_executi.Worker.Handlers.{claimable, claim}

unclaimable :
    (i : Text) (now : ℕ) (r : Submission)
    → claimable i (if claimable i r then with_status SubmissionStatus.running now r else r) ≡ false
unclaimable i now r = elim (Bool-cases (claimable i r)) [
  | inl e ↦ rw e (ground arith)
  | inr e ↦ rw e e
]

claimed_row :
    (i : Text) (now : ℕ) (o : Option Submission) (r : Submission)
    → Option.map (λ r. if claimable i r then with_status SubmissionStatus.running now r else r) o
      ≡ some r
    → claimable i r ≡ false
claimed_row i now none r h = cc
claimed_row i now (some x) r h = ap (claimable i) (sym (some-injective _ _ h)) ∙ unclaimable i now x

module _ ⦃S : Services⦄ where
  -- Two claims of a job, one after the other and with nothing between them, do not both succeed:
  -- the second finds no row, whether or not the first found one.
  pub claim_twice : (i : Text) (s : State) → (claim i (claim i (at s [])).1).0 ≡ returned []
  unfolding call
  claim_twice i s = ap returned (
      S.select-nil (claimable i)
        (S.update (claimable i) (with_status SubmissionStatus.running s.now) s.db)
        (λ j r h. claimed_row i s.now (S.submission s.db j) r (
          sym (
            S.submission-update (claimable i) (with_status SubmissionStatus.running s.now)
              (λ _. refl) s.db j)
          ∙ h)))
