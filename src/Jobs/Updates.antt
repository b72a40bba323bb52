-- ===== src/Jobs/Updates.antt =====
-- What the statements do to the rows of `submissions`.
use mathlib.Core.Option
use distributed_code_executi.Common.{
  ℕ, ◌≡◌, refl, ◌∙◌, Bool, true, false, Option, none, some, Text, text_eq, text_eq_refl, arith,
  if◌then◌else◌,
}
use distributed_code_executi.Contracts.{SubmissionStatus, is_terminal_status}
use distributed_code_executi.Services.{Services, Submission}
use distributed_code_executi.Jobs.Statements.{has_id, with_status, is_some}

module _ ⦃S : Services⦄ where
  -- the job has a row
  abbrev pub known : Text → S.Db → Bool
  known i d = is_some (S.submission d i)

  -- the row of the job has a terminal status
  abbrev pub ended : Text → S.Db → Bool
  ended i d = is_terminal_status (Option.map (λ r. r.status) (S.submission d i))

  -- the row after an update by the primary key `i`
  abbrev pub updated :
      Text → (Submission → Submission) → Text → Option Submission → Option Submission
  updated i f j o = if text_eq i j then Option.map f o else o

  updated_row :
      (i : Text) (f : Submission → Submission) (j : Text) (o : Option Submission)
      → ((r : Submission) → o ≡ some r → r.id ≡ j)
      → Option.map (λ r. if has_id i r then f r else r) o ≡ updated i f j o
  updated_row i f j none h = ground arith
  updated_row i f j (some r) h = rw (h r refl) (ground arith)

  -- An update by primary key changes the row with that key, and no other.
  pub submission-update_id :
      (i : Text) (f : Submission → Submission)
      → ((r : Submission) → (f r).id ≡ r.id)
      → (d : S.Db) (j : Text)
      → S.submission (S.update (has_id i) f d) j ≡ updated i f j (S.submission d j)
  submission-update_id i f keeps d j =
      S.submission-update (has_id i) f keeps d j
      ∙ updated_row i f j (S.submission d j) (λ r. S.id-submission d j r)

  known_row :
      (p : Submission → Bool) (f : Submission → Submission) (o : Option Submission)
      → is_some (Option.map (λ r. if p r then f r else r) o) ≡ is_some o
  known_row p f none = refl
  known_row p f (some r) = refl

  -- No update adds a row or takes one away.
  pub known-update :
      (p : Submission → Bool) (f : Submission → Submission)
      → ((r : Submission) → (f r).id ≡ r.id)
      → (d : S.Db) (j : Text) → known j (S.update p f d) ≡ known j d
  known-update p f keeps d j =
      rw (S.submission-update p f keeps d j) (known_row p f (S.submission d j))

  other_row :
      (p : Submission → Bool) (f : Submission → Submission) (o : Option Submission)
      → ((r : Submission) → o ≡ some r → p r ≡ false)
      → Option.map (λ r. if p r then f r else r) o ≡ o
  other_row p f none h = refl
  other_row p f (some r) h = rw (h r refl)

  -- A row that the condition does not pick stays as it was.
  pub submission-update_other :
      (p : Submission → Bool) (f : Submission → Submission)
      → ((r : Submission) → (f r).id ≡ r.id)
      → (d : S.Db) (j : Text) → ((r : Submission) → r.id ≡ j → p r ≡ false)
      → S.submission (S.update p f d) j ≡ S.submission d j
  submission-update_other p f keeps d j h =
      S.submission-update p f keeps d j
      ∙ other_row p f (S.submission d j) (λ r e. h r (S.id-submission d j r e))

  -- A row that is given a terminal status has one.
  pub ended-with_status :
      (i : Text) (status : SubmissionStatus) (now : ℕ) (d : S.Db)
      → is_terminal_status (some status) ≡ true
      → known i d ≡ true
      → ended i (S.update (has_id i) (with_status status now) d) ≡ true
  ended-with_status i status now d t k =
      rw (submission-update_id i (with_status status now) (λ r. refl) d i, text_eq_refl i)
        (ground arith)
