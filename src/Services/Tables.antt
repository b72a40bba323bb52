-- ===== src/Services/Tables.antt =====
-- The tables of infra/schema.sql, and PostgreSQL as the statements of the services use it.
use mathlib.Core.Option
use distributed_code_executi.Common.{
  ℕ, ◌-◌, min, ◌≡◌, length, Bool, true, false, ◌||◌, ◌∷◌, Option, none, some, List, [], Text,
  text_eq, if◌then◌else◌,
}
use distributed_code_executi.Contracts.{SubmissionStatus, ErrorCategory, Language}

-- A row of `submissions`.
pub record Submission : Type 0 where
  pub id : Text
  pub user_id : Option Text
  pub language : Language
  pub source_code : Text
  pub status : SubmissionStatus
  pub retry_count : ℕ
  pub created_at : ℕ
  pub updated_at : ℕ

-- A row of `submission_results`.
pub record SubmissionResult : Type 0 where
  pub job_id : Text
  pub exit_code : Option ℕ
  pub stdout : Text
  pub stderr : Text
  pub error_message : Option Text
  pub error_category : Option ErrorCategory
  pub execution_time_ms : Option ℕ
  pub memory_used_bytes : Option ℕ
  pub output_truncated : Bool
  pub stream_output_limit_exceeded : Bool

-- Some row has the key.
abbrev pub has_row : Text → List Submission → Bool
has_row i [] = false
has_row i (r ∷ rs) = text_eq r.id i || has_row i rs

-- Every row satisfies the condition.
abbrev pub Every : (Submission → Bool) → List Submission → Type 0
Every p [] = Unit {0}
Every p (r ∷ rs) = (p r ≡ true) × Every p rs

pub record Postgres : Type 1 where
  pub Db : Type 0
  -- the row with this primary key
  pub submission : Db → Text → Option Submission
  -- the row with this `job_id`, which is unique
  pub result_of : Db → Text → Option SubmissionResult
  -- SELECT … FROM submissions WHERE p
  pub select : (Submission → Bool) → Db → List Submission
  -- SELECT … FROM submissions WHERE p ORDER BY created_at ASC
  pub select_oldest : (Submission → Bool) → Db → List Submission
  -- SELECT COUNT(*) FROM submissions WHERE p
  pub count_rows : (Submission → Bool) → Db → ℕ
  -- SELECT … FROM submissions WHERE p ORDER BY created_at DESC LIMIT limit OFFSET offset
  pub select_newest : (Submission → Bool) → (limit offset : ℕ) → Db → List Submission
  -- UPDATE submissions SET … WHERE p
  pub update : (Submission → Bool) → (Submission → Submission) → Db → Db
  -- INSERT INTO submissions, when the key is free
  pub insert : Submission → Db → Db
  -- INSERT INTO submission_results … ON CONFLICT (job_id) DO UPDATE SET …, which is given the old
  -- row and the new one
  pub upsert_result :
      SubmissionResult → (SubmissionResult → SubmissionResult → SubmissionResult) → Db → Db
  pub id-submission : (d : Db) (i : Text) (s : Submission) → submission d i ≡ some s → s.id ≡ i
  pub select-nil :
      (p : Submission → Bool) (d : Db)
      → ((i : Text) (s : Submission) → submission d i ≡ some s → p s ≡ false)
      → select p d ≡ []
  pub has_row-select :
      (p : Submission → Bool) (d : Db) (i : Text) (s : Submission)
      → submission d i ≡ some s
      → p s ≡ true
      → has_row i (select p d) ≡ true
  pub has_row-select_oldest :
      (p : Submission → Bool) (d : Db) (i : Text) (s : Submission)
      → submission d i ≡ some s
      → p s ≡ true
      → has_row i (select_oldest p d) ≡ true
  -- a page holds what the limit leaves of the rows after the offset
  pub length-select_newest :
      (p : Submission → Bool) (limit offset : ℕ) (d : Db)
      → length (select_newest p limit offset d) ≡ min limit (count_rows p d - offset)
  pub select_newest-Every :
      (p : Submission → Bool) (limit offset : ℕ) (d : Db) → Every p (select_newest p limit offset d)
  pub submission-update :
      (p : Submission → Bool) (f : Submission → Submission)
      → ((s : Submission) → (f s).id ≡ s.id)
      → (d : Db) (i : Text)
      → submission (update p f d) i ≡ Option.map (λ s. if p s then f s else s) (submission d i)
  pub result_of-update :
      (p : Submission → Bool) (f : Submission → Submission) (d : Db) (i : Text)
      → result_of (update p f d) i ≡ result_of d i
  pub submission-insert :
      (s : Submission) (d : Db) (i : Text)
      → submission d s.id ≡ none
      → submission (insert s d) i ≡ (if text_eq s.id i then some s else submission d i)
  pub result_of-insert :
      (s : Submission) (d : Db) (i : Text) → result_of (insert s d) i ≡ result_of d i
  pub submission-upsert_result :
      (r : SubmissionResult) (m : SubmissionResult → SubmissionResult → SubmissionResult) (d : Db)
      (i : Text)
      → submission (upsert_result r m d) i ≡ submission d i
  pub result_of-upsert_result :
      (r : SubmissionResult) (m : SubmissionResult → SubmissionResult → SubmissionResult) (d : Db)
      (i : Text)
      → result_of (upsert_result r m d) i ≡ (
          if text_eq r.job_id i
          then some (elim (result_of d i) [ none ↦ r | some old ↦ m old r ])
          else result_of d i)
