-- ===== src/Scripts/Waiting.antt =====
-- How benchmark.js (submitJob, waitForJob) and infra/k6-load-test.js (testCodeSubmission) submit a
-- job and wait for its end; and the summary of load-test.js.
use distributed_code_executi.Common.{
  ℕ, zero, suc, ◌-◌, Bool, true, false, ◌&&◌, Option, none, some, List, [], ◌∷◌, ◌==◌,
  if◌then◌else◌, Text,
}
use distributed_code_executi.Contracts.{SubmissionStatus, status_eq}
use distributed_code_executi.Scripts.Recovery.{
  StatusReply, row, blank, garbled, refused, unreachable, Check, is_over,
}

-- benchmark.js

-- The reply to POST /submissions: its code and the `jobId` of the body, if there is one.
pub record Posted : Type 0 where
  pub code : ℕ
  pub job_id : Option Text

-- What submitJob resolves with; `none` if it throws.
unfoldable pub submit_job : Posted → ℕ → Option (Option Text × ℕ)
submit_job posted start = if posted.code == 201 then some (posted.job_id, start) else none

pub data Waited : Type 0 where
  ended_with : SubmissionStatus → ℕ → Waited
  poll_failed : Waited
  still_waiting : Waited

-- One turn of `while (true)`; the latency is taken from the clock after the reply.
abbrev pub settle : ℕ → Check → Waited → Waited
settle submitted_at c rest = elim c.reply [
  | row status retries ↦ if is_over status then ended_with status (c.after - submitted_at) else rest
  | blank ↦ rest
  | garbled ↦ poll_failed
  | refused ↦ poll_failed
  | unreachable ↦ poll_failed
]

unfoldable pub wait_for_job : ℕ → List Check → Waited
wait_for_job submitted_at [] = still_waiting
wait_for_job submitted_at (c ∷ cs) = settle submitted_at c (wait_for_job submitted_at cs)

-- infra/k6-load-test.js

abbrev pub max_poll_attempts : ℕ
max_poll_attempts = 20

-- The checks on the reply to the submission: its code, a `jobId` and the status PENDING in its body.
unfoldable pub submit_ok : ℕ → Option (Option Text × Option SubmissionStatus) → Bool
submit_ok code none = false
submit_ok code (some (none, status)) = false
submit_ok code (some (some job_id, none)) = false
submit_ok code (some (some job_id, some status)) =
    (code == 201) && status_eq status SubmissionStatus.pending

-- The loop over the attempts that are left: a reply that cannot be used is passed over. The result is
-- the status that ends the loop and the clock.
abbrev pub attempt : StatusReply → ℕ → Option (SubmissionStatus × ℕ) → Option (SubmissionStatus × ℕ)
attempt (row status retries) now rest = if is_over status then some (status, now) else rest
attempt blank now rest = rest
attempt garbled now rest = rest
attempt refused now rest = rest
attempt unreachable now rest = rest

unfoldable pub poll_attempts : ℕ → List Check → Option (SubmissionStatus × ℕ)
poll_attempts zero cs = none
poll_attempts (suc n) [] = none
poll_attempts (suc n) (c ∷ cs) = attempt c.reply c.after (poll_attempts n cs)

-- load-test.js

pub data PayloadName : Type 0 where
  success_case infinite_loop memory_hog : PayloadName

pub record LoadResult : Type 0 where
  pub success : Bool
  pub job_id : Option Text
  pub name : PayloadName

-- The end of a request: the code and the `jobId` of a body that is JSON, or an error.
pub data LoadReply : Type 0 where
  parsed : ℕ → Option Text → LoadReply
  parse_error : LoadReply
  connection_error : LoadReply

unfoldable pub load_result : PayloadName → LoadReply → LoadResult
load_result name (parsed code job_id) = record {
  success = code == 201;
  job_id = job_id;
  name = name;
}
load_result name parse_error = record { success = false; job_id = none; name = name }
load_result name connection_error = record { success = false; job_id = none; name = name }

abbrev pub same_name : PayloadName → PayloadName → Bool
same_name success_case success_case = true
same_name infinite_loop infinite_loop = true
same_name memory_hog memory_hog = true
same_name _ _ = false

unfoldable pub named : PayloadName → List LoadResult → ℕ
named name [] = 0
named name (r ∷ rs) = if same_name r.name name then suc (named name rs) else named name rs

unfoldable pub successful : List LoadResult → ℕ
successful [] = 0
successful (r ∷ rs) = if r.success then suc (successful rs) else successful rs
