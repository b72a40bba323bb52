-- ===== src/Worker/Verdicts.antt =====
-- What the verdict on a run can be.
use distributed_code_executi.Common.{◌≡◌, ◌↔◌, true, false, none, some, arith}
use distributed_code_executi.Contracts.{
  SubmissionStatus, ErrorCategory, is_terminal_status, is_valid_transition, completed,
}
use distributed_code_executi.Worker.Verdict.{SandboxResult, error_category_of, verdict}

-- The status of every verdict is terminal, and one that a running job may take.
pub verdict_terminal :
    (r : SandboxResult)
    → (is_terminal_status (some (verdict r).final_status) ≡ true)
      × (is_valid_transition SubmissionStatus.running (verdict r).final_status ≡ true)
unfolding verdict is_terminal_status is_valid_transition
verdict_terminal r = ground arith

-- A run is completed exactly when nothing stopped it and it exited with 0; and then, and only then,
-- there is no error category. It has the status TIMEOUT exactly when the timer fired.
pub verdict_exact :
    (r : SandboxResult)
    → (((verdict r).final_status ≡ completed) ↔ (
        (r.timed_out ≡ false)
        × (r.stream_output_limit_exceeded ≡ false)
        × (r.oom_killed ≡ false)
        × (r.exit_code ≡ some 0)))
      × (((verdict r).final_status ≡ completed) ↔ ((verdict r).error_category ≡ none))
      × (((verdict r).final_status ≡ SubmissionStatus.timeout) ↔ (r.timed_out ≡ true))
      × (((verdict r).error_category ≡ some ErrorCategory.oom) ↔ (
          (r.timed_out ≡ false) × (r.stream_output_limit_exceeded ≡ false) × (r.oom_killed ≡ true)))
unfolding verdict error_category_of
verdict_exact r = ground arith
