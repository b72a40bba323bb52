-- ===== src/Worker/Verdict.antt =====
-- The verdict on a run: the final status, the message and the category that the worker stores
-- (services/execution-worker/src/index.ts), from what the sandbox reports (sandbox.ts).
use distributed_code_executi.Common.{
  ℕ, zero, suc, ◌+◌, ◌/◌, ◌%◌, Bool, true, false, ◌&&◌, ◌||◌, Option, none, some, [], ◌∷◌, ◌++◌,
  Text, codes, ◌==◌, ltb, if◌then◌else◌,
}
use distributed_code_executi.Contracts.{
  SubmissionStatus, ErrorCategory, completed, failed, syntax_error, runtime_error, oom,
}

-- `SandboxResult`
pub record SandboxResult : Type 0 where
  pub exit_code : Option ℕ
  pub stdout : Text
  pub stderr : Text
  pub timed_out : Bool
  pub oom_killed : Bool
  pub output_truncated : Bool
  pub stream_output_limit_exceeded : Bool
  pub execution_time_ms : ℕ
  pub memory_used_bytes : Option ℕ
  pub container_init_ms : ℕ
  pub code_runtime_ms : ℕ

pub record Verdict : Type 0 where
  pub final_status : SubmissionStatus
  pub error_message : Option Text
  pub error_category : Option ErrorCategory

-- The decimal digits of a number, the last one first put; as many rounds as the number are enough.
decimal_digits : ℕ → ℕ → Text → Text
decimal_digits zero n acc = acc
decimal_digits (suc fuel) n acc =
    let acc' = (48 + n % 10) ∷ acc in
    let rest = decimal_digits fuel (n / 10) acc' in if ltb n 10 then acc' else rest

-- A number in a template string.
unfoldable pub decimal : ℕ → Text
unfolding decimal_digits
decimal n = decimal_digits (suc n) n []

-- `${result.exitCode}`
abbrev exit_text : Option ℕ → Text
exit_text none = codes "null"
exit_text (some n) = decimal n

abbrev pub starts_with : Text → Text → Bool
starts_with [] text = true
starts_with (p ∷ ps) [] = false
starts_with (p ∷ ps) (c ∷ cs) = (p == c) && starts_with ps cs

-- text.includes(needle)
unfoldable pub includes : Text → Text → Bool
includes needle [] = starts_with needle []
includes needle (c ∷ cs) = starts_with needle (c ∷ cs) || includes needle cs

-- result.exitCode !== 0
abbrev nonzero : Option ℕ → Bool
nonzero none = true
nonzero (some zero) = false
nonzero (some (suc n)) = true

unfoldable pub error_category_of : Text → ErrorCategory
error_category_of stderr =
    if includes (codes "SyntaxError") stderr || includes (codes "IndentationError") stderr
    then syntax_error
    else runtime_error

unfoldable pub verdict : SandboxResult → Verdict
verdict r =
    if r.timed_out
    then record {
      final_status = SubmissionStatus.timeout;
      error_message = some (codes "Execution timed out (limit: 5 seconds)");
      error_category = some ErrorCategory.timeout;
    }
    else if r.stream_output_limit_exceeded
    then record {
      final_status = failed;
      error_message = some (codes "Stream output limit exceeded (limit: 1 MB)");
      error_category = some runtime_error;
    }
    else if r.oom_killed
    then record {
      final_status = failed;
      error_message = some (codes "Out of Memory: container killed by OOM limiter (128MB)");
      error_category = some oom;
    }
    else if nonzero r.exit_code
    then record {
      final_status = failed;
      error_message = some (codes "Execution failed with exit code " ++ exit_text r.exit_code);
      error_category = some (error_category_of r.stderr);
    }
    else record { final_status = completed; error_message = none; error_category = none }
