-- ===== src/Worker/Sandbox.antt =====
-- runInSandbox of services/execution-worker/src/sandbox.ts as the handlers of the events that the
-- docker process, the timer and the publish queue send, in the order in which they come. Times are
-- microseconds.
use distributed_code_executi.Common.{
  ℕ, ◌+◌, ◌-◌, ◌/◌, Bool, true, false, ◌&&◌, not, Option, none, some, List, [], ◌∷◌, ◌++◌, Text,
  codes, ◌==◌, if◌then◌else◌,
}
use distributed_code_executi.Contracts.{Language, python, javascript}
use distributed_code_executi.Worker.Verdict.{SandboxResult}
use distributed_code_executi.Worker.Output.{Collected, nothing_collected, Stream, handle_output}

unfoldable pub container_name : Text → Text
container_name job_id = codes "sub_" ++ job_id

abbrev pub language_name : Language → Text
language_name python = codes "python"
language_name javascript = codes "javascript"

abbrev pub image_name : Language → Text
image_name language = codes "runner-" ++ language_name language

-- The arguments of `docker`.
unfoldable pub docker_args : Text → Language → List Text
docker_args job_id language =
    codes "run"
    ∷ codes "-i"
    ∷ codes "--rm"
    ∷ codes "--name"
    ∷ container_name job_id
    ∷ codes "--network"
    ∷ codes "none"
    ∷ codes "--cpus"
    ∷ codes "1"
    ∷ codes "--memory"
    ∷ codes "128m"
    ∷ codes "--memory-swap"
    ∷ codes "128m"
    ∷ codes "--pids-limit"
    ∷ codes "50"
    ∷ codes "--read-only"
    ∷ codes "--tmpfs"
    ∷ codes "/tmp:rw,size=32m,mode=1777"
    ∷ codes "--user"
    ∷ codes "runner"
    ∷ codes "--cap-drop"
    ∷ codes "ALL"
    ∷ codes "--security-opt"
    ∷ codes "no-new-privileges"
    ∷ image_name language
    ∷ []

-- The arguments of the helper commands.
unfoldable pub remove_args : Text → List Text
remove_args job_id = codes "rm" ∷ codes "-f" ∷ container_name job_id ∷ []

unfoldable pub kill_args : Text → List Text
kill_args job_id = codes "kill" ∷ container_name job_id ∷ []

-- What is logged of `docker rm -f`, by its exit code.
pub data Notice : Type 0 where
  silent removed_stale nonstandard_code : Notice

unfoldable pub stale_notice : Option ℕ → Notice
stale_notice none = silent
stale_notice (some code) =
    if code == 0 then removed_stale else if not (code == 1) then nonstandard_code else silent

-- How the promise ends.
pub data Settlement : Type 0 where
  resolved : SandboxResult → Settlement
  rejected : Settlement

-- What the handler of `close` has found when it begins to wait for the publish queue.
pub record Closed : Type 0 where
  pub exit_code : Option ℕ
  pub execution_time_ms : ℕ
  pub container_init_ms : ℕ
  pub code_runtime_ms : ℕ
  pub oom_killed : Bool

pub record Run : Type 0 where
  pub start_time : ℕ
  pub spawn_issued_at : ℕ
  pub first_output_at : Option ℕ
  pub collected : Collected
  pub timed_out : Bool
  pub timer_armed : Bool
  -- how often `docker kill` was started
  pub kills : ℕ
  pub docker_spawn_failures : ℕ
  -- whether the listener of `close` was added
  pub listening : Bool
  pub closed : Option Closed
  pub settled : Option Settlement

-- Once the process is spawned and its listeners are set; `written` says whether the code could be
-- written to the process.
abbrev pub spawned : ℕ → ℕ → Run
spawned start_time spawn_issued_at = record {
  start_time = start_time;
  spawn_issued_at = spawn_issued_at;
  first_output_at = none;
  collected = nothing_collected;
  timed_out = false;
  timer_armed = true;
  kills = 0;
  docker_spawn_failures = 0;
  listening = true;
  closed = none;
  settled = none;
}

-- A promise keeps its first settlement.
abbrev pub settle : Settlement → Option Settlement → Option Settlement
settle new none = some new
settle new (some old) = some old

-- clearTimeout, the counter, reject
abbrev pub failed_spawn : Run → Run
failed_spawn run = record run {
  timer_armed = false;
  docker_spawn_failures = run.docker_spawn_failures + 1;
  settled = settle rejected run.settled;
}

unfoldable pub launched : Bool → ℕ → ℕ → Run
launched true start_time spawn_issued_at = spawned start_time spawn_issued_at
launched false start_time spawn_issued_at =
    record (failed_spawn (spawned start_time spawn_issued_at)) { listening = false }

-- Math.round of a difference of times, in milliseconds
abbrev pub rounded : ℕ → ℕ
rounded d = (d + 500) / 1000

abbrev pub first_time : Option ℕ → ℕ → Option ℕ
first_time none now = some now
first_time (some t) now = some t

abbrev pub container_init_ms : Option ℕ → ℕ → ℕ → ℕ
container_init_ms none spawn_issued_at execution_time_ms = execution_time_ms
container_init_ms (some t) spawn_issued_at execution_time_ms = rounded (t - spawn_issued_at)

abbrev pub code_runtime_ms : Option ℕ → ℕ → ℕ
code_runtime_ms none exit_at = 0
code_runtime_ms (some t) exit_at = rounded (exit_at - t)

abbrev pub is_137 : Option ℕ → Bool
is_137 none = false
is_137 (some code) = code == 137

-- The handler of `close` until it waits.
unfoldable pub closed_by : Option ℕ → ℕ → Run → Closed
closed_by code exit_at run = record {
  exit_code = code;
  execution_time_ms = rounded (exit_at - run.start_time);
  container_init_ms =
      container_init_ms run.first_output_at run.spawn_issued_at
        (rounded (exit_at - run.start_time));
  code_runtime_ms = code_runtime_ms run.first_output_at exit_at;
  oom_killed = is_137 code && not run.timed_out && not run.collected.stream_output_limit_exceeded;
}

abbrev pub close_run : Option ℕ → ℕ → Run → Run
close_run code exit_at run = record run {
  timer_armed = false;
  closed = some (closed_by code exit_at run);
}

-- What is resolved when the wait is over.
unfoldable pub result_of_run : Closed → Run → SandboxResult
result_of_run c run = record {
  exit_code = c.exit_code;
  stdout = run.collected.stdout_accumulator;
  stderr = run.collected.stderr_accumulator;
  timed_out = run.timed_out;
  oom_killed = c.oom_killed;
  output_truncated = run.collected.output_truncated;
  stream_output_limit_exceeded = run.collected.stream_output_limit_exceeded;
  execution_time_ms = c.execution_time_ms;
  memory_used_bytes = run.collected.memory_used_bytes;
  container_init_ms = c.container_init_ms;
  code_runtime_ms = c.code_runtime_ms;
}

-- The rest of the handler of `close`; nothing waits before the process was closed.
abbrev pub flush_run : Option Closed → Run → Run
flush_run none run = run
flush_run (some c) run = record run {
  settled = settle (resolved (result_of_run c run)) run.settled;
}

pub data RunEvent : Type 0 where
  -- a `data` event of one of the streams, decoded, and its time
  output : Stream → Text → ℕ → RunEvent
  timeout : RunEvent
  -- `error` of the process, and of its standard input
  process_error stdin_error : RunEvent
  -- `close` with the exit code and the time
  close : Option ℕ → ℕ → RunEvent
  -- all chunks that were handed to publishChunk are published, or their error is logged
  flushed : RunEvent

module _ (byte_length : Text → ℕ) (first_bytes : ℕ → Text → Text)
    (memory_peak : Text → Option ℕ × Text) where
  -- The limit of the stream, when an event has just gone over it, kills the container.
  abbrev pub kills_after : Collected → Collected → ℕ → ℕ
  kills_after before after kills =
      if not before.stream_output_limit_exceeded && after.stream_output_limit_exceeded
      then kills + 1
      else kills

  abbrev pub on_output : Stream → Text → ℕ → Run → Run
  on_output stream text now run =
      let after = handle_output byte_length first_bytes memory_peak stream text run.collected in
      record run {
        first_output_at = first_time run.first_output_at now;
        collected = after;
        kills = kills_after run.collected after run.kills;
      }

  -- A timer that was cleared, or has fired, does not fire.
  abbrev pub on_timeout : Run → Run
  on_timeout run =
      if run.timer_armed
      then record run { timed_out = true; timer_armed = false; kills = run.kills + 1 }
      else run

  unfoldable pub on_run_event : RunEvent → Run → Run
  on_run_event (output stream text now) run = on_output stream text now run
  on_run_event timeout run = on_timeout run
  on_run_event process_error run = failed_spawn run
  on_run_event stdin_error run = run
  on_run_event (close code exit_at) run = if run.listening then close_run code exit_at run else run
  on_run_event flushed run = flush_run run.closed run

  abbrev pub on_run_events : List RunEvent → Run → Run
  on_run_events [] run = run
  on_run_events (e ∷ es) run = on_run_events es (on_run_event e run)
