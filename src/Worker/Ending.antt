-- ===== src/Worker/Ending.antt =====
-- What a run in the sandbox is resolved with: services/execution-worker/src/sandbox.ts.
use distributed_code_executi.Common.{
  ℕ, ◌+◌, ◌-◌, ◌≤◌, ◌≡◌, refl, ap, ◌∙◌, Bool, true, false, Option, none, some, List, [], ◌∷◌, ◌++◌,
  ◌||◌, ◌&&◌, Text, arith, if◌then◌else◌, or_false,
}
use distributed_code_executi.Worker.Verdict.{SandboxResult}
use distributed_code_executi.Worker.Output.{nothing_collected, Stream, collect}
use distributed_code_executi.Worker.Sandbox.{
  resolved, Run, spawned, settle, launched, result_of_run, close_run, rounded, container_init_ms,
  code_runtime_ms, RunEvent, output, timeout, process_error, stdin_error, close, on_run_event,
  on_run_events, flushed, Closed, closed_by, flush_run,
}
use distributed_code_executi.Worker.Settling.{listening-on_run_event}

-- The decoded data of the events.
abbrev pub outputs : List RunEvent → List (Stream × Text)
outputs [] = []
outputs (output stream text now ∷ es) = (stream, text) ∷ outputs es
outputs (timeout ∷ es) = outputs es
outputs (process_error ∷ es) = outputs es
outputs (stdin_error ∷ es) = outputs es
outputs (close code exit_at ∷ es) = outputs es
outputs (flushed ∷ es) = outputs es

-- The process has neither reported an error nor been closed.
abbrev is_end : RunEvent → Bool
is_end (output stream text now) = false
is_end timeout = false
is_end process_error = true
is_end stdin_error = false
is_end (close code exit_at) = true
is_end flushed = false

abbrev pub has_end : List RunEvent → Bool
has_end [] = false
has_end (e ∷ es) = is_end e || has_end es

-- What may come between the close of the process and the end of the wait.
abbrev is_idle : RunEvent → Bool
is_idle (output stream text now) = false
is_idle timeout = true
is_idle process_error = false
is_idle stdin_error = true
is_idle (close code exit_at) = false
is_idle flushed = false

abbrev pub all_idle : List RunEvent → Bool
all_idle [] = true
all_idle (e ∷ es) = is_idle e && all_idle es

module _ (byte_length : Text → ℕ) (first_bytes : ℕ → Text → Text)
    (memory_peak : Text → Option ℕ × Text) where
  -- No end has come.
  Unended : Run → Type 0
  Unended run = (run.closed ≡ none) × (run.settled ≡ none)

  on_run_event-Unended :
      (e : RunEvent) (run : Run)
      → is_end e ≡ false
      → Unended run
      → Unended (on_run_event byte_length first_bytes memory_peak e run)
  unfolding on_run_event Unended
  on_run_event-Unended (output stream text now) run h n = n
  on_run_event-Unended timeout run h n = ground arith
  on_run_event-Unended process_error run h n = cc (h)
  on_run_event-Unended stdin_error run h n = n
  on_run_event-Unended (close code exit_at) run h n = cc (h)
  on_run_event-Unended flushed run h n = flush_run-Unended run.closed n.0
    where
      flush_run-Unended : (o : Option Closed) → o ≡ none → Unended (flush_run o run)
      flush_run-Unended none e = n
      flush_run-Unended (some c) e = cc (e)

  listening-on_run_events :
      (es : List RunEvent) (run : Run)
      → (on_run_events byte_length first_bytes memory_peak es run).listening ≡ run.listening
  listening-on_run_events [] run = refl
  listening-on_run_events (e ∷ es) run =
      listening-on_run_events es (on_run_event byte_length first_bytes memory_peak e run)
      ∙ listening-on_run_event byte_length first_bytes memory_peak e run

  collected-flush_run :
      (o : Option Closed) (run : Run) → (flush_run o run).collected ≡ run.collected
  collected-flush_run none run = refl
  collected-flush_run (some c) run = refl

  collected-on_run_event :
      (e : RunEvent) (es : List (Stream × Text)) (run : Run)
      → collect byte_length first_bytes memory_peak es
          (on_run_event byte_length first_bytes memory_peak e run).collected
        ≡ collect byte_length first_bytes memory_peak (outputs (e ∷ []) ++ es) run.collected
  unfolding on_run_event collect
  collected-on_run_event (output stream text now) es run = refl
  collected-on_run_event timeout es run = ground arith
  collected-on_run_event process_error es run = refl
  collected-on_run_event stdin_error es run = refl
  collected-on_run_event (close code exit_at) es run = ground arith
  collected-on_run_event flushed es run =
      ap (collect byte_length first_bytes memory_peak es) (collected-flush_run run.closed run)

  collected-on_run_events :
      (es : List RunEvent) (run : Run)
      → (on_run_events byte_length first_bytes memory_peak es run).collected
        ≡ collect byte_length first_bytes memory_peak (outputs es) run.collected
  unfolding collect
  collected-on_run_events [] run = refl
  collected-on_run_events (e ∷ es) run =
      collected-on_run_events es (on_run_event byte_length first_bytes memory_peak e run)
      ∙ collected-on_run_event e (outputs es) run
      ∙ joined_outputs e
    where
      joined_outputs :
          (e : RunEvent)
          → collect byte_length first_bytes memory_peak
              (outputs (e ∷ []) ++ outputs es)
              run.collected
            ≡ collect byte_length first_bytes memory_peak (outputs (e ∷ es)) run.collected
      joined_outputs (output stream text now) = refl
      joined_outputs timeout = refl
      joined_outputs process_error = refl
      joined_outputs stdin_error = refl
      joined_outputs (close code exit_at) = refl
      joined_outputs flushed = refl

  on_run_events-Unended :
      (es : List RunEvent) (run : Run)
      → has_end es ≡ false
      → Unended run
      → Unended (on_run_events byte_length first_bytes memory_peak es run)
  on_run_events-Unended [] run h n = n
  on_run_events-Unended (e ∷ es) run h n =
      on_run_events-Unended es (on_run_event byte_length first_bytes memory_peak e run)
        (or_false h).1 (on_run_event-Unended e run (or_false h).0 n)

  -- Nothing happens while the handler of `close` waits.
  idle_lem :
      (es : List RunEvent) (run : Run)
      → all_idle es ≡ true
      → run.timer_armed ≡ false
      → on_run_events byte_length first_bytes memory_peak es run ≡ run
  unfolding on_run_event
  idle_lem [] run h t = refl
  idle_lem (output stream text now ∷ es) run h t = cc (h)
  idle_lem (timeout ∷ es) run h t =
      ap (λ r. on_run_events byte_length first_bytes memory_peak es r) (disarmed run.timer_armed t)
      ∙ idle_lem es run h t
    where
      disarmed :
          (b : Bool)
          → b ≡ false
          → (if b
              then record run { timed_out = true; timer_armed = false; kills = run.kills + 1 }
              else run)
            ≡ run
      disarmed true e = cc (e)
      disarmed false e = refl
  idle_lem (process_error ∷ es) run h t = cc (h)
  idle_lem (stdin_error ∷ es) run h t = idle_lem es run h t
  idle_lem (close code exit_at ∷ es) run h t = cc (h)
  idle_lem (flushed ∷ es) run h t = cc (h)

  if_listening : (b : Bool) (x y : Run) → b ≡ true → (if b then x else y) ≡ x
  if_listening true x y e = refl
  if_listening false x y e = cc (e)

  -- What the last three parts of a run make of it.
  closing_lem :
      (run : Run) (code : Option ℕ) (exit_at : ℕ) (later : List RunEvent)
      → run.listening ≡ true
      → run.settled ≡ none
      → all_idle later ≡ true
      → (on_run_event byte_length first_bytes memory_peak flushed (
          on_run_events byte_length first_bytes memory_peak later
            (on_run_event byte_length first_bytes memory_peak (close code exit_at) run))).settled
        ≡ some (resolved (result_of_run (closed_by code exit_at run) (close_run code exit_at run)))
  unfolding on_run_event
  closing_lem run code exit_at later l n i =
      let c = close_run code exit_at run in
      ap
        (λ r.
          (flush_run (on_run_events byte_length first_bytes memory_peak later r).closed
            (on_run_events byte_length first_bytes memory_peak later r)).settled)
        (if_listening run.listening c run l)
      ∙ ap (λ r. (flush_run r.closed r).settled) (idle_lem later c i refl)
      ∙ ap (settle (resolved (result_of_run (closed_by code exit_at run) c))) n

  -- A run whose process is closed after events of which none is an end, and whose chunks are then
  -- published, is resolved with the exit code of the process and with the outputs, the peak and the
  -- flags that the collection of the data events gives, whatever else came between them and whichever
  -- errors of the standard input and late timeouts come during the wait.
  pub on_run_events-close :
      (t0 t1 : ℕ) (es later : List RunEvent) (code : Option ℕ) (exit_at : ℕ)
      → has_end es ≡ false
      → all_idle later ≡ true
      → let c = collect byte_length first_bytes memory_peak (outputs es) nothing_collected in
        let run = on_run_events byte_length first_bytes memory_peak es (launched true t0 t1) in
        (r : SandboxResult) × ((on_run_event byte_length first_bytes memory_peak flushed (
            on_run_events byte_length first_bytes memory_peak later
              (on_run_event byte_length first_bytes memory_peak (close code exit_at) run))).settled
          ≡ some (resolved r))
        × (r.exit_code ≡ code)
        × (r.stdout ≡ c.stdout_accumulator)
        × (r.stderr ≡ c.stderr_accumulator)
        × (r.output_truncated ≡ c.output_truncated)
        × (r.stream_output_limit_exceeded ≡ c.stream_output_limit_exceeded)
        × (r.memory_used_bytes ≡ c.memory_used_bytes)
  unfolding result_of_run closed_by launched Unended
  on_run_events-close t0 t1 es later code exit_at h i =
      let run = on_run_events byte_length first_bytes memory_peak es (spawned t0 t1) in
      let same = collected-on_run_events es (spawned t0 t1) in
      (
        result_of_run (closed_by code exit_at run) (close_run code exit_at run),
        closing_lem run code exit_at later (listening-on_run_events es (spawned t0 t1))
            (on_run_events-Unended es (spawned t0 t1) h (refl, refl)).1 i,
        refl,
        ap (λ c. c.stdout_accumulator) same,
        ap (λ c. c.stderr_accumulator) same,
        ap (λ c. c.output_truncated) same,
        ap (λ c. c.stream_output_limit_exceeded) same,
        ap (λ c. c.memory_used_bytes) same,
      )

-- The time until the first output and the time after it, each rounded, add up to no more than a
-- millisecond over the whole time, where the clock does not go back.
pub breakdown_bound :
    (t0 t1 first exit_at : ℕ)
    → t0 ≤ t1
    → t1 ≤ first
    → first ≤ exit_at
    → container_init_ms (some first) t1 (rounded (exit_at - t0))
        + code_runtime_ms (some first) exit_at
      ≤ rounded (exit_at - t0) + 1
breakdown_bound t0 t1 first exit_at a b c = omega arith
