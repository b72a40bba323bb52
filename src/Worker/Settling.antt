-- ===== src/Worker/Settling.antt =====
-- How a run in the sandbox ends: services/execution-worker/src/sandbox.ts.
use distributed_code_executi.Common.{
  ℕ, ◌≡◌, ◌∙◌, refl, ap, Bool, true, false, not, ◌||◌, Option, none, some, List, [], ◌∷◌, Text,
  arith, Option-cases, Bool-cases, inl, inr,
}
use distributed_code_executi.Worker.Sandbox.{
  Settlement, resolved, rejected, Closed, Run, settle, launched, result_of_run, RunEvent, output,
  timeout, process_error, stdin_error, close, flushed, on_run_event, on_run_events,
}

abbrev pub is_settled : Option Settlement → Bool
is_settled none = false
is_settled (some s) = true

abbrev pub is_closed : Option Closed → Bool
is_closed none = false
is_closed (some c) = true

-- Whether an error of the process is reported, or it is closed and the publish queue is empty after
-- that; the process may be closed at first.
abbrev pub settles : Bool → List RunEvent → Bool
settles closed [] = false
settles closed (output stream text now ∷ es) = settles closed es
settles closed (timeout ∷ es) = settles closed es
settles closed (process_error ∷ es) = true
settles closed (stdin_error ∷ es) = settles closed es
settles closed (close code exit_at ∷ es) = settles true es
settles closed (flushed ∷ es) = closed || settles closed es

settle-settled : (new : Settlement) (o : Option Settlement) → is_settled (settle new o) ≡ true
settle-settled new none = refl
settle-settled new (some s) = refl

module _ (byte_length : Text → ℕ) (first_bytes : ℕ → Text → Text)
    (memory_peak : Text → Option ℕ × Text) where
  pub listening-on_run_event :
      (e : RunEvent) (run : Run)
      → (on_run_event byte_length first_bytes memory_peak e run).listening ≡ run.listening
  unfolding on_run_event
  listening-on_run_event (output stream text now) run = refl
  listening-on_run_event timeout run = ground arith
  listening-on_run_event process_error run = refl
  listening-on_run_event stdin_error run = refl
  listening-on_run_event (close code exit_at) run = ground arith
  listening-on_run_event flushed run = elim (Option-cases run.closed) [
    | inl e ↦ rw e refl
    | inr (c, e) ↦ rw e refl
  ]

  settled-on_run_event :
      (e : RunEvent) (run : Run) (s : Settlement)
      → run.settled ≡ some s
      → (on_run_event byte_length first_bytes memory_peak e run).settled ≡ some s
  unfolding on_run_event result_of_run
  settled-on_run_event (output stream text now) run s h = h
  settled-on_run_event timeout run s h = ground (arith)
  settled-on_run_event process_error run s h = rw h
  settled-on_run_event stdin_error run s h = h
  settled-on_run_event (close code exit_at) run s h = ground arith
  settled-on_run_event flushed run s h = elim (Option-cases run.closed) [
    | inl e ↦ rw e h
    | inr (c, e) ↦ rw e (ap (settle (resolved (result_of_run c run))) h)
  ]

  -- Nothing that happens after the promise was settled settles it again.
  settled-on_run_events :
      (es : List RunEvent) (run : Run) (s : Settlement)
      → run.settled ≡ some s
      → (on_run_events byte_length first_bytes memory_peak es run).settled ≡ some s
  settled-on_run_events [] run s h = h
  settled-on_run_events (e ∷ es) run s h =
      settled-on_run_events es (on_run_event byte_length first_bytes memory_peak e run) s
        (settled-on_run_event e run s h)

  stays-settled :
      (es : List RunEvent) (run : Run)
      → is_settled run.settled ≡ true
      → is_settled (on_run_events byte_length first_bytes memory_peak es run).settled ≡ true
  stays-settled es run h = elim (Option-cases run.settled) [
    | inl e ↦ cc
    | inr (s, e) ↦ ap is_settled (settled-on_run_events es run s e)
  ]

  -- One event leaves what is known of the end.
  settles_step :
      (e : RunEvent) (es : List RunEvent) (run : Run)
      → run.listening ≡ true
      → let next = on_run_event byte_length first_bytes memory_peak e run in
        (is_settled next.settled || settles (is_closed next.closed) es)
        ≡ (is_settled run.settled || settles (is_closed run.closed) (e ∷ es))
  unfolding on_run_event
  settles_step (output stream text now) es run h = refl
  settles_step timeout es run h = elim (Bool-cases run.timer_armed) [
    | inl e ↦ rw e refl
    | inr e ↦ rw e refl
  ]
  settles_step process_error es run h = ground (arith, settle-settled rejected run.settled)
  settles_step stdin_error es run h = refl
  settles_step (close code exit_at) es run h = rw h refl
  settles_step flushed es run h = elim (Option-cases run.closed) [
    | inl e ↦ rw e refl
    | inr (c, e) ↦
        rw e (ground (arith, settle-settled (resolved (result_of_run c run)) run.settled))
  ]

  settled_when :
      (es : List RunEvent) (run : Run)
      → run.listening ≡ true
      → is_settled (on_run_events byte_length first_bytes memory_peak es run).settled
        ≡ (is_settled run.settled || settles (is_closed run.closed) es)
  settled_when [] run h = ground arith
  settled_when (e ∷ es) run h =
      settled_when es (on_run_event byte_length first_bytes memory_peak e run)
        (listening-on_run_event e run ∙ h)
      ∙ settles_step e es run h

  -- The promise of runInSandbox is settled exactly when the process has reported an error, or was
  -- closed and then the publish queue, which the handler of `close` awaits, has become empty, or at
  -- once if the code could not be written to the process. So a run whose process is closed, and reports
  -- no error, waits until its chunks are published.
  pub launched-settles :
      (written : Bool) (t0 t1 : ℕ) (es : List RunEvent)
      → is_settled
          (on_run_events byte_length first_bytes memory_peak es (launched written t0 t1)).settled
        ≡ (not written || settles false es)
  unfolding launched
  launched-settles true t0 t1 es = settled_when es (launched true t0 t1) refl
  launched-settles false t0 t1 es = stays-settled es (launched false t0 t1) refl
