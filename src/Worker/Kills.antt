-- ===== src/Worker/Kills.antt =====
-- The kills of the worker, and what the result of a run says of them:
-- services/execution-worker/src/sandbox.ts.
use distributed_code_executi.Common.{
  ℕ, ◌+◌, ◌≡◌, refl, ap, subst, Bool, true, false, not, ◌&&◌, ◌==◌, Option, none, some, List, [],
  ◌∷◌, Text, arith, if◌then◌else◌, Bool-cases, and_false, inl, inr,
}
use distributed_code_executi.Worker.Output.{Collected, Stream, handle_output}
use distributed_code_executi.Worker.Sandbox.{
  Settlement, resolved, rejected, Closed, Run, settle, launched, closed_by, close_run,
  result_of_run, flush_run, is_137, kills_after, RunEvent, output, timeout, process_error,
  stdin_error, close, flushed, on_run_event, on_run_events,
}
use distributed_code_executi.Worker.Settling.{is_settled, is_closed}

-- No data comes after the process was closed.
abbrev pub streams_end : Bool → List RunEvent → Bool
streams_end closed [] = true
streams_end closed (output stream text now ∷ es) = not closed && streams_end closed es
streams_end closed (timeout ∷ es) = streams_end closed es
streams_end closed (process_error ∷ es) = streams_end closed es
streams_end closed (stdin_error ∷ es) = streams_end closed es
streams_end closed (close code exit_at ∷ es) = streams_end true es
streams_end closed (flushed ∷ es) = streams_end closed es

-- The container was out of memory just when it ended by a kill and the worker started none.
abbrev pub OomExactly : Option Settlement → ℕ → Type 0
OomExactly none kills = Unit {0}
OomExactly (some rejected) kills = Unit {0}
OomExactly (some (resolved r)) kills = r.oom_killed ≡ (is_137 r.exit_code && kills == 0)

abbrev OomFound : Option Closed → ℕ → Type 0
OomFound none kills = Unit {0}
OomFound (some c) kills = c.oom_killed ≡ (is_137 c.exit_code && kills == 0)

abbrev is_resolved : Option Settlement → Bool
is_resolved none = false
is_resolved (some rejected) = false
is_resolved (some (resolved r)) = true

-- The flags say whether the worker has started a kill.
abbrev KillsShown : Run → Type 0
KillsShown run =
    (run.kills == 0) ≡ (not run.timed_out && not run.collected.stream_output_limit_exceeded)

record Sound (run : Run) : Type 0 where
  over : (is_settled run.settled && run.timer_armed) ≡ false
  gone : (is_closed run.closed && run.timer_armed) ≡ false
  waited : (is_resolved run.settled && not (is_closed run.closed)) ≡ false
  marked : KillsShown run
  found : OomFound run.closed run.kills
  told : OomExactly run.settled run.kills

if_Sound : {x y : Run} (b : Bool) → (b ≡ true → Sound x) → Sound y → Sound (if b then x else y)
if_Sound true f s = f refl
if_Sound false f s = s

module _ (byte_length : Text → ℕ) (first_bytes : ℕ → Text → Text)
    (memory_peak : Text → Option ℕ × Text) where
  -- An output that is over the limit stays over it.
  handle_output-exceeded :
      (stream : Stream) (text : Text) (st : Collected)
      → st.stream_output_limit_exceeded ≡ true
      → (handle_output byte_length first_bytes memory_peak stream text
          st).stream_output_limit_exceeded
        ≡ true
  unfolding handle_output
  handle_output-exceeded stream text st h = rw h refl

  kills_lem :
      (before after : Collected) (timed_out : Bool) (kills : ℕ)
      → (before.stream_output_limit_exceeded ≡ true → after.stream_output_limit_exceeded ≡ true)
      → (kills == 0) ≡ (not timed_out && not before.stream_output_limit_exceeded)
      → (kills_after byte_length first_bytes memory_peak before after kills == 0)
        ≡ (not timed_out && not after.stream_output_limit_exceeded)
  kills_lem before after timed_out kills stays h =
      elim (Bool-cases before.stream_output_limit_exceeded) [
        | inl e ↦ ground (arith, stays e)
        | inr e ↦ ground arith
      ]

  OomFound-none : (o : Option Closed) (kills : ℕ) → is_closed o ≡ false → OomFound o kills
  OomFound-none none kills h = tt
  OomFound-none (some c) kills h = cc (h)

  OomExactly-unresolved :
      (o : Option Settlement) (kills : ℕ) → is_resolved o ≡ false → OomExactly o kills
  OomExactly-unresolved none kills h = tt
  OomExactly-unresolved (some rejected) kills h = tt
  OomExactly-unresolved (some (resolved r)) kills h = cc (h)

  unsettled : (o : Option Settlement) → is_settled o ≡ false → is_resolved o ≡ false
  unsettled none h = refl
  unsettled (some s) h = cc (h)

  output_Sound :
      (stream : Stream) (text : Text) (now : ℕ) (run : Run)
      → is_closed run.closed ≡ false
      → Sound run
      → Sound (on_run_event byte_length first_bytes memory_peak (output stream text now) run)
  unfolding on_run_event
  output_Sound stream text now run early s = record {
    over = s.over;
    gone = s.gone;
    waited = s.waited;
    marked =
        kills_lem run.collected
          (handle_output byte_length first_bytes memory_peak stream text run.collected)
          run.timed_out run.kills (handle_output-exceeded stream text run.collected) s.marked;
    found = OomFound-none run.closed _ early;
    told = OomExactly-unresolved run.settled _ (ground (arith, s.waited));
  }

  timeout_Sound :
      (run : Run) → Sound run → Sound (on_run_event byte_length first_bytes memory_peak timeout run)
  unfolding on_run_event
  timeout_Sound run s = if_Sound run.timer_armed fired s
    where
      fired :
          run.timer_armed ≡ true
          → Sound (record run { timed_out = true; timer_armed = false; kills = run.kills + 1 })
      fired armed = record {
        over = and_false (is_settled run.settled);
        gone = and_false (is_closed run.closed);
        waited = s.waited;
        marked = ground arith;
        found = OomFound-none run.closed _ (ground (arith, s.gone));
        told = OomExactly-unresolved run.settled _ (unsettled run.settled (ground (arith, s.over)));
      }

  reject_told :
      (o : Option Settlement) (kills : ℕ)
      → OomExactly o kills
      → OomExactly (settle rejected o) kills
  reject_told none kills h = tt
  reject_told (some s) kills h = h

  reject_resolved : (o : Option Settlement) → is_resolved (settle rejected o) ≡ is_resolved o
  reject_resolved none = refl
  reject_resolved (some s) = refl

  error_Sound :
      (run : Run)
      → Sound run
      → Sound (on_run_event byte_length first_bytes memory_peak process_error run)
  unfolding on_run_event
  error_Sound run s = record {
    over = and_false (is_settled (settle rejected run.settled));
    gone = and_false (is_closed run.closed);
    waited = ground (arith, s.waited, reject_resolved run.settled);
    marked = s.marked;
    found = s.found;
    told = reject_told run.settled run.kills s.told;
  }

  close_Sound :
      (code : Option ℕ) (exit_at : ℕ) (run : Run) → Sound run → Sound (close_run code exit_at run)
  unfolding closed_by
  close_Sound code exit_at run s = record {
    over = and_false (is_settled run.settled);
    gone = refl;
    waited = and_false (is_resolved run.settled);
    marked = s.marked;
    found = ground (arith, s.marked);
    told = s.told;
  }

  flush_told :
      (c : Closed) (run : Run) (o : Option Settlement)
      → OomFound (some c) run.kills
      → OomExactly o run.kills
      → OomExactly (settle (resolved (result_of_run c run)) o) run.kills
  unfolding result_of_run
  flush_told c run none f t = f
  flush_told c run (some s) f t = t

  flush_Sound :
      (o : Option Closed) (run : Run) → run.closed ≡ o → Sound run → Sound (flush_run o run)
  flush_Sound none run e s = s
  flush_Sound (some c) run e s =
      let closed : is_closed run.closed ≡ true = ap is_closed e in
      let disarmed : run.timer_armed ≡ false = ground (arith, s.gone) in
      record {
        over = ground arith;
        gone = s.gone;
        waited = ground arith;
        marked = s.marked;
        found = s.found;
        told = flush_told c run run.settled (subst (λ o. OomFound o run.kills) e s.found) s.told;
      }

  on_run_events-Sound :
      (es : List RunEvent) (run : Run) (closed : Bool)
      → streams_end closed es ≡ true
      → (is_closed run.closed && not closed) ≡ false
      → Sound run
      → Sound (on_run_events byte_length first_bytes memory_peak es run)
  unfolding on_run_event
  on_run_events-Sound [] run closed h k s = s
  on_run_events-Sound (output stream text now ∷ es) run closed h k s =
      let early : is_closed run.closed ≡ false = ground arith in
      on_run_events-Sound es
        (on_run_event byte_length first_bytes memory_peak (output stream text now) run) closed
        (ground arith) k (output_Sound stream text now run early s)
  on_run_events-Sound (timeout ∷ es) run closed h k s =
      on_run_events-Sound es (on_run_event byte_length first_bytes memory_peak timeout run) closed h
        (ground arith) (timeout_Sound run s)
  on_run_events-Sound (process_error ∷ es) run closed h k s =
      on_run_events-Sound es (on_run_event byte_length first_bytes memory_peak process_error run)
        closed h k (error_Sound run s)
  on_run_events-Sound (stdin_error ∷ es) run closed h k s = on_run_events-Sound es run closed h k s
  on_run_events-Sound (close code exit_at ∷ es) run closed h k s =
      on_run_events-Sound es
        (on_run_event byte_length first_bytes memory_peak (close code exit_at) run) true h
        (and_false _) (if_Sound run.listening (λ _. close_Sound code exit_at run s) s)
  on_run_events-Sound (flushed ∷ es) run closed h k s =
      on_run_events-Sound es (flush_run run.closed run) closed h (flush_closed run.closed k)
        (flush_Sound run.closed run refl s)
    where
      flush_closed :
          (o : Option Closed)
          → (is_closed run.closed && not closed) ≡ false
          → (is_closed (flush_run o run).closed && not closed) ≡ false
      flush_closed none k = k
      flush_closed (some c) k = k

  launched_Sound : (written : Bool) (t0 t1 : ℕ) → Sound (launched written t0 t1)
  unfolding launched
  launched_Sound true t0 t1 = record {
    over = refl;
    gone = refl;
    waited = refl;
    marked = refl;
    found = tt;
    told = tt;
  }
  launched_Sound false t0 t1 = record {
    over = refl;
    gone = refl;
    waited = refl;
    marked = refl;
    found = tt;
    told = tt;
  }

  -- Whatever events come, but no data after the process was closed: a run that was settled has no
  -- timer left, and if it was resolved then it says that the container was out of memory exactly when
  -- the exit code is 137 and the worker has started no `docker kill`, neither by the timer nor by the
  -- limit of the stream.
  pub launched_sound :
      (written : Bool) (t0 t1 : ℕ) (es : List RunEvent)
      → streams_end false es ≡ true
      → let run = on_run_events byte_length first_bytes memory_peak es (launched written t0 t1) in
        ((is_settled run.settled && run.timer_armed) ≡ false) × OomExactly run.settled run.kills
  unfolding launched
  launched_sound written t0 t1 es h =
      let s =
        on_run_events-Sound es (launched written t0 t1) false h (unclosed written)
          (launched_Sound written t0 t1) in
      (s.over, s.told)
    where
      unclosed : (b : Bool) → (is_closed (launched b t0 t1).closed && not false) ≡ false
      unclosed true = refl
      unclosed false = refl
