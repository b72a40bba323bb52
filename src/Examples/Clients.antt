-- ===== src/Examples/Clients.antt =====
-- The theorems on the sandbox and on the web client at concrete inputs.
use distributed_code_executi.Common.{
  ℕ, ◌≡◌, ◌≤◌, ◌++◌, ◌&&◌, ◌||◌, not, refl, true, false, Option, none, some, List, [], ◌∷◌, Text,
  codes, take, text_eq, length, arith,
}
use distributed_code_executi.Contracts.{
  SubmissionStatus, is_terminal_status, python, StreamChunk, stdout, stderr,
}
use distributed_code_executi.Worker.Verdict.{SandboxResult}
use distributed_code_executi.Worker.Chunks.{chunks, shrink, too_long, split_for_stream}
use distributed_code_executi.Worker.Termination.{chunks_terminate}
use distributed_code_executi.Worker.Output.{
  Stream, out, collect, nothing_collected, handle_output, append_within_cap,
}
use distributed_code_executi.Worker.Sandbox.{
  resolved, launched, RunEvent, output, timeout, process_error, close, flushed, stdin_error,
  on_run_event, on_run_events,
}
use distributed_code_executi.Worker.Settling.{is_settled, settles, launched-settles}
use distributed_code_executi.Worker.Kills.{OomExactly, launched_sound}
use distributed_code_executi.Worker.Ending.{outputs, on_run_events-close}
use distributed_code_executi.Gateway.Routes.{Detail, detail_of}
use distributed_code_executi.Web.{
  of_job, Client, new_client, message, submitted, stream_closed, stream_error, final_reply,
  poll_reply, click, ClientEvent, on_events,
}
use distributed_code_executi.Web.History.{new_entry}
use distributed_code_executi.Web.App.{App, handle_event, display_output}
use distributed_code_executi.Web.Streaming.{
  lines, text_of, frames, published_as, output-on_events, display_output-live,
}
use distributed_code_executi.Web.Polling.{all_of, message-never_polls}
use distributed_code_executi.Web.Entries.{status_in, handle_events, history_outcome}
use distributed_code_executi.Examples.Setting.{row, utf8_length, repeated, execute}
use distributed_code_executi.Worker.{result_row}
use distributed_code_executi.Worker.Verdict.{verdict}

-- The text of a run that reports no memory.
abbrev plain : Text → Option ℕ × Text
plain text = (none, text)

abbrev events : List RunEvent
events =
    output out (codes "hi") 900 ∷ timeout ∷ close (some 137) 5000900 ∷ flushed ∷ process_error ∷ []

launched_sound_example :
    ((is_settled (on_run_events utf8_length take plain events (launched true 0 100)).settled
        && (on_run_events utf8_length take plain events (launched true 0 100)).timer_armed)
      ≡ false)
    × OomExactly
        (on_run_events utf8_length take plain events (launched true 0 100)).settled
        (on_run_events utf8_length take plain events (launched true 0 100)).kills
launched_sound_example = launched_sound utf8_length take plain true 0 100 events refl

launched-settles_example :
    is_settled (on_run_events utf8_length take plain events (launched true 0 100)).settled
    ≡ (not true || settles false events)
launched-settles_example = launched-settles utf8_length take plain true 0 100 events

abbrev quiet_events : List RunEvent
quiet_events = output out (codes "hi") 900 ∷ timeout ∷ []

on_run_events-close_example :
    (r : SandboxResult) × ((on_run_event utf8_length take plain flushed (
        on_run_events utf8_length take plain (stdin_error ∷ timeout ∷ []) (
          on_run_event utf8_length take plain
            (close (some 137) 5000900)
            (on_run_events utf8_length take plain quiet_events (launched true 0 100))))).settled
      ≡ some (resolved r))
    × (r.exit_code ≡ some 137)
    × (r.stdout
        ≡ (collect utf8_length take plain
            (outputs quiet_events)
            nothing_collected).stdout_accumulator)
    × (r.stderr
        ≡ (collect utf8_length take plain
            (outputs quiet_events)
            nothing_collected).stderr_accumulator)
    × (r.output_truncated
        ≡ (collect utf8_length take plain
            (outputs quiet_events)
            nothing_collected).output_truncated)
    × (r.stream_output_limit_exceeded
        ≡ (collect utf8_length take plain
            (outputs quiet_events)
            nothing_collected).stream_output_limit_exceeded)
    × (r.memory_used_bytes
        ≡ (collect utf8_length take plain
            (outputs quiet_events)
            nothing_collected).memory_used_bytes)
on_run_events-close_example =
    on_run_events-close utf8_length take plain 0 100 quiet_events (stdin_error ∷ timeout ∷ [])
      (some 137) 5000900 refl refl

chunks_terminate_example :
    ((r : ℕ) × (shrink utf8_length 40000 (repeated 20000 233) 16384 ≡ some r)
      × ((1 ≤ r) × (r ≤ 16384) × (too_long utf8_length (repeated 20000 233) r ≡ false)))
    × ((cs : List Text) × (chunks utf8_length 40000 (repeated 20000 233) ≡ some cs)
        × (chunks utf8_length (length (repeated 20000 233)) (repeated 20000 233) ≡ some cs)
        × (length cs ≤ length (repeated 20000 233)))
chunks_terminate_example =
    chunks_terminate utf8_length 40000 (repeated 20000 233) 16384 (omega arith) (omega arith)
      (omega arith)

abbrev j2 : Text
j2 = codes "j2"

abbrev chunk : StreamChunk
chunk = record { type = stdout; content = codes "hi"; timestamp = 1 }

abbrev warning : StreamChunk
warning = record { type = stderr; content = codes "no"; timestamp = 2 }

abbrev run_events : List ClientEvent
run_events =
    submitted j2 ∷ stream_error j2 ∷ message j2 (some chunk) ∷ message j2 (some warning) ∷ []

output-on_events_example :
    (on_events run_events new_client).output ≡ new_client.output ++ lines run_events
output-on_events_example = output-on_events run_events new_client refl

abbrev data_events : List (Stream × Text)
data_events = (out, codes "hi") ∷ (Stream.err, codes "no") ∷ []

abbrev good_run : SandboxResult
good_run = record (execute j2 [] python) { stdout = codes "hi"; stderr = codes "no" }

-- What GET /submissions/:id tells of a run that was stored.
abbrev view : Detail
view = detail_of (row SubmissionStatus.completed) (some (result_row j2 good_run (verdict good_run)))

published :
    published_as (chunk ∷ warning ∷ [])
    ≡ (collect utf8_length take plain data_events nothing_collected).published
unfolding collect handle_output append_within_cap split_for_stream
published = refl

whole : (collect utf8_length take plain data_events nothing_collected).output_truncated ≡ false
unfolding collect handle_output append_within_cap split_for_stream
whole = refl

stored_out :
    view.stdout
    ≡ some (collect utf8_length take plain data_events nothing_collected).stdout_accumulator
unfolding collect handle_output append_within_cap split_for_stream
stored_out = refl

stored_err :
    view.stderr
    ≡ some (collect utf8_length take plain data_events nothing_collected).stderr_accumulator
unfolding collect handle_output append_within_cap split_for_stream
stored_err = refl

abbrev live : Client
live = on_events (click ∷ submitted j2 ∷ frames j2 (chunk ∷ warning ∷ [])) new_client

display_output-live_example :
    (text_of stdout (display_output none live) ≡ text_of stdout (display_output (some view) live))
    × (text_of stderr (display_output none live) ≡ text_of stderr (display_output (some view) live))
display_output-live_example =
    display_output-live utf8_length take plain data_events j2 (chunk ∷ warning ∷ []) new_client view
      published whole stored_out stored_err

same : all_of j2 (stream_error j2 ∷ stream_closed j2 ∷ []) ≡ true
unfolding text_eq
same = refl

message-never_polls_example :
    (on_events
      (message j2 (some chunk) ∷ stream_error j2 ∷ stream_closed j2 ∷ [])
      new_client).poll_interval_ref
    ≡ none
message-never_polls_example =
    message-never_polls j2 chunk (stream_error j2 ∷ stream_closed j2 ∷ []) new_client refl same

-- A page on which the job had run.
abbrev page : App
page = record {
  language = python;
  code = codes "print(1)";
  historical_view = none;
  history_error = none;
  entries = new_entry j2 python (codes "t") ∷ [];
  run_language = python;
  submission = record new_client { job_id = some j2; status = of_job SubmissionStatus.completed };
}

is_over : is_terminal_status (some view.status) ≡ true
unfolding is_terminal_status
is_over = refl

abbrev followed : List ClientEvent
followed =
    message (codes "j3") (some chunk) ∷ stream_error (codes "j3") ∷ stream_closed (codes "j3") ∷ []

followed_only : all_of (codes "j3") followed ≡ true
unfolding text_eq
followed_only = refl

-- The page after the submission of a further job and some events of it.
abbrev before : App
before =
    handle_events (codes "t3") followed (handle_event (codes "t2") (submitted (codes "j3")) page)

history_outcome_example :
    (status_in
        (codes "j3")
        (handle_event (codes "t3") (final_reply (codes "j3") (some view)) before).entries
      ≡ some (of_job view.status))
    × (status_in
          (codes "j3")
          (handle_event (codes "t3") (poll_reply (codes "j3") (some view)) before).entries
        ≡ some (of_job view.status))
history_outcome_example =
    history_outcome (codes "j3") (codes "t2") (codes "t3") followed view page followed_only is_over
