-- ===== src/Web/Handlers.antt =====
-- The hook of apps/web/src/hooks/useSubmission.ts, with the stream of apps/web/src/api/stream.ts, as
-- the handlers of the events that reach it: clicks, replies of the gateway, frames of a WebSocket and
-- timers, in the order in which they come.
use distributed_code_executi.Common.{
  Bool, true, false, not, Option, none, some, List, [], ◌∷◌, ◌++◌, Text, codes, text_eq,
  if◌then◌else◌,
}
use distributed_code_executi.Contracts.{
  SubmissionStatus, StreamChunk, ChunkType, stdout, stderr, system, is_terminal_status,
}
use distributed_code_executi.Gateway.Routes.{Detail}

pub data UiStatus : Type 0 where
  idle submitting submit_error : UiStatus
  of_job : SubmissionStatus → UiStatus

pub record OutputLine : Type 0 where
  pub type : ChunkType
  pub content : Text

-- The state of the hook, its refs, and the variables of the runs and of their streams, by job.
pub record Client : Type 0 where
  pub status : UiStatus
  pub job_id : Option Text
  pub output : List OutputLine
  pub result : Option Detail
  pub submit_message : Option Text
  -- the job whose socket the function closes
  pub close_stream_ref : Option Text
  pub fallback_timer_ref : Option Text
  pub poll_interval_ref : Option Text
  pub saw_first_message : Text → Bool
  pub received_any_message : Text → Bool

abbrev pub new_client : Client
new_client = record {
  status = UiStatus.idle;
  job_id = none;
  output = [];
  result = none;
  submit_message = none;
  close_stream_ref = none;
  fallback_timer_ref = none;
  poll_interval_ref = none;
  saw_first_message = λ _. false;
  received_any_message = λ _. false;
}

abbrev pub clear_timers : Client → Client
clear_timers c = record c { fallback_timer_ref = none; poll_interval_ref = none }

-- The reply of `finalize`, or its failure.
abbrev pub finalized : Option Detail → Client → Client
finalized none c = record c { status = of_job SubmissionStatus.failed }
finalized (some detail) c = record c { result = some detail; status = of_job detail.status }

abbrev pub poll_if : Option Text → Text → Client → Client
poll_if (some polling) id c = c
poll_if none id c = record c { poll_interval_ref = some id }

unfoldable pub start_fallback_poll : Text → Client → Client
start_fallback_poll id c = poll_if c.poll_interval_ref id c

-- The reply to a poll. A failure changes nothing.
abbrev pub polled : Option Detail → Client → Client
polled none c = c
polled (some detail) c =
    if is_terminal_status (some detail.status)
    then record (clear_timers c) { result = some detail; status = of_job detail.status }
    else record c { status = of_job detail.status }

-- `run`, until the reply of the gateway. The socket that is closed reports so later.
unfoldable pub run_clicked : Client → Client
run_clicked c = record (clear_timers c) {
  status = UiStatus.submitting;
  output = [];
  result = none;
  submit_message = none;
}

abbrev pub run_failed : Text → Client → Client
run_failed message c = record c { status = UiStatus.submit_error; submit_message = some message }

abbrev pub updated : Text → Bool → (Text → Bool) → Text → Bool
updated id value f other = if text_eq id other then value else f other

-- The rest of `run`.
unfoldable pub run_submitted : Text → Client → Client
run_submitted new_job_id c = record c {
  job_id = some new_job_id;
  status = of_job SubmissionStatus.pending;
  saw_first_message = updated new_job_id false c.saw_first_message;
  received_any_message = updated new_job_id false c.received_any_message;
  fallback_timer_ref = some new_job_id;
  close_stream_ref = some new_job_id;
}

abbrev pub shown : ChunkType → Bool
shown stdout = true
shown stderr = true
shown system = false

abbrev pub running_if_pending : UiStatus → UiStatus
running_if_pending (of_job SubmissionStatus.pending) = of_job SubmissionStatus.running
running_if_pending s = s

abbrev pub line_of : StreamChunk → OutputLine
line_of chunk = record { type = chunk.type; content = chunk.content }

abbrev pub show_chunk : StreamChunk → Client → Client
show_chunk chunk c =
    if shown chunk.type
    then record c { output = c.output ++ line_of chunk ∷ []; status = running_if_pending c.status }
    else c

-- A frame that does not parse changes nothing here.
abbrev pub on_chunk : Text → Option StreamChunk → Client → Client
on_chunk id none c = c
on_chunk id (some chunk) c = show_chunk chunk (record c {
  saw_first_message = updated id true c.saw_first_message;
  fallback_timer_ref = none;
})

unfoldable pub on_message : Text → Option StreamChunk → Client → Client
on_message id parsed c =
    on_chunk id parsed (record c { received_any_message = updated id true c.received_any_message })

abbrev pub unless_seen : Text → Client → Client
unless_seen id c = if not (c.saw_first_message id) then start_fallback_poll id c else c

-- `error` of the socket, and `onUnavailable`
unfoldable pub on_socket_error : Text → Client → Client
on_socket_error id c = if not (c.received_any_message id) then unless_seen id c else c

-- The fallback timer, unless it was cleared.
abbrev pub timer_of : Option Text → Text → Bool
timer_of none id = false
timer_of (some other) id = text_eq other id

unfoldable pub on_fallback_timer : Text → Client → Client
on_fallback_timer id c = if timer_of c.fallback_timer_ref id then unless_seen id c else c

pub data ClientEvent : Type 0 where
  click : ClientEvent
  submitted : Text → ClientEvent
  submit_failed : Text → ClientEvent
  -- a frame of the stream of a job, parsed
  message : Text → Option StreamChunk → ClientEvent
  stream_closed stream_error fallback_fires : Text → ClientEvent
  -- the replies of getSubmission to a poll and to `finalize`
  poll_reply final_reply : Text → Option Detail → ClientEvent

unfoldable pub on_event : ClientEvent → Client → Client
on_event click c = run_clicked c
on_event (submitted id) c = run_submitted id c
on_event (submit_failed text) c = run_failed text c
on_event (message id parsed) c = on_message id parsed c
on_event (stream_closed id) c = clear_timers c
on_event (stream_error id) c = on_socket_error id c
on_event (fallback_fires id) c = on_fallback_timer id c
on_event (poll_reply id reply) c = polled reply c
on_event (final_reply id reply) c = finalized reply c

abbrev pub on_events : List ClientEvent → Client → Client
on_events [] c = c
on_events (e ∷ es) c = on_events es (on_event e c)

unfoldable pub is_busy : UiStatus → Bool
is_busy UiStatus.submitting = true
is_busy (of_job SubmissionStatus.pending) = true
is_busy (of_job SubmissionStatus.running) = true
is_busy s = false

-- `isNonTerminal` of the badge of the status
unfoldable pub is_non_terminal : UiStatus → Bool
is_non_terminal UiStatus.idle = false
is_non_terminal UiStatus.submitting = true
is_non_terminal UiStatus.submit_error = false
is_non_terminal (of_job s) = not (is_terminal_status (some s))

-- What an error reply of the gateway holds, when it is JSON.
pub record ErrorBody : Type 0 where
  pub message : Option Text
  pub error : Option Text

abbrev pub or_text : Option Text → Text → Text
or_text none fallback = fallback
or_text (some []) fallback = fallback
or_text (some (c ∷ cs)) fallback = c ∷ cs

-- The number of the status is given as text.
unfoldable pub parse_error_message : Text → Option ErrorBody → Text
parse_error_message status none = codes "Request failed with status " ++ status
parse_error_message status (some body) =
    or_text body.message (or_text body.error (codes "Request failed with status " ++ status))
