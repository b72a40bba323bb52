-- ===== src/Web/Polling.antt =====
-- The timers, the polls and the final reply of apps/web/src/hooks/useSubmission.ts.
use distributed_code_executi.Common.{
  ◌≡◌, refl, ◌∙◌, Bool, true, false, not, ◌&&◌, none, some, List, [], ◌∷◌, ◌++◌, subst, sym, Text,
  text_eq, text_eq_iff, text_eq_refl, arith, if◌then◌else◌,
}
use distributed_code_executi.Contracts.{SubmissionStatus, StreamChunk, is_terminal_status}
use distributed_code_executi.Gateway.Routes.{Detail}
use distributed_code_executi.Web.Handlers.{
  UiStatus, of_job, Client, ClientEvent, click, submitted, submit_failed, message, stream_closed,
  stream_error, fallback_fires, poll_reply, final_reply, on_event, on_events, on_message,
  on_socket_error, on_fallback_timer, start_fallback_poll, is_busy, is_non_terminal, unless_seen,
  show_chunk, shown, line_of, running_if_pending, timer_of, updated,
}

-- The event belongs to the run of the job, and starts none.
abbrev pub is_of : Text → ClientEvent → Bool
is_of id click = false
is_of id (submitted other) = false
is_of id (submit_failed text) = false
is_of id (message other parsed) = text_eq other id
is_of id (stream_closed other) = text_eq other id
is_of id (stream_error other) = text_eq other id
is_of id (fallback_fires other) = text_eq other id
is_of id (poll_reply other reply) = text_eq other id
is_of id (final_reply other reply) = text_eq other id

abbrev pub all_of : Text → List ClientEvent → Bool
all_of id [] = true
all_of id (e ∷ es) = is_of id e && all_of id es

-- A message of the job was seen, and nothing polls.
Streaming : Text → Client → Type 0
Streaming id c = (c.saw_first_message id ≡ true) × (c.poll_interval_ref ≡ none)

pub and_true : {a b : Bool} → (a && b) ≡ true → (a ≡ true) × (b ≡ true)
and_true {a} {b} h = ground arith

unless_seen-Streaming : (id : Text) (c : Client) → Streaming id c → Streaming id (unless_seen id c)
unfolding Streaming start_fallback_poll
unless_seen-Streaming id c h = ground arith

if_Streaming :
    (id : Text) (b : Bool) (x y : Client)
    → Streaming id x
    → Streaming id y
    → Streaming id (if b then x else y)
if_Streaming id true x y p q = p
if_Streaming id false x y p q = q

show_chunk-Streaming :
    (id : Text) (chunk : StreamChunk) (c : Client)
    → Streaming id c
    → Streaming id (show_chunk chunk c)
unfolding Streaming
show_chunk-Streaming id chunk c h =
    if_Streaming id (shown chunk.type)
      (record c { output = c.output ++ line_of chunk ∷ []; status = running_if_pending c.status }) c
      h h

updated_true :
    (other id : Text) (f : Text → Bool) → text_eq other id ≡ true → updated other true f id ≡ true
updated_true other id f h = rw h

same_id : (id : Text) (P : Text → Type 0) (other : Text) → text_eq other id ≡ true → P id → P other
same_id id P other e p = subst P (sym ((text_eq_iff other id).0 e)) p

on_event-Streaming :
    (id : Text) (e : ClientEvent) (c : Client)
    → is_of id e ≡ true
    → Streaming id c
    → Streaming id (on_event e c)
unfolding Streaming on_event on_message on_socket_error on_fallback_timer
on_event-Streaming id click c i h = cc
on_event-Streaming id (submitted other) c i h = cc
on_event-Streaming id (submit_failed text) c i h = cc
on_event-Streaming id (message other none) c i h = h
on_event-Streaming id (message other (some chunk)) c i h =
    show_chunk-Streaming id chunk
      (record c {
        received_any_message = updated other true c.received_any_message;
        saw_first_message = updated other true c.saw_first_message;
        fallback_timer_ref = none;
      })
      (updated_true other id c.saw_first_message i, h.1)
on_event-Streaming id (stream_closed other) c i h = (h.0, refl)
on_event-Streaming id (stream_error other) c i h =
    same_id id (λ o. Streaming id (on_event (stream_error o) c)) other i
      (if_Streaming id (not (c.received_any_message id)) (unless_seen id c) c
        (unless_seen-Streaming id c h) h)
on_event-Streaming id (fallback_fires other) c i h =
    same_id id (λ o. Streaming id (on_event (fallback_fires o) c)) other i
      (if_Streaming id (timer_of c.fallback_timer_ref id) (unless_seen id c) c
        (unless_seen-Streaming id c h) h)
on_event-Streaming id (poll_reply other none) c i h = h
on_event-Streaming id (poll_reply other (some d)) c i h =
    if_Streaming id (is_terminal_status (some d.status))
      (record c {
        fallback_timer_ref = none;
        poll_interval_ref = none;
        result = some d;
        status = of_job d.status;
      })
      (record c { status = of_job d.status }) (h.0, refl) h
on_event-Streaming id (final_reply other none) c i h = h
on_event-Streaming id (final_reply other (some d)) c i h = h

on_events-Streaming :
    (id : Text) (es : List ClientEvent) (c : Client)
    → all_of id es ≡ true
    → Streaming id c
    → Streaming id (on_events es c)
on_events-Streaming id [] c a h = h
on_events-Streaming id (e ∷ es) c a h =
    on_events-Streaming id es (on_event e c) (and_true a).1
      (on_event-Streaming id e c (and_true a).0 h)

message-Streaming :
    (id : Text) (chunk : StreamChunk) (c : Client)
    → c.poll_interval_ref ≡ none
    → Streaming id (on_event (message id (some chunk)) c)
unfolding Streaming on_event on_message
message-Streaming id chunk c h =
    show_chunk-Streaming id chunk
      (record c {
        received_any_message = updated id true c.received_any_message;
        saw_first_message = updated id true c.saw_first_message;
        fallback_timer_ref = none;
      })
      (updated_true id id c.saw_first_message (text_eq_refl id), h)

-- Once a message of the stream of a job has come before the client polls for the job, it never polls
-- for it, whatever messages, errors, timers and replies of the job follow.
pub message-never_polls :
    (id : Text) (chunk : StreamChunk) (es : List ClientEvent) (c : Client)
    → c.poll_interval_ref ≡ none
    → all_of id es ≡ true
    → (on_events (message id (some chunk) ∷ es) c).poll_interval_ref ≡ none
unfolding Streaming
message-never_polls id chunk es c h a =
    (on_events-Streaming id es (on_event (message id (some chunk)) c) a
      (message-Streaming id chunk c h)).1

-- The badge of the status is marked as in progress just when the client is busy.
pub is_non_terminal_lem : (s : UiStatus) → is_non_terminal s ≡ is_busy s
unfolding is_non_terminal is_busy is_terminal_status
is_non_terminal_lem UiStatus.idle = refl
is_non_terminal_lem UiStatus.submitting = refl
is_non_terminal_lem UiStatus.submit_error = refl
is_non_terminal_lem (of_job SubmissionStatus.pending) = refl
is_non_terminal_lem (of_job SubmissionStatus.running) = refl
is_non_terminal_lem (of_job SubmissionStatus.completed) = refl
is_non_terminal_lem (of_job SubmissionStatus.failed) = refl
is_non_terminal_lem (of_job SubmissionStatus.timeout) = refl

not_terminal :
    (s : SubmissionStatus) → is_terminal_status (some s) ≡ false → is_non_terminal (of_job s) ≡ true
unfolding is_non_terminal
not_terminal s h = rw h

-- When the reply to a poll comes after the final reply and tells a status that is not terminal, the
-- client is busy again although the job is over, and no timer and no poll is left to end that.
pub late_reply_lem :
    (id : Text) (final late : Detail) (c : Client)
    → is_terminal_status (some late.status) ≡ false
    → let after =
        on_events
          (stream_closed id ∷ final_reply id (some final) ∷ poll_reply id (some late) ∷ [])
          c in
      (is_busy after.status ≡ true)
      × (after.poll_interval_ref ≡ none)
      × (after.fallback_timer_ref ≡ none)
unfolding on_event
late_reply_lem id final late c h =
    rw h (sym (is_non_terminal_lem (of_job late.status)) ∙ not_terminal late.status h, refl, refl)
