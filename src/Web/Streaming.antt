-- ===== src/Web/Streaming.antt =====
-- What the client shows of a running job: apps/web/src/hooks/useSubmission.ts and
-- apps/web/src/api/stream.ts.
use mathlib.Core.List.{append_assoc, append-nil}
use distributed_code_executi.Common.{
  ℕ, ◌≡◌, refl, sym, ap, ◌∙◌, Bool, true, false, ◌||◌, Option, none, some, List, [], ◌∷◌, ◌++◌,
  Text, arith, if◌then◌else◌, or_false,
}
use distributed_code_executi.Contracts.{StreamChunk, ChunkType, stdout, stderr, system}
use distributed_code_executi.Gateway.Routes.{Detail}
use distributed_code_executi.Worker.Output.{Stream, collect, nothing_collected}
use distributed_code_executi.Worker.Collecting.{streamed, collect-streamed}
use distributed_code_executi.Web.Handlers.{
  OutputLine, Client, ClientEvent, click, submitted, submit_failed, message, stream_closed,
  stream_error, fallback_fires, poll_reply, final_reply, shown, line_of, on_event, on_events,
  on_message, on_socket_error, on_fallback_timer, start_fallback_poll, run_clicked, run_submitted,
  unless_seen, polled,
}
use distributed_code_executi.Web.App.{display_output, stdout_line, stderr_line}

-- What the events of a run show.
abbrev pub lines_of_chunk : Option StreamChunk → List OutputLine
lines_of_chunk none = []
lines_of_chunk (some chunk) = if shown chunk.type then line_of chunk ∷ [] else []

abbrev pub lines_of : ClientEvent → List OutputLine
lines_of (message id parsed) = lines_of_chunk parsed
lines_of e = []

abbrev pub lines : List ClientEvent → List OutputLine
lines [] = []
lines (e ∷ es) = lines_of e ++ lines es

abbrev pub is_click : ClientEvent → Bool
is_click click = true
is_click e = false

abbrev pub has_click : List ClientEvent → Bool
has_click [] = false
has_click (e ∷ es) = is_click e || has_click es

output-polled : (o : Option Detail) (c : Client) → (polled o c).output ≡ c.output
output-polled none c = refl
output-polled (some d) c = ground arith

output-unless_seen : (id : Text) (c : Client) → (unless_seen id c).output ≡ c.output
unfolding start_fallback_poll
output-unless_seen id c = ground arith

output-on_event :
    (e : ClientEvent) (c : Client)
    → is_click e ≡ false
    → (on_event e c).output ≡ c.output ++ lines_of e
unfolding on_event run_submitted on_message on_socket_error on_fallback_timer
output-on_event click c h = cc
output-on_event (submitted id) c h = sym (append-nil c.output)
output-on_event (submit_failed text) c h = sym (append-nil c.output)
output-on_event (message id none) c h = sym (append-nil c.output)
output-on_event (message id (some chunk)) c h = ground (arith, append-nil c.output)
output-on_event (stream_closed id) c h = sym (append-nil c.output)
output-on_event (stream_error id) c h = ground (arith, output-unless_seen id c, append-nil c.output)
output-on_event (fallback_fires id) c h =
    ground (arith, output-unless_seen id c, append-nil c.output)
output-on_event (poll_reply id o) c h = output-polled o c ∙ sym (append-nil c.output)
output-on_event (final_reply id none) c h = sym (append-nil c.output)
output-on_event (final_reply id (some d)) c h = sym (append-nil c.output)

-- Until the next click, the output that is shown grows by the chunks of the standard output and of
-- the standard error that arrive, in their order, and by nothing else, whatever timers, polls and
-- errors come between them.
pub output-on_events :
    (es : List ClientEvent) (c : Client)
    → has_click es ≡ false
    → (on_events es c).output ≡ c.output ++ lines es
output-on_events [] c h = sym (append-nil c.output)
output-on_events (e ∷ es) c h =
    output-on_events es (on_event e c) (or_false h).1
    ∙ ap (λ l. l ++ lines es) (output-on_event e c (or_false h).0)
    ∙ append_assoc c.output (lines_of e) (lines es)

-- Lines as what was published of them.
abbrev pub entries_of : List OutputLine → List (ChunkType × Text)
entries_of [] = []
entries_of (line ∷ ls) = (line.type, line.content) ∷ entries_of ls

-- The text of the lines of a type.
abbrev pub text_of : ChunkType → List OutputLine → Text
text_of t ls = streamed t (entries_of ls)

abbrev pub published_as : List StreamChunk → List (ChunkType × Text)
published_as [] = []
published_as (c ∷ cs) = (c.type, c.content) ∷ published_as cs

-- The frames of a stream that sends every chunk.
abbrev pub frames : Text → List StreamChunk → List ClientEvent
frames id [] = []
frames id (c ∷ cs) = message id (some c) ∷ frames id cs

no_click : (id : Text) (cs : List StreamChunk) → has_click (frames id cs) ≡ false
no_click id [] = refl
no_click id (c ∷ cs) = no_click id cs

one_line :
    (t u : ChunkType) (x : Text) (ls : List OutputLine) (rest : List (ChunkType × Text))
    → shown t ≡ true
    → text_of t ls ≡ streamed t rest
    → text_of t ((if shown u then record { type = u; content = x } ∷ [] else []) ++ ls)
      ≡ streamed t ((u, x) ∷ rest)
one_line stdout stdout x ls rest h e = ap (λ l. x ++ l) e
one_line stdout stderr x ls rest h e = e
one_line stdout system x ls rest h e = e
one_line stderr stdout x ls rest h e = e
one_line stderr stderr x ls rest h e = ap (λ l. x ++ l) e
one_line stderr system x ls rest h e = e
one_line system u x ls rest h e = cc

text_of-frames :
    (t : ChunkType) (id : Text) (cs : List StreamChunk)
    → shown t ≡ true
    → text_of t (lines (frames id cs)) ≡ streamed t (published_as cs)
text_of-frames t id [] h = refl
text_of-frames t id (c ∷ cs) h =
    one_line t c.type c.content (lines (frames id cs)) (published_as cs) h
      (text_of-frames t id cs h)

out_text : (o : Text) (e : Text) → text_of stdout (stdout_line (some o) ++ stderr_line (some e)) ≡ o
out_text [] [] = refl
out_text [] (y ∷ ys) = refl
out_text (x ∷ xs) [] = append-nil (x ∷ xs)
out_text (x ∷ xs) (y ∷ ys) = append-nil (x ∷ xs)

err_text : (o : Text) (e : Text) → text_of stderr (stdout_line (some o) ++ stderr_line (some e)) ≡ e
err_text [] [] = refl
err_text [] (y ∷ ys) = append-nil (y ∷ ys)
err_text (x ∷ xs) [] = refl
err_text (x ∷ xs) (y ∷ ys) = append-nil (y ∷ ys)

started : Text → Client → Client
started id c = on_event (submitted id) (on_event click c)

started_output : (id : Text) (c : Client) → (started id c).output ≡ []
unfolding started on_event run_clicked run_submitted
started_output id c = refl

-- If every chunk that a run publishes reaches the client after the job was started there, and the
-- output was not truncated, then the text of each stream that is shown live is the one that is shown
-- when the job is opened from the history later, from the outputs that were stored of the run.
pub display_output-live :
    (byte_length : Text → ℕ) (first_bytes : ℕ → Text → Text) (memory_peak : Text → Option ℕ × Text)
    (data_events : List (Stream × Text)) (id : Text) (cs : List StreamChunk) (c : Client)
    (view : Detail)
    → let run = collect byte_length first_bytes memory_peak data_events nothing_collected in
      published_as cs ≡ run.published
      → run.output_truncated ≡ false
      → view.stdout ≡ some run.stdout_accumulator
      → view.stderr ≡ some run.stderr_accumulator
      → let live = on_events (click ∷ submitted id ∷ frames id cs) c in
        (text_of stdout (display_output none live)
          ≡ text_of stdout (display_output (some view) live))
        × (text_of stderr (display_output none live)
            ≡ text_of stderr (display_output (some view) live))
unfolding on_event started
display_output-live byte_length first_bytes memory_peak data_events id cs c view all whole o e =
    let run = collect byte_length first_bytes memory_peak data_events nothing_collected in
    let stored = collect-streamed byte_length first_bytes memory_peak data_events whole in
    let output = output-on_events (frames id cs) (started id c) (no_click id cs) in
    (
      ap (text_of stdout) (output ∙ ap (λ l. l ++ lines (frames id cs)) (started_output id c))
          ∙ text_of-frames stdout id cs refl
          ∙ ap (streamed stdout) all
          ∙ sym stored.0
          ∙ sym (out_text run.stdout_accumulator run.stderr_accumulator)
          ∙ rw (o, e) refl,
      ap (text_of stderr) (output ∙ ap (λ l. l ++ lines (frames id cs)) (started_output id c))
          ∙ text_of-frames stderr id cs refl
          ∙ ap (streamed stderr) all
          ∙ sym stored.1
          ∙ sym (err_text run.stdout_accumulator run.stderr_accumulator)
          ∙ rw (o, e) refl,
    )
