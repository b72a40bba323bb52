-- ===== src/Scripts/RunFile.antt =====
-- run-file.js: the language of a file, and what the script does with the reply of the gateway and the
-- events of its WebSocket. The banners on the console are left out.
use distributed_code_executi.Common.{
  ℕ, ◌||◌, not, Option, none, some, List, [], ◌∷◌, ◌++◌, Text, codes, text_eq, ◌==◌, if◌then◌else◌,
}
use distributed_code_executi.Contracts.{
  ChunkType, stdout, stderr, system, StreamChunk, Language, python, javascript,
}

-- The extension, in lower case; with `none` the script exits with 1.
unfoldable pub language_of : Text → Option Language
language_of ext =
    if text_eq ext (codes ".py")
    then some python
    else if text_eq ext (codes ".js")
    then some javascript
    else none

-- What the script meets after it has sent its request: the whole reply with its code and, if it is
-- JSON, its `jobId`; an error of the request; and of the WebSocket a frame (`none` is no JSON), its
-- end, or an error.
pub data ScriptEvent : Type 0 where
  response : ℕ → Option Text → ScriptEvent
  request_error : ScriptEvent
  message : Option StreamChunk → ScriptEvent
  closed : ScriptEvent
  socket_error : ScriptEvent

pub record Script : Type 0 where
  -- the job whose stream is open
  pub stream : Option Text
  -- what was written by process.stdout and process.stderr
  pub written : List (ChunkType × Text)
  -- the exit code, once the process is over
  pub exit : Option ℕ

unfoldable pub script_start : Script
script_start = record { stream = none; written = []; exit = none }

abbrev pub exit_with : ℕ → Script → Script
exit_with code s = record s { exit = some code }

abbrev pub write : ChunkType → Text → Script → Script
write stdout text s = record s { written = s.written ++ (stdout, text) ∷ [] }
write stderr text s = record s { written = s.written ++ (stderr, text) ∷ [] }
write system text s = s

abbrev pub on_response : ℕ → Option Text → Script → Script
on_response code none s = exit_with 1 s
on_response code (some job_id) s =
    if not (code == 200 || code == 201) then exit_with 1 s else record s { stream = some job_id }

-- A frame that is no JSON throws in the handler, and ends the process.
abbrev pub on_frame : Option StreamChunk → Script → Script
on_frame none s = exit_with 1 s
on_frame (some chunk) s = write chunk.type chunk.content s

-- The handlers; those of the WebSocket are there once it is open.
abbrev pub on_socket : Option Text → ScriptEvent → Script → Script
on_socket none (response code job) s = on_response code job s
on_socket none request_error s = exit_with 1 s
on_socket none e s = s
on_socket (some job_id) (message chunk) s = on_frame chunk s
on_socket (some job_id) closed s = exit_with 0 s
on_socket (some job_id) socket_error s = exit_with 1 s
on_socket (some job_id) e s = s

abbrev pub unless_over : Option ℕ → ScriptEvent → Script → Script
unless_over none e s = on_socket s.stream e s
unless_over (some code) e s = s

unfoldable pub on_script_event : ScriptEvent → Script → Script
on_script_event e s = unless_over s.exit e s

unfoldable pub on_script_events : List ScriptEvent → Script → Script
on_script_events [] s = s
on_script_events (e ∷ es) s = on_script_events es (on_script_event e s)
