-- ===== src/Scripts/Printing.antt =====
-- What run-file.js prints of a run.
use distributed_code_executi.Common.{none, some, List, [], ◌∷◌, ◌++◌, Text}
use distributed_code_executi.Contracts.{ChunkType, stdout, stderr, system, StreamChunk}
use distributed_code_executi.Scripts.RunFile.{ScriptEvent, message, closed, Script}

-- The frames of a stream that sends every chunk, and its end.
abbrev pub stream_of : List StreamChunk → List ScriptEvent
stream_of [] = closed ∷ []
stream_of (c ∷ cs) = message (some c) ∷ stream_of cs

-- What of a chunk is written.
abbrev kept : ChunkType → Text → List (ChunkType × Text)
kept stdout text = (stdout, text) ∷ []
kept stderr text = (stderr, text) ∷ []
kept system text = []

abbrev all_kept : List StreamChunk → List (ChunkType × Text)
all_kept [] = []
all_kept (c ∷ cs) = kept c.type c.content ++ all_kept cs

-- A script whose stream is open.
abbrev listening : Text → List (ChunkType × Text) → Script
listening job_id written = record { stream = some job_id; written = written; exit = none }
