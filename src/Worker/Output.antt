-- ===== src/Worker/Output.antt =====
-- How services/execution-worker/src/sandbox.ts collects the output of a run: handleOutput and
-- appendWithinCap, on data that is decoded. The bytes of a string in UTF-8, the text of the first
-- bytes of a string, and the regular expression for the memory peak are parameters.
use distributed_code_executi.Common.{
  ℕ, ◌+◌, ◌-◌, Bool, true, false, ◌||◌, not, Option, none, some, List, [], ◌∷◌, ◌++◌, Text, codes,
  ltb, leb, if◌then◌else◌,
}
use distributed_code_executi.Contracts.{
  ChunkType, stdout, stderr, system, max_result_output_bytes, max_stream_output_bytes,
}
use distributed_code_executi.Worker.Chunks.{split_for_stream}

-- The variables of runInSandbox that the handlers of the two streams share.
pub record Collected : Type 0 where
  pub stdout_accumulator : Text
  pub stderr_accumulator : Text
  pub total_stream_bytes : ℕ
  pub output_truncated : Bool
  pub stream_output_limit_exceeded : Bool
  pub memory_used_bytes : Option ℕ
  -- the chunks in the order in which they are published
  pub published : List (ChunkType × Text)
  pub killed : Bool

abbrev pub nothing_collected : Collected
nothing_collected = record {
  stdout_accumulator = [];
  stderr_accumulator = [];
  total_stream_bytes = 0;
  output_truncated = false;
  stream_output_limit_exceeded = false;
  memory_used_bytes = none;
  published = [];
  killed = false;
}

pub data Stream : Type 0 where
  out err : Stream

abbrev pub chunk_type : Stream → ChunkType
chunk_type out = stdout
chunk_type err = stderr

abbrev pub tagged : ChunkType → List Text → List (ChunkType × Text)
tagged t [] = []
tagged t (c ∷ cs) = (t, c) ∷ tagged t cs

abbrev pub accumulator : Stream → Collected → Text
accumulator out st = st.stdout_accumulator
accumulator err st = st.stderr_accumulator

abbrev pub with_accumulator : Stream → Text → Collected → Collected
with_accumulator out text st = record st { stdout_accumulator = text }
with_accumulator err text st = record st { stderr_accumulator = text }

abbrev pub is_empty : Text → Bool
is_empty [] = true
is_empty (c ∷ cs) = false

-- The new peak, where there is one.
abbrev pub peak : Option ℕ → Option ℕ → Option ℕ
peak none old = old
peak (some n) old = some n

module _ (byte_length : Text → ℕ) (first_bytes : ℕ → Text → Text)
    (memory_peak : Text → Option ℕ × Text) where
  unfoldable pub append_within_cap : Text → Text → Text × Bool
  append_within_cap current next =
      if leb max_result_output_bytes (byte_length current)
      then (current, not (is_empty next))
      else if leb (byte_length next) (max_result_output_bytes - byte_length current)
      then (current ++ next, false)
      else (current ++ first_bytes (max_result_output_bytes - byte_length current) next, true)

  abbrev pub append_to : Stream → Text × Bool → Collected → Collected
  append_to stream (value, truncated) st =
      with_accumulator stream value
        (record st { output_truncated = truncated || st.output_truncated })

  abbrev pub over_limit : Collected → Collected
  over_limit st = record st {
    stream_output_limit_exceeded = true;
    published =
        st.published
        ++ (
          system,
          codes "OUTPUT_LIMIT_EXCEEDED: container killed after exceeding 1 MB stream output cap",
        )
          ∷ [];
    killed = true;
  }

  -- A text that is within the limit.
  abbrev pub accept : Stream → Text → Collected → Collected
  accept stream text st =
      append_to stream (append_within_cap (accumulator stream st) text) (record st {
        total_stream_bytes = st.total_stream_bytes + byte_length text;
        published = st.published ++ tagged (chunk_type stream) (split_for_stream byte_length text);
      })

  -- After the memory peak is taken out.
  abbrev pub take_in : Stream → Text → Collected → Collected
  take_in stream text st =
      if is_empty text
      then st
      else if ltb max_stream_output_bytes (st.total_stream_bytes + byte_length text)
      then over_limit st
      else accept stream text st

  unfoldable pub handle_output : Stream → Text → Collected → Collected
  handle_output stream data_text st =
      if st.stream_output_limit_exceeded
      then st
      else take_in stream (memory_peak data_text).1
          (record st { memory_used_bytes = peak (memory_peak data_text).0 st.memory_used_bytes })

  -- The data events of a run.
  unfoldable pub collect : List (Stream × Text) → Collected → Collected
  collect [] st = st
  collect ((stream, text) ∷ events) st = collect events (handle_output stream text st)
