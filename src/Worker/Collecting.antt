-- ===== src/Worker/Collecting.antt =====
-- What is stored of the output of a run, against what was published of it.
use distributed_code_executi.Common.{
  ℕ, ◌+◌, ◌-◌, ◌≤◌, ◌≡◌, refl, sym, ap, ◌∙◌, Bool, true, false, ◌||◌, not, Option, List, [], ◌∷◌,
  ◌++◌, Text, ltb, leb, if◌then◌else◌, arith, Bool-cases, or_false, inl, inr,
}
use mathlib.Core.List.{append-nil, append_assoc}
use distributed_code_executi.Contracts.{
  ChunkType, stdout, stderr, system, max_result_output_bytes, max_stream_output_bytes,
}
use distributed_code_executi.Worker.Chunks.{split_for_stream, joined, joined-split_for_stream}
use distributed_code_executi.Worker.Output.{
  Collected, nothing_collected, Stream, out, err, tagged, is_empty, peak, append_within_cap,
  over_limit, accept, take_in, handle_output, collect,
}

abbrev same_type : ChunkType → ChunkType → Bool
same_type stdout stdout = true
same_type stderr stderr = true
same_type system system = true
same_type _ _ = false

-- What was published of a type, joined.
abbrev pub streamed : ChunkType → List (ChunkType × Text) → Text
streamed t [] = []
streamed t ((u, c) ∷ cs) = if same_type t u then c ++ streamed t cs else streamed t cs

streamed-append :
    (t : ChunkType) (xs ys : List (ChunkType × Text))
    → streamed t (xs ++ ys) ≡ streamed t xs ++ streamed t ys
streamed-append t [] ys = refl
streamed-append t ((u, c) ∷ xs) ys = elim (Bool-cases (same_type t u)) [
  | inl e ↦ rw e (
      ap (λ l. c ++ l) (streamed-append t xs ys)
      ∙ sym (append_assoc c (streamed t xs) (streamed t ys)))
  | inr e ↦ rw e (streamed-append t xs ys)
]

streamed_same :
    (t : ChunkType) (cs : List Text) → same_type t t ≡ true → streamed t (tagged t cs) ≡ joined cs
streamed_same t [] h = refl
streamed_same t (c ∷ cs) h = rw h (ap (λ l. c ++ l) (streamed_same t cs h))

streamed_other :
    (t u : ChunkType) (cs : List Text) → same_type t u ≡ false → streamed t (tagged u cs) ≡ []
streamed_other t u [] h = refl
streamed_other t u (c ∷ cs) h = rw h (streamed_other t u cs h)

module _ (byte_length : Text → ℕ) (first_bytes : ℕ → Text → Text)
    (memory_peak : Text → Option ℕ × Text) where
  -- What holds between two events.
  abbrev Sound : Collected → Type 0
  Sound st =
      (st.total_stream_bytes ≤ max_stream_output_bytes)
      × (st.output_truncated ≡ false → st.stdout_accumulator ≡ streamed stdout st.published)
      × (st.output_truncated ≡ false → st.stderr_accumulator ≡ streamed stderr st.published)

  append_lem :
      (current next : Text)
      → (append_within_cap byte_length first_bytes memory_peak current next).1 ≡ false
      → (append_within_cap byte_length first_bytes memory_peak current next).0 ≡ current ++ next
  unfolding append_within_cap
  append_lem current next h =
      elim (Bool-cases (leb max_result_output_bytes (byte_length current))) [
        | inl e ↦ rw e (sym (append-nil current) ∙ ap (λ l. current ++ l) (empty next (rw e at h)))
        | inr e ↦
            elim (Bool-cases
              (leb (byte_length next) (max_result_output_bytes - byte_length current))) [
                | inl o ↦ rw (e, o)
                | inr o ↦ cc (rw (e, o) at h)
              ]
      ]
    where
      empty : (t : Text) → not (is_empty t) ≡ false → [] ≡ t
      empty [] q = refl
      empty (c ∷ cs) q = cc (q)

  -- What a stream has published after an event of its own, and after one of the other.
  own :
      (t : ChunkType) (text : Text) (ps : List (ChunkType × Text))
      → same_type t t ≡ true
      → streamed t (ps ++ tagged t (split_for_stream byte_length text)) ≡ streamed t ps ++ text
  own t text ps h =
      streamed-append t ps (tagged t (split_for_stream byte_length text))
      ∙ ap (λ l. streamed t ps ++ l)
          (streamed_same t (split_for_stream byte_length text) h
            ∙ joined-split_for_stream byte_length text)

  foreign :
      (t u : ChunkType) (cs : List Text) (ps : List (ChunkType × Text))
      → same_type t u ≡ false
      → streamed t (ps ++ tagged u cs) ≡ streamed t ps
  foreign t u cs ps h =
      streamed-append t ps (tagged u cs)
      ∙ ap (λ l. streamed t ps ++ l) (streamed_other t u cs h)
      ∙ append-nil (streamed t ps)

  appended :
      (t : ChunkType) (current text : Text) (old : Bool) (ps : List (ChunkType × Text))
      → same_type t t ≡ true
      → (old ≡ false → current ≡ streamed t ps)
      → ((append_within_cap byte_length first_bytes memory_peak current text).1 || old) ≡ false
      → (append_within_cap byte_length first_bytes memory_peak current text).0
        ≡ streamed t (ps ++ tagged t (split_for_stream byte_length text))
  appended t current text old ps s h e =
      append_lem current text (or_false e).0
      ∙ ap (λ l. l ++ text) (h (or_false e).1)
      ∙ sym (own t text ps s)

  accept-Sound :
      (stream : Stream) (text : Text) (st : Collected)
      → st.total_stream_bytes + byte_length text ≤ max_stream_output_bytes
      → Sound st
      → Sound (accept byte_length first_bytes memory_peak stream text st)
  accept-Sound out text st b h = (
    b,
    appended stdout st.stdout_accumulator text st.output_truncated st.published refl h.1,
    λ e.
        h.2 (or_false e).1
        ∙ sym (foreign stderr stdout (split_for_stream byte_length text) st.published refl),
  )
  accept-Sound err text st b h = (
    b,
    (λ e.
        h.1 (or_false e).1
        ∙ sym (foreign stdout stderr (split_for_stream byte_length text) st.published refl)),
    appended stderr st.stderr_accumulator text st.output_truncated st.published refl h.2,
  )

  over_limit-Sound :
      (st : Collected) → Sound st → Sound (over_limit byte_length first_bytes memory_peak st)
  over_limit-Sound st h = (
    h.0,
    (λ e. h.1 e ∙ sym (foreign stdout system (_ ∷ []) st.published refl)),
    (λ e. h.2 e ∙ sym (foreign stderr system (_ ∷ []) st.published refl)),
  )

  take_in-Sound :
      (stream : Stream) (text : Text) (st : Collected)
      → Sound st
      → Sound (take_in byte_length first_bytes memory_peak stream text st)
  take_in-Sound stream text st h = elim (Bool-cases (is_empty text)) [
    | inl e ↦ rw e h
    | inr e ↦
        elim (Bool-cases (ltb max_stream_output_bytes (st.total_stream_bytes + byte_length text))) [
          | inl o ↦ rw (e, o) (over_limit-Sound st h)
          | inr o ↦ rw (e, o) (accept-Sound stream text st (ground arith) h)
        ]
  ]

  handle_output-Sound :
      (stream : Stream) (text : Text) (st : Collected)
      → Sound st
      → Sound (handle_output byte_length first_bytes memory_peak stream text st)
  unfolding handle_output
  handle_output-Sound stream text st h = either st.stream_output_limit_exceeded st _ h (
      take_in-Sound stream (memory_peak text).1
        (record st { memory_used_bytes = peak (memory_peak text).0 st.memory_used_bytes }) h)
    where
      either : (b : Bool) (x y : Collected) → Sound x → Sound y → Sound (if b then x else y)
      either true x y hx hy = hx
      either false x y hx hy = hy

  collect-Sound :
      (events : List (Stream × Text)) (st : Collected)
      → Sound st
      → Sound (collect byte_length first_bytes memory_peak events st)
  unfolding collect
  collect-Sound [] st h = h
  collect-Sound ((stream, text) ∷ events) st h =
      collect-Sound events (handle_output byte_length first_bytes memory_peak stream text st)
        (handle_output-Sound stream text st h)

  collected :
      (events : List (Stream × Text))
      → Sound (collect byte_length first_bytes memory_peak events nothing_collected)
  collected events = collect-Sound events nothing_collected (omega arith, (λ _. refl), λ _. refl)

  -- After any data events of a run, the bytes that were counted as streamed are within the limit of
  -- the stream.
  pub collect-within :
      (events : List (Stream × Text))
      → (collect byte_length first_bytes memory_peak events nothing_collected).total_stream_bytes
        ≤ max_stream_output_bytes
  collect-within events = (collected events).0

  -- After any data events of a run, unless the output is marked as truncated, the output that is
  -- stored for each stream is what was published of it, joined.
  pub collect-streamed :
      (events : List (Stream × Text))
      → (collect byte_length first_bytes memory_peak events nothing_collected).output_truncated
        ≡ false
      → ((collect byte_length first_bytes memory_peak events nothing_collected).stdout_accumulator
          ≡ streamed stdout
              (collect byte_length first_bytes memory_peak events nothing_collected).published)
        × ((collect byte_length first_bytes memory_peak events nothing_collected).stderr_accumulator
            ≡ streamed stderr
                (collect byte_length first_bytes memory_peak events nothing_collected).published)
  collect-streamed events whole = ((collected events).1 whole, (collected events).2 whole)
