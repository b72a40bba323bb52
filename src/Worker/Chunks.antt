-- ===== src/Worker/Chunks.antt =====
-- How services/execution-worker/src/sandbox.ts cuts output into stream chunks. The number of bytes
-- of a string in UTF-8 is the parameter `byte_length`.
use distributed_code_executi.Common.{
  ℕ, zero, suc, Option, none, some, subst, sym, ◌*◌, ◌/◌, ◌≤◌, ◌<◌, ◌≡◌, refl, ap, ◌∙◌, Bool, true,
  false, ◌&&◌, List, [], ◌∷◌, ◌++◌, Text, length, take, drop, take-drop, length-take, length-drop,
  ltb, if◌then◌else◌, arith, Bool-cases, inl, inr,
}
use mathlib.Core.List.{append-nil}
use distributed_code_executi.Contracts.{max_stream_chunk_bytes}

abbrev pub joined : List Text → Text
joined [] = []
joined (c ∷ cs) = c ++ joined cs

-- Every member of the list has the property.
abbrev pub Each : (Text → Type 0) → List Text → Type 0
Each p [] = Unit {0}
Each p (c ∷ cs) = p c × Each p cs

-- Math.min
abbrev pub minimum : ℕ → ℕ → ℕ
minimum a b = if ltb b a then b else a

-- A chunk, before those of the rest.
abbrev pub cut_off : Text → Option (List Text) → Option (List Text)
cut_off chunk none = none
cut_off chunk (some rest) = some (chunk ∷ rest)

abbrev pub or_nothing : Option (List Text) → List Text
or_nothing none = []
or_nothing (some cs) = cs

module _ (byte_length : Text → ℕ) where
  abbrev pub too_long : Text → ℕ → Bool
  too_long text end = ltb 1 end && ltb max_stream_chunk_bytes (byte_length (take end text))

  -- The inner loop, with 0.9 taken exactly, in a number of rounds; nothing when these are used up.
  unfoldable pub shrink : ℕ → Text → ℕ → Option ℕ
  shrink zero text end = none
  shrink (suc fuel) text end =
      let shorter = shrink fuel text (end * 9 / 10) in
      if too_long text end then shorter else some end

  unfoldable pub chunk_end : Text → Option ℕ
  chunk_end text = let end = minimum (length text) max_stream_chunk_bytes in shrink end text end

  -- The outer loop, in a number of rounds; nothing when these are used up, or those of an inner loop.
  unfoldable pub chunks : ℕ → Text → Option (List Text)
  chunks fuel [] = some []
  chunks zero (c ∷ cs) = none
  chunks (suc fuel) (c ∷ cs) = elim (chunk_end (c ∷ cs)) [
    | none ↦ none
    | some end ↦ cut_off (take end (c ∷ cs)) (chunks fuel (drop end (c ∷ cs)))
  ]

  unfoldable pub split_for_stream : Text → List Text
  split_for_stream text =
      if ltb max_stream_chunk_bytes (byte_length text)
      then or_nothing (chunks (length text) text)
      else text ∷ []

  -- Where a cut ends up: inside the text, and the test of the inner loop is false there.
  abbrev pub Cut : Text → ℕ → ℕ → Type 0
  Cut text end r = (1 ≤ r) × (r ≤ end) × (too_long text r ≡ false)

  -- The inner loop ends in as many rounds as its first `end`, or more.
  pub shrink-Cut :
      (fuel : ℕ) (text : Text) (end : ℕ)
      → 1 ≤ end
      → end ≤ fuel
      → (r : ℕ) × (shrink fuel text end ≡ some r) × Cut text end r
  unfolding shrink
  shrink-Cut zero text end h k = absurd (omega arith)
  shrink-Cut (suc fuel) text end h k = elim (Bool-cases (too_long text end)) [
    | inl e ↦ rw e (cut (shrink-Cut fuel text (end * 9 / 10) (omega (arith, long e)) (omega arith)))
    | inr e ↦ rw e (end, refl, (h, omega arith, e))
  ]
    where
      long : too_long text end ≡ true → 1 < end
      long e = ground arith

      cut :
          (r : ℕ) × (shrink fuel text (end * 9 / 10) ≡ some r) × Cut text (end * 9 / 10) r
          → (r : ℕ) × (shrink fuel text (end * 9 / 10) ≡ some r) × Cut text end r
      cut (r, same, k) = (r, same, (k.0, omega (arith, k.1), k.2))

  pub chunk_end-Cut :
      (c : ℕ) (cs : Text)
      → (r : ℕ) × (chunk_end (c ∷ cs) ≡ some r) × Cut (c ∷ cs) (length (c ∷ cs)) r
  unfolding chunk_end
  chunk_end-Cut c cs = within (shrink-Cut end (c ∷ cs) end (ground arith) (omega arith))
    where
      end : ℕ
      end = minimum (length (c ∷ cs)) max_stream_chunk_bytes

      end_le : end ≤ length (c ∷ cs)
      end_le = ground arith

      within :
          (r : ℕ) × (shrink end (c ∷ cs) end ≡ some r) × Cut (c ∷ cs) end r
          → (r : ℕ) × (shrink end (c ∷ cs) end ≡ some r) × Cut (c ∷ cs) (length (c ∷ cs)) r
      within (r, same, k) = (r, same, (k.0, omega (arith, k.1, end_le), k.2))

  -- What the pieces of a text are: its first code units up to a cut, and the pieces of the rest.
  pub data Pieces : Text → List Text → Type 0 where
    nothing_left : Pieces [] []
    piece :
        (c : ℕ) (cs : Text) (r : ℕ) (rest : List Text)
        → Cut (c ∷ cs) (length (c ∷ cs)) r
        → Pieces (drop r (c ∷ cs)) rest
        → Pieces (c ∷ cs) (take r (c ∷ cs) ∷ rest)

  pub chunks_step :
      (fuel c : ℕ) (cs : Text) (r : ℕ)
      → chunk_end (c ∷ cs) ≡ some r
      → chunks (suc fuel) (c ∷ cs) ≡ cut_off (take r (c ∷ cs)) (chunks fuel (drop r (c ∷ cs)))
  unfolding chunks
  chunks_step fuel c cs r here = rw (chunks, here) refl

  -- The outer loop ends in as many rounds as the text has code units, or more.
  pub chunks-Pieces :
      (fuel : ℕ) (text : Text)
      → length text ≤ fuel
      → (cs : List Text) × (chunks fuel text ≡ some cs) × Pieces text cs
  unfolding chunks
  chunks-Pieces fuel [] h = ([], refl, nothing_left)
  chunks-Pieces zero (c ∷ cs) h = absurd (omega arith)
  chunks-Pieces (suc fuel) (c ∷ cs) h =
      next (chunk_end-Cut c cs) (λ text k. chunks-Pieces fuel text k)
    where
      next :
          (r : ℕ) × (chunk_end (c ∷ cs) ≡ some r) × Cut (c ∷ cs) (length (c ∷ cs)) r
          → ((text : Text)
              → length text ≤ fuel
              → (ps : List Text) × (chunks fuel text ≡ some ps) × Pieces text ps)
          → (ps : List Text) × (chunks (suc fuel) (c ∷ cs) ≡ some ps) × Pieces (c ∷ cs) ps
      next (r, here, cut) rec =
          let (ps, later, pieces) =
            rec (drop r (c ∷ cs)) (omega (arith, cut.0, length-drop r (c ∷ cs) cut.1)) in
          (
            take r (c ∷ cs) ∷ ps,
            chunks_step fuel c cs r here ∙ ap (cut_off (take r (c ∷ cs))) later,
            piece c cs r ps cut pieces,
          )

  joined-Pieces : (text : Text) (cs : List Text) → Pieces text cs → joined cs ≡ text
  joined-Pieces [] [] nothing_left = refl
  joined-Pieces _ _ (piece c cs r rest cut more) =
      ap (λ l. take r (c ∷ cs) ++ l) (joined-Pieces (drop r (c ∷ cs)) rest more)
      ∙ take-drop r (c ∷ cs)

  -- What splitForStream makes of a text that is over the limit of a chunk.
  split_Pieces :
      (text : Text)
      → (cs : List Text) × (or_nothing (chunks (length text) text) ≡ cs) × Pieces text cs
  split_Pieces text =
      let (cs, same, pieces) = chunks-Pieces (length text) text (omega arith) in
      (cs, ap or_nothing same, pieces)

  -- The chunks that are published, joined, are the output: nothing is lost, doubled or reordered,
  -- however the bytes are counted.
  pub joined-split_for_stream : (text : Text) → joined (split_for_stream text) ≡ text
  unfolding split_for_stream
  joined-split_for_stream text = elim (Bool-cases (ltb max_stream_chunk_bytes (byte_length text))) [
    | inl e ↦
        let (cs, same, pieces) = split_Pieces text in
        rw e (ap joined same ∙ joined-Pieces text cs pieces)
    | inr e ↦ rw e (append-nil text)
  ]

  module _ (unit_bytes : (t : Text) → byte_length t ≤ 3 * length t) where
    chunk_fits :
        (text : Text) (r : ℕ)
        → too_long text r ≡ false
        → byte_length (take r text) ≤ max_stream_chunk_bytes
    chunk_fits text r over = elim (Bool-cases (ltb 1 r)) [
      | inl long ↦ ground arith
      | inr short ↦ omega (arith, unit_bytes (take r text), length-take r text, at_most short)
    ]
      where
        at_most : ltb 1 r ≡ false → r ≤ 1
        at_most h = ground arith

    Pieces-fit :
        (text : Text) (cs : List Text)
        → Pieces text cs
        → Each (λ c. byte_length c ≤ max_stream_chunk_bytes) cs
    Pieces-fit [] [] nothing_left = tt
    Pieces-fit _ _ (piece c cs r rest cut more) =
        (chunk_fits (c ∷ cs) r cut.2, Pieces-fit (drop r (c ∷ cs)) rest more)

    -- No chunk that is published has more bytes than the limit for a chunk, where a code unit
    -- takes at most three bytes.
    pub split_for_stream-fits :
        (text : Text) → Each (λ c. byte_length c ≤ max_stream_chunk_bytes) (split_for_stream text)
    unfolding split_for_stream
    split_for_stream-fits text = elim (Bool-cases (ltb max_stream_chunk_bytes (byte_length text))) [
      | inl e ↦
          let (cs, same, pieces) = split_Pieces text in
          rw e (
            subst (Each (λ c. byte_length c ≤ max_stream_chunk_bytes)) (sym same)
              (Pieces-fit text cs pieces))
      | inr e ↦ rw e (ground arith, tt)
    ]
