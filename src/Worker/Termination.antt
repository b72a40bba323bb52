-- ===== src/Worker/Termination.antt =====
-- The loops of splitForStream, services/execution-worker/src/sandbox.ts, end.
use distributed_code_executi.Common.{
  ℕ, zero, suc, ◌≤◌, ◌≡◌, ◌∙◌, refl, sym, ap, false, some, List, [], ◌∷◌, Text, length, take, drop,
  arith, length-drop,
}
use distributed_code_executi.Worker.Chunks.{
  shrink, chunks, too_long, cut_off, chunks_step, shrink-Cut, chunk_end-Cut, Pieces, nothing_left,
  piece, chunks-Pieces,
}

module _ (byte_length : Text → ℕ) where
  length-Pieces :
      (text : Text) (cs : List Text) → Pieces byte_length text cs → length cs ≤ length text
  length-Pieces [] [] nothing_left = omega arith
  length-Pieces _ _ (piece c cs r rest cut more) =
      omega (arith, cut.0, length-drop r (c ∷ cs) cut.1, length-Pieces (drop r (c ∷ cs)) rest more)

  chunks_enough :
      (n m : ℕ) (text : Text)
      → length text ≤ n
      → length text ≤ m
      → chunks byte_length n text ≡ chunks byte_length m text
  unfolding chunks
  chunks_enough n m [] h k = refl
  chunks_enough zero m (c ∷ cs) h k = absurd (omega arith)
  chunks_enough (suc n) zero (c ∷ cs) h k = absurd (omega arith)
  chunks_enough (suc n) (suc m) (c ∷ cs) h k =
      let (r, here, cut) = chunk_end-Cut byte_length c cs in
      let less = length-drop r (c ∷ cs) cut.1 in
      chunks_step byte_length n c cs r here
      ∙ ap (cut_off (take r (c ∷ cs))) (
          chunks_enough n m (drop r (c ∷ cs)) (omega (arith, cut.0, less))
            (omega (arith, cut.0, less)))
      ∙ sym (chunks_step byte_length m c cs r here)

  -- Both loops of splitForStream end by themselves, at their own tests. The inner one, from an end of
  -- at least one, gives an end within any number of rounds that is not below the first end, and there
  -- its test is false. The outer one, with the inner loops in it, gives the chunks within any number
  -- of rounds that is not below the count of the code units; there are at most as many chunks as code
  -- units, and more rounds give the same.
  pub chunks_terminate :
      (n : ℕ) (text : Text) (end : ℕ)
      → length text ≤ n
      → 1 ≤ end
      → end ≤ n
      → ((r : ℕ) × (shrink byte_length n text end ≡ some r)
          × ((1 ≤ r) × (r ≤ end) × (too_long byte_length text r ≡ false)))
        × ((cs : List Text) × (chunks byte_length n text ≡ some cs)
            × (chunks byte_length (length text) text ≡ some cs)
            × (length cs ≤ length text))
  chunks_terminate n text end h one k =
      let (cs, here, pieces) = chunks-Pieces byte_length n text h in
      (
        shrink-Cut byte_length n text end one k,
        (
          cs,
          here,
          chunks_enough (length text) n text (omega arith) h ∙ here,
          length-Pieces text cs pieces,
        ),
      )
