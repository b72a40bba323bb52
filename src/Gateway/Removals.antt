-- ===== src/Gateway/Removals.antt =====
-- The route DELETE /dlq/:jobId of services/api-gateway/src/routes/submissions.ts.
use distributed_code_executi.Common.{
  ◌≡◌, refl, ap, ◌∙◌, Bool, true, false, ◌&&◌, ◌||◌, List, [], ◌∷◌, Text, text_eq, text_eq_iff,
  text_eq_refl, if◌then◌else◌, arith, Bool-cases, inl, inr,
}
use distributed_code_executi.Contracts.Keys.{dead_letter_key}
use distributed_code_executi.Services.{Services, State, remove_first, returned}
use distributed_code_executi.Services.Effects.{◌>>=◌, call, try_catch}
use distributed_code_executi.Services.Triples.{at}
use distributed_code_executi.Gateway.Routes.{
  item_of, dead_letters, removal, remove_each, remove_from_dlq,
}

module _ ⦃S : Services⦄ (i : Text) where
  abbrev pub has_item : List Text → Bool
  has_item [] = false
  has_item (x ∷ xs) = item_of i (S.parse_dlq x) || has_item xs

  -- The entries less the first one of the job.
  abbrev pub without_first : List Text → List Text
  without_first [] = []
  without_first (x ∷ xs) = if item_of i (S.parse_dlq x) then xs else x ∷ without_first xs

  -- The first entry of the job, if there is one.
  abbrev first_item : List Text → Text
  first_item [] = []
  first_item (x ∷ xs) = if item_of i (S.parse_dlq x) then x else first_item xs

  first_item_lem :
      (xs : List Text) → has_item xs ≡ true → item_of i (S.parse_dlq (first_item xs)) ≡ true
  first_item_lem [] h = cc
  first_item_lem (x ∷ xs) h = elim (Bool-cases (item_of i (S.parse_dlq x))) [
    | inl e ↦ rw e e
    | inr e ↦ rw e (first_item_lem xs (rw e at h))
  ]

  other_text :
      (x y : Text)
      → item_of i (S.parse_dlq x) ≡ false
      → item_of i (S.parse_dlq y) ≡ true
      → text_eq x y ≡ false
  other_text x y h g = elim (Bool-cases (text_eq x y)) [
    | inl e ↦ cc (h, g, ap (λ t. item_of i (S.parse_dlq t)) ((text_eq_iff x y).0 e))
    | inr e ↦ e
  ]

  removed_by : List Text → State → State
  removed_by [] s = s
  removed_by (x ∷ xs) s =
      if item_of i (S.parse_dlq x)
      then record s { redis = S.lrem dead_letter_key x s.redis }
      else removed_by xs s

  remove_each-calm :
      (xs : List Text) (s : State)
      → remove_each i xs (at s []) ≡ (returned (has_item xs), at (removed_by xs s) [])
  unfolding removed_by ◌>>=◌ try_catch call
  remove_each-calm [] s = refl
  remove_each-calm (x ∷ xs) s = elim (Bool-cases (item_of i (S.parse_dlq x))) [
    | inl e ↦ rw e refl
    | inr e ↦ rw e (remove_each-calm xs s)
  ]

  -- What the list holds once the entries `xs`, a part of its start passed over, were gone through.
  lrange-removed_by :
      (xs : List Text) (s : State) (j : Text)
      → S.lrange (removed_by xs s).redis j ≡ (
          if text_eq dead_letter_key j && has_item xs
          then remove_first (first_item xs) (S.lrange s.redis j)
          else S.lrange s.redis j)
  unfolding removed_by
  lrange-removed_by [] s j = ground arith
  lrange-removed_by (x ∷ xs) s j =
      ground (arith, S.lrange-lrem dead_letter_key x s.redis j, lrange-removed_by xs s j)

  -- The first entry of the job is the first one with its text.
  remove_first_item :
      (xs : List Text) → has_item xs ≡ true → remove_first (first_item xs) xs ≡ without_first xs
  unfolding remove_first
  remove_first_item [] h = cc
  remove_first_item (x ∷ xs) h =
      ground (
        arith,
        text_eq_refl x,
        other_text x (first_item xs),
        first_item_lem xs,
        remove_first_item xs,
      )

  without_first_none : (xs : List Text) → has_item xs ≡ false → without_first xs ≡ xs
  without_first_none [] h = refl
  without_first_none (x ∷ xs) h = ground (arith, without_first_none xs)

  db-removed_by : (xs : List Text) (s : State) → (removed_by xs s).db ≡ s.db
  unfolding removed_by
  db-removed_by [] s = refl
  db-removed_by (x ∷ xs) s = ground (arith, db-removed_by xs s)

  left :
      (xs : List Text) (s : State)
      → dead_letters s ≡ xs
      → dead_letters (removed_by xs s) ≡ without_first xs
  left xs s e =
      lrange-removed_by xs s dead_letter_key
      ∙ ground (arith, text_eq_refl dead_letter_key, remove_first_item xs, without_first_none xs)

  remove_from_dlq-calm :
      (s : State)
      → remove_from_dlq i (at s [])
        ≡ (returned (removal (has_item (dead_letters s))), at (removed_by (dead_letters s) s) [])
  unfolding remove_from_dlq call ◌>>=◌
  remove_from_dlq-calm s = rw (remove_each-calm (dead_letters s) s) refl

  -- If no call fails, DELETE /dlq/:jobId replies that the job was removed just when the dead letter
  -- queue holds an entry of it; the queue is then less the first such entry, and as it was
  -- otherwise; no other list and nothing in the database changes.
  pub remove_from_dlq_lem :
      (s : State)
      → ((remove_from_dlq i (at s [])).0 ≡ returned (removal (has_item (dead_letters s))))
        × (dead_letters (remove_from_dlq i (at s [])).1.state ≡ without_first (dead_letters s))
        × ((j : Text)
            → text_eq dead_letter_key j ≡ false
            → S.lrange (remove_from_dlq i (at s [])).1.state.redis j ≡ S.lrange s.redis j)
        × ((remove_from_dlq i (at s [])).1.state.db ≡ s.db)
  remove_from_dlq_lem s = rw (remove_from_dlq-calm s) (
    refl,
    left (dead_letters s) s refl,
    λ j h. lrange-removed_by (dead_letters s) s j ∙ rw h refl,
    db-removed_by (dead_letters s) s,
  )
