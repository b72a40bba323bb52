-- ===== src/Jobs/Queues.antt =====
-- Which jobs a Redis list holds.
use distributed_code_executi.Common.{
  ◌≡◌, refl, sym, ◌∙◌, ap, Bool, true, false, ◌||◌, Option, none, some, List, [], ◌∷◌, ◌++◌, Text,
  text_eq, text_eq_iff, arith, Bool-cases, inl, inr,
}
use distributed_code_executi.Contracts.{QueuePayload}
use distributed_code_executi.Services.{Services, remove_first}

-- the payload is one of the job
abbrev pub names : Text → Option QueuePayload → Bool
names i none = false
names i (some job) = text_eq job.job_id i

-- the very entry stands in the list
abbrev pub contains : Text → List Text → Bool
contains v [] = false
contains v (x ∷ xs) = text_eq x v || contains v xs

module _ ⦃S : Services⦄ where
  -- some entry of the list is a payload of the job
  abbrev pub queued : Text → List Text → Bool
  queued i [] = false
  queued i (x ∷ xs) = names i (S.parse_job x) || queued i xs

  pub queued-append :
      (i : Text) (xs ys : List Text) → queued i (xs ++ ys) ≡ (queued i xs || queued i ys)
  queued-append i [] ys = refl
  queued-append i (x ∷ xs) ys = ground (arith, queued-append i xs ys)

  -- An entry that holds the job makes it queued.
  pub queued_of_contains :
      (i v : Text) (xs : List Text)
      → names i (S.parse_job v) ≡ true
      → contains v xs ≡ true
      → queued i xs ≡ true
  queued_of_contains i v [] n c = cc
  queued_of_contains i v (x ∷ xs) n c = elim (Bool-cases (text_eq x v)) [
    | inl e ↦ rw ((text_eq_iff x v).0 e, n)
    | inr e ↦ ground (arith, queued_of_contains i v xs n (rw e at c))
  ]

  -- Taking out an entry of another job leaves the job where it was.
  pub queued-remove_first :
      (i v : Text) (xs : List Text)
      → names i (S.parse_job v) ≡ false
      → queued i (remove_first v xs) ≡ queued i xs
  unfolding remove_first
  queued-remove_first i v [] n = refl
  queued-remove_first i v (x ∷ xs) n = elim (Bool-cases (text_eq x v)) [
    | inl e ↦ rw (e, (text_eq_iff x v).0 e, n)
    | inr e ↦ rw (e, queued-remove_first i v xs n)
  ]

abbrev grow : Text → Option (List Text × Text) → Option (List Text × Text)
grow x none = some ([], x)
grow x (some (ys, y)) = some (x ∷ ys, y)

-- The right end of a list, from which RPOPLPUSH takes.
unfoldable pub split_last : List Text → Option (List Text × Text)
split_last [] = none
split_last (x ∷ xs) = grow x (split_last xs)

unsplit : Option (List Text × Text) → List Text
unsplit none = []
unsplit (some (ys, y)) = ys ++ y ∷ []

unsplit-grow : (x : Text) (o : Option (List Text × Text)) → unsplit (grow x o) ≡ x ∷ unsplit o
unfolding unsplit
unsplit-grow x none = refl
unsplit-grow x (some (ys, y)) = refl

unsplit-split_last : (xs : List Text) → unsplit (split_last xs) ≡ xs
unfolding split_last unsplit
unsplit-split_last [] = refl
unsplit-split_last (x ∷ xs) =
    unsplit-grow x (split_last xs) ∙ ap (λ l. x ∷ l) (unsplit-split_last xs)

pub split_last_lem :
    (xs ys : List Text) (y : Text) → split_last xs ≡ some (ys, y) → xs ≡ ys ++ y ∷ []
unfolding unsplit
split_last_lem xs ys y h = sym (unsplit-split_last xs) ∙ ap unsplit h

pub split_last-append : (xs : List Text) (y : Text) → split_last (xs ++ y ∷ []) ≡ some (xs, y)
unfolding split_last
split_last-append [] y = refl
split_last-append (x ∷ xs) y = rw (split_last-append xs y) refl
