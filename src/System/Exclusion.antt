-- ===== src/System/Exclusion.antt =====
-- How often a job can be claimed, and that it stays over, whatever is interleaved.
use mathlib.Core.Option
use distributed_code_executi.Common.{
  ℕ, ◌+◌, ◌≤◌, ◌≡◌, refl, sym, ap, ◌∙◌, Bool, true, false, ◌||◌, Option, none, some, List, [], ◌∷◌,
  Text, if◌then◌else◌, text_eq, text_eq_refl, and_false, text_eq_iff, ◌⊎◌, Bool-cases, inl, inr,
  arith, or_false,
}
use distributed_code_executi.Contracts.{SubmissionStatus, status_eq, is_terminal_status}
use distributed_code_executi.Services.{Services, State, Submission, Outcome, returned}
use distributed_code_executi.Services.Effects.{call}
use distributed_code_executi.Services.Triples.{at}
use distributed_code_executi.Jobs.{with_status}
use distributed_code_executi.Jobs.Updates.{updated, ended}
use distributed_code_executi.Worker.{claim, claimable}
use distributed_code_executi.Worker.Verdict.{SandboxResult, verdict}
use distributed_code_executi.Worker.Verdicts.{verdict_terminal}
use distributed_code_executi.System.Interleavings.{
  Change, claiming, storing, burying, retrying, resetting, inserting, refusing, apply_change,
  row_after, submission-apply_change,
}

module _ ⦃S : Services⦄ where
  abbrev found : Outcome (List Submission) → ℕ
  found (returned (row ∷ rows)) = 1
  found _ = 0

  -- A claim of the job that found its row.
  abbrev pub won : Text → Change → State → ℕ
  won i (claiming j) s = if text_eq j i then found (claim j (at s [])).0 else 0
  won i _ s = 0

  -- A change that may make the job PENDING.
  abbrev pub freed : Text → Change → ℕ
  freed i (retrying n j) = if text_eq j i then 1 else 0
  freed i resetting = 1
  freed i (inserting j body now) = if text_eq j i then 1 else 0
  freed i _ = 0

  -- How many claims of the job succeed on the way.
  unfoldable pub wins : Text → List Change → State → ℕ
  wins i [] s = 0
  wins i (c ∷ cs) s = won i c s + wins i cs (apply_change c s)

  unfoldable pub frees : Text → List Change → ℕ
  frees i [] = 0
  frees i (c ∷ cs) = freed i c + frees i cs

  abbrev weight : Option Submission → ℕ
  weight none = 0
  weight (some r) = if status_eq r.status SubmissionStatus.pending then 1 else 0

  weight-le-one : (o : Option Submission) → weight o ≤ 1
  weight-le-one none = omega arith
  weight-le-one (some r) = ground arith

  -- An update by key to another status takes away.
  weight-updated :
      (j i : Text) (f : Submission → Submission) (o : Option Submission)
      → ((r : Submission) → status_eq (f r).status SubmissionStatus.pending ≡ false)
      → weight (updated j f i o) ≤ weight o
  weight-updated j i f none h = ground arith
  weight-updated j i f (some r) h = ground (arith, h r)

  verdict_not_pending :
      (r : SandboxResult) → status_eq (verdict r).final_status SubmissionStatus.pending ≡ false
  unfolding verdict
  verdict_not_pending r = ground arith

  -- The claim takes the PENDING row of its job, and only that.
  weight-claimed :
      (i : Text) (now : ℕ) (o : Option Submission)
      → ((r : Submission) → o ≡ some r → r.id ≡ i)
      → weight (row_after i (claiming i) now o) ≡ 0
  unfolding row_after
  weight-claimed i now none h = refl
  weight-claimed i now (some r) h =
      elim (Bool-cases (status_eq r.status SubmissionStatus.pending)) [
        | inl e ↦ rw (h r refl, text_eq_refl i, e) refl
        | inr e ↦ rw (e, and_false (text_eq i r.id)) (rw e refl)
      ]

  weight-claimed_other :
      (j i : Text) (now : ℕ) (o : Option Submission)
      → weight (row_after i (claiming j) now o) ≤ weight o
  unfolding row_after
  weight-claimed_other j i now none = ground arith
  weight-claimed_other j i now (some r) = elim (Bool-cases (claimable j r)) [
    | inl e ↦ rw e (omega arith)
    | inr e ↦ rw e (omega arith)
  ]

  -- A job that is not PENDING is not found.
  not_found :
      (i : Text) (s : State) → weight (S.submission s.db i) ≡ 0 → S.select (claimable i) s.db ≡ []
  not_found i s h =
      S.select-nil (claimable i) s.db λ k r e. unclaimable k r e (Bool-cases (text_eq i r.id))
    where
      unclaimable :
          (k : Text) (r : Submission)
          → S.submission s.db k ≡ some r
          → (text_eq i r.id ≡ true) ⊎ (text_eq i r.id ≡ false)
          → claimable i r ≡ false
      unclaimable k r e (inr n) = rw n refl
      unclaimable k r e (inl same) =
          let here : i ≡ k = (text_eq_iff i r.id).0 same ∙ S.id-submission s.db k r e in
          let w : weight (some r) ≡ 0 = ap weight (sym e ∙ ap (S.submission s.db) (sym here)) ∙ h in
          ground (arith, w)

  weight-after :
      (i : Text) (c : Change) (now : ℕ) (o : Option Submission)
      → weight (row_after i c now o) ≤ weight o + freed i c
  unfolding row_after
  weight-after i (claiming j) now o = omega (arith, weight-claimed_other j i now o)
  weight-after i (storing j r) now o = omega (
    arith,
    weight-updated j i (with_status (verdict r).final_status now) o (λ _. verdict_not_pending r),
  )
  weight-after i (burying j reason) now o =
      omega (arith, weight-updated j i (with_status SubmissionStatus.failed now) o (λ _. refl))
  weight-after i (retrying n j) now none = ground arith
  weight-after i (retrying n j) now (some r) = ground arith
  weight-after i resetting now o = omega (arith, weight-le-one (row_after i resetting now o))
  weight-after i (inserting j body t) now none = ground arith
  weight-after i (inserting j body t) now (some r) = omega arith
  weight-after i (refusing j) now o =
      omega (arith, weight-updated j i (with_status SubmissionStatus.failed now) o (λ _. refl))

  found-le : (l : List Submission) → found (returned l) ≤ 1
  found-le [] = omega arith
  found-le (x ∷ xs) = omega arith

  module _ (i : Text) (s : State) where
    abbrev before : ℕ
    before = weight (S.submission s.db i)

    found-claim : found (claim i (at s [])).0 ≤ before
    unfolding call
    found-claim = bounded (ground (arith, weight-le-one (S.submission s.db i)))
      where
        bounded :
            (before ≡ 0) ⊎ (before ≡ 1) → found (returned (S.select (claimable i) s.db)) ≤ before
        bounded (inl e) = rw (not_found i s e) (omega arith)
        bounded (inr e) = omega (arith, e, found-le (S.select (claimable i) s.db))

    cost-claiming :
        (j : Text)
        → won i (claiming j) s + weight (row_after i (claiming j) s.now (S.submission s.db i))
          ≤ before
    cost-claiming j = elim (Bool-cases (text_eq j i)) [
      | inl e ↦
          rw ((text_eq_iff j i).0 e, text_eq_refl i)
            (omega (
              arith,
              found-claim,
              weight-claimed i s.now (S.submission s.db i) (S.id-submission s.db i),
            ))
      | inr e ↦ rw e (omega (arith, weight-claimed_other j i s.now (S.submission s.db i)))
    ]

    -- A change that is no claim.
    free : (c : Change) → weight (S.submission (apply_change c s).db i) ≤ before + freed i c
    free c = rw (submission-apply_change i s c) (weight-after i c s.now (S.submission s.db i))

    cost :
        (c : Change)
        → won i c s + weight (S.submission (apply_change c s).db i) ≤ before + freed i c
    cost (claiming j) =
        rw (submission-apply_change i s (claiming j)) (omega (arith, cost-claiming j))
    cost (storing j r) = omega (arith, free (storing j r))
    cost (burying j reason) = omega (arith, free (burying j reason))
    cost (retrying n j) = omega (arith, free (retrying n j))
    cost resetting = omega (arith, free resetting)
    cost (inserting j body t) = omega (arith, free (inserting j body t))
    cost (refusing j) = omega (arith, free (refusing j))

  wins-weight :
      (i : Text) (cs : List Change) (s : State)
      → wins i cs s ≤ weight (S.submission s.db i) + frees i cs
  unfolding wins frees
  wins-weight i [] s = omega arith
  wins-weight i (c ∷ cs) s = omega (arith, cost i s c, wins-weight i cs (apply_change c s))

  -- In any interleaving of what any number of workers, monitors and gateways commit to the rows,
  -- the claims of a job that succeed are at most one more than the changes that may make it PENDING
  -- (a retry of it, a reset on startup, its insertion): between two successful claims of a job there
  -- is one of these.
  pub claims_exclusive : (i : Text) (cs : List Change) (s : State) → wins i cs s ≤ 1 + frees i cs
  claims_exclusive i cs s = omega (arith, wins-weight i cs s, weight-le-one (S.submission s.db i))

  -- Whether the change is a retry of the job.
  abbrev retries : Text → Change → Bool
  retries i (retrying n j) = text_eq j i
  retries i _ = false

  abbrev pub retried : Text → List Change → Bool
  retried i [] = false
  retried i (c ∷ cs) = retries i c || retried i cs

  unfoldable pub apply_all : List Change → State → State
  apply_all [] s = s
  apply_all (c ∷ cs) s = apply_all cs (apply_change c s)

  abbrev over : Option Submission → Bool
  over o = is_terminal_status (Option.map (λ r. r.status) o)

  terminal_not :
      (s : SubmissionStatus)
      → is_terminal_status (some s) ≡ true
      → (status_eq s SubmissionStatus.pending ≡ false)
        × (status_eq s SubmissionStatus.running ≡ false)
  unfolding is_terminal_status
  terminal_not s h = ground arith

  over-after :
      (i : Text) (c : Change) (now : ℕ) (o : Option Submission)
      → retries i c ≡ false
      → over o ≡ true
      → over (row_after i c now o) ≡ true
  unfolding row_after is_terminal_status
  over-after i c now none n h = cc
  over-after i (claiming j) now (some r) n h =
      rw ((terminal_not r.status h).0, and_false (text_eq j r.id)) h
  over-after i (storing j x) now (some r) n h = elim (Bool-cases (text_eq j i)) [
    | inl e ↦ rw e (verdict_terminal x).0
    | inr e ↦ rw e h
  ]
  over-after i (burying j reason) now (some r) n h = ground arith
  over-after i (retrying m j) now (some r) n h = rw n h
  over-after i resetting now (some r) n h = rw (terminal_not r.status h).1 h
  over-after i (inserting j body t) now (some r) n h = h
  over-after i (refusing j) now (some r) n h = ground arith

  -- A job that is over stays over, in any interleaving of what the services commit, as long as it is
  -- not retried: neither a claim, nor a reset on startup, nor another insertion brings it back.
  pub ended-apply_all :
      (i : Text) (cs : List Change) (s : State)
      → retried i cs ≡ false
      → ended i s.db ≡ true
      → ended i (apply_all cs s).db ≡ true
  unfolding apply_all
  ended-apply_all i [] s n h = h
  ended-apply_all i (c ∷ cs) s n h =
      let (first, rest) = or_false n in
      ended-apply_all i cs (apply_change c s) rest
        (rw (submission-apply_change i s c) (over-after i c s.now (S.submission s.db i) first h))
