-- ===== src/System/Provenance.antt =====
-- Where the columns of a row come from: the request that services/api-gateway has accepted.
use mathlib.Core.Option
use distributed_code_executi.Common.{
  ℕ, ◌≤◌, ◌≡◌, refl, sym, subst, Option, none, some, List, Text, text_eq, text_eq_refl, Bool-cases,
  inl, inr, arith,
}
use distributed_code_executi.Contracts.{SubmissionStatus, Language, max_retry_count}
use distributed_code_executi.Services.{Services, State, Submission, Fault, returned}
use distributed_code_executi.Services.Triples.{at}
use distributed_code_executi.Services.Keeping.{kept}
use distributed_code_executi.Jobs.{with_status, with_retry}
use distributed_code_executi.Jobs.Updates.{updated}
use distributed_code_executi.Worker.{claimable}
use distributed_code_executi.Worker.Verdict.{SandboxResult, verdict}
use distributed_code_executi.Gateway.{SubmissionBody, submit, created}
use distributed_code_executi.Gateway.Submissions.{Told, submit-Told}
use distributed_code_executi.Startup.{in_status}
use distributed_code_executi.System.Histories.{History}
use distributed_code_executi.System.Interleavings.{
  Change, claiming, storing, burying, retrying, resetting, inserting, refusing, row_after,
}
use distributed_code_executi.System.Commits.{Changed, unchanged, changed}
use distributed_code_executi.System.Commits.Gateways.{BySubmission, submit_Row}
use distributed_code_executi.System.Records.{ByAny, History-Changed}

-- The row has the columns of the request, and its count of retries is in bounds.
pub record IsRowOf (i : Text) (body : SubmissionBody) (r : Submission) : Type 0 where
  pub id_lem : r.id ≡ i
  pub user_id_lem : r.user_id ≡ body.user_id
  pub language_lem : r.language ≡ body.language
  pub code_lem : r.source_code ≡ body.code
  pub retries_lem : r.retry_count ≤ max_retry_count

-- The job has a row, and it is such.
abbrev pub HasRow : Text → SubmissionBody → Option Submission → Type 0
HasRow i body none = ⊥
HasRow i body (some r) = IsRowOf i body r

-- Such a row is what there is, if anything.
abbrev pub NoOtherRow : Text → SubmissionBody → Option Submission → Type 0
NoOtherRow i body none = Unit
NoOtherRow i body (some r) = IsRowOf i body r

module _ ⦃S : Services⦄ (i : Text) (body : SubmissionBody) where
  -- The status and the time of the last change are none of these columns.
  same :
      {r : Submission} {st : SubmissionStatus} {now : ℕ}
      → IsRowOf i body r
      → IsRowOf i body (with_status st now r)
  same h = record {
    id_lem = h.id_lem;
    user_id_lem = h.user_id_lem;
    language_lem = h.language_lem;
    code_lem = h.code_lem;
    retries_lem = h.retries_lem;
  }

  retried :
      {r : Submission} {n : ℕ} {st : SubmissionStatus} {now : ℕ}
      → IsRowOf i body r
      → n ≤ max_retry_count
      → IsRowOf i body (with_retry n st now r)
  retried h bounded = record {
    id_lem = h.id_lem;
    user_id_lem = h.user_id_lem;
    language_lem = h.language_lem;
    code_lem = h.code_lem;
    retries_lem = bounded;
  }

  updated-HasRow :
      (j : Text) (f : Submission → Submission) (r : Submission)
      → IsRowOf i body r
      → IsRowOf i body (f r)
      → HasRow i body (updated j f i (some r))
  updated-HasRow j f r h hf = elim (Bool-cases (text_eq j i)) [ inl e ↦ rw e hf | inr e ↦ rw e h ]

  marked-HasRow :
      (j : Text) (st : SubmissionStatus) (now : ℕ) (r : Submission)
      → IsRowOf i body r
      → HasRow i body (updated j (with_status st now) i (some r))
  marked-HasRow j st now r h = updated-HasRow j (with_status st now) r h (same h)

  -- No change takes the columns of a row away.
  row_after-HasRow :
      (execute : Text → Text → Language → SandboxResult) (c : Change) (now : ℕ) (r : Submission)
      → ByAny execute c
      → IsRowOf i body r
      → HasRow i body (row_after i c now (some r))
  unfolding row_after
  row_after-HasRow execute (claiming j) now r a h = elim (Bool-cases (claimable j r)) [
    | inl e ↦ rw e (same h)
    | inr e ↦ rw e h
  ]
  row_after-HasRow execute (storing j x) now r a h =
      marked-HasRow j (verdict x).final_status now r h
  row_after-HasRow execute (burying j reason) now r a h =
      marked-HasRow j SubmissionStatus.failed now r h
  row_after-HasRow execute (retrying n j) now r a h =
      updated-HasRow j (with_retry n SubmissionStatus.pending now) r h (retried h a)
  row_after-HasRow execute resetting now r a h =
      elim (Bool-cases (in_status SubmissionStatus.running r)) [
        | inl e ↦ rw e (same h)
        | inr e ↦ rw e h
      ]
  row_after-HasRow execute (inserting j b t) now r a h = h
  row_after-HasRow execute (refusing j) now r a h = marked-HasRow j SubmissionStatus.failed now r h

  Changed-HasRow :
      {execute : Text → Text → Language → SandboxResult} {o p : Option Submission}
      → Changed (ByAny execute) i o p
      → HasRow i body o
      → HasRow i body p
  Changed-HasRow unchanged h = h
  Changed-HasRow {execute} (changed c now a past) h = step c now a _ (Changed-HasRow past h)
    where
      step :
          (c : Change) (now : ℕ)
          → ByAny execute c
          → (p : Option Submission) → HasRow i body p
          → HasRow i body (row_after i c now p)
      step c now a none h = absurd h
      step c now a (some r) h = row_after-HasRow execute c now r a h

  HasRow-NoOtherRow : (o : Option Submission) → HasRow i body o → NoOtherRow i body o
  HasRow-NoOtherRow none h = tt
  HasRow-NoOtherRow (some r) h = h

  -- Before there is a row, the submission can only make that of its own request.
  row_after-NoOtherRow :
      (c : Change) (now : ℕ) (o : Option Submission)
      → BySubmission i body c
      → NoOtherRow i body o
      → NoOtherRow i body (row_after i c now o)
  unfolding row_after
  row_after-NoOtherRow (inserting j b t) now none a h =
      rw (a.0, a.1, text_eq_refl i)
        (record {
          id_lem = refl;
          user_id_lem = refl;
          language_lem = refl;
          code_lem = refl;
          retries_lem = omega arith;
        })
  row_after-NoOtherRow (inserting j b t) now (some r) a h = h
  row_after-NoOtherRow (refusing j) now none a h = ground arith
  row_after-NoOtherRow (refusing j) now (some r) a h =
      HasRow-NoOtherRow (updated j (with_status SubmissionStatus.failed now) i (some r))
        (marked-HasRow j SubmissionStatus.failed now r h)
  row_after-NoOtherRow (claiming j) now o a h = absurd a
  row_after-NoOtherRow (storing j r) now o a h = absurd a
  row_after-NoOtherRow (burying j reason) now o a h = absurd a
  row_after-NoOtherRow (retrying n j) now o a h = absurd a
  row_after-NoOtherRow resetting now o a h = absurd a

  Changed-NoOtherRow :
      {o p : Option Submission}
      → Changed (BySubmission i body) i o p
      → NoOtherRow i body o
      → NoOtherRow i body p
  Changed-NoOtherRow unchanged h = h
  Changed-NoOtherRow (changed c now a past) h =
      row_after-NoOtherRow c now _ a (Changed-NoOtherRow past h)

  there :
      (o : Option Submission)
      → Option.map (λ r. r.status) o ≡ some SubmissionStatus.pending
      → NoOtherRow i body o
      → HasRow i body o
  there none e h = cc e
  there (some r) e h = h

module _ ⦃S : Services⦄ (execute : Text → Text → Language → SandboxResult) (W : Text → Type 0)
    (i : Text) where
  -- Once POST /submissions has replied 201 for a new identifier, whatever faults it met, then after
  -- any history of workers with at most one fault in a life, and of monitors and requests with any
  -- faults, the job has a row, which has the identifier, the user, the language and the code of that
  -- request, and a count of retries that is not over the limit.
  pub submit-HasRow :
      (body : SubmissionBody) (s t : State) (faults : List Fault)
      → S.submission s.db i ≡ none
      → (submit i body (at s faults)).0 ≡ returned created
      → History execute W (submit i body (at s faults)).1.state t
      → HasRow i body (S.submission t.db i)
  submit-HasRow body s t faults fresh reply past =
      let w = submit i body (at s faults) in
      let answered : Told i body (returned created) w.1 =
        subst (λ o. Told i body o w.1) reply (submit-Told i body s faults fresh) in
      let mine : NoOtherRow i body (S.submission w.1.state.db i) =
        Changed-NoOtherRow i body
          (kept (submit i body) s faults tt (submit_Row i none i body)
            (subst (Changed (BySubmission i body) i none) (sym fresh) unchanged))
          tt in
      Changed-HasRow i body (History-Changed execute W i past)
        (there i body (S.submission w.1.state.db i) answered.0 mine)
