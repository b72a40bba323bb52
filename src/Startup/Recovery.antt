-- ===== src/Startup/Recovery.antt =====
-- What the recovery on startup does to a job.
use mathlib.Core.Option
use distributed_code_executi.Common.{
  ℕ, zero, suc, ◌≡◌, refl, ap, ◌∙◌, true, false, ◌||◌, Option, none, some, List, [], ◌∷◌, Text,
  length, arith, if◌then◌else◌,
}
use distributed_code_executi.Contracts.{SubmissionStatus, is_terminal_status}
use distributed_code_executi.Contracts.Keys.{pending_key, make_processing_key}
use distributed_code_executi.Services.{
  Services, State, World, Outcome, Fault, Exception, Submission, returned, thrown, crashed, has_row,
}
use distributed_code_executi.Services.Triples.{
  any, quiet, Triple, Keeps, Keeps-call, Triple-pure, Triple-bind, Triple-call_quiet, Holds, at,
}
use distributed_code_executi.Services.Keeping.{kept, Keeps-pure, Keeps-bind}
use distributed_code_executi.Jobs.{with_status, status_of, is_some}
use distributed_code_executi.Jobs.Updates.{known, ended, known-update}
use distributed_code_executi.Jobs.Places.{in_pending, Safe, lrange-lpush_self}
use distributed_code_executi.Jobs.Bystanders.{Safe-lpush_pending}
use distributed_code_executi.Startup.Handlers.{
  in_status, row_payload, running_reset, push_rows, rehydrate, recover_orphaned_jobs_on_startup,
}

reset_ended :
    (now : ℕ) (o : Option Submission)
    → is_terminal_status (
        Option.map
          (λ r. r.status)
          (Option.map
            (λ r.
              if in_status SubmissionStatus.running r
              then with_status SubmissionStatus.pending now r
              else r)
            o))
      ≡ is_terminal_status (Option.map (λ r. r.status) o)
unfolding is_terminal_status
reset_ended now none = refl
reset_ended now (some r) = ground arith

module _ ⦃S : Services⦄ (u i : Text) where
  abbrev watched : Text
  watched = make_processing_key u

  ended-reset : (s : State) → ended i (running_reset s).db ≡ ended i s.db
  ended-reset s =
      ap (λ o. is_terminal_status (Option.map (λ r. r.status) o))
        (S.submission-update (in_status SubmissionStatus.running)
          (with_status SubmissionStatus.pending s.now) (λ _. refl) s.db i)
      ∙ reset_ended s.now (S.submission s.db i)

  reset_Safe : (s : State) → Safe watched i s → Safe watched i (running_reset s)
  reset_Safe s h =
      rw
        (
          known-update (in_status SubmissionStatus.running)
              (with_status SubmissionStatus.pending s.now) (λ _. refl) s.db i,
          ended-reset s,
        )
        h

  push_Safe : (rs : List Submission) → Keeps (Safe watched i) any (push_rows rs)
  unfolding push_rows
  push_Safe [] = Keeps-pure tt
  push_Safe (r ∷ rs) = Keeps-bind (Keeps-call _ (Safe-lpush_pending u i _)) (λ _. push_Safe rs)

  rehydrate-Safe : (n : ℕ) → Keeps (Safe watched i) any (rehydrate n)
  unfolding rehydrate
  rehydrate-Safe zero = Keeps-bind (Keeps-call _ (λ s h. h)) push_Safe
  rehydrate-Safe (suc n) = Keeps-pure tt

  pub startup_Safe : Keeps (Safe watched i) any recover_orphaned_jobs_on_startup
  unfolding recover_orphaned_jobs_on_startup
  startup_Safe =
      Keeps-bind (Keeps-call _ reset_Safe) λ _. Keeps-bind (Keeps-call _ (λ s h. h)) rehydrate-Safe

  -- The recovery on startup loses no job, under any faults: a job with a row that was in the pending
  -- queue, in the processing queue of the worker `u`, or over is so afterwards.
  pub recover_on_startup-Safe :
      (s : State) (faults : List Fault)
      → Safe (make_processing_key u) i s
      → Safe (make_processing_key u) i (recover_orphaned_jobs_on_startup (at s faults)).1.state
  recover_on_startup-Safe s faults h =
      kept recover_orphaned_jobs_on_startup s faults tt startup_Safe h

module _ ⦃S : Services⦄ where
  reset_pending :
      (now : ℕ) (o : Option Submission)
      → is_some o ≡ true
      → is_terminal_status (Option.map (λ r. r.status) o) ≡ false
      → Option.map
          (λ r. r.status)
          (Option.map
            (λ r.
              if in_status SubmissionStatus.running r
              then with_status SubmissionStatus.pending now r
              else r)
            o)
        ≡ some SubmissionStatus.pending
  unfolding is_terminal_status
  reset_pending now none k e = cc
  reset_pending now (some r) k e = ground arith

module _ ⦃S : Services⦄ (i : Text) where
  -- The queue was lost, and the job is not over.
  abbrev Stranded : State → Type 0
  Stranded s = (S.lrange s.redis pending_key ≡ []) × (known i s.db ≡ true) × (ended i s.db ≡ false)

  abbrev Reset : State → Type 0
  Reset s = (S.lrange s.redis pending_key ≡ []) × (status_of i s ≡ some SubmissionStatus.pending)

  abbrev Filled : List Submission → State → Type 0
  Filled rows s =
      ((has_row i rows || in_pending i s) ≡ true) × (status_of i s ≡ some SubmissionStatus.pending)

  Stranded-Reset : (s : State) → Stranded s → Reset (running_reset s)
  Stranded-Reset s h = (
    h.0,
    ap (λ o. Option.map (λ r. r.status) o)
          (S.submission-update (in_status SubmissionStatus.running)
            (with_status SubmissionStatus.pending s.now) (λ _. refl) s.db i)
        ∙ reset_pending s.now (S.submission s.db i) h.1 h.2,
  )

  selected_has :
      (d : S.Db) (o : Option Submission)
      → S.submission d i ≡ o
      → Option.map (λ r. r.status) o ≡ some SubmissionStatus.pending
      → has_row i (S.select_oldest (in_status SubmissionStatus.pending) d) ≡ true
  selected_has d none e h = cc (h)
  selected_has d (some r) e h =
      S.has_row-select_oldest (in_status SubmissionStatus.pending) d i r e (ground arith)

  pushed_Filled :
      (r : Submission) (rs : List Submission) (s : State)
      → Filled (r ∷ rs) s
      → Filled rs
          (record s { redis = S.lpush pending_key (S.stringify_job (row_payload r)) s.redis })
  pushed_Filled r rs s h = (
    rw
        (
          lrange-lpush_self pending_key (S.stringify_job (row_payload r)) s.redis,
          S.parse-stringify (row_payload r),
        )
        (ground arith),
    h.1,
  )

  module _ {E : Exception → State → Type 0} {C : State → Type 0} where
    push_Filled :
        (rs : List Submission) → Triple quiet (Filled rs) (push_rows rs) (λ _ s. Filled [] s) E C
    unfolding push_rows
    push_Filled [] = Triple-pure tt (λ s h. h)
    push_Filled (r ∷ rs) =
        Triple-bind (Triple-call_quiet {Q = λ _ s. Filled rs s} _ (pushed_Filled r rs))
          λ _. push_Filled rs

    startup_Filled : Triple quiet Stranded recover_orphaned_jobs_on_startup (λ _ s. Filled [] s) E C
    unfolding recover_orphaned_jobs_on_startup rehydrate
    startup_Filled = Triple-bind (Triple-call_quiet {Q = λ _ s. Reset s} _ Stranded-Reset) λ _.
        Triple-bind (Triple-call_quiet {Q = λ n s. Reset s × (n ≡ 0)} _ (λ s h. (h, ap length h.0)))
          refill
      where
        zero_ne : {n : ℕ} → suc n ≡ 0 → ⊥
        zero_ne h = omega arith

        refill :
            (n : ℕ) → Triple quiet (λ s. Reset s × (n ≡ 0)) (rehydrate n) (λ _ s. Filled [] s) E C
        refill zero =
            Triple-bind
              (Triple-call_quiet {Q = λ rows s. Filled rows s} _
                (λ s h. (rw (selected_has s.db (S.submission s.db i) refl h.0.1) refl, h.0.1)))
              push_Filled
        refill (suc n) = record { run = λ s fs ok h. absurd (zero_ne h.1) }

  -- Where the pending queue was lost, the recovery on startup, if no call fails, returns, and every
  -- job that has a row and is not over is PENDING and has a payload in the pending queue again.
  pub recover_on_startup-refills :
      (s : State)
      → S.lrange s.redis pending_key ≡ []
      → known i s.db ≡ true
      → ended i s.db ≡ false
      → ((recover_orphaned_jobs_on_startup (at s [])).0 ≡ returned tt)
        × (in_pending i (recover_orphaned_jobs_on_startup (at s [])).1.state ≡ true)
        × (status_of i (recover_orphaned_jobs_on_startup (at s [])).1.state
            ≡ some SubmissionStatus.pending)
  recover_on_startup-refills s lost k e =
      told (recover_orphaned_jobs_on_startup (at s [])).0
        (recover_orphaned_jobs_on_startup (at s [])).1 (startup_Filled.run s [] tt (lost, k, e))
    where
      told :
          (o : Outcome (Unit {0})) (w : World)
          → Holds quiet (λ _ s. Filled [] s) (λ _ _. ⊥) (λ _. ⊥) o w
          → (o ≡ returned tt)
            × (in_pending i w.state ≡ true)
            × (status_of i w.state ≡ some SubmissionStatus.pending)
      told (returned a) w h = (refl, h.1.0, h.1.1)
      told (thrown x) w h = absurd (h.1)
      told crashed w h = absurd h
