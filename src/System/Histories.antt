-- ===== src/System/Histories.antt =====
-- Histories of the whole system: workers (services/execution-worker/src/index.ts), the monitor
-- (services/system-monitor/src) and the gateway (services/api-gateway/src) take turns on the shared
-- state, each one handler at a time.
use mathlib.Core.Option
use distributed_code_executi.Common.{
  ℕ, ◌+◌, ◌≡◌, ◌⊎◌, subst, sym, refl, true, false, Option, some, none, List, Text, text_eq,
  text_eq_iff, Bool-cases, inl, inr, arith,
}
use distributed_code_executi.Contracts.{Language, SubmissionStatus}
use distributed_code_executi.Contracts.Keys.{make_processing_key}
use distributed_code_executi.Services.{Services, State, Fault, Submission, returned}
use distributed_code_executi.Services.Keeping.{kept, Keeps-never}
use distributed_code_executi.Services.Triples.{AtMostOne, at}
use distributed_code_executi.Jobs.{is_some}
use distributed_code_executi.Jobs.Places.{Safe, in_queue}
use distributed_code_executi.Worker.{process_queue}
use distributed_code_executi.Worker.Verdict.{SandboxResult}
use distributed_code_executi.Worker.Elsewhere.{J, process_queue_elsewhere}
use distributed_code_executi.Worker.Rounds.{process_queue-Safe}
use distributed_code_executi.Reaper.{run_reaper_scan}
use distributed_code_executi.Reaper.Scans.{run_reaper_scan-Safe}
use distributed_code_executi.Startup.{recover_orphaned_jobs_on_startup}
use distributed_code_executi.Startup.Recovery.{recover_on_startup-Safe}
use distributed_code_executi.Gateway.{SubmissionBody, submit, created}
use distributed_code_executi.Gateway.Answers.{Answered}
use distributed_code_executi.Gateway.Submissions.{Told, submit-Told}
use distributed_code_executi.Gateway.Routes.{remove_from_dlq}
use distributed_code_executi.System.Bootstraps.{
  bootstrap_worker, bootstrap_monitor, bootstrap_worker-Safe, bootstrap_worker_elsewhere,
  Keeps-bootstrap_monitor,
}
use distributed_code_executi.System.Bystanding.{Keeps-submit, Keeps-remove_from_dlq}

module _ ⦃S : Services⦄ where
  has_row_of :
      (o : Option Submission)
      → Option.map (λ r. r.status) o ≡ some SubmissionStatus.pending
      → is_some o ≡ true
  has_row_of none h = cc
  has_row_of (some r) h = refl

-- `W` says which identifiers the workers have.
module _ ⦃S : Services⦄ (execute : Text → Text → Language → SandboxResult) (W : Text → Type 0) where
  -- A handler or a bootstrap runs from its start to its end or to the death of its process. A worker
  -- meets at most one fault in a life; the monitor and the gateway any.
  pub data Step : State → State → Type 0 where
    working :
        (w : Text) (n : ℕ) (faults : List Fault) (s : State)
        → W w
        → AtMostOne faults
        → Step s (process_queue execute n w (at s faults)).1.state
    living :
        (w : Text) (n : ℕ) (faults : List Fault) (s : State)
        → W w
        → AtMostOne faults
        → Step s (bootstrap_worker execute n w (at s faults)).1.state
    monitoring :
        (lock_id : Text) (faults : List Fault) (s : State)
        → Step s (bootstrap_monitor lock_id (at s faults)).1.state
    scanning :
        (lock_id : Text) (faults : List Fault) (s : State)
        → Step s (run_reaper_scan lock_id (at s faults)).1.state
    recovering :
        (faults : List Fault) (s : State)
        → Step s (recover_orphaned_jobs_on_startup (at s faults)).1.state
    submitting :
        (job_id : Text) (body : SubmissionBody) (faults : List Fault) (s : State)
        → Step s (submit job_id body (at s faults)).1.state
    removing :
        (job_id : Text) (faults : List Fault) (s : State)
        → Step s (remove_from_dlq job_id (at s faults)).1.state
    waiting : (ms : ℕ) (s : State) → Step s (record s { now = s.now + ms })

  pub data History : State → State → Type 0 where
    nothing : (s : State) → History s s
    then_step : {s t v : State} → History s t → Step t v → History s v

  -- The job waits in the pending queue, is in the processing queue of one of the workers, or is over.
  abbrev pub Somewhere : Text → State → Type 0
  Somewhere i s = (u : Text) × W u × Safe (make_processing_key u) i s

  lived :
      (v i : Text) (n : ℕ) (s : State) (faults : List Fault)
      → AtMostOne faults
      → Safe (make_processing_key v) i s
      → Safe (make_processing_key v) i (bootstrap_worker execute n v (at s faults)).1.state
  lived v i n s faults one h =
      kept (bootstrap_worker execute n v) s faults one
        (Keeps-never (bootstrap_worker-Safe v i execute n)) h

  -- What a worker keeps of its own queue and of those of others, it keeps of all.
  anywhere :
      (w i : Text) (s t : State)
      → W w
      → (Safe (make_processing_key w) i s → Safe (make_processing_key w) i t)
      → ((u : Text) (apart : text_eq (make_processing_key w) (make_processing_key u) ≡ false)
          → J u i w apart s
          → J u i w apart t)
      → Somewhere i s
      → Somewhere i t
  anywhere w i s t mine own others (u, yours, (known, place)) =
      by_queue (Bool-cases (text_eq (make_processing_key w) (make_processing_key u)))
        (Bool-cases (in_queue (make_processing_key u) i s))
    where
      by_queue :
          (text_eq (make_processing_key w) (make_processing_key u) ≡ true)
            ⊎ (text_eq (make_processing_key w) (make_processing_key u) ≡ false)
          → (in_queue (make_processing_key u) i s ≡ true)
            ⊎ (in_queue (make_processing_key u) i s ≡ false)
          → Somewhere i t
      by_queue (inl same) q = (
        w,
        mine,
        own (
            subst (λ k. Safe k i s)
              (sym ((text_eq_iff (make_processing_key w) (make_processing_key u)).0 same))
              (known, place)),
      )
      by_queue (inr apart) (inl there) =
          let (k, q) = others u apart (known, there) in (u, yours, (k, ground arith))
      by_queue (inr apart) (inr elsewhere) = (w, mine, own (known, ground arith))

  Step-Somewhere : {s t : State} (i : Text) → Step s t → Somewhere i s → Somewhere i t
  Step-Somewhere i (working w n faults s mine one) h =
      anywhere w i s (process_queue execute n w (at s faults)).1.state mine
        (process_queue-Safe execute w n i s faults one)
        (λ u apart.
          kept (process_queue execute n w) s faults tt
            (process_queue_elsewhere u i w apart execute n))
        h
  Step-Somewhere i (living w n faults s mine one) h =
      anywhere w i s (bootstrap_worker execute n w (at s faults)).1.state mine
        (lived w i n s faults one)
        (λ u apart.
          kept (bootstrap_worker execute n w) s faults tt
            (bootstrap_worker_elsewhere u i w apart execute n))
        h
  Step-Somewhere i (monitoring lock_id faults s) (u, m, h) =
      (u, m, kept (bootstrap_monitor lock_id) s faults tt (Keeps-bootstrap_monitor u i lock_id) h)
  Step-Somewhere i (scanning lock_id faults s) (u, m, h) =
      (u, m, run_reaper_scan-Safe u i lock_id s faults h)
  Step-Somewhere i (recovering faults s) (u, m, h) = (u, m, recover_on_startup-Safe u i s faults h)
  Step-Somewhere i (submitting j body faults s) (u, m, h) =
      (u, m, kept (submit j body) s faults tt (Keeps-submit u i j body) h)
  Step-Somewhere i (removing j faults s) (u, m, h) =
      (u, m, kept (remove_from_dlq j) s faults tt (Keeps-remove_from_dlq u i j) h)
  Step-Somewhere i (waiting ms s) (u, m, h) = (u, m, h)

  History-Somewhere : {s t : State} (i : Text) → History s t → Somewhere i s → Somewhere i t
  History-Somewhere i (nothing s) h = h
  History-Somewhere i (then_step past step) h = Step-Somewhere i step (History-Somewhere i past h)

  created-Safe : (queue i : Text) (s : State) → Answered i created s → Safe queue i s
  created-Safe queue i s h = (has_row_of (S.submission s.db i) h.0, rw h.1 refl)

  -- A job that the gateway has accepted is never lost, however many workers there are (at least one):
  -- once POST /submissions has replied 201 for a new identifier, whatever faults it met, then after
  -- any history of lives of workers with at most one fault each, of scans, starts of the monitor,
  -- submissions and removals from the dead letter queue with any faults, the job has its row, and it
  -- waits in the pending queue, is in the processing queue of one of the workers, or is over.
  pub submit-History :
      (v i : Text) (body : SubmissionBody) (s t : State) (faults : List Fault)
      → W v
      → S.submission s.db i ≡ none
      → (submit i body (at s faults)).0 ≡ returned created
      → History (submit i body (at s faults)).1.state t
      → Somewhere i t
  submit-History v i body s t faults member fresh reply past = History-Somewhere i past (
    v,
    member,
    created-Safe (make_processing_key v) i (submit i body (at s faults)).1.state (
        subst (λ o. Told i body o (submit i body (at s faults)).1) reply
          (submit-Told i body s faults fresh)),
  )

-- With a single worker the job is in the pending queue, in the queue of this worker, or over.
module _ ⦃S : Services⦄ (execute : Text → Text → Language → SandboxResult) (worker_id : Text) where
  pub submit-History_single :
      (i : Text) (body : SubmissionBody) (s t : State) (faults : List Fault)
      → S.submission s.db i ≡ none
      → (submit i body (at s faults)).0 ≡ returned created
      → History execute (λ w. w ≡ worker_id) (submit i body (at s faults)).1.state t
      → Safe (make_processing_key worker_id) i t
  submit-History_single i body s t faults fresh reply past =
      let (u, same, h) =
        submit-History execute (λ w. w ≡ worker_id) worker_id i body s t faults refl fresh reply
          past in
      subst (λ w. Safe (make_processing_key w) i t) same h
