-- ===== src/System/Bootstraps.antt =====
-- The bootstraps of services/system-monitor/src/index.ts and of services/execution-worker/src/index.ts
-- with initDb of their db.ts. The servers of the metrics are apart from the shared state and have no
-- error, so that they are no step here.
use distributed_code_executi.Common.{ℕ, Text, text_eq, false, ◌≡◌}
use distributed_code_executi.Contracts.{Language}
use distributed_code_executi.Contracts.Keys.{make_processing_key}
use distributed_code_executi.Services.{Services, State, crashed}
use distributed_code_executi.Services.Effects.{M, call, try_catch, ◌>>◌}
use distributed_code_executi.Services.Triples.{
  any, once, Mode, Triple, Triple-bind, Triple-catch, Keeps, Keeps-call,
}
use distributed_code_executi.Services.Keeping.{Keeps-bind, Keeps-catch}
use distributed_code_executi.Jobs.Places.{Safe}
use distributed_code_executi.Worker.{process_queue}
use distributed_code_executi.Worker.Verdict.{SandboxResult}
use distributed_code_executi.Worker.Elsewhere.{J, process_queue_elsewhere}
use distributed_code_executi.Worker.Rounds.{queue-Safe}
use distributed_code_executi.Reaper.{run_reaper_scan}
use distributed_code_executi.Reaper.Scans.{run_Safe}
use distributed_code_executi.Startup.{recover_orphaned_jobs_on_startup}
use distributed_code_executi.Startup.Recovery.{startup_Safe}

module _ ⦃S : Services⦄ where
  -- A client is taken from the pool, and ALTER TABLE adds what is there already: the rows have both
  -- columns.
  unfoldable pub init_db : M Unit
  init_db = do call (λ s. (tt, s)); call (λ s. (tt, s))

  -- process.exit(1)
  abbrev pub exit : M Unit
  exit w = (crashed, w)

  unfoldable pub bootstrap_monitor : Text → M Unit
  bootstrap_monitor lock_id =
      try_catch (do init_db; recover_orphaned_jobs_on_startup; run_reaper_scan lock_id) (λ _. exit)

  -- The worker's loop is not awaited: it is outside of the `try`.
  unfoldable pub bootstrap_worker :
      (execute : Text → Text → Language → SandboxResult) → ℕ → Text → M Unit
  bootstrap_worker execute n worker_id = do
    try_catch init_db (λ _. exit)
    process_queue execute n worker_id

  module _ (I : State → Type 0) where
    pub Keeps-init_db : {m : Mode} → Keeps I m init_db
    unfolding init_db
    Keeps-init_db = Keeps-bind (Keeps-call _ (λ s h. h)) (λ _. Keeps-call _ (λ s h. h))

    pub Triple-exit :
        {m : Mode} {Q : Unit {0} → State → Type 0} {E : _ → State → Type 0} → Triple m I exit Q E I
    Triple-exit = record { run = λ s fs ok h. h }

  module _ (u i : Text) where
    pub Keeps-bootstrap_monitor :
        (lock_id : Text) → Keeps (Safe (make_processing_key u) i) any (bootstrap_monitor lock_id)
    unfolding bootstrap_monitor
    Keeps-bootstrap_monitor lock_id =
        Keeps-catch
          (Keeps-bind (Keeps-init_db (Safe (make_processing_key u) i))
            λ _. Keeps-bind (startup_Safe u i) λ _. run_Safe u i lock_id)
          (λ e. Triple-exit (Safe (make_processing_key u) i))

    pub bootstrap_worker-Safe :
        (execute : Text → Text → Language → SandboxResult) (n : ℕ)
        → Triple once
            (Safe (make_processing_key u) i)
            (bootstrap_worker execute n u)
            (λ _ s. Safe (make_processing_key u) i s)
            (λ _ _. ⊥)
            (Safe (make_processing_key u) i)
    unfolding bootstrap_worker
    bootstrap_worker-Safe execute n =
        Triple-bind
          (Triple-catch (Keeps-init_db (Safe (make_processing_key u) i))
            (λ e. Triple-exit (Safe (make_processing_key u) i)))
          (λ _. queue-Safe execute u i n)

  -- The life of a worker, seen from the processing queue of another.
  pub bootstrap_worker_elsewhere :
      (u i w : Text) (apart : text_eq (make_processing_key w) (make_processing_key u) ≡ false)
      (execute : Text → Text → Language → SandboxResult) (n : ℕ)
      → Keeps (J u i w apart) any (bootstrap_worker execute n w)
  unfolding bootstrap_worker
  bootstrap_worker_elsewhere u i w apart execute n =
      Keeps-bind (Keeps-catch (Keeps-init_db (J u i w apart)) (λ e. Triple-exit (J u i w apart)))
        (λ _. process_queue_elsewhere u i w apart execute n)
