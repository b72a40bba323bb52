-- ===== src/System/Records.antt =====
-- What the row of a job tells after any history of services/execution-worker, services/system-monitor
-- and services/api-gateway.
use distributed_code_executi.Common.{ℕ, ◌≤◌, ◌≡◌, Option, Text}
use distributed_code_executi.Contracts.{Language, max_retry_count}
use distributed_code_executi.Services.{Services, State, Submission}
use distributed_code_executi.Services.Triples.{any, Keeps}
use distributed_code_executi.Services.Keeping.{Keeps-bind, Keeps-catch, kept}
use distributed_code_executi.Worker.{process_queue}
use distributed_code_executi.Worker.Verdict.{SandboxResult}
use distributed_code_executi.Gateway.{SubmissionBody, submit}
use distributed_code_executi.Gateway.Routes.{remove_from_dlq}
use distributed_code_executi.Reaper.{run_reaper_scan}
use distributed_code_executi.Startup.{recover_orphaned_jobs_on_startup}
use distributed_code_executi.System.Bootstraps.{
  bootstrap_worker, bootstrap_monitor, Keeps-init_db, Triple-exit,
}
use distributed_code_executi.System.Histories.{
  Step, History, working, living, monitoring, scanning, recovering, submitting, removing, waiting,
  nothing, then_step,
}
use distributed_code_executi.System.Interleavings.{
  Change, claiming, storing, burying, retrying, resetting, inserting, refusing,
}
use distributed_code_executi.System.Commits.{Changed, unchanged, Changed-widen, Changed-trans, Row}
use distributed_code_executi.System.Commits.Workers.{ByWorker, process_queue_Row}
use distributed_code_executi.System.Commits.Monitor.{
  ByMonitor, run_reaper_scan_Row, recover_on_startup_Row,
}
use distributed_code_executi.System.Commits.Gateways.{BySubmission, submit_Row, remove_from_dlq_Row}

-- What the services commit: a stored result is that of a run, and a count of retries is in bounds.
abbrev pub ByAny : (Text → Text → Language → SandboxResult) → Change → Type 0
ByAny execute (storing j r) = (code : Text) × (language : Language) × (r ≡ execute j code language)
ByAny execute (retrying n j) = n ≤ max_retry_count
ByAny execute _ = Unit

module _ (execute : Text → Text → Language → SandboxResult) where
  worker-any : (c : Change) → ByWorker execute c → ByAny execute c
  worker-any (claiming j) a = tt
  worker-any (storing j r) a = a
  worker-any (burying j reason) a = tt
  worker-any (retrying n j) a = a
  worker-any resetting a = tt
  worker-any (inserting j body now) a = tt
  worker-any (refusing j) a = tt

  monitor-any : (c : Change) → ByMonitor c → ByAny execute c
  monitor-any (claiming j) a = tt
  monitor-any (storing j r) a = absurd a
  monitor-any (burying j reason) a = tt
  monitor-any (retrying n j) a = a
  monitor-any resetting a = tt
  monitor-any (inserting j body now) a = tt
  monitor-any (refusing j) a = tt

  pub submission-any :
      (i : Text) (body : SubmissionBody) (c : Change) → BySubmission i body c → ByAny execute c
  submission-any i body (claiming j) a = tt
  submission-any i body (storing j r) a = absurd a
  submission-any i body (burying j reason) a = tt
  submission-any i body (retrying n j) a = absurd a
  submission-any i body resetting a = tt
  submission-any i body (inserting j b now) a = tt
  submission-any i body (refusing j) a = tt

module _ ⦃S : Services⦄ (execute : Text → Text → Language → SandboxResult) (i : Text)
    (o : Option Submission) where
  worker_life :
      (n : ℕ) (w : Text) → Keeps (Row (ByWorker execute) i o) any (bootstrap_worker execute n w)
  unfolding bootstrap_worker
  worker_life n w =
      Keeps-bind
        (Keeps-catch (Keeps-init_db (Row (ByWorker execute) i o))
          (λ e. Triple-exit (Row (ByWorker execute) i o)))
        λ _. process_queue_Row execute i o n w

  monitor_start : (lock_id : Text) → Keeps (Row ByMonitor i o) any (bootstrap_monitor lock_id)
  unfolding bootstrap_monitor
  monitor_start lock_id =
      Keeps-catch
        (Keeps-bind (Keeps-init_db (Row ByMonitor i o))
          λ _. Keeps-bind (recover_on_startup_Row i o) λ _. run_reaper_scan_Row i o lock_id)
        (λ e. Triple-exit (Row ByMonitor i o))

module _ ⦃S : Services⦄ (execute : Text → Text → Language → SandboxResult) (W : Text → Type 0)
    (i : Text) where
  abbrev pub Since : State → State → Type 0
  Since s t = Changed (ByAny execute) i (S.submission s.db i) (S.submission t.db i)

  Step-Changed : {s t : State} → Step execute W s t → Since s t
  Step-Changed (working w n faults s mine one) = Changed-widen (worker-any execute) (
      kept (process_queue execute n w) s faults tt
        (process_queue_Row execute i (S.submission s.db i) n w) unchanged)
  Step-Changed (living w n faults s mine one) = Changed-widen (worker-any execute) (
      kept (bootstrap_worker execute n w) s faults tt
        (worker_life execute i (S.submission s.db i) n w) unchanged)
  Step-Changed (monitoring lock_id faults s) = Changed-widen (monitor-any execute) (
      kept (bootstrap_monitor lock_id) s faults tt
        (monitor_start execute i (S.submission s.db i) lock_id) unchanged)
  Step-Changed (scanning lock_id faults s) = Changed-widen (monitor-any execute) (
      kept (run_reaper_scan lock_id) s faults tt
        (run_reaper_scan_Row i (S.submission s.db i) lock_id) unchanged)
  Step-Changed (recovering faults s) = Changed-widen (monitor-any execute) (
      kept recover_orphaned_jobs_on_startup s faults tt
        (recover_on_startup_Row i (S.submission s.db i)) unchanged)
  Step-Changed (submitting j body faults s) =
      Changed-widen (submission-any execute j body)
        (kept (submit j body) s faults tt (submit_Row i (S.submission s.db i) j body) unchanged)
  Step-Changed (removing j faults s) =
      kept (remove_from_dlq j) s faults tt
        (remove_from_dlq_Row (ByAny execute) i (S.submission s.db i) j) unchanged
  Step-Changed (waiting ms s) = unchanged

  pub History-Changed : {s t : State} → History execute W s t → Since s t
  History-Changed (nothing s) = unchanged
  History-Changed (then_step past step) = Changed-trans (History-Changed past) (Step-Changed step)
