-- ===== src/System/Commits/Monitor.antt =====
-- What the monitor commits to the rows: services/system-monitor/src/reaper.ts, and
-- recoverOrphanedJobsOnStartup of its index.ts.
use distributed_code_executi.Common.{
  ℕ, zero, suc, ◌+◌, ◌≤◌, refl, Bool, true, false, Option, none, some, List, [], ◌∷◌, Text, text_eq,
  ltb, if◌then◌else◌, arith,
}
use distributed_code_executi.Contracts.{
  SubmissionStatus, QueuePayload, max_retry_count, is_terminal_status,
}
use distributed_code_executi.Services.{Services, State, Submission}
use distributed_code_executi.Services.Triples.{
  any, Keeps, Keeps-call, Triple-bind, Triple-local, Triple-when,
}
use distributed_code_executi.Services.Keeping.{Keeps-pure, Keeps-bind, Keeps-catch, Keeps-count}
use distributed_code_executi.Jobs.{with_status}
use distributed_code_executi.Reaper.{
  recover_live, recover_job, recover_parsed, recover_each, recover_read,
  recover_jobs_from_dead_worker, recover_workers, fetch_pages, scan_keys, scan_and_recover,
  acquired, acquire_lock, deleted, reaper_lock_key, released_lock, release_lock, scan_if,
  run_reaper_scan,
}
use distributed_code_executi.Startup.{
  in_status, push_rows, rehydrate, recover_orphaned_jobs_on_startup,
}
use distributed_code_executi.System.Interleavings.{
  Change, claiming, storing, burying, retrying, resetting, inserting, refusing, row_after,
}
use distributed_code_executi.System.Commits.{Row, commit, Keeps-set_retry, Keeps-send_to_dlq}

-- The monitor buries, puts back to PENDING with a count of retries up to the limit, and resets.
abbrev pub ByMonitor : Change → Type 0
ByMonitor (claiming j) = ⊥
ByMonitor (storing j r) = ⊥
ByMonitor (burying j reason) = Unit
ByMonitor (retrying n j) = n ≤ max_retry_count
ByMonitor resetting = Unit
ByMonitor (inserting j body now) = ⊥
ByMonitor (refusing j) = ⊥

module _ ⦃S : Services⦄ (i : Text) (o : Option Submission) where
  abbrev I : State → Type 0
  I = Row ByMonitor i o

  live_Row : (v : Text) (job : QueuePayload) → Keeps I any (recover_live v job)
  unfolding recover_live
  live_Row v job =
      Triple-when (ltb max_retry_count (job.retry_count + 1))
        (λ e. Keeps-send_to_dlq ByMonitor i o job _ tt)
        λ e.
          Keeps-bind
            (Keeps-set_retry ByMonitor i o (job.retry_count + 1) job.job_id (ground (arith, e)))
            λ _. Keeps-bind (Keeps-call _ (λ s h. h)) λ _. Keeps-count _ (λ s h. h)

  parsed_Row : (v : Text) (p : Option QueuePayload) → Keeps I any (recover_parsed v p)
  unfolding recover_job
  parsed_Row v none = Keeps-pure tt
  parsed_Row v (some job) = Keeps-bind (Keeps-call _ (λ s h. h)) λ status.
      Triple-when (is_terminal_status status) (λ e. Keeps-count _ (λ s h. h)) (λ e. live_Row v job)

  each_Row : (v : Text) (raws : List Text) → Keeps I any (recover_each v raws)
  unfolding recover_each
  each_Row v [] = Keeps-pure tt
  each_Row v (raw ∷ raws) = Keeps-bind (parsed_Row v (S.parse_job raw)) (λ _. each_Row v raws)

  read_Row : (v : Text) (raws : List Text) → Keeps I any (recover_read v raws)
  read_Row v [] = Keeps-call _ (λ s h. h)
  read_Row v (raw ∷ raws) = Keeps-bind (each_Row v (raw ∷ raws)) (λ _. Keeps-call _ (λ s h. h))

  workers_Row : (vs : List Text) → Keeps I any (recover_workers vs)
  unfolding recover_workers recover_jobs_from_dead_worker
  workers_Row [] = Keeps-pure tt
  workers_Row (v ∷ vs) =
      Keeps-bind (Keeps-bind (Keeps-call _ (λ s h. h)) (read_Row v)) (λ _. workers_Row vs)

  pages_Row : (pages : List (List Text)) → Keeps I any (fetch_pages pages)
  unfolding fetch_pages
  pages_Row [] = Keeps-pure []
  pages_Row (p ∷ ps) =
      Keeps-bind (Keeps-call _ (λ s h. h)) λ _. Keeps-bind (pages_Row ps) (λ _. Keeps-pure _)

  keys_Row : (prefix : Text) → Keeps I any (scan_keys prefix)
  unfolding scan_keys
  keys_Row prefix = Triple-bind {R = λ _ s. I s} (Triple-local _ (λ s h. h)) pages_Row

  scan_Row : Keeps I any scan_and_recover
  unfolding scan_and_recover
  scan_Row = Keeps-bind (keys_Row _) λ qs. Keeps-bind (keys_Row _) λ hs. workers_Row _

  -- The lock is no row.
  locked_Row : (lock_id : Text) (p : Option Text) (s : State) → I s → I (acquired lock_id p s).1
  locked_Row lock_id none s h = h
  locked_Row lock_id (some owner) s h = h

  unlocked_Row :
      (lock_id : Text) (p : Option Text) (s : State) → I s → I (released_lock lock_id p s).1
  unlocked_Row lock_id none s h = h
  unlocked_Row lock_id (some owner) s h = by_owner (text_eq owner lock_id)
    where
      by_owner : (b : Bool) → I (if b then deleted reaper_lock_key s else (tt, s)).1
      by_owner true = h
      by_owner false = h

  if_Row : (lock_id : Text) (got : Bool) → Keeps I any (scan_if lock_id got)
  unfolding release_lock
  if_Row lock_id false = Keeps-pure tt
  if_Row lock_id true =
      Keeps-bind (Keeps-catch scan_Row (λ e. Keeps-pure tt))
        λ _. Keeps-call _ (λ s h. unlocked_Row lock_id _ s h)

  pub run_reaper_scan_Row : (lock_id : Text) → Keeps I any (run_reaper_scan lock_id)
  unfolding run_reaper_scan acquire_lock
  run_reaper_scan_Row lock_id =
      Keeps-bind (Keeps-call _ (λ s h. locked_Row lock_id (S.get s.redis reaper_lock_key) s h))
        (if_Row lock_id)

  rows_Row : (rs : List Submission) → Keeps I any (push_rows rs)
  unfolding push_rows
  rows_Row [] = Keeps-pure tt
  rows_Row (r ∷ rs) = Keeps-bind (Keeps-call _ (λ s h. h)) (λ _. rows_Row rs)

  refill_Row : (n : ℕ) → Keeps I any (rehydrate n)
  unfolding rehydrate
  refill_Row zero = Keeps-bind (Keeps-call _ (λ s h. h)) rows_Row
  refill_Row (suc n) = Keeps-pure tt

  pub recover_on_startup_Row : Keeps I any recover_orphaned_jobs_on_startup
  unfolding recover_orphaned_jobs_on_startup row_after
  recover_on_startup_Row =
      Keeps-bind
        (Keeps-call _ λ s h.
          commit ByMonitor i o resetting s _ tt
            (S.submission-update (in_status SubmissionStatus.running)
              (with_status SubmissionStatus.pending s.now) (λ _. refl) s.db i)
            h)
        λ _. Keeps-bind (Keeps-call _ (λ s h. h)) refill_Row
