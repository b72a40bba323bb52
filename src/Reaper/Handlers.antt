-- ===== src/Reaper/Handlers.antt =====
-- The functions of services/system-monitor/src/reaper.ts.
use distributed_code_executi.Common.{
  ℕ, ◌+◌, Bool, true, false, ◌||◌, not, Option, none, some, List, [], ◌∷◌, ◌++◌, map, Text, codes,
  text_eq, ltb, if◌then◌else◌,
}
use distributed_code_executi.Contracts.{
  SubmissionStatus, QueuePayload, is_terminal_status, max_retry_count,
}
use distributed_code_executi.Contracts.Keys.{pending_key, make_processing_key}
use distributed_code_executi.Services.{
  Services, State, reaper_terminal_skips, dead_worker_recoveries,
}
use distributed_code_executi.Services.Effects.{M, pure, try_catch, call, local, count, ◌>>=◌, ◌>>◌}
use distributed_code_executi.Jobs.{set_retry, select_status, lpush, send_to_dlq}
use distributed_code_executi.Worker.Verdict.{decimal, starts_with}
use distributed_code_executi.Worker.{with_retry_count}

abbrev pub processing_queue_prefix : Text
processing_queue_prefix = codes "jobs:queue:processing:"

abbrev pub heartbeat_prefix : Text
heartbeat_prefix = codes "worker:heartbeat:"

abbrev pub reaper_lock_key : Text
reaper_lock_key = codes "reaper:lock"

abbrev pub reaper_lock_ttl_ms : ℕ
reaper_lock_ttl_ms = 15000

abbrev pub without_prefix : Text → Text → Text
without_prefix [] text = text
without_prefix (p ∷ ps) [] = []
without_prefix (p ∷ ps) (c ∷ cs) = without_prefix ps cs

-- text.replace(needle, ''): the first occurrence is taken out.
unfoldable pub remove_text : Text → Text → Text
remove_text needle [] = []
remove_text needle (c ∷ cs) =
    let later = c ∷ remove_text needle cs in
    if starts_with needle (c ∷ cs) then without_prefix needle (c ∷ cs) else later

unfoldable pub extract_worker_id_from_queue : Text → Text
extract_worker_id_from_queue key = remove_text processing_queue_prefix key

unfoldable pub extract_worker_id_from_heartbeat : Text → Text
extract_worker_id_from_heartbeat key = remove_text heartbeat_prefix key

-- `Set.has`
unfoldable pub member : Text → List Text → Bool
member x [] = false
member x (y ∷ ys) = text_eq x y || member x ys

-- The members of `new Set(list)`, in the order of their first occurrences.
unfoldable pub distinct : List Text → List Text → List Text
distinct seen [] = []
distinct seen (x ∷ xs) = elim (member x seen) [
  | true ↦ distinct seen xs
  | false ↦ x ∷ distinct (x ∷ seen) xs
]

unfoldable pub find_dead : List Text → List Text → List Text
find_dead alive [] = []
find_dead alive (w ∷ ws) =
    let rest = find_dead alive ws in if not (member w alive) then w ∷ rest else rest

abbrev pub died_reason : Text → Text
died_reason dead_worker_id =
    codes "Worker "
    ++ (dead_worker_id
        ++ (codes " died. Exceeded max retry count (" ++ (decimal max_retry_count ++ codes ").")))

module _ ⦃S : Services⦄ where
  unfoldable pub fetch_pages : List (List Text) → M (List Text)
  fetch_pages [] = pure []
  fetch_pages (page ∷ pages) = do
    found ← call (λ s. (page, s))
    rest ← fetch_pages pages
    pure (found ++ rest)

  -- The cursor loop: one call for each page that the server hands out.
  unfoldable pub scan_keys : Text → M (List Text)
  scan_keys prefix = do pages ← local (λ s. (S.scan_pages s.redis prefix, s)); fetch_pages pages

  abbrev pub deleted : Text → State → Unit {0} × State
  deleted key s = (tt, record s { redis = S.del key s.redis })

  -- A job that is not over: to the dead letter queue after its last attempt, else back.
  unfoldable pub recover_live : Text → QueuePayload → M Unit
  recover_live dead_worker_id job =
      if ltb max_retry_count (job.retry_count + 1)
      then send_to_dlq job (died_reason dead_worker_id)
      else do
        set_retry (job.retry_count + 1) SubmissionStatus.pending job.job_id
        lpush pending_key (S.stringify_job (with_retry_count (job.retry_count + 1) job))
        count dead_worker_recoveries

  abbrev pub recover_checked : Text → QueuePayload → Option SubmissionStatus → M Unit
  recover_checked dead_worker_id job current_status =
      if is_terminal_status current_status
      then count reaper_terminal_skips
      else recover_live dead_worker_id job

  -- The body of the loop over the orphans, for a payload that was parsed.
  unfoldable pub recover_job : Text → QueuePayload → M Unit
  recover_job dead_worker_id job = do
    current_status ← select_status job.job_id
    recover_checked dead_worker_id job current_status

  -- A payload that is no JSON is skipped.
  abbrev pub recover_parsed : Text → Option QueuePayload → M Unit
  recover_parsed dead_worker_id none = pure tt
  recover_parsed dead_worker_id (some job) = recover_job dead_worker_id job

  unfoldable pub recover_each : Text → List Text → M Unit
  recover_each dead_worker_id [] = pure tt
  recover_each dead_worker_id (raw_job ∷ raw_jobs) = do
    recover_parsed dead_worker_id (S.parse_job raw_job)
    recover_each dead_worker_id raw_jobs

  abbrev pub recover_read : Text → List Text → M Unit
  recover_read dead_worker_id [] = call (deleted (make_processing_key dead_worker_id))
  recover_read dead_worker_id (raw_job ∷ raw_jobs) = do
    recover_each dead_worker_id (raw_job ∷ raw_jobs)
    call (deleted (make_processing_key dead_worker_id))

  unfoldable pub recover_jobs_from_dead_worker : Text → M Unit
  recover_jobs_from_dead_worker dead_worker_id = do
    raw_jobs ← call (λ s. (S.lrange s.redis (make_processing_key dead_worker_id), s))
    recover_read dead_worker_id raw_jobs

  unfoldable pub recover_workers : List Text → M Unit
  recover_workers [] = pure tt
  recover_workers (w ∷ ws) = do recover_jobs_from_dead_worker w; recover_workers ws

  -- What the `try` of the scan does; with no dead worker the loop has no rounds.
  unfoldable pub scan_and_recover : M Unit
  scan_and_recover = do
    processing_queue_keys ← scan_keys processing_queue_prefix
    heartbeat_keys ← scan_keys heartbeat_prefix
    recover_workers (
        find_dead (distinct [] (map extract_worker_id_from_heartbeat heartbeat_keys))
          (distinct [] (map extract_worker_id_from_queue processing_queue_keys)))

  -- SET lock id PX ttl NX
  abbrev pub acquired : Text → Option Text → State → Bool × State
  acquired lock_id none s =
      (true, record s { redis = S.set reaper_lock_key lock_id (some reaper_lock_ttl_ms) s.redis })
  acquired lock_id (some owner) s = (false, s)

  unfoldable pub acquire_lock : Text → M Bool
  acquire_lock lock_id = call (λ s. acquired lock_id (S.get s.redis reaper_lock_key) s)

  -- RELEASE_LOCK_SCRIPT, which the server runs as one command.
  abbrev pub released_lock : Text → Option Text → State → Unit {0} × State
  released_lock lock_id none s = (tt, s)
  released_lock lock_id (some owner) s =
      if text_eq owner lock_id then deleted reaper_lock_key s else (tt, s)

  unfoldable pub release_lock : Text → M Unit
  release_lock lock_id = call (λ s. released_lock lock_id (S.get s.redis reaper_lock_key) s)

  abbrev pub scan_if : Text → Bool → M Unit
  scan_if lock_id false = pure tt
  scan_if lock_id true = do try_catch scan_and_recover (λ _. pure tt); release_lock lock_id

  unfoldable pub run_reaper_scan : Text → M Unit
  run_reaper_scan lock_id = do got ← acquire_lock lock_id; scan_if lock_id got
