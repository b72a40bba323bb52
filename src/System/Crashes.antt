-- ===== src/System/Crashes.antt =====
-- A worker that has died with a job (services/execution-worker/src/index.ts): the scan of the monitor
-- (services/system-monitor/src/reaper.ts) puts the job back, and another worker serves it.
use distributed_code_executi.Common.{
  ℕ, ◌+◌, ◌≡◌, refl, ap, ◌∙◌, false, Option, none, some, inl, inr, List, [], ◌∷◌, ◌++◌, length,
  Text, text_eq, text_eq_refl, text_eq_sym, Bool-cases, ltb,
}
use distributed_code_executi.Contracts.{
  SubmissionStatus, Language, QueuePayload, max_retry_count, is_terminal_status,
}
use distributed_code_executi.Contracts.Keys.{
  pending_key, make_processing_key, text_eq-processing-pending, text_eq-pending-processing,
}
use distributed_code_executi.Services.{
  Services, State, Submission, returned, dead_worker_recoveries,
}
use distributed_code_executi.Services.Effects.{◌>>=◌, call, local, try_catch, count}
use distributed_code_executi.Services.Triples.{at}
use distributed_code_executi.Jobs.{has_id, with_retry}
use distributed_code_executi.Jobs.Places.{lrange-lpush_self}
use distributed_code_executi.Jobs.Updates.{updated, submission-update_id}
use distributed_code_executi.Worker.{rounds, with_retry_count}
use distributed_code_executi.Worker.Verdict.{SandboxResult}
use distributed_code_executi.Reaper.{
  run_reaper_scan, acquire_lock, release_lock, scan_and_recover, scan_keys, fetch_pages,
  recover_workers, recover_jobs_from_dead_worker, recover_each, recover_job, recover_live,
  released_lock, reaper_lock_key, reaper_lock_ttl_ms, processing_queue_prefix, heartbeat_prefix,
}
use distributed_code_executi.Reaper.Detection.{all_pages}
use distributed_code_executi.Reaper.Scans.{
  lock-ne-pending, text_eq-lock-pending, lock-ne-processing, text_eq-lock-processing,
}
use distributed_code_executi.Reaper.Rescued.{dead, locked}
use distributed_code_executi.System.Backlogs.{
  Job, key, Absent, Distinct, backlog, AllWaiting, AllAnswer, backlog-snoc, AllWaiting-snoc,
  Distinct-snoc, rounds-serve,
}

module _ ⦃S : Services⦄ where
  fetched :
      (pages : List (List Text)) (t : State)
      → fetch_pages pages (at t []) ≡ (returned (all_pages pages), at t [])
  unfolding fetch_pages call ◌>>=◌
  fetched [] t = refl
  fetched (p ∷ ps) t = rw (fetched ps t) refl

  scanned :
      (prefix : Text) (t : State)
      → scan_keys prefix (at t []) ≡ (returned (all_pages (S.scan_pages t.redis prefix)), at t [])
  unfolding scan_keys local ◌>>=◌
  scanned prefix t = fetched (S.scan_pages t.redis prefix) t

  -- The worker `w` had claimed the job, and was the only one that died.
  module _ (lock_id w : Text) (job : QueuePayload) (row : Submission) where
    abbrev queue : Text
    queue = make_processing_key w

    abbrev next : ℕ
    next = job.retry_count + 1

    -- The job that is put back.
    abbrev pub retried : ℕ → Job
    retried now = record {
      row = with_retry next SubmissionStatus.pending now row;
      payload = with_retry_count next job;
    }

    -- What the recovery of the worker leaves.
    abbrev relieved : State → State
    relieved t = record t {
      db = S.update (has_id job.job_id) (with_retry next SubmissionStatus.pending t.now) t.db;
      redis =
          S.del queue (S.lpush pending_key (S.stringify_job (with_retry_count next job)) t.redis);
      metrics = dead_worker_recoveries ∷ t.metrics;
    }

    recovered :
        (t : State)
        → S.lrange t.redis queue ≡ S.stringify_job job ∷ []
        → S.submission t.db job.job_id ≡ some row
        → row.status ≡ SubmissionStatus.running
        → ltb max_retry_count next ≡ false
        → recover_workers (w ∷ []) (at t []) ≡ (returned tt, at (relieved t) [])
    unfolding recover_workers recover_jobs_from_dead_worker recover_each recover_job recover_live
        call local count is_terminal_status ◌>>=◌
    recovered t held here running few = rw (held, S.parse-stringify job, here, running, few) refl

    -- What the whole scan leaves.
    abbrev after_scan : State → State
    after_scan s = (release_lock lock_id (at (relieved (locked lock_id w s)) [])).1.state

    scan-calm :
        (s : State)
        → S.get s.redis reaper_lock_key ≡ none
        → dead lock_id w (locked lock_id w s) ≡ w ∷ []
        → S.lrange s.redis queue ≡ S.stringify_job job ∷ []
        → S.submission s.db job.job_id ≡ some row
        → row.status ≡ SubmissionStatus.running
        → ltb max_retry_count next ≡ false
        → run_reaper_scan lock_id (at s []) ≡ (returned tt, at (after_scan s) [])
    unfolding run_reaper_scan acquire_lock release_lock scan_and_recover call try_catch ◌>>=◌
    scan-calm s free one held here running few =
        let t = locked lock_id w s in
        let kept : S.lrange t.redis queue ≡ S.stringify_job job ∷ [] =
          S.lrange-set reaper_lock_key lock_id (some reaper_lock_ttl_ms) s.redis queue
            (lock-ne-processing w)
          ∙ held in
        rw
          (
            free,
            scanned processing_queue_prefix t,
            scanned heartbeat_prefix t,
            one,
            recovered t kept here running few,
          )
          refl

    -- The release of the lock leaves lists and rows.
    lrange-released :
        (o : Option Text) (t : State) (k : Text)
        → text_eq reaper_lock_key k ≡ false
        → S.lrange (released_lock lock_id o t).1.redis k ≡ S.lrange t.redis k
    lrange-released none t k other = refl
    lrange-released (some owner) t k other = elim (Bool-cases (text_eq owner lock_id)) [
      | inl e ↦ rw (e, S.lrange-del reaper_lock_key t.redis k, other) refl
      | inr e ↦ rw e refl
    ]

    db-released : (o : Option Text) (t : State) → (released_lock lock_id o t).1.db ≡ t.db
    db-released none t = refl
    db-released (some owner) t = elim (Bool-cases (text_eq owner lock_id)) [
      | inl e ↦ rw e refl
      | inr e ↦ rw e refl
    ]

    module _ (s : State) where
      lrange-after :
          (k : Text)
          → text_eq reaper_lock_key k ≡ false
          → S.lrange (after_scan s).redis k ≡ S.lrange (relieved (locked lock_id w s)).redis k
      unfolding release_lock call
      lrange-after k other =
          let t = relieved (locked lock_id w s) in
          lrange-released (S.get t.redis reaper_lock_key) t k other

      pending-after :
          S.lrange (after_scan s).redis pending_key
          ≡ S.stringify_job (with_retry_count next job) ∷ S.lrange s.redis pending_key
      pending-after =
          lrange-after pending_key text_eq-lock-pending
          ∙ rw
              (
                S.lrange-del queue
                    (S.lpush pending_key (S.stringify_job (with_retry_count next job))
                      (locked lock_id w s).redis)
                    pending_key,
                text_eq-processing-pending w,
                lrange-lpush_self pending_key (S.stringify_job (with_retry_count next job))
                    (locked lock_id w s).redis,
                S.lrange-set reaper_lock_key lock_id (some reaper_lock_ttl_ms) s.redis pending_key
                    lock-ne-pending,
              )
              refl

      queue-after : S.lrange (after_scan s).redis queue ≡ []
      queue-after =
          lrange-after queue (text_eq-lock-processing w)
          ∙ rw
              (
                S.lrange-del queue
                    (S.lpush pending_key (S.stringify_job (with_retry_count next job))
                      (locked lock_id w s).redis)
                    queue,
                text_eq_refl queue,
              )
              refl

      row-after :
          (k : Text)
          → S.submission (after_scan s).db k
            ≡ updated job.job_id
                (with_retry next SubmissionStatus.pending s.now)
                k
                (S.submission s.db k)
      unfolding release_lock call
      row-after k =
          let t = relieved (locked lock_id w s) in
          ap (λ d. S.submission d k) (db-released (S.get t.redis reaper_lock_key) t)
          ∙ submission-update_id job.job_id (with_retry next SubmissionStatus.pending s.now)
              (λ _. refl) s.db k

      AllWaiting-after :
          (js : List Job) → Absent job.job_id js → AllWaiting js s → AllWaiting js (after_scan s)
      AllWaiting-after [] a h = tt
      AllWaiting-after (j ∷ js) a h = (
        (row-after (key j) ∙ rw (text_eq_sym job.job_id (key j), a.0) h.0.0, h.0.1),
        AllWaiting-after js a.1 h.1,
      )

  -- A worker has died while it ran a job that may be retried. The lock of the reaper is free, and the
  -- monitor's scan holds this worker, and no other, for dead. In the pending queue are any jobs with
  -- different identifiers, whose rows are PENDING. Where no call fails, the scan and then another
  -- worker, in as many rounds as there are jobs, return; the queue of the dead worker and the pending
  -- queue are empty, and GET /submissions/:id tells of each of these jobs and of the crashed one the
  -- verdict on the new worker's run of its own code, with one retry more for the latter.
  pub crash-served :
      (execute : Text → Text → Language → SandboxResult) (lock_id w worker_id : Text)
      (job : QueuePayload) (row : Submission) (js : List Job) (s : State)
      → S.get s.redis reaper_lock_key ≡ none
      → dead lock_id w (locked lock_id w s) ≡ w ∷ []
      → S.lrange s.redis (make_processing_key w) ≡ S.stringify_job job ∷ []
      → S.submission s.db job.job_id ≡ some row
      → row.status ≡ SubmissionStatus.running
      → ltb max_retry_count (job.retry_count + 1) ≡ false
      → S.lrange s.redis pending_key ≡ backlog js
      → AllWaiting js s
      → Distinct js
      → Absent job.job_id js
      → let all = js ++ retried lock_id w job row s.now ∷ [] in
        let o =
          (run_reaper_scan lock_id >>= λ _. rounds execute (length all) worker_id) (at s []) in
        (o.0 ≡ returned tt)
        × (S.lrange o.1.state.redis (make_processing_key w) ≡ [])
        × (S.lrange o.1.state.redis pending_key ≡ [])
        × AllAnswer execute worker_id all o.1.state
  unfolding ◌>>=◌
  crash-served execute lock_id w worker_id job row js s free one held here running few waits ready
        apart fresh =
      let j = retried lock_id w job row s.now in
      let t = after_scan lock_id w job row s in
      let o =
        rounds-serve execute worker_id (js ++ j ∷ []) t
          (pending-after lock_id w job row s ∙ rw (backlog-snoc js j, waits) refl)
          (AllWaiting-snoc js j t (AllWaiting-after lock_id w job row s js fresh ready) (
            row-after lock_id w job row s job.job_id ∙ rw (text_eq_refl job.job_id, here) refl,
            refl,
          ))
          (Distinct-snoc js j fresh apart) in
      rw (scan-calm lock_id w job row s free one held here running few) (
        o.0,
        o.1 (make_processing_key w)
            ∙ rw (text_eq-pending-processing w) (queue-after lock_id w job row s),
        o.1 pending_key ∙ rw (text_eq_refl pending_key) refl,
        o.3,
      )
