-- ===== src/Reaper/Scans.antt =====
-- Whole scans of the reaper (services/system-monitor/src/reaper.ts), seen from one job.
use distributed_code_executi.Common.{
  ◌≡◌, ◌≢◌, refl, sym, ap, ◌∙◌, Bool, true, false, ◌||◌, Option, none, some, inl, inr, List, [],
  ◌∷◌, Text, text_eq, text_eq_iff, Bool-cases, ne_of_text_eq, arith,
}
use distributed_code_executi.Contracts.Keys.{
  pending_key, make_processing_key, text_eq-processing-pending,
}
use distributed_code_executi.Services.{Services, State, Fault}
use distributed_code_executi.Services.Triples.{
  any, Triple, Keeps, Keeps-call, Triple-bind, Triple-weaken, Triple-call, Triple-local, at,
}
use distributed_code_executi.Services.Keeping.{kept, Keeps-pure, Keeps-bind, Keeps-catch}
use distributed_code_executi.Jobs.Queues.{queued}
use distributed_code_executi.Jobs.Places.{Known, Settled, in_pending, Safe}
use distributed_code_executi.Jobs.Updates.{ended}
use distributed_code_executi.Services.Effects.{call}
use distributed_code_executi.Reaper.Sweeps.{Read, Swept, each_Swept, watched}
use distributed_code_executi.Reaper.Handlers.{
  recover_read, deleted, recover_jobs_from_dead_worker, recover_workers, fetch_pages, scan_keys,
  scan_and_recover, acquire_lock, acquired, release_lock, released_lock, scan_if, run_reaper_scan,
  reaper_lock_key, reaper_lock_ttl_ms, processing_queue_prefix, heartbeat_prefix,
}

pub lock-ne-pending : reaper_lock_key ≢ pending_key
unfolding pending_key text_eq
lock-ne-pending = ne_of_text_eq refl

pub lock-ne-processing : (w : Text) → reaper_lock_key ≢ make_processing_key w
unfolding make_processing_key text_eq
lock-ne-processing w = ne_of_text_eq refl

pub text_eq-lock-pending : text_eq reaper_lock_key pending_key ≡ false
unfolding pending_key text_eq
text_eq-lock-pending = refl

pub text_eq-lock-processing : (w : Text) → text_eq reaper_lock_key (make_processing_key w) ≡ false
unfolding make_processing_key text_eq
text_eq-lock-processing w = refl

module _ ⦃S : Services⦄ (u i : Text) where
  pub emptied :
      (q : Text) (raws : List Text) (s : State)
      → S.lrange s.redis q ≡ raws
      → Safe q i s
      → (queued i raws ≡ true → Settled i s)
      → Known i s × ((in_pending i s || ended i s.db) ≡ true)
  emptied q raws s read safe settled = elim (Bool-cases (queued i raws)) [
    | inl e ↦ settled e
    | inr e ↦ (safe.0, ground (arith, ap (queued i) read))
  ]

  -- The queue of `v` is dropped after every entry of it has been gone through.
  deleted-Safe :
      (v : Text) (raws : List Text) (s : State)
      → Swept u i v raws raws s
      → Safe (watched u i) i (deleted (make_processing_key v) s).1
  deleted-Safe v raws s h = elim (Bool-cases (text_eq (make_processing_key v) (watched u i))) [
    | inl e ↦
        rw
          (
            S.lrange-del (make_processing_key v) s.redis pending_key,
            text_eq-processing-pending v,
            S.lrange-del (make_processing_key v) s.redis (watched u i),
            e,
          )
          (emptied (watched u i) raws s
            (ap (S.lrange s.redis) (sym ((text_eq_iff (make_processing_key v) (watched u i)).0 e))
              ∙ h.0.1)
            h.0.0 h.1)
    | inr e ↦
        rw
          (
            S.lrange-del (make_processing_key v) s.redis pending_key,
            text_eq-processing-pending v,
            S.lrange-del (make_processing_key v) s.redis (watched u i),
            e,
          )
          h.0.0
  ]

  module _ (v : Text) where
    drop_Safe :
        (raws : List Text)
        → Triple any
            (Swept u i v raws raws)
            (call (deleted (make_processing_key v)))
            (λ _ s. Safe (watched u i) i s)
            (λ _ s. Safe (watched u i) i s)
            (Safe (watched u i) i)
    drop_Safe raws =
        Triple-call _ (deleted-Safe v raws) (λ s h. h.0.0) (deleted-Safe v raws) (λ s h. h.0.0)

    Read-Safe :
        (raws : List Text)
        → Triple any
            (λ s. Safe (watched u i) i s × Read u i v raws s)
            (recover_read v raws)
            (λ _ s. Safe (watched u i) i s)
            (λ _ s. Safe (watched u i) i s)
            (Safe (watched u i) i)
    Read-Safe [] =
        Triple-weaken (λ s h. (h, λ e. cc (e))) (λ _ s h. h) (λ _ s h. h) (λ s h. h) (drop_Safe [])
    Read-Safe (x ∷ xs) = Triple-bind (each_Swept u i v (x ∷ xs) (x ∷ xs)) (λ _. drop_Safe (x ∷ xs))

    pub worker_Safe : Keeps (Safe (watched u i) i) any (recover_jobs_from_dead_worker v)
    unfolding recover_jobs_from_dead_worker
    worker_Safe =
        Triple-bind
          (Triple-call {Q = λ raws s. Safe (watched u i) i s × Read u i v raws s} _
            (λ s h. (h, refl)) (λ s h. h) (λ s h. h) (λ s h. h))
          Read-Safe

  workers_Safe : (vs : List Text) → Keeps (Safe (watched u i) i) any (recover_workers vs)
  unfolding recover_workers
  workers_Safe [] = Keeps-pure tt
  workers_Safe (v ∷ vs) = Keeps-bind (worker_Safe v) (λ _. workers_Safe vs)

  pages_Safe : (pages : List (List Text)) → Keeps (Safe (watched u i) i) any (fetch_pages pages)
  unfolding fetch_pages
  pages_Safe [] = Keeps-pure []
  pages_Safe (p ∷ ps) =
      Keeps-bind (Keeps-call _ (λ s h. h)) λ _. Keeps-bind (pages_Safe ps) (λ _. Keeps-pure _)

  keys_Safe : (prefix : Text) → Keeps (Safe (watched u i) i) any (scan_keys prefix)
  unfolding scan_keys
  keys_Safe prefix =
      Triple-bind {R = λ _ s. Safe (watched u i) i s} (Triple-local _ (λ s h. h)) pages_Safe

  scan_Safe : Keeps (Safe (watched u i) i) any scan_and_recover
  unfolding scan_and_recover
  scan_Safe =
      Keeps-bind (keys_Safe processing_queue_prefix)
        λ qs. Keeps-bind (keys_Safe heartbeat_prefix) λ hs. workers_Safe _

  pub acquired-Safe :
      (lock_id : Text) (o : Option Text) (s : State)
      → Safe (watched u i) i s
      → Safe (watched u i) i (acquired lock_id o s).1
  acquired-Safe lock_id none s h =
      rw
        (
          S.lrange-set reaper_lock_key lock_id (some reaper_lock_ttl_ms) s.redis pending_key
              lock-ne-pending,
          S.lrange-set reaper_lock_key lock_id (some reaper_lock_ttl_ms) s.redis (watched u i)
              (lock-ne-processing u),
        )
        h
  acquired-Safe lock_id (some owner) s h = h

  pub lock_deleted-Safe :
      (s : State) → Safe (watched u i) i s → Safe (watched u i) i (deleted reaper_lock_key s).1
  lock_deleted-Safe s h =
      rw
        (
          S.lrange-del reaper_lock_key s.redis pending_key,
          text_eq-lock-pending,
          S.lrange-del reaper_lock_key s.redis (watched u i),
          text_eq-lock-processing u,
        )
        h

  released_Safe :
      (lock_id : Text) (o : Option Text) (s : State)
      → Safe (watched u i) i s
      → Safe (watched u i) i (released_lock lock_id o s).1
  released_Safe lock_id none s h = h
  released_Safe lock_id (some owner) s h = elim (Bool-cases (text_eq owner lock_id)) [
    | inl e ↦ rw e (lock_deleted-Safe s h)
    | inr e ↦ rw e h
  ]

  if_Safe : (lock_id : Text) (got : Bool) → Keeps (Safe (watched u i) i) any (scan_if lock_id got)
  unfolding release_lock
  if_Safe lock_id false = Keeps-pure tt
  if_Safe lock_id true =
      Keeps-bind (Keeps-catch scan_Safe (λ _. Keeps-pure tt))
        λ _. Keeps-call _ (λ s h. released_Safe lock_id (S.get s.redis reaper_lock_key) s h)

  pub run_Safe : (lock_id : Text) → Keeps (Safe (watched u i) i) any (run_reaper_scan lock_id)
  unfolding run_reaper_scan acquire_lock
  run_Safe lock_id =
      Keeps-bind (Keeps-call _ (λ s h. acquired-Safe lock_id (S.get s.redis reaper_lock_key) s h))
        (if_Safe lock_id)

  -- A scan of the reaper loses no job, whatever happens to it: with any sequence of faults (refused
  -- calls, calls whose reply is lost, the death of the reaper at any call), a job with a row that
  -- was in the pending queue, in the processing queue of the worker `u`, or over is so afterwards,
  -- whichever workers the scan holds for dead. No other process acts meanwhile.
  pub run_reaper_scan-Safe :
      (lock_id : Text) (s : State) (faults : List Fault)
      → Safe (make_processing_key u) i s
      → Safe (make_processing_key u) i (run_reaper_scan lock_id (at s faults)).1.state
  run_reaper_scan-Safe lock_id s faults h =
      kept (run_reaper_scan lock_id) s faults tt (run_Safe lock_id) h
