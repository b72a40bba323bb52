-- ===== src/Reaper/Rescued.antt =====
-- A whole scan that meets no fault: what was in the queue of a dead worker is recovered.
use distributed_code_executi.Common.{
  ◌≡◌, refl, sym, subst, true, false, Option, none, some, inl, inr, List, [], map, Text, text_eq,
  Bool-cases,
}
use distributed_code_executi.Contracts.Keys.{pending_key, make_processing_key}
use distributed_code_executi.Services.{Services, State, Outcome, World, returned, thrown, crashed}
use distributed_code_executi.Services.Triples.{
  quiet, Holds, Triple-bind, Triple-call_quiet, Triple-catch, Triple-given, Triple-weaken, at,
}
use distributed_code_executi.Jobs.Places.{Settled, Safe}
use distributed_code_executi.Reaper.Handlers.{
  member, distinct, find_dead, deleted, scan_and_recover, acquired, acquire_lock, released_lock,
  release_lock, run_reaper_scan, reaper_lock_key, reaper_lock_ttl_ms, processing_queue_prefix,
  heartbeat_prefix, extract_worker_id_from_queue, extract_worker_id_from_heartbeat,
}
use distributed_code_executi.Reaper.Scans.{
  acquired-Safe, lock-ne-processing, text_eq-lock-pending, text_eq-lock-processing,
}
use distributed_code_executi.Reaper.Orphans.{NoStranger}
use distributed_code_executi.Reaper.Detection.{
  member-distinct, member-find_dead, member-map, all_pages, keys_calm,
}
use distributed_code_executi.Reaper.Locking.{extract_worker_id-make}
use distributed_code_executi.Reaper.Rescue.{Before, After, Calm, workers_calm}

module _ ⦃S : Services⦄ (lock_id w : Text) where
  -- The lock is taken.
  abbrev pub locked : State → State
  locked s = (acquired lock_id none s).1

  abbrev pub queue_keys : State → List Text
  queue_keys t = all_pages (S.scan_pages t.redis processing_queue_prefix)

  abbrev pub heartbeat_keys : State → List Text
  heartbeat_keys t = all_pages (S.scan_pages t.redis heartbeat_prefix)

  -- The dead workers that the scan finds.
  abbrev pub dead : State → List Text
  dead t =
      find_dead (distinct [] (map extract_worker_id_from_heartbeat (heartbeat_keys t)))
        (distinct [] (map extract_worker_id_from_queue (queue_keys t)))

  found_dead :
      (t : State)
      → member (make_processing_key w) (queue_keys t) ≡ true
      → member w (map extract_worker_id_from_heartbeat (heartbeat_keys t)) ≡ false
      → member w (dead t) ≡ true
  unfolding member
  found_dead t seen silent =
      let known : member w (map extract_worker_id_from_queue (queue_keys t)) ≡ true =
        subst (λ x. member x (map extract_worker_id_from_queue (queue_keys t)) ≡ true)
          (extract_worker_id-make w).0
          (member-map extract_worker_id_from_queue (make_processing_key w) (queue_keys t) seen) in
      rw
        (
          member-find_dead w (distinct [] (map extract_worker_id_from_heartbeat (heartbeat_keys t)))
              (distinct [] (map extract_worker_id_from_queue (queue_keys t))),
          member-distinct w [] (map extract_worker_id_from_queue (queue_keys t)),
          member-distinct w [] (map extract_worker_id_from_heartbeat (heartbeat_keys t)),
          known,
          silent,
        )
        refl

  module _ (i : Text) where
    scan_calm :
        (t : State)
        → member w (dead t) ≡ true
        → Before w i t
        → Calm w i (λ s. s ≡ t) scan_and_recover (After w i)
    unfolding scan_and_recover
    scan_calm t found begun = Triple-bind (keys_calm t processing_queue_prefix) λ qs.
        Triple-given (λ s h. h.1)
          λ eq.
            Triple-bind
              (Triple-weaken (λ s h. h.0) (λ _ s h. h) (λ e s h. h) (λ s h. h)
                (keys_calm t heartbeat_prefix))
              λ hs.
                Triple-given (λ s h. h.1)
                  λ eh.
                    Triple-weaken (λ s h. subst (Before w i) (sym h.0) begun) (λ _ s h. h)
                      (λ e s h. h) (λ s h. h)
                      (workers_calm w i _ (
                        let eq' : qs ≡ queue_keys t = eq in
                        let eh' : hs ≡ heartbeat_keys t = eh in rw (eq', eh') found))

    locked-Before : (s : State) → Before w i s → Before w i (locked s)
    locked-Before s h = (
      acquired-Safe w i lock_id none s h.0,
      λ v.
          rw
            (S.lrange-set reaper_lock_key lock_id (some reaper_lock_ttl_ms) s.redis
              (make_processing_key v) (lock-ne-processing v))
            (h.1 v),
    )

    -- The lock is no list.
    unlocked : (s : State) → After w i s → After w i (deleted reaper_lock_key s).1
    unlocked s h = (
      rw (S.lrange-del reaper_lock_key s.redis pending_key, text_eq-lock-pending) h.0,
      (
        rw (S.lrange-del reaper_lock_key s.redis (make_processing_key w), text_eq-lock-processing w)
            h.1.0,
        λ v.
            rw
              (
                S.lrange-del reaper_lock_key s.redis (make_processing_key v),
                text_eq-lock-processing v,
              )
              (h.1.1 v),
      ),
    )

    released-After :
        (o : Option Text) (s : State) → After w i s → After w i (released_lock lock_id o s).1
    released-After none s h = h
    released-After (some owner) s h = elim (Bool-cases (text_eq owner lock_id)) [
      | inl e ↦ rw e (unlocked s h)
      | inr e ↦ rw e h
    ]

    rescue :
        (s : State)
        → S.get s.redis reaper_lock_key ≡ none
        → member w (dead (locked s)) ≡ true
        → Before w i s
        → Calm w i (λ x. x ≡ s) (run_reaper_scan lock_id) (After w i)
    unfolding run_reaper_scan acquire_lock release_lock
    rescue s free found begun =
        Triple-bind {R = λ got x. (x ≡ locked s) × (got ≡ true)}
          (Triple-call_quiet _ (λ x h. rw (h, free) (refl, refl)))
          λ got.
            Triple-given (λ x h. h.1)
              λ e. rw e (
                Triple-weaken (λ x h. h.0) (λ _ x h. h) (λ e x h. h) (λ x h. h)
                  (Triple-bind
                    (Triple-catch {H = λ _ _. ⊥}
                      (scan_calm (locked s) found (locked-Before s begun))
                      (λ e. record { run = λ x fs ok h. absurd h }))
                    λ _.
                      Triple-call_quiet _
                        (λ x h. released-After (S.get x.redis reaper_lock_key) x h)))

    -- Where no call fails and nothing else acts: a scan that gets the lock, and whose SCAN gives the
    -- processing queue of a worker, but no heartbeat key with its identifier, returns, and that queue is
    -- empty then; a job with a row that was in it, in the pending queue or over is in the pending queue
    -- or over. Every entry of a processing queue that parses is of a job with a row.
    pub run_reaper_scan-rescues :
        (s : State)
        → S.get s.redis reaper_lock_key ≡ none
        → member (make_processing_key w) (queue_keys (locked s)) ≡ true
        → member w (map extract_worker_id_from_heartbeat (heartbeat_keys (locked s))) ≡ false
        → NoStranger s
        → Safe (make_processing_key w) i s
        → let o = run_reaper_scan lock_id (at s []) in
          (o.0 ≡ returned tt)
          × (S.lrange o.1.state.redis (make_processing_key w) ≡ [])
          × Settled i o.1.state
    run_reaper_scan-rescues s free seen silent known safe =
        told (run_reaper_scan lock_id (at s [])).0 (run_reaper_scan lock_id (at s [])).1
          ((rescue s free (found_dead (locked s) seen silent) (safe, known)).run s [] tt refl)
      where
        told :
            (o : Outcome (Unit {0})) (x : World)
            → Holds quiet (λ _ t. After w i t) (λ _ _. ⊥) (λ _. ⊥) o x
            → (o ≡ returned tt)
              × (S.lrange x.state.redis (make_processing_key w) ≡ [])
              × Settled i x.state
        told (returned a) x h = (refl, h.1.1.0, h.1.0)
        told (thrown e) x h = absurd (h.1)
        told crashed x h = absurd h
