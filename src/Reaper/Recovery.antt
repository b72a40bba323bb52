-- ===== src/Reaper/Recovery.antt =====
-- One orphan in the queue of a dead worker, as the reaper recovers it.
use distributed_code_executi.Common.{
  ℕ, ◌+◌, ◌≡◌, refl, true, false, ◌||◌, Option, inl, inr, List, Text, text_eq_refl, ltb, arith,
}
use distributed_code_executi.Contracts.{
  SubmissionStatus, QueuePayload, is_terminal_status, max_retry_count, failed,
}
use distributed_code_executi.Contracts.Keys.{
  pending_key, dead_letter_key, make_processing_key, text_eq-pending-processing,
  text_eq-dead_letter-processing,
}
use distributed_code_executi.Services.{Services, State, Exception}
use distributed_code_executi.Services.Triples.{
  Mode, Triple, Triple-bind, Triple-call, Triple-when, Triple-count, Triple-time, Triple-weaken,
}
use distributed_code_executi.Services.Transactions.{InTx, Triple-transaction}
use distributed_code_executi.Jobs.{
  has_id, with_status, with_retry, status_of, fail_job, send_to_dlq, dlq_result, dlq_conflict,
}
use distributed_code_executi.Jobs.Updates.{ended, known-update, ended-with_status}
use distributed_code_executi.Jobs.Results.{
  Triple-store_result, known-with_result, ended-with_result,
}
use distributed_code_executi.Jobs.Places.{
  in_pending, in_queue, Known, Settled, Safe, Settled-Safe, lrange-lpush_self, lrange-lpush_ne,
}
use distributed_code_executi.Worker.{with_retry_count}
use distributed_code_executi.Reaper.Handlers.{recover_live, recover_job, died_reason}

-- `u` is the worker whose queue is watched, `v` the dead worker, `raws` what was read of its queue.
module _ ⦃S : Services⦄ (u v : Text) (raws : List Text) (job : QueuePayload) where
  abbrev i : Text
  i = job.job_id

  abbrev watched : Text
  watched = make_processing_key u

  abbrev Read : State → Type 0
  Read s = S.lrange s.redis (make_processing_key v) ≡ raws

  abbrev Begun : State → Type 0
  Begun s = Safe watched i s × Read s

  abbrev Over : State → Type 0
  Over s = (Known i s × (ended i s.db ≡ true)) × Read s

  abbrev Waiting : State → Type 0
  Waiting s = (Known i s × ((in_pending i s || in_queue watched i s) ≡ true)) × Read s

  abbrev Unlost : Exception → State → Type 0
  Unlost e s = Safe watched i s

  Over-Safe : (s : State) → Over s → Safe watched i s
  Over-Safe s h = ground arith

  Waiting-Safe : (s : State) → Waiting s → Safe watched i s
  Waiting-Safe s h = ground arith

  Read-pending :
      (x : Text) (s : State) → Read s → Read (record s { redis = S.lpush pending_key x s.redis })
  Read-pending x s h =
      rw
        (lrange-lpush_ne pending_key x s.redis (make_processing_key v)
          (text_eq-pending-processing v))
        h

  Read-dead_letter :
      (x : Text) (s : State)
      → Read s
      → Read (record s { redis = S.lpush dead_letter_key x s.redis })
  Read-dead_letter x s h =
      rw
        (lrange-lpush_ne dead_letter_key x s.redis (make_processing_key v)
          (text_eq-dead_letter-processing v))
        h

  pushed :
      (n : ℕ) (s : State)
      → Waiting s
      → Settled i (record s {
        redis = S.lpush pending_key (S.stringify_job (with_retry_count n job)) s.redis;
      })
        × Read (record s {
          redis = S.lpush pending_key (S.stringify_job (with_retry_count n job)) s.redis;
        })
  pushed n s h = (
    (
      h.0.0,
      rw (
        lrange-lpush_self pending_key (S.stringify_job (with_retry_count n job)) s.redis,
        S.parse-stringify (with_retry_count n job),
        text_eq_refl job.job_id,
      ),
    ),
    Read-pending (S.stringify_job (with_retry_count n job)) s h.1,
  )

  retried :
      (n : ℕ) (s : State)
      → Waiting s
      → Waiting
          (record s { db = S.update (has_id i) (with_retry n SubmissionStatus.pending s.now) s.db })
  retried n s h = (
    (
      rw (known-update (has_id i) (with_retry n SubmissionStatus.pending s.now) (λ _. refl) s.db i)
          h.0.0,
      h.0.1,
    ),
    h.1,
  )

  failed-Over :
      (s : State)
      → Begun s
      → Over (record s { db = S.update (has_id i) (with_status failed s.now) s.db })
  failed-Over s h = (
    (
      rw (known-update (has_id i) (with_status failed s.now) (λ _. refl) s.db i) h.0.0,
      ended-with_status i failed s.now s.db (unfold is_terminal_status in refl) h.0.0,
    ),
    h.1,
  )

  not_over :
      (o : Option SubmissionStatus) (s : State)
      → is_terminal_status o ≡ false
      → Begun s × (status_of i s ≡ o)
      → Waiting s
  not_over o s e h = ground arith

  over :
      (o : Option SubmissionStatus) (s : State)
      → is_terminal_status o ≡ true
      → Begun s × (status_of i s ≡ o)
      → Settled i s × Read s
  over o s e h = ground arith

  module _ {m : Mode} where
    fail_job-Over :
        (reason : Text)
        → Triple m
            (λ s. InTx Begun s × Begun s)
            (fail_job i reason)
            (λ _ s. InTx Begun s × Over s)
            (λ e s. Unit {0} × InTx Begun s)
            (InTx Begun)
    unfolding fail_job
    fail_job-Over reason =
        Triple-bind {R = λ _ s. InTx Begun s × Over s}
          (Triple-call _ (λ s h. (h.0, failed-Over s h.1)) (λ s h. (tt, h.0)) (λ s h. (tt, h.0))
            (λ s h. h.0))
          λ _.
            Triple-store_result (dlq_result i reason) dlq_conflict (λ s h. h.1.0.0)
              (λ s h. (
                h.0,
                (
                  (
                    rw (known-with_result (dlq_result i reason) dlq_conflict s i) h.1.0.0,
                    rw (ended-with_result (dlq_result i reason) dlq_conflict s i) h.1.0.1,
                  ),
                  h.1.1,
                ),
              ))
              (λ s h. (tt, h.0)) (λ s h. (tt, h.0)) (λ s h. h.0)

    dlq_Over :
        (reason : Text)
        → Triple m Begun (send_to_dlq job reason) (λ _ s. Over s) Unlost (Safe watched i)
    unfolding send_to_dlq
    dlq_Over reason = Triple-bind Triple-time λ now.
        Triple-bind
          (Triple-weaken (λ s h. h) (λ _ s h. h)
            (λ e s h. elim h.1 [ inl b ↦ b.0 | inr o ↦ Over-Safe s o ])
            (λ s h. elim h [ inl b ↦ b.0 | inr o ↦ Over-Safe s o ])
            (Triple-transaction Begun Over (λ _. Unit {0}) tt (λ s o h. h) (λ s o h. h)
              (fail_job-Over reason)))
          λ _.
            Triple-bind {R = λ _ s. Over s}
              (Triple-call _ (λ s h. (h.0, Read-dead_letter _ s h.1)) Over-Safe
                (λ s h.
                  Over-Safe (record s { redis = S.lpush dead_letter_key _ s.redis })
                    (h.0, Read-dead_letter _ s h.1))
                Over-Safe)
              λ _. Triple-count _ (λ s h. h)

    live_Settled :
        Triple m Waiting (recover_live v job) (λ _ s. Settled i s × Read s) Unlost (Safe watched i)
    unfolding recover_live
    live_Settled =
        Triple-when (ltb max_retry_count (job.retry_count + 1))
          (λ e.
            Triple-weaken (λ s h. (Waiting-Safe s h, h.1)) (λ _ s h. ((h.0.0, ground arith), h.1))
              (λ _ s h. h) (λ s h. h) (dlq_Over (died_reason v)))
          λ e.
            Triple-bind {R = λ _ s. Waiting s}
              (Triple-call _ (retried (job.retry_count + 1)) Waiting-Safe
                (λ s h.
                  Waiting-Safe
                    (record s {
                      db =
                          S.update (has_id i)
                            (with_retry (job.retry_count + 1) SubmissionStatus.pending s.now) s.db;
                    })
                    (retried (job.retry_count + 1) s h))
                Waiting-Safe)
              λ _.
                Triple-bind {R = λ _ s. Settled i s × Read s}
                  (Triple-call _ (pushed (job.retry_count + 1)) Waiting-Safe
                    (λ s h.
                      Settled-Safe watched i
                        (record s {
                          redis =
                              S.lpush pending_key
                                (S.stringify_job (with_retry_count (job.retry_count + 1) job))
                                s.redis;
                        })
                        (pushed (job.retry_count + 1) s h).0)
                    Waiting-Safe)
                  λ _. Triple-count _ (λ s h. h)

    -- An orphan whose recovery returns is in the pending queue or over; one whose recovery was
    -- cut short is where it was, or there.
    pub recover_job-Settled :
        Triple m Begun (recover_job v job) (λ _ s. Settled i s × Read s) Unlost (Safe watched i)
    unfolding recover_job
    recover_job-Settled =
        Triple-bind
          (Triple-call {Q = λ o s. Begun s × (status_of i s ≡ o)} _ (λ s h. (h, refl)) (λ s h. h.0)
            (λ s h. h.0) (λ s h. h.0))
          λ o.
            Triple-when (is_terminal_status o) (λ e. Triple-count _ (λ s h. over o s e h))
              λ e.
                Triple-weaken (λ s h. not_over o s e h) (λ _ s h. h) (λ _ s h. h) (λ s h. h)
                  live_Settled
