-- ===== src/Worker/Possession.antt =====
-- What the worker holds while it is at its own job, and the steps that put the job back, publish the
-- end of its stream and count.
use distributed_code_executi.Common.{
  ◌≡◌, refl, true, false, not, Option, none, some, Text, text_eq_refl, arith,
}
use distributed_code_executi.Contracts.{SubmissionStatus, QueuePayload, is_terminal_status}
use distributed_code_executi.Contracts.Keys.{
  pending_key, make_processing_key, text_eq-processing-pending,
}
use distributed_code_executi.Services.{Services, State, Exception, service_failed}
use distributed_code_executi.Services.Effects.{call}
use distributed_code_executi.Services.Triples.{
  Mode, Triple, Triple-pure, Triple-bind, Triple-call, Triple-when, Triple-count, Triple-time,
}
use distributed_code_executi.Jobs.{status_of}
use distributed_code_executi.Jobs.Updates.{ended}
use distributed_code_executi.Jobs.Places.{
  Known, Settled, Safe, Held, Settled-Safe, Held-Safe, lrange-lpush_self, lrange-lrem_ne,
}
use distributed_code_executi.Worker.Verdict.{SandboxResult}
use distributed_code_executi.Worker.Handlers.{is_terminal, publish_system_chunk, decline, observe}

-- The worker's comparison is the contract's test.
is_terminal_lem : (o : Option SubmissionStatus) → is_terminal o ≡ is_terminal_status o
unfolding is_terminal_status
is_terminal_lem none = refl
is_terminal_lem (some s) = ground arith

module _ ⦃S : Services⦄ where
  -- What an exception leaves for the `catch` block.
  abbrev pub Caught : Text → Exception → State → Type 0
  Caught i e s = (e ≡ service_failed) × Known i s

  abbrev pub Done : Text → State → Type 0
  Done i s = Known i s × (ended i s.db ≡ true)

module _ ⦃S : Services⦄ (worker_id raw : Text) (job : QueuePayload)
    (parsed : S.parse_job raw ≡ some job) where
  abbrev queue : Text
  queue = make_processing_key worker_id

  abbrev Mine : State → Type 0
  Mine = Held queue raw job.job_id

  pub Mine-Safe : (s : State) → Mine s → Safe queue job.job_id s
  Mine-Safe s h = Held-Safe queue raw job s parsed h

  pub Done-Safe : (s : State) → Done job.job_id s → Safe queue job.job_id s
  Done-Safe s h = ground arith

  pushed_Settled :
      (s : State)
      → Mine s
      → Settled job.job_id (record s { redis = S.lpush pending_key raw s.redis })
  pushed_Settled s h =
      (h.0, rw (lrange-lpush_self pending_key raw s.redis, parsed, text_eq_refl job.job_id))

  acknowledged :
      (s : State)
      → Settled job.job_id s
      → Settled job.job_id (record s { redis = S.lrem queue raw s.redis })
  acknowledged s h = (
    h.0,
    rw (lrange-lrem_ne queue raw s.redis pending_key (text_eq-processing-pending worker_id)) h.1,
  )

  over_Settled :
      (o : Option SubmissionStatus) (s : State)
      → not (is_terminal o) ≡ false
      → Mine s × (status_of job.job_id s ≡ o)
      → Settled job.job_id s
  over_Settled o s e h = (h.0.0, ground (arith, is_terminal_lem o))

  module _ {m : Mode} where
    pub decline_custody :
        Triple m Mine
          (decline queue raw job)
          (λ _ s. Settled job.job_id s)
          (Caught job.job_id)
          (Safe queue job.job_id)
    unfolding decline
    decline_custody =
        Triple-bind
          (Triple-call {Q = λ o s. Mine s × (status_of job.job_id s ≡ o)} _ (λ s h. (h, refl))
            (λ s h. (refl, h.0)) (λ s h. (refl, h.0)) Mine-Safe)
          λ o.
            Triple-bind {R = λ _ s. Settled job.job_id s}
              (Triple-when (not (is_terminal o))
                (λ e.
                  Triple-call _ (λ s h. pushed_Settled s h.0) (λ s h. (refl, h.0.0))
                    (λ s h. (refl, h.0.0)) (λ s h. Mine-Safe s h.0))
                (λ e. Triple-pure tt (λ s h. over_Settled o s e h)))
              λ _.
                Triple-call _ acknowledged (λ s h. (refl, h.0)) (λ s h. (refl, h.0))
                  (Settled-Safe queue job.job_id)

    pub Done-step :
        (f : State → Unit {0} × State)
        → ((s : State) → Done job.job_id s → Done job.job_id (f s).1)
        → Triple m
            (Done job.job_id)
            (call f)
            (λ _ s. Done job.job_id s)
            (Caught job.job_id)
            (Safe queue job.job_id)
    Done-step f keep =
        Triple-call f keep (λ s h. (refl, h.0)) (λ s h. (refl, (keep s h).0)) Done-Safe

    pub chunk_custody :
        (content : Text)
        → Triple m
            (Done job.job_id)
            (publish_system_chunk job.job_id content)
            (λ _ s. Done job.job_id s)
            (Caught job.job_id)
            (Safe queue job.job_id)
    unfolding publish_system_chunk
    chunk_custody content = Triple-bind Triple-time λ now.
        Triple-bind {R = λ _ s. Done job.job_id s} (Done-step _ (λ s h. h)) λ _.
          Triple-bind {R = λ _ s. Done job.job_id s} (Done-step _ (λ s h. h))
            λ _. Done-step _ (λ s h. h)

    pub observe_custody :
        (r : SandboxResult)
        → Triple m
            (Done job.job_id)
            (observe worker_id job r)
            (λ _ s. Settled job.job_id s)
            (Caught job.job_id)
            (Safe queue job.job_id)
    unfolding observe
    observe_custody r = Triple-bind (Triple-count _ (λ s h. h)) λ _.
        Triple-bind (Triple-count _ (λ s h. h)) λ _.
          Triple-bind {R = λ _ s. Done job.job_id s}
            (Triple-when r.output_truncated (λ e. Triple-count _ (λ s h. h))
              (λ e. Triple-pure tt (λ s h. h)))
            λ _.
              Triple-when r.stream_output_limit_exceeded
                (λ e. Triple-count _ (λ s h. (h.0, ground arith)))
                (λ e. Triple-pure tt (λ s h. (h.0, ground arith)))
