-- ===== src/Worker/Payloads.antt =====
-- The entry that a round of the worker's loop takes: what its processing does to a job, whichever it is.
use distributed_code_executi.Common.{
  ◌≡◌, refl, subst, ap, ◌∙◌, true, false, ◌||◌, Option, none, some, inl, inr, List, ◌∷◌, [], ◌++◌,
  Text, text_eq, text_eq_iff, text_eq_refl, Bool-cases, arith,
}
use distributed_code_executi.Contracts.{QueuePayload, Language}
use distributed_code_executi.Contracts.Keys.{
  pending_key, make_processing_key, pending_key-ne-processing, text_eq-pending-processing,
}
use distributed_code_executi.Services.{
  Services, State, Exception, bad_json, service_failed, key_violation,
}
use distributed_code_executi.Services.Triples.{
  once, quiet, spent, Triple, Triple-pure, Triple-throw, Triple-catch, Triple-weaken, Keeps,
}
use distributed_code_executi.Jobs.Queues.{
  names, contains, queued, queued-append, split_last, split_last_lem,
}
use distributed_code_executi.Jobs.Places.{Known, Settled, Safe, Settled-Safe}
use distributed_code_executi.Jobs.Bystanders.{Safe-Stable}
use distributed_code_executi.Worker.Verdict.{SandboxResult}
use distributed_code_executi.Worker.Handlers.{popped, process_payload, process_popped, give_back}
use distributed_code_executi.Worker.Retry.{retry_quiet}
use distributed_code_executi.Worker.Possession.{Caught}
use distributed_code_executi.Worker.Custody.{run_job_custody}
use distributed_code_executi.Worker.Others.{Safe-Unaware, run_job_other, give_back_other}

module _ ⦃S : Services⦄ (execute : Text → Text → Language → SandboxResult) (worker_id : Text) where
  abbrev queue : Text
  queue = make_processing_key worker_id

  -- What is known after the pop.
  abbrev pub Got : Text → Option Text → State → Type 0
  Got i none s = Safe queue i s
  Got i (some raw) s = Safe queue i s × (contains raw (S.lrange s.redis queue) ≡ true)

  module _ (i : Text) (s : State) (rest : List Text) (raw : Text)
      (split : S.lrange s.redis pending_key ≡ rest ++ raw ∷ []) where
    pending_after : S.lrange (S.rpoplpush pending_key queue s.redis) pending_key ≡ rest
    pending_after = rw (
      S.lrange-rpoplpush pending_key queue raw rest s.redis pending_key
          (pending_key-ne-processing worker_id) split,
      text_eq_refl pending_key,
    )

    queue_after :
        S.lrange (S.rpoplpush pending_key queue s.redis) queue ≡ raw ∷ S.lrange s.redis queue
    queue_after = rw (
      S.lrange-rpoplpush pending_key queue raw rest s.redis queue
          (pending_key-ne-processing worker_id) split,
      text_eq-pending-processing worker_id,
      text_eq_refl queue,
    )

    pending_before :
        queued i (S.lrange s.redis pending_key)
        ≡ (queued i rest || (names i (S.parse_job raw) || false))
    pending_before = ap (queued i) split ∙ queued-append i rest (raw ∷ [])

    moved :
        Safe queue i s
        → Got i (some raw) (record s { redis = S.rpoplpush pending_key queue s.redis })
    moved h =
        rw (pending_after, queue_after, text_eq_refl raw)
          ((h.0, ground (arith, pending_before)), refl)

  pub popped_Got :
      (i : Text) (s : State) (o : Option (List Text × Text))
      → split_last (S.lrange s.redis pending_key) ≡ o
      → Safe queue i s
      → Got i (popped queue o s).0 (popped queue o s).1
  popped_Got i s none e h = h
  popped_Got i s (some (rest, raw)) e h =
      moved i s rest raw (split_last_lem (S.lrange s.redis pending_key) rest raw e) h

  give_back_quiet :
      (raw : Text) (job : QueuePayload)
      → Triple quiet
          (Known job.job_id)
          (give_back execute worker_id raw job)
          (λ _ s. Settled job.job_id s)
          (λ _ _. ⊥)
          (λ _. ⊥)
  unfolding give_back
  give_back_quiet raw job =
      Triple-catch (retry_quiet {E = λ _ _. ⊥} worker_id raw job)
        (λ e. record { run = λ s fs ok h. absurd h })

  caught :
      (raw : Text) (job : QueuePayload) (e : Exception)
      → Triple
          (spent once e)
          (Caught job.job_id e)
          (give_back execute worker_id raw job)
          (λ _ s. Settled job.job_id s)
          (λ _ _. ⊥)
          (Safe queue job.job_id)
  caught raw job service_failed =
      Triple-weaken (λ s h. h.1) (λ _ s h. h) (λ e s h. h) (λ s h. absurd h)
        (give_back_quiet raw job)
  caught raw job bad_json = record { run = λ s fs ok h. cc (h.0) }
  caught raw job key_violation = record { run = λ s fs ok h. cc (h.0) }

  -- The entry in hand is of the job `i`, or not.
  own :
      (raw : Text) (job : QueuePayload) (i : Text)
      → S.parse_job raw ≡ some job
      → text_eq job.job_id i ≡ true
      → Triple once
          (Got i (some raw))
          (process_payload execute worker_id raw (some job))
          (λ _ s. Safe queue i s)
          (λ _ _. ⊥)
          (Safe queue i)
  own raw job i parsed e =
      subst
        (λ j.
          Triple once (Got j (some raw)) (process_payload execute worker_id raw (some job))
            (λ _ s. Safe queue j s) (λ _ _. ⊥) (Safe queue j))
        ((text_eq_iff job.job_id i).0 e)
        (Triple-weaken (λ s h. (h.0.0, h.1)) (λ _ s h. Settled-Safe queue job.job_id s h)
          (λ e' s h. h) (λ s h. h)
          (Triple-catch (run_job_custody worker_id raw job parsed execute) (caught raw job)))

  others :
      (raw : Text) (job : QueuePayload) (i : Text)
      → S.parse_job raw ≡ some job
      → text_eq job.job_id i ≡ false
      → Keeps (Safe queue i) once (process_payload execute worker_id raw (some job))
  others raw job i parsed e =
      let un = Safe-Unaware worker_id i worker_id raw (rw (parsed, e)) in
      Triple-catch (run_job_other i worker_id raw job (Safe-Stable worker_id i) un e execute)
        (λ _. give_back_other i worker_id raw job (Safe-Stable worker_id i) un e execute)

  payload_Safe :
      (raw : Text) (i : Text) (o : Option QueuePayload)
      → S.parse_job raw ≡ o
      → Triple once
          (Got i (some raw))
          (process_payload execute worker_id raw o)
          (λ _ s. Safe queue i s)
          (λ _ s. Safe queue i s)
          (Safe queue i)
  payload_Safe raw i none parsed = Triple-throw bad_json refl (λ s h. h.0)
  payload_Safe raw i (some job) parsed = elim (Bool-cases (text_eq job.job_id i)) [
    | inl e ↦
        Triple-weaken (λ s h. h) (λ _ s h. h) (λ x s h. absurd h) (λ s h. h)
          (own raw job i parsed e)
    | inr e ↦
        Triple-weaken (λ s h. h.0) (λ _ s h. h) (λ x s h. h) (λ s h. h) (others raw job i parsed e)
  ]

  pub popped_Safe :
      (i : Text) (o : Option Text)
      → Triple once
          (Got i o)
          (process_popped execute worker_id o)
          (λ _ s. Safe queue i s)
          (λ _ s. Safe queue i s)
          (Safe queue i)
  popped_Safe i none = Triple-pure tt (λ s h. h)
  popped_Safe i (some raw) = payload_Safe raw i (S.parse_job raw) refl
