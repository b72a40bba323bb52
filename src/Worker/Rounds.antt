-- ===== src/Worker/Rounds.antt =====
-- Rounds of the worker's loop: what they do to a job, whichever it is.
use distributed_code_executi.Common.{ℕ, zero, suc, refl, Option, none, some, List, Text, codes}
use distributed_code_executi.Contracts.{Language}
use distributed_code_executi.Contracts.Keys.{
  pending_key, make_processing_key, make_heartbeat_key, heartbeat-ne-pending,
  heartbeat-ne-processing,
}
use distributed_code_executi.Services.{Services, State, Fault}
use distributed_code_executi.Services.Triples.{
  once, Triple, Triple-pure, Triple-bind, Triple-catch, Triple-call, Triple-count, AtMostOne, at,
}
use distributed_code_executi.Services.Keeping.{kept, Keeps-never}
use distributed_code_executi.Jobs.Queues.{split_last}
use distributed_code_executi.Jobs.Places.{Safe}
use distributed_code_executi.Worker.Verdict.{SandboxResult}
use distributed_code_executi.Worker.Handlers.{
  popped, process_next, rounds, send_heartbeat, process_queue,
}
use distributed_code_executi.Worker.Payloads.{Got, popped_Got, popped_Safe}

module _ ⦃S : Services⦄ (execute : Text → Text → Language → SandboxResult) (worker_id : Text) where
  abbrev queue : Text
  queue = make_processing_key worker_id

  round_Safe :
      (i : Text)
      → Triple once
          (Safe queue i)
          (process_next execute worker_id)
          (λ _ s. Safe queue i s)
          (λ _ _. ⊥)
          (Safe queue i)
  unfolding process_next
  round_Safe i =
      Triple-catch
        (Triple-bind
          (Triple-call {Q = Got execute worker_id i} _ (λ s h. got s h) (λ s h. h)
            (λ s h.
              dropped (popped queue (split_last (S.lrange s.redis pending_key)) s).1
                (popped queue (split_last (S.lrange s.redis pending_key)) s).0 (got s h))
            (λ s h. h))
          (popped_Safe execute worker_id i))
        (λ e. Triple-pure tt (λ s h. h))
    where
      got :
          (s : State)
          → Safe queue i s
          → Got execute worker_id i
              (popped queue (split_last (S.lrange s.redis pending_key)) s).0
              (popped queue (split_last (S.lrange s.redis pending_key)) s).1
      got s h = popped_Got execute worker_id i s (split_last (S.lrange s.redis pending_key)) refl h

      dropped : (s : State) (o : Option Text) → Got execute worker_id i o s → Safe queue i s
      dropped s none h = h
      dropped s (some raw) h = h.0

  rounds-Safe :
      (i : Text) (n : ℕ)
      → Triple once
          (Safe queue i)
          (rounds execute n worker_id)
          (λ _ s. Safe queue i s)
          (λ _ _. ⊥)
          (Safe queue i)
  unfolding rounds
  rounds-Safe i zero = Triple-pure tt (λ s h. h)
  rounds-Safe i (suc n) = Triple-bind (round_Safe i) (λ _. rounds-Safe i n)

  heartbeat_Safe :
      (i : Text)
      → Triple once
          (Safe queue i)
          (send_heartbeat worker_id)
          (λ _ s. Safe queue i s)
          (λ _ _. ⊥)
          (Safe queue i)
  unfolding send_heartbeat
  heartbeat_Safe i =
      Triple-catch {H = λ _ s. Safe queue i s} (Triple-call _ beat (λ s h. h) beat (λ s h. h))
        (λ e. Triple-pure tt (λ s h. h))
    where
      beat :
          (s : State)
          → Safe queue i s
          → Safe queue i (record s {
            redis = S.set (make_heartbeat_key worker_id) (codes "alive") (some 15000) s.redis;
          })
      beat s h =
          rw
            (
              S.lrange-set (make_heartbeat_key worker_id) (codes "alive") (some 15000) s.redis
                  pending_key (heartbeat-ne-pending worker_id),
              S.lrange-set (make_heartbeat_key worker_id) (codes "alive") (some 15000) s.redis queue
                  (heartbeat-ne-processing worker_id worker_id),
            )
            h

  pub queue-Safe :
      (i : Text) (n : ℕ)
      → Triple once
          (Safe queue i)
          (process_queue execute n worker_id)
          (λ _ s. Safe queue i s)
          (λ _ _. ⊥)
          (Safe queue i)
  unfolding process_queue
  queue-Safe i n = Triple-bind {R = λ _ s. Safe queue i s} (Triple-count _ (λ s h. h)) λ _.
      Triple-bind (heartbeat_Safe i)
        λ _. Triple-bind (rounds-Safe i n) λ _. Triple-count _ (λ s h. h)

  -- A worker that runs any number of rounds, and meets at most one fault (a refused call, a call
  -- whose reply is lost, or the death of the process) in all of them, loses no job: a job with a
  -- row that was in the pending queue, in the worker's processing queue, or over is so afterwards,
  -- whether the worker stopped or died.
  pub process_queue-Safe :
      (n : ℕ) (i : Text) (s : State) (faults : List Fault)
      → AtMostOne faults
      → Safe queue i s
      → Safe queue i (process_queue execute n worker_id (at s faults)).1.state
  process_queue-Safe n i s faults one h =
      kept (process_queue execute n worker_id) s faults one (Keeps-never (queue-Safe i n)) h
