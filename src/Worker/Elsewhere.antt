-- ===== src/Worker/Elsewhere.antt =====
-- The worker of services/execution-worker/src/index.ts, seen from the processing queue of another
-- worker: whatever it does, and whatever faults it meets, that queue stays as it was.
use distributed_code_executi.Common.{
  ℕ, zero, suc, ◌≡◌, refl, ap, true, false, Option, none, some, List, ◌∷◌, Text, text_eq,
  text_eq_iff, codes, length, arith, Bool-cases, inl, inr,
}
use distributed_code_executi.Contracts.{QueuePayload, Language}
use distributed_code_executi.Contracts.Keys.{
  pending_key, dead_letter_key, make_processing_key, make_heartbeat_key, pending_key-ne-processing,
  text_eq-pending-processing, text_eq-dead_letter-processing, heartbeat-ne-processing,
}
use distributed_code_executi.Services.{Services, State, bad_json}
use distributed_code_executi.Services.Triples.{any, Keeps, Keeps-call, Triple-throw}
use distributed_code_executi.Services.Keeping.{Keeps-pure, Keeps-bind, Keeps-catch, Keeps-count}
use distributed_code_executi.Jobs.Queues.{split_last, split_last_lem}
use distributed_code_executi.Jobs.Places.{Known, in_queue, lrange-lpush_ne, lrange-lrem_ne}
use distributed_code_executi.Jobs.Updates.{known-update}
use distributed_code_executi.Jobs.Bystanders.{Stable}
use distributed_code_executi.Worker.Verdict.{SandboxResult}
use distributed_code_executi.Worker.Handlers.{
  popped, process_payload, process_popped, process_next, rounds, send_heartbeat, process_queue,
}
use distributed_code_executi.Worker.Others.{Unaware, run_job_other, give_back_other}

-- A text that differs from another.
pub unlike : (t : Text) → text_eq t (0 ∷ t) ≡ false
unlike t = elim (Bool-cases (text_eq t (0 ∷ t))) [
  | inl e ↦ absurd (omega (arith, ap length ((text_eq_iff t (0 ∷ t)).0 e)))
  | inr e ↦ e
]

-- The job `i` is in the processing queue of the worker `u`; the worker `w` is another.
module _ ⦃S : Services⦄ (u i w : Text)
    (apart : text_eq (make_processing_key w) (make_processing_key u) ≡ false) where
  abbrev pub J : State → Type 0
  J s = Known i s × (in_queue (make_processing_key u) i s ≡ true)

  J-Stable : (j : Text) → Stable j J
  J-Stable j = record {
    blind = λ s o h. h;
    counted = λ c s h. h;
    updated = λ p f keeps misses s h. (rw (known-update p f keeps s.db i) h.0, h.1);
    stored = λ r merge s h. rw (S.submission-upsert_result r merge s.db i) h;
    pushed = λ x s h.
        rw
          (lrange-lpush_ne pending_key x s.redis (make_processing_key u)
            (text_eq-pending-processing u))
          h;
    buried = λ x s h.
        rw
          (lrange-lpush_ne dead_letter_key x s.redis (make_processing_key u)
            (text_eq-dead_letter-processing u))
          h;
  }

  J-Unaware : (raw : Text) → Unaware (make_processing_key w) raw J
  J-Unaware raw = record {
    removed = λ s h.
        rw (lrange-lrem_ne (make_processing_key w) raw s.redis (make_processing_key u) apart) h;
    streamed = λ k n x s h. rw (S.lrange-xadd k n x s.redis (make_processing_key u)) h;
    expiring = λ k n s h. rw (S.lrange-expire k n s.redis (make_processing_key u)) h;
    told = λ p s h. h;
    passed = λ now s h. h;
  }

  popped-J :
      (s : State) (o : Option (List Text × Text))
      → split_last (S.lrange s.redis pending_key) ≡ o
      → J s
      → J (popped (make_processing_key w) o s).1
  popped-J s none e h = h
  popped-J s (some (rest, raw)) e h =
      rw
        (
          S.lrange-rpoplpush pending_key (make_processing_key w) raw rest s.redis
              (make_processing_key u) (pending_key-ne-processing w)
              (split_last_lem (S.lrange s.redis pending_key) rest raw e),
          text_eq-pending-processing u,
          apart,
        )
        h

  heartbeat_J : Keeps J any (send_heartbeat w)
  unfolding send_heartbeat
  heartbeat_J =
      Keeps-catch
        (Keeps-call _ λ s h.
          rw
            (S.lrange-set (make_heartbeat_key w) (codes "alive") (some 15000) s.redis
              (make_processing_key u) (heartbeat-ne-processing w u))
            h)
        (λ e. Keeps-pure tt)

  module _ (execute : Text → Text → Language → SandboxResult) where
    payload_J :
        (raw : Text) (o : Option QueuePayload) → Keeps J any (process_payload execute w raw o)
    payload_J raw none = Triple-throw bad_json refl (λ s h. h)
    payload_J raw (some job) =
        let j = 0 ∷ job.job_id in
        Keeps-catch
          (run_job_other j w raw job (J-Stable j) (J-Unaware raw) (unlike job.job_id) execute)
          (λ e.
            give_back_other j w raw job (J-Stable j) (J-Unaware raw) (unlike job.job_id) execute)

    popped_payload_J : (o : Option Text) → Keeps J any (process_popped execute w o)
    popped_payload_J none = Keeps-pure tt
    popped_payload_J (some raw) = payload_J raw (S.parse_job raw)

    round_J : Keeps J any (process_next execute w)
    unfolding process_next
    round_J =
        Keeps-catch
          (Keeps-bind
            (Keeps-call _ λ s h. popped-J s (split_last (S.lrange s.redis pending_key)) refl h)
            popped_payload_J)
          (λ e. Keeps-pure tt)

    rounds-J : (n : ℕ) → Keeps J any (rounds execute n w)
    unfolding rounds
    rounds-J zero = Keeps-pure tt
    rounds-J (suc n) = Keeps-bind round_J (λ _. rounds-J n)

    pub process_queue_elsewhere : (n : ℕ) → Keeps J any (process_queue execute n w)
    unfolding process_queue
    process_queue_elsewhere n =
        Keeps-bind (Keeps-count _ (λ s h. h))
          λ _. Keeps-bind heartbeat_J λ _. Keeps-bind (rounds-J n) λ _. Keeps-count _ (λ s h. h)
