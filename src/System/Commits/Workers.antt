-- ===== src/System/Commits/Workers.antt =====
-- What a worker of services/execution-worker/src/index.ts commits to the rows.
use distributed_code_executi.Common.{
  ℕ, zero, suc, ◌+◌, ◌≤◌, ◌≡◌, refl, not, Option, none, some, List, [], ◌∷◌, Text, ltb, arith,
}
use distributed_code_executi.Contracts.{Language, QueuePayload, max_retry_count}
use distributed_code_executi.Contracts.Keys.{pending_key}
use distributed_code_executi.Contracts.{SubmissionStatus}
use distributed_code_executi.Services.{Services, State, Submission, bad_json}
use distributed_code_executi.Services.Triples.{
  any, Keeps, Keeps-call, Triple-bind, Triple-call, Triple-given, Triple-throw, Triple-time,
  Triple-weaken, Triple-when,
}
use distributed_code_executi.Services.Keeping.{
  Keeps-pure, Keeps-bind, Keeps-catch, Keeps-count, Keeps-sleep,
}
use distributed_code_executi.Jobs.{with_status}
use distributed_code_executi.Jobs.Queues.{split_last}
use distributed_code_executi.Worker.{
  claimable, is_terminal, requeue_with_backoff, bury, publish_system_chunk, decline, observe,
  carry_out, proceed, run_job, give_back, process_payload, popped, process_popped, process_next,
  rounds, send_heartbeat, process_queue,
}
use distributed_code_executi.Worker.Verdict.{SandboxResult}
use distributed_code_executi.System.Interleavings.{
  Change, claiming, storing, burying, retrying, resetting, inserting, refusing, row_after,
}
use distributed_code_executi.System.Commits.{
  Row, commit, Keeps-set_retry, Keeps-send_to_dlq, Keeps-persist,
}

-- A worker claims, stores what a run of some code gave, buries, and puts back to PENDING with a
-- count of retries up to the limit.
abbrev pub ByWorker : (Text → Text → Language → SandboxResult) → Change → Type 0
ByWorker execute (claiming j) = Unit
ByWorker execute (storing j r) =
    (code : Text) × (language : Language) × (r ≡ execute j code language)
ByWorker execute (burying j reason) = Unit
ByWorker execute (retrying n j) = n ≤ max_retry_count
ByWorker execute resetting = ⊥
ByWorker execute (inserting j body now) = ⊥
ByWorker execute (refusing j) = ⊥

module _ ⦃S : Services⦄ (execute : Text → Text → Language → SandboxResult) (i : Text)
    (o : Option Submission) where
  abbrev I : State → Type 0
  I = Row (ByWorker execute) i o

  module _ (w raw : Text) (job : QueuePayload) where
    chunk_Row : (j content : Text) → Keeps I any (publish_system_chunk j content)
    unfolding publish_system_chunk
    chunk_Row j content = Keeps-bind Triple-time λ now.
        Keeps-bind (Keeps-call _ (λ s h. h))
          λ _. Keeps-bind (Keeps-call _ (λ s h. h)) λ _. Keeps-call _ (λ s h. h)

    requeue_Row : (queue : Text) → Keeps I any (requeue_with_backoff job queue raw)
    unfolding requeue_with_backoff bury
    requeue_Row queue =
        Triple-when (ltb max_retry_count (job.retry_count + 1))
          (λ e. Keeps-bind (Keeps-call _ (λ s h. h)) λ _.
            Keeps-bind (Keeps-send_to_dlq (ByWorker execute) i o job _ tt)
              λ _. chunk_Row job.job_id _)
          λ e.
            Keeps-bind
              (Keeps-set_retry (ByWorker execute) i o (job.retry_count + 1) job.job_id
                (ground (arith, e)))
              λ _.
                Keeps-bind (Keeps-sleep _ (λ s h. h))
                  λ _. Keeps-bind (Keeps-call _ (λ s h. h)) λ _. Keeps-call _ (λ s h. h)

    decline_Row : (queue : Text) → Keeps I any (decline queue raw job)
    unfolding decline
    decline_Row queue = Keeps-bind (Keeps-call _ (λ s h. h)) λ p.
        Keeps-bind
          (Triple-when (not (is_terminal p)) (λ e. Keeps-call _ (λ s h. h)) (λ e. Keeps-pure tt))
          λ _. Keeps-call _ (λ s h. h)

    observe_Row : (r : SandboxResult) → Keeps I any (observe w job r)
    unfolding observe
    observe_Row r = Keeps-bind (Keeps-count _ (λ s h. h)) λ _.
        Keeps-bind (Keeps-count _ (λ s h. h)) λ _.
          Keeps-bind
            (Triple-when r.output_truncated (λ e. Keeps-count _ (λ s h. h)) (λ e. Keeps-pure tt))
            λ _.
              Triple-when r.stream_output_limit_exceeded (λ e. Keeps-count _ (λ s h. h))
                (λ e. Keeps-pure tt)

    -- What is stored is the result of the run.
    carry_out_Row : Keeps I any (carry_out execute w raw job)
    unfolding carry_out
    carry_out_Row = Keeps-bind Triple-time λ now. Keeps-bind (Keeps-count _ (λ s h. h)) λ _.
        Triple-bind {R = λ r s. I s × (r ≡ execute job.job_id job.code job.language)}
          (Triple-call _ (λ s h. (h, refl)) (λ s h. h) (λ s h. h) (λ s h. h))
          λ r.
            Triple-given (λ s h. h.1)
              λ ran.
                Triple-weaken (λ s h. h.0) (λ _ s h. h) (λ e s h. h) (λ s h. h)
                  (Keeps-bind
                    (Keeps-persist (ByWorker execute) i o job.job_id r
                      (job.code, job.language, ran))
                    λ _.
                      Keeps-bind (Keeps-call _ (λ s h. h))
                        λ _. Keeps-bind (chunk_Row job.job_id _) λ _. observe_Row r)

    proceed_Row : (rows : List Submission) → Keeps I any (proceed execute w raw job rows)
    proceed_Row [] = decline_Row _
    proceed_Row (row ∷ rows) = carry_out_Row

    run_job_Row : Keeps I any (run_job execute w raw job)
    unfolding run_job row_after
    run_job_Row =
        Keeps-bind
          (Keeps-call _ λ s h.
            commit (ByWorker execute) i o (claiming job.job_id) s _ tt
              (S.submission-update (claimable job.job_id)
                (with_status SubmissionStatus.running s.now) (λ _. refl) s.db i)
              h)
          proceed_Row

    give_back_Row : Keeps I any (give_back execute w raw job)
    unfolding give_back
    give_back_Row = Keeps-catch (requeue_Row _) (λ e. Keeps-pure tt)

  payload_Row :
      (w raw : Text) (p : Option QueuePayload) → Keeps I any (process_payload execute w raw p)
  payload_Row w raw none = Triple-throw bad_json refl (λ s h. h)
  payload_Row w raw (some job) = Keeps-catch (run_job_Row w raw job) (λ e. give_back_Row w raw job)

  popped_Row : (w : Text) (p : Option Text) → Keeps I any (process_popped execute w p)
  popped_Row w none = Keeps-pure tt
  popped_Row w (some raw) = payload_Row w raw (S.parse_job raw)

  -- To take an entry changes no row.
  taken_Row : (w : Text) (e : Option (List Text × Text)) (s : State) → I s → I (popped w e s).1
  taken_Row w none s h = h
  taken_Row w (some (rest, raw)) s h = h

  round_Row : (w : Text) → Keeps I any (process_next execute w)
  unfolding process_next
  round_Row w =
      Keeps-catch
        (Keeps-bind
          (Keeps-call _ λ s h. taken_Row _ (split_last (S.lrange s.redis pending_key)) s h)
          (popped_Row w))
        (λ e. Keeps-pure tt)

  rounds_Row : (n : ℕ) (w : Text) → Keeps I any (rounds execute n w)
  unfolding rounds
  rounds_Row zero w = Keeps-pure tt
  rounds_Row (suc n) w = Keeps-bind (round_Row w) (λ _. rounds_Row n w)

  pub process_queue_Row : (n : ℕ) (w : Text) → Keeps I any (process_queue execute n w)
  unfolding process_queue send_heartbeat
  process_queue_Row n w = Keeps-bind (Keeps-count _ (λ s h. h)) λ _.
      Keeps-bind (Keeps-catch (Keeps-call _ (λ s h. h)) (λ e. Keeps-pure tt))
        λ _. Keeps-bind (rounds_Row n w) λ _. Keeps-count _ (λ s h. h)
