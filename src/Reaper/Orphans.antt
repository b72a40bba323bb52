-- ===== src/Reaper/Orphans.antt =====
-- The recovery of a dead worker's queue (services/system-monitor/src/reaper.ts), where no call fails
-- and every entry of a processing queue is of a job with a row: nothing is thrown on the way.
use distributed_code_executi.Common.{
  ◌+◌, ◌≡◌, ◌∙◌, true, Option, none, some, inl, inr, List, [], ◌∷◌, Text, text_eq, Bool-cases, ltb,
}
use distributed_code_executi.Contracts.{QueuePayload, is_terminal_status, max_retry_count}
use distributed_code_executi.Contracts.Keys.{
  pending_key, dead_letter_key, make_processing_key, text_eq-pending-processing,
  text_eq-dead_letter-processing,
}
use distributed_code_executi.Services.{
  Services, State, Exception, Outcome, World, returned, thrown, crashed,
}
use distributed_code_executi.Services.Effects.{M}
use distributed_code_executi.Services.Triples.{
  any, quiet, Holds, Triple, Triple-pure, Triple-bind, Triple-call_quiet, Triple-count, Triple-when,
  Triple-weaken, at,
}
use distributed_code_executi.Jobs.Places.{Known, lrange-lpush_ne}
use distributed_code_executi.Jobs.Updates.{known, known-update}
use distributed_code_executi.Jobs.Bystanders.{Stable, both-Stable}
use distributed_code_executi.Worker.Retry.{dlq_quiet}
use distributed_code_executi.Worker.Elsewhere.{unlike}
use distributed_code_executi.Reaper.Sweeps.{recover_other}
use distributed_code_executi.Reaper.Handlers.{
  deleted, recover_live, recover_job, recover_parsed, recover_each, recover_read,
  recover_jobs_from_dead_worker,
}

module _ ⦃S : Services⦄ where
  -- The entry is of a job with a row, if it parses.
  abbrev KnownEntry : Option QueuePayload → S.Db → Type 0
  KnownEntry none d = Unit
  KnownEntry (some job) d = known job.job_id d ≡ true

  abbrev AllKnown : List Text → S.Db → Type 0
  AllKnown [] d = Unit
  AllKnown (x ∷ xs) d = KnownEntry (S.parse_job x) d × AllKnown xs d

  -- So are all entries of all processing queues.
  abbrev pub NoStranger : State → Type 0
  NoStranger s = (v : Text) → AllKnown (S.lrange s.redis (make_processing_key v)) s.db

  entry_kept :
      (o : Option QueuePayload) (d e : S.Db)
      → ((i : Text) → known i d ≡ true → known i e ≡ true)
      → KnownEntry o d
      → KnownEntry o e
  entry_kept none d e f h = tt
  entry_kept (some job) d e f h = f job.job_id h

  all_kept :
      (xs : List Text) (d e : S.Db)
      → ((i : Text) → known i d ≡ true → known i e ≡ true)
      → AllKnown xs d
      → AllKnown xs e
  all_kept [] d e f h = tt
  all_kept (x ∷ xs) d e f h = (entry_kept (S.parse_job x) d e f h.0, all_kept xs d e f h.1)

  -- No statement takes a row away, and no push writes on a processing queue.
  All-Stable : (xs : List Text) (j : Text) → Stable j (λ s. AllKnown xs s.db)
  All-Stable xs j = record {
    blind = λ s o h. h;
    counted = λ c s h. h;
    updated = λ p f keeps misses s h.
        all_kept xs s.db (S.update p f s.db) (λ i k. known-update p f keeps s.db i ∙ k) h;
    stored = λ r merge s h.
        all_kept xs s.db (S.upsert_result r merge s.db)
          (λ i k. rw (S.submission-upsert_result r merge s.db i) k) h;
    pushed = λ x s h. h;
    buried = λ x s h. h;
  }

  NoStranger-Stable : (j : Text) → Stable j NoStranger
  NoStranger-Stable j = record {
    blind = λ s o h. h;
    counted = λ c s h. h;
    updated = λ p f keeps misses s h v.
        (All-Stable (S.lrange s.redis (make_processing_key v)) j).updated p f keeps misses s (h v);
    stored = λ r merge s h v.
        (All-Stable (S.lrange s.redis (make_processing_key v)) j).stored r merge s (h v);
    pushed = λ x s h v.
        rw
          (lrange-lpush_ne pending_key x s.redis (make_processing_key v)
            (text_eq-pending-processing v))
          (h v);
    buried = λ x s h v.
        rw
          (lrange-lpush_ne dead_letter_key x s.redis (make_processing_key v)
            (text_eq-dead_letter-processing v))
          (h v);
  }

  pub NoStranger-deleted :
      (w : Text) (s : State) → NoStranger s → NoStranger (deleted (make_processing_key w) s).1
  NoStranger-deleted w s h v =
      elim (Bool-cases (text_eq (make_processing_key w) (make_processing_key v))) [
        | inl e ↦ rw (S.lrange-del (make_processing_key w) s.redis (make_processing_key v), e) tt
        | inr e ↦ rw (S.lrange-del (make_processing_key w) s.redis (make_processing_key v), e) (h v)
      ]

module _ ⦃S : Services⦄ {A : Type 0} (Q R : A → State → Type 0) (E : Exception → State → Type 0)
    (C : State → Type 0) where
  both-run :
      (o : Outcome A) (w : World)
      → Holds any Q E C o w
      → Holds quiet R (λ _ _. ⊥) (λ _. ⊥) o w
      → Holds quiet (λ a s. Q a s × R a s) (λ _ _. ⊥) (λ _. ⊥) o w
  both-run (returned a) w h k = (k.0, (h.1, k.1))
  both-run (thrown e) w h k = k
  both-run crashed w h k = k

  -- An action that throws nothing where no call fails does what it does under any faults.
  pub Triple-both :
      {P P' : State → Type 0} {x : M A}
      → Triple any P x Q E C
      → Triple quiet P' x R (λ _ _. ⊥) (λ _. ⊥)
      → Triple quiet (λ s. P s × P' s) x (λ a s. Q a s × R a s) (λ _ _. ⊥) (λ _. ⊥)
  Triple-both {x} t u = record {
    run = λ s fs ok h.
        both-run (x (at s fs)).0 (x (at s fs)).1 (t.run s fs tt h.0) (u.run s fs ok h.1);
  }

module _ ⦃S : Services⦄ (v : Text) where
  -- What an entry leaves as it is, it leaves so without an exception.
  abbrev Quiet : {A : Type 0} → (State → Type 0) → M A → (State → Type 0) → Type 0
  Quiet P x Q = Triple quiet P x (λ _ s. Q s) (λ _ _. ⊥) (λ _. ⊥)

  live_quiet : (job : QueuePayload) → Quiet (Known job.job_id) (recover_live v job) (λ _. Unit {0})
  unfolding recover_live
  live_quiet job =
      Triple-when (ltb max_retry_count (job.retry_count + 1))
        (λ e. Triple-weaken (λ s h. h) (λ _ s h. tt) (λ e s h. h) (λ s h. h) (dlq_quiet job _))
        λ e. Triple-bind (Triple-call_quiet {Q = λ _ _. Unit {0}} _ (λ s h. tt)) λ _.
          Triple-bind (Triple-call_quiet {Q = λ _ _. Unit {0}} _ (λ s h. tt))
            λ _. Triple-count _ (λ s h. tt)

  job_quiet : (job : QueuePayload) → Quiet (Known job.job_id) (recover_job v job) (λ _. Unit {0})
  unfolding recover_job
  job_quiet job = Triple-bind (Triple-call_quiet {Q = λ _ s. Known job.job_id s} _ (λ s h. h)) λ o.
      Triple-when (is_terminal_status o) (λ e. Triple-count _ (λ s h. tt)) (λ e. live_quiet job)

  parsed_quiet :
      (I : State → Type 0) (o : Option QueuePayload)
      → ((j : Text) → Stable j I)
      → Quiet (λ s. I s × KnownEntry o s.db) (recover_parsed v o) I
  parsed_quiet I none st = Triple-pure tt (λ s h. h.0)
  parsed_quiet I (some job) st =
      Triple-weaken (λ s h. h) (λ _ s h. h.0) (λ e s h. h) (λ s h. h)
        (Triple-both (λ _ s. I s) (λ _ _. Unit {0}) (λ _ s. I s) I
          (recover_other (0 ∷ job.job_id) I (st (0 ∷ job.job_id)) v job (unlike job.job_id))
          (job_quiet job))

  each_quiet :
      (raws : List Text)
      → Quiet (λ s. NoStranger s × AllKnown raws s.db) (recover_each v raws) NoStranger
  unfolding recover_each
  each_quiet [] = Triple-pure tt (λ s h. h.0)
  each_quiet (x ∷ xs) =
      Triple-bind {R = λ _ s. NoStranger s × AllKnown xs s.db}
        (Triple-weaken (λ s h. ((h.0, h.1.1), h.1.0)) (λ _ s h. h) (λ e s h. h) (λ s h. h)
          (parsed_quiet (λ s. NoStranger s × AllKnown xs s.db) (S.parse_job x)
            (λ j. both-Stable (NoStranger-Stable j) (All-Stable xs j))))
        λ _. each_quiet xs

  read_quiet :
      (raws : List Text)
      → Quiet (λ s. NoStranger s × AllKnown raws s.db) (recover_read v raws) NoStranger
  read_quiet [] = Triple-call_quiet _ (λ s h. NoStranger-deleted v s h.0)
  read_quiet (x ∷ xs) =
      Triple-bind (each_quiet (x ∷ xs)) λ _. Triple-call_quiet _ (NoStranger-deleted v)

  -- The recovery of a dead worker throws nothing, and brings in no stranger.
  pub worker_quiet : Quiet NoStranger (recover_jobs_from_dead_worker v) NoStranger
  unfolding recover_jobs_from_dead_worker
  worker_quiet =
      Triple-bind {R = λ raws s. NoStranger s × AllKnown raws s.db}
        (Triple-call_quiet _ (λ s h. (h, h v))) read_quiet
