-- ===== src/Jobs/Bystanders.antt =====
-- What a service does for one job, seen from another.
use distributed_code_executi.Common.{
  ◌≡◌, Bool, false, Text, text_eq, arith, Bool-cases, inl, inr, List, ◌∷◌,
}
use distributed_code_executi.Contracts.Keys.{
  pending_key, dead_letter_key, make_processing_key, text_eq-pending-processing,
  text_eq-dead_letter-pending, text_eq-dead_letter-processing,
}
use distributed_code_executi.Services.{Services, State, Metric, Submission, SubmissionResult}
use distributed_code_executi.Services.Triples.{Mode, Keeps, Keeps-call}
use distributed_code_executi.Services.Transactions.{Blind}
use distributed_code_executi.Jobs.Statements.{has_id, lpush, lrem}
use distributed_code_executi.Jobs.Queues.{names, queued, queued-remove_first}
use distributed_code_executi.Jobs.Updates.{submission-update_other}
use distributed_code_executi.Jobs.Places.{Safe, Settled, lrange-lpush_ne, lrange-lpush_self}

-- A predicate about the job `i` that survives what the services do for other jobs, a push on the
-- pending queue, and what has no job.
pub record Stable ⦃S : Services⦄ (i : Text) (I : State → Type 0) : Type 0 where
  pub blind : Blind I
  pub counted : (c : Metric) (s : State) → I s → I (record s { metrics = c ∷ s.metrics })
  pub updated :
      (p : Submission → Bool) (f : Submission → Submission)
      → ((r : Submission) → (f r).id ≡ r.id)
      → ((r : Submission) → r.id ≡ i → p r ≡ false)
      → (s : State) → I s
      → I (record s { db = S.update p f s.db })
  pub stored :
      (r : SubmissionResult) (merge : SubmissionResult → SubmissionResult → SubmissionResult)
      (s : State)
      → I s
      → I (record s { db = S.upsert_result r merge s.db })
  pub pushed : (x : Text) (s : State) → I s → I (record s { redis = S.lpush pending_key x s.redis })
  pub buried :
      (x : Text) (s : State) → I s → I (record s { redis = S.lpush dead_letter_key x s.redis })

module _ ⦃S : Services⦄ {i : Text} {I : State → Type 0} (st : Stable i I) where
  -- An update by the primary key of another job.
  pub Stable-has_id :
      (j : Text) (f : Submission → Submission)
      → ((r : Submission) → (f r).id ≡ r.id)
      → text_eq j i ≡ false
      → (s : State) → I s
      → I (record s { db = S.update (has_id j) f s.db })
  Stable-has_id j f keeps other = st.updated (has_id j) f keeps (λ r e. rw e other)

  pub both-Stable : {J : State → Type 0} → Stable i J → Stable i (λ s. I s × J s)
  both-Stable sj = record {
    blind = λ s o h. (st.blind s o h.0, sj.blind s o h.1);
    counted = λ c s h. (st.counted c s h.0, sj.counted c s h.1);
    updated = λ p f k m s h. (st.updated p f k m s h.0, sj.updated p f k m s h.1);
    stored = λ r m s h. (st.stored r m s h.0, sj.stored r m s h.1);
    pushed = λ x s h. (st.pushed x s h.0, sj.pushed x s h.1);
    buried = λ x s h. (st.buried x s h.0, sj.buried x s h.1);
  }

-- The job `i`, as seen from the processing queue of the worker `v`.
module _ ⦃S : Services⦄ (v i : Text) where
  abbrev pub queue : Text
  queue = make_processing_key v

  pub Safe-update :
      (p : Submission → Bool) (f : Submission → Submission)
      → ((r : Submission) → (f r).id ≡ r.id)
      → ((r : Submission) → r.id ≡ i → p r ≡ false)
      → (s : State) → Safe queue i s
      → Safe queue i (record s { db = S.update p f s.db })
  Safe-update p f keeps misses s h = rw (submission-update_other p f keeps s.db i misses) h

  pub Safe-with_result :
      (r : SubmissionResult) (merge : SubmissionResult → SubmissionResult → SubmissionResult)
      (s : State)
      → Safe queue i s
      → Safe queue i (record s { db = S.upsert_result r merge s.db })
  Safe-with_result r merge s h = rw (S.submission-upsert_result r merge s.db i) h

  -- A push on the pending queue only adds.
  pub Safe-lpush_pending :
      (x : Text) (s : State)
      → Safe queue i s
      → Safe queue i (record s { redis = S.lpush pending_key x s.redis })
  Safe-lpush_pending x s h =
      rw
        (
          lrange-lpush_self pending_key x s.redis,
          lrange-lpush_ne pending_key x s.redis queue (text_eq-pending-processing v),
        )
        (ground arith)

  pub Safe-lpush_dead_letter :
      (x : Text) (s : State)
      → Safe queue i s
      → Safe queue i (record s { redis = S.lpush dead_letter_key x s.redis })
  Safe-lpush_dead_letter x s h =
      rw
        (
          lrange-lpush_ne dead_letter_key x s.redis pending_key text_eq-dead_letter-pending,
          lrange-lpush_ne dead_letter_key x s.redis queue (text_eq-dead_letter-processing v),
        )
        h

  queued-lrem :
      (k x : Text)
      → names i (S.parse_job x) ≡ false
      → (r : S.Store) (j : Text) → queued i (S.lrange (S.lrem k x r) j) ≡ queued i (S.lrange r j)
  queued-lrem k x other r j = elim (Bool-cases (text_eq k j)) [
    | inl e ↦ rw (S.lrange-lrem k x r j, e) (queued-remove_first i x (S.lrange r j) other)
    | inr e ↦ rw (S.lrange-lrem k x r j, e)
  ]

  -- Taking out an entry of another job.
  pub Safe-lrem :
      (w x : Text)
      → names i (S.parse_job x) ≡ false
      → (s : State) → Safe queue i s
      → Safe queue i (record s { redis = S.lrem (make_processing_key w) x s.redis })
  Safe-lrem w x other s h =
      rw
        (
          queued-lrem (make_processing_key w) x other s.redis pending_key,
          queued-lrem (make_processing_key w) x other s.redis queue,
        )
        h

  pub Safe-Stable : Stable i (Safe queue i)
  Safe-Stable = record {
    blind = λ s o h. h;
    counted = λ c s h. h;
    updated = Safe-update;
    stored = Safe-with_result;
    pushed = Safe-lpush_pending;
    buried = Safe-lpush_dead_letter;
  }

  pub Settled-Stable : Stable i (Settled i)
  Settled-Stable = record {
    blind = λ s o h. h;
    counted = λ c s h. h;
    updated = λ p f keeps misses s h. rw (submission-update_other p f keeps s.db i misses) h;
    stored = λ r merge s h. rw (S.submission-upsert_result r merge s.db i) h;
    pushed = λ x s h. rw (lrange-lpush_self pending_key x s.redis) (ground arith);
    buried = λ x s h.
        rw (lrange-lpush_ne dead_letter_key x s.redis pending_key text_eq-dead_letter-pending) h;
  }

  -- What has been read from a processing queue stands there still.
  pub read-Stable : (raws : List Text) → Stable i (λ s. S.lrange s.redis queue ≡ raws)
  read-Stable raws = record {
    blind = λ s o h. h;
    counted = λ c s h. h;
    updated = λ p f keeps misses s h. h;
    stored = λ r merge s h. h;
    pushed =
        λ x s h. rw (lrange-lpush_ne pending_key x s.redis queue (text_eq-pending-processing v)) h;
    buried = λ x s h.
        rw (lrange-lpush_ne dead_letter_key x s.redis queue (text_eq-dead_letter-processing v)) h;
  }

  pub Keeps-lpush_pending : {m : Mode} (x : Text) → Keeps (Safe queue i) m (lpush pending_key x)
  Keeps-lpush_pending x = Keeps-call _ (Safe-lpush_pending x)

  pub Keeps-lrem :
      {m : Mode} (w x : Text)
      → names i (S.parse_job x) ≡ false
      → Keeps (Safe queue i) m (lrem (make_processing_key w) x)
  Keeps-lrem w x other = Keeps-call _ (Safe-lrem w x other)
