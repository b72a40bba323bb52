-- ===== src/Jobs/Places.antt =====
-- Where a job is: in the pending queue, in the processing queue of a worker, or over.
use distributed_code_executi.Common.{
  ◌≡◌, Bool, true, false, ◌||◌, some, ◌∷◌, Text, text_eq, text_eq_refl, arith,
}
use distributed_code_executi.Contracts.{QueuePayload}
use distributed_code_executi.Contracts.Keys.{pending_key}
use distributed_code_executi.Services.{Services, State}
use distributed_code_executi.Jobs.Queues.{contains, queued, queued_of_contains}
use distributed_code_executi.Jobs.Updates.{known, ended}

module _ ⦃S : Services⦄ where
  abbrev pub in_pending : Text → State → Bool
  in_pending i s = queued i (S.lrange s.redis pending_key)

  abbrev pub in_queue : Text → Text → State → Bool
  in_queue queue i s = queued i (S.lrange s.redis queue)

  -- The job has a row.
  abbrev pub Known : Text → State → Type 0
  Known i s = known i s.db ≡ true

  -- The job waits in the pending queue, or is over.
  abbrev pub Settled : Text → State → Type 0
  Settled i s = Known i s × ((in_pending i s || ended i s.db) ≡ true)

  -- The job waits in the pending queue, is in this processing queue, or is over.
  abbrev pub Safe : Text → Text → State → Type 0
  Safe queue i s = Known i s × ((in_pending i s || (in_queue queue i s || ended i s.db)) ≡ true)

  -- The entry is in this processing queue.
  abbrev pub Held : Text → Text → Text → State → Type 0
  Held queue raw i s = Known i s × (contains raw (S.lrange s.redis queue) ≡ true)

  pub Settled-Safe : (queue i : Text) (s : State) → Settled i s → Safe queue i s
  Settled-Safe queue i s h = ground arith

  pub Held-Safe :
      (queue raw : Text) (job : QueuePayload) (s : State)
      → S.parse_job raw ≡ some job
      → Held queue raw job.job_id s
      → Safe queue job.job_id s
  Held-Safe queue raw job s e h = ground (
    arith,
    queued_of_contains job.job_id raw (S.lrange s.redis queue) (rw (e, text_eq_refl job.job_id))
        h.1,
  )

  pub lrange-lpush_ne :
      (k v : Text) (r : S.Store) (j : Text)
      → text_eq k j ≡ false
      → S.lrange (S.lpush k v r) j ≡ S.lrange r j
  lrange-lpush_ne k v r j e = rw (S.lrange-lpush k v r j, e)

  pub lrange-lpush_self : (k v : Text) (r : S.Store) → S.lrange (S.lpush k v r) k ≡ v ∷ S.lrange r k
  lrange-lpush_self k v r = rw (S.lrange-lpush k v r k, text_eq_refl k)

  pub lrange-lrem_ne :
      (k v : Text) (r : S.Store) (j : Text)
      → text_eq k j ≡ false
      → S.lrange (S.lrem k v r) j ≡ S.lrange r j
  lrange-lrem_ne k v r j e = rw (S.lrange-lrem k v r j, e)
