-- ===== src/Reaper/Sweeps.antt =====
-- The queue of a dead worker, read and recovered entry by entry: a job seen across all of it.
use distributed_code_executi.Common.{
  ◌+◌, ◌≡◌, refl, subst, true, false, Option, none, some, inl, inr, List, [], ◌∷◌, Text, text_eq,
  text_eq_iff, Bool-cases, ltb,
}
use distributed_code_executi.Contracts.{
  QueuePayload, is_terminal_status, max_retry_count, SubmissionStatus,
}
use distributed_code_executi.Contracts.Keys.{make_processing_key}
use distributed_code_executi.Services.{Services, State}
use distributed_code_executi.Services.Triples.{
  Mode, Triple, Keeps, Keeps-call, Triple-pure, Triple-bind, Triple-when, Triple-weaken,
}
use distributed_code_executi.Services.Keeping.{Keeps-bind, Keeps-count}
use distributed_code_executi.Jobs.{with_retry}
use distributed_code_executi.Jobs.Queues.{names, queued}
use distributed_code_executi.Jobs.Places.{Settled, Safe, Settled-Safe}
use distributed_code_executi.Jobs.Bystanders.{
  Stable, Stable-has_id, both-Stable, Safe-Stable, Settled-Stable, read-Stable,
}
use distributed_code_executi.Jobs.Rollbacks.{Keeps-send_to_dlq}
use distributed_code_executi.Reaper.Handlers.{
  recover_live, recover_job, recover_parsed, recover_each, died_reason,
}
use distributed_code_executi.Reaper.Recovery.{recover_job-Settled}

-- The recovery of one job, seen from another.
module _ ⦃S : Services⦄ {m : Mode} (i : Text) (I : State → Type 0) (st : Stable i I) where
  pub recover_other :
      (v : Text) (job : QueuePayload) → text_eq job.job_id i ≡ false → Keeps I m (recover_job v job)
  unfolding recover_job recover_live
  recover_other v job other = Keeps-bind (Keeps-call _ (λ s h. h)) λ o.
      Triple-when (is_terminal_status o) (λ e. Keeps-count _ (st.counted _))
        λ e.
          Triple-when (ltb max_retry_count (job.retry_count + 1))
            (λ e. Keeps-send_to_dlq i I st job (died_reason v) other)
            λ e.
              Keeps-bind
                (Keeps-call _ λ s h.
                  Stable-has_id st job.job_id
                    (with_retry (job.retry_count + 1) SubmissionStatus.pending s.now) (λ r. refl)
                    other s h)
                λ _. Keeps-bind (Keeps-call _ (st.pushed _)) λ _. Keeps-count _ (st.counted _)

-- A job `i`, watched from the queue of the worker `u`, while the worker `v` is recovered.
module _ ⦃S : Services⦄ (u i : Text) where
  abbrev pub watched : Text
  watched = make_processing_key u

  module _ (v : Text) (raws : List Text) where
    abbrev pub Read : State → Type 0
    Read s = S.lrange s.redis (make_processing_key v) ≡ raws

    -- After the entries `done` have been gone through.
    abbrev pub Swept : List Text → State → Type 0
    Swept done s = (Safe watched i s × Read s) × (queued i done ≡ true → Settled i s)

    own_Settled :
        {m : Mode} (job : QueuePayload)
        → text_eq job.job_id i ≡ true
        → Triple m
            (λ s. Safe watched i s × Read s)
            (recover_job v job)
            (λ _ s. Settled i s × Read s)
            (λ _ s. Safe watched i s)
            (Safe watched i)
    own_Settled {m = m} job e =
        subst
          (λ j.
            Triple m (λ s. Safe watched j s × Read s) (recover_job v job)
              (λ _ s. Settled j s × Read s) (λ _ s. Safe watched j s) (Safe watched j))
          ((text_eq_iff job.job_id i).0 e) (recover_job-Settled u v raws job)

    -- What is settled stays settled.
    parsed_Settled :
        {m : Mode} (o : Option QueuePayload)
        → Triple m
            (λ s. Settled i s × Read s)
            (recover_parsed v o)
            (λ _ s. Settled i s × Read s)
            (λ _ s. Safe watched i s)
            (Safe watched i)
    parsed_Settled none = Triple-pure tt (λ s h. h)
    parsed_Settled (some job) = elim (Bool-cases (text_eq job.job_id i)) [
      | inl e ↦
          Triple-weaken (λ s h. (Settled-Safe watched i s h.0, h.1)) (λ _ s h. h) (λ _ s h. h)
            (λ s h. h) (own_Settled job e)
      | inr e ↦
          Triple-weaken (λ s h. h) (λ _ s h. h) (λ _ s h. Settled-Safe watched i s h.0)
            (λ s h. Settled-Safe watched i s h.0)
            (recover_other i (λ s. Settled i s × Read s)
              (both-Stable (Settled-Stable v i) (read-Stable v i raws)) v job e)
    ]

    pub each_Settled :
        {m : Mode} (todo : List Text)
        → Triple m
            (λ s. Settled i s × Read s)
            (recover_each v todo)
            (λ _ s. Settled i s × Read s)
            (λ _ s. Safe watched i s)
            (Safe watched i)
    unfolding recover_each
    each_Settled [] = Triple-pure tt (λ s h. h)
    each_Settled (x ∷ xs) = Triple-bind (parsed_Settled (S.parse_job x)) (λ _. each_Settled xs)

    other_Safe :
        {m : Mode} (o : Option QueuePayload)
        → names i o ≡ false
        → Triple m
            (λ s. Safe watched i s × Read s)
            (recover_parsed v o)
            (λ _ s. Safe watched i s × Read s)
            (λ _ s. Safe watched i s)
            (Safe watched i)
    other_Safe none e = Triple-pure tt (λ s h. h)
    other_Safe (some job) e =
        Triple-weaken (λ s h. h) (λ _ s h. h) (λ _ s h. h.0) (λ s h. h.0)
          (recover_other i (λ s. Safe watched i s × Read s)
            (both-Stable (Safe-Stable u i) (read-Stable v i raws)) v job e)

    own_parsed :
        {m : Mode} (o : Option QueuePayload)
        → names i o ≡ true
        → Triple m
            (λ s. Safe watched i s × Read s)
            (recover_parsed v o)
            (λ _ s. Settled i s × Read s)
            (λ _ s. Safe watched i s)
            (Safe watched i)
    own_parsed none e = record { run = λ s fs ok h. cc (e) }
    own_parsed (some job) e = own_Settled job e

    -- Every entry that names the job leaves it settled.
    pub each_Swept :
        {m : Mode} (todo : List Text)
        → Triple m
            (λ s. Safe watched i s × Read s)
            (recover_each v todo)
            (λ _ s. Swept todo s)
            (λ _ s. Safe watched i s)
            (Safe watched i)
    unfolding recover_each
    each_Swept [] = Triple-pure tt (λ s h. (h, λ e. cc (e)))
    each_Swept (x ∷ xs) = elim (Bool-cases (names i (S.parse_job x))) [
      | inl e ↦
          Triple-weaken (λ s h. h) (λ _ s h. ((Settled-Safe watched i s h.0, h.1), λ _. h.0))
            (λ _ s h. h) (λ s h. h)
            (Triple-bind (own_parsed (S.parse_job x) e) (λ _. each_Settled xs))
      | inr e ↦ rw e (Triple-bind (other_Safe (S.parse_job x) e) (λ _. each_Swept xs))
    ]
