-- ===== src/Reaper/Rescue.antt =====
-- Whole scans (services/system-monitor/src/reaper.ts) where no call fails: the jobs of every worker
-- that has no heartbeat are recovered.
use distributed_code_executi.Common.{
  ◌≡◌, refl, subst, true, Option, none, some, inl, inr, List, [], ◌∷◌, Text, text_eq, text_eq_iff,
  text_eq_refl, Bool-cases,
}
use distributed_code_executi.Contracts.{QueuePayload}
use distributed_code_executi.Contracts.Keys.{
  pending_key, make_processing_key, text_eq-processing-pending,
}
use distributed_code_executi.Services.{Services, State}
use distributed_code_executi.Services.Effects.{M, call}
use distributed_code_executi.Services.Triples.{
  any, quiet, Triple, Keeps, Keeps-call, Triple-pure, Triple-bind, Triple-call, Triple-weaken,
}
use distributed_code_executi.Services.Keeping.{Keeps-pure, Keeps-bind}
use distributed_code_executi.Jobs.Places.{Settled, Safe}
use distributed_code_executi.Jobs.Bystanders.{read-Stable}
use distributed_code_executi.Worker.Elsewhere.{unlike}
use distributed_code_executi.Reaper.Handlers.{
  member, deleted, recover_parsed, recover_each, recover_read, recover_jobs_from_dead_worker,
  recover_workers,
}
use distributed_code_executi.Reaper.Sweeps.{Swept, each_Swept, each_Settled, recover_other}
use distributed_code_executi.Reaper.Scans.{emptied, worker_Safe}
use distributed_code_executi.Reaper.Orphans.{NoStranger, worker_quiet, Triple-both}

-- The worker `w` is held for dead; the job `i` is watched.
module _ ⦃S : Services⦄ (w i : Text) where
  abbrev queue : Text
  queue = make_processing_key w

  abbrev pub IsEmpty : State → Type 0
  IsEmpty s = S.lrange s.redis queue ≡ []

  abbrev pub Before : State → Type 0
  Before s = Safe queue i s × NoStranger s

  abbrev pub After : State → Type 0
  After s = Settled i s × (IsEmpty s × NoStranger s)

  dropped :
      (raws : List Text) (s : State)
      → Swept w i w raws raws s
      → Settled i (deleted queue s).1 × IsEmpty (deleted queue s).1
  dropped raws s h = (
    rw (S.lrange-del queue s.redis pending_key, text_eq-processing-pending w)
        (emptied w i queue raws s h.0.1 h.0.0 h.1),
    rw (S.lrange-del queue s.redis queue, text_eq_refl queue) refl,
  )

  own_drop :
      (raws : List Text)
      → Triple any
          (Swept w i w raws raws)
          (call (deleted queue))
          (λ _ s. Settled i s × IsEmpty s)
          (λ _ _. Unit {0})
          (λ _. Unit {0})
  own_drop raws = Triple-call _ (dropped raws) (λ s h. tt) (λ s h. tt) (λ s h. tt)

  own_read :
      (raws : List Text)
      → Triple any
          (λ s. Safe queue i s × (S.lrange s.redis queue ≡ raws))
          (recover_read w raws)
          (λ _ s. Settled i s × IsEmpty s)
          (λ _ _. Unit {0})
          (λ _. Unit {0})
  own_read [] =
      Triple-weaken (λ s h. (h, λ e. cc (e))) (λ _ s h. h) (λ e s h. h) (λ s h. h) (own_drop [])
  own_read (x ∷ xs) =
      Triple-bind
        (Triple-weaken (λ s h. h) (λ _ s h. h) (λ e s h. tt) (λ s h. tt)
          (each_Swept w i w (x ∷ xs) (x ∷ xs)))
        λ _. own_drop (x ∷ xs)

  own_worker :
      Triple any
        (Safe queue i)
        (recover_jobs_from_dead_worker w)
        (λ _ s. Settled i s × IsEmpty s)
        (λ _ _. Unit {0})
        (λ _. Unit {0})
  unfolding recover_jobs_from_dead_worker
  own_worker =
      Triple-bind {R = λ raws s. Safe queue i s × (S.lrange s.redis queue ≡ raws)}
        (Triple-call _ (λ s h. (h, refl)) (λ s h. tt) (λ s h. tt) (λ s h. tt)) own_read

  -- A queue that is empty stays so, whichever worker is recovered.
  each_empty : (v : Text) (raws : List Text) → Keeps IsEmpty any (recover_each v raws)
  unfolding recover_each
  each_empty v [] = Keeps-pure tt
  each_empty v (x ∷ xs) = Keeps-bind (parsed_empty (S.parse_job x)) (λ _. each_empty v xs)
    where
      parsed_empty : (o : Option QueuePayload) → Keeps IsEmpty any (recover_parsed v o)
      parsed_empty none = Keeps-pure tt
      parsed_empty (some job) =
          recover_other (0 ∷ job.job_id) IsEmpty (read-Stable w (0 ∷ job.job_id) []) v job
            (unlike job.job_id)

  drop_empty : (v : Text) → Keeps IsEmpty any (call (deleted (make_processing_key v)))
  drop_empty v = Keeps-call _ λ s h. elim (Bool-cases (text_eq (make_processing_key v) queue)) [
    | inl e ↦ rw (S.lrange-del (make_processing_key v) s.redis queue, e) refl
    | inr e ↦ rw (S.lrange-del (make_processing_key v) s.redis queue, e) h
  ]

  worker_empty : (v : Text) → Keeps IsEmpty any (recover_jobs_from_dead_worker v)
  unfolding recover_jobs_from_dead_worker
  worker_empty v = Keeps-bind (Keeps-call _ (λ s h. h)) read_empty
    where
      read_empty : (raws : List Text) → Keeps IsEmpty any (recover_read v raws)
      read_empty [] = drop_empty v
      read_empty (x ∷ xs) = Keeps-bind (each_empty v (x ∷ xs)) (λ _. drop_empty v)

  -- What is settled stays settled.
  drop_Settled :
      (v : Text) (P : State → Type 0)
      → ((s : State) → P s → Settled i s)
      → Triple any P
          (call (deleted (make_processing_key v)))
          (λ _ s. Settled i s)
          (λ _ _. Unit {0})
          (λ _. Unit {0})
  drop_Settled v P f =
      Triple-call _
        (λ s h.
          rw
            (S.lrange-del (make_processing_key v) s.redis pending_key, text_eq-processing-pending v)
            (f s h))
        (λ s h. tt) (λ s h. tt) (λ s h. tt)

  worker_Settled :
      (v : Text)
      → Triple any
          (Settled i)
          (recover_jobs_from_dead_worker v)
          (λ _ s. Settled i s)
          (λ _ _. Unit {0})
          (λ _. Unit {0})
  unfolding recover_jobs_from_dead_worker
  worker_Settled v =
      Triple-bind {R = λ raws s. Settled i s × (S.lrange s.redis (make_processing_key v) ≡ raws)}
        (Triple-call _ (λ s h. (h, refl)) (λ s h. tt) (λ s h. tt) (λ s h. tt)) read_Settled
    where
      read_Settled :
          (raws : List Text)
          → Triple any
              (λ s. Settled i s × (S.lrange s.redis (make_processing_key v) ≡ raws))
              (recover_read v raws)
              (λ _ s. Settled i s)
              (λ _ _. Unit {0})
              (λ _. Unit {0})
      read_Settled [] = drop_Settled v _ (λ s h. h.0)
      read_Settled (x ∷ xs) =
          Triple-bind
            (Triple-weaken (λ s h. h) (λ _ s h. h) (λ e s h. tt) (λ s h. tt)
              (each_Settled w i v (x ∷ xs) (x ∷ xs)))
            λ _. drop_Settled v _ (λ s h. h.0)

  abbrev pub Calm : {A : Type 0} → (State → Type 0) → M A → (State → Type 0) → Type 0
  Calm P x Q = Triple quiet P x (λ _ s. Q s) (λ _ _. ⊥) (λ _. ⊥)

  Before-other : (v : Text) → Calm Before (recover_jobs_from_dead_worker v) Before
  Before-other v =
      Triple-both (λ _ s. Safe queue i s) (λ _ s. NoStranger s) (λ _ s. Safe queue i s)
        (Safe queue i) (worker_Safe w i v) (worker_quiet v)

  own_calm : Calm Before (recover_jobs_from_dead_worker w) After
  own_calm =
      Triple-weaken (λ s h. h) (λ _ s h. (h.0.0, (h.0.1, h.1))) (λ e s h. h) (λ s h. h)
        (Triple-both (λ _ s. Settled i s × IsEmpty s) (λ _ s. NoStranger s) (λ _ _. Unit {0})
          (λ _. Unit {0}) own_worker (worker_quiet w))

  After-other : (v : Text) → Calm After (recover_jobs_from_dead_worker v) After
  After-other v =
      Triple-both (λ _ s. Settled i s) (λ _ s. IsEmpty s × NoStranger s) (λ _ _. Unit {0})
        (λ _. Unit {0}) (worker_Settled v)
        (Triple-both (λ _ s. IsEmpty s) (λ _ s. NoStranger s) (λ _ s. IsEmpty s) IsEmpty
          (worker_empty v) (worker_quiet v))

  rest_calm : (vs : List Text) → Calm After (recover_workers vs) After
  unfolding recover_workers
  rest_calm [] = Triple-pure tt (λ s h. h)
  rest_calm (v ∷ vs) = Triple-bind (After-other v) (λ _. rest_calm vs)

  -- Among the dead workers is `w`.
  pub workers_calm : (vs : List Text) → member w vs ≡ true → Calm Before (recover_workers vs) After
  unfolding recover_workers member
  workers_calm [] h = cc h
  workers_calm (v ∷ vs) h = elim (Bool-cases (text_eq w v)) [
    | inl e ↦
        Triple-bind
          (subst (λ x. Calm Before (recover_jobs_from_dead_worker x) After) ((text_eq_iff w v).0 e)
            own_calm)
          λ _. rest_calm vs
    | inr e ↦ Triple-bind (Before-other v) (λ _. workers_calm vs (rw e at h))
  ]
