-- ===== src/System/Lifetimes.antt =====
-- Jobs from POST /submissions of services/api-gateway/src/routes/submissions.ts over a worker of
-- services/execution-worker/src/index.ts to GET /submissions/:id, where no call fails.
use mathlib.Core.List.{append_assoc, append-nil}
use distributed_code_executi.Common.{
  ℕ, ◌≡◌, refl, sym, ap, ◌∙◌, subst, true, false, none, some, List, [], ◌∷◌, ◌++◌, map, length,
  Text, if◌then◌else◌, text_eq, text_eq_refl, text_eq_iff, ◌⊎◌, Bool-cases, inl, inr,
}
use distributed_code_executi.Contracts.{Language}
use distributed_code_executi.Contracts.Keys.{pending_key}
use distributed_code_executi.Services.{Services, State, returned, queue_depth}
use distributed_code_executi.Services.Effects.{
  M, pure, ◌>>=◌, ◌>>◌, call, local, try_catch, count, time,
}
use distributed_code_executi.Services.Triples.{at}
use distributed_code_executi.Jobs.Places.{lrange-lpush_ne}
use distributed_code_executi.Worker.{rounds}
use distributed_code_executi.Worker.Verdict.{SandboxResult}
use distributed_code_executi.Gateway.{
  SubmissionBody, created, submission_row, submission_payload, insert_submission, enqueue, submit,
}
use distributed_code_executi.System.Backlogs.{
  backlog-snoc, Absent-snoc, Job, key, Distinct, backlog, Waiting, AllWaiting, AllAnswer,
  rounds-serve,
}

-- A request of POST /submissions and the identifier that was drawn for it.
pub record Request : Type 0 where
  pub id : Text
  pub body : SubmissionBody

-- The identifier is none of theirs.
abbrev pub Unlike : Text → List Request → Type 0
Unlike i [] = Unit {0}
Unlike i (r ∷ rs) = (text_eq i r.id ≡ false) × Unlike i rs

module _ ⦃S : Services⦄ where
  -- The identifiers are new, and differ.
  abbrev pub AllNew : List Request → State → Type 0
  AllNew [] s = Unit {0}
  AllNew (r ∷ rs) s = (S.submission s.db r.id ≡ none) × Unlike r.id rs × AllNew rs s

  -- The requests, handled one after the other.
  unfoldable pub submit_all : List Request → M Unit
  submit_all [] = pure tt
  submit_all (r ∷ rs) = do submit r.id r.body; submit_all rs

  -- What a request at this time becomes.
  abbrev pub job_at : ℕ → Request → Job
  job_at now r = record {
    payload = submission_payload r.id r.body (S.iso now);
    row = submission_row r.id r.body now;
  }

  abbrev submitted : Request → State → State
  submitted r s = record s {
    db = S.insert (submission_row r.id r.body s.now) s.db;
    redis = S.lpush pending_key (S.stringify_job (job_at s.now r).payload) s.redis;
    metrics =
        queue_depth (
          length (
            S.lrange (S.lpush pending_key (S.stringify_job (job_at s.now r).payload) s.redis)
              pending_key))
        ∷ s.metrics;
  }

  submit-calm :
      (r : Request) (s : State)
      → S.submission s.db r.id ≡ none
      → submit r.id r.body (at s []) ≡ (returned created, at (submitted r s) [])
  unfolding submit insert_submission enqueue try_catch call local count time ◌>>=◌
  submit-calm r s h = rw h refl

  module _ (r : Request) (s : State) (fresh : S.submission s.db r.id ≡ none) where
    submission-submitted :
        (i : Text)
        → S.submission (submitted r s).db i
          ≡ (if text_eq r.id i then some (job_at s.now r).row else S.submission s.db i)
    submission-submitted i = S.submission-insert (submission_row r.id r.body s.now) s.db i fresh

    AllNew-submitted :
        (rs : List Request) → Unlike r.id rs → AllNew rs s → AllNew rs (submitted r s)
    AllNew-submitted [] u a = tt
    AllNew-submitted (x ∷ xs) u a =
        (submission-submitted x.id ∙ rw u.0 a.0, a.1, AllNew-submitted xs u.1 a.2)

    other : (j : Job) → Waiting j s → text_eq r.id (key j) ≡ false
    other j w = differs (Bool-cases (text_eq r.id (key j)))
      where
        differs :
            (text_eq r.id (key j) ≡ true) ⊎ (text_eq r.id (key j) ≡ false)
            → text_eq r.id (key j) ≡ false
        differs (inl e) =
            cc (sym fresh ∙ ap (λ i. S.submission s.db i) ((text_eq_iff r.id (key j)).0 e) ∙ w.0)
        differs (inr e) = e

    new_Waiting : Waiting (job_at s.now r) (submitted r s)
    new_Waiting = (submission-submitted r.id ∙ rw (text_eq_refl r.id), refl)

    old_Waiting : (j : Job) → Waiting j s → Waiting j (submitted r s)
    old_Waiting j w = (submission-submitted (key j) ∙ rw (other j w) w.0, w.1)

    AllWaiting-submitted :
        (js : List Job) → AllWaiting js s → AllWaiting (js ++ job_at s.now r ∷ []) (submitted r s)
    AllWaiting-submitted [] w = (new_Waiting, tt)
    AllWaiting-submitted (j ∷ js) w = (old_Waiting j w.0, AllWaiting-submitted js w.1)

    Distinct-submitted :
        (js : List Job) → AllWaiting js s → Distinct js → Distinct (js ++ job_at s.now r ∷ [])
    Distinct-submitted [] w d = (tt, tt)
    Distinct-submitted (j ∷ js) w d =
        (Absent-snoc (key j) js (job_at s.now r) (other j w.0) d.0, Distinct-submitted js w.1 d.1)

    lrange-submitted :
        (js : List Job)
        → S.lrange s.redis pending_key ≡ backlog js
        → S.lrange (submitted r s).redis pending_key ≡ backlog (js ++ job_at s.now r ∷ [])
    lrange-submitted js e =
        S.lrange-lpush pending_key (S.stringify_job (job_at s.now r).payload) s.redis pending_key
        ∙ rw (text_eq_refl pending_key, e) (sym (backlog-snoc js (job_at s.now r)))

  -- After all of the requests.
  abbrev all_submitted : List Request → State → State
  all_submitted [] s = s
  all_submitted (r ∷ rs) s = all_submitted rs (submitted r s)

  submit_all-calm :
      (rs : List Request) (s : State)
      → AllNew rs s
      → submit_all rs (at s []) ≡ (returned tt, at (all_submitted rs s) [])
  unfolding submit_all ◌>>=◌
  submit_all-calm [] s a = refl
  submit_all-calm (r ∷ rs) s a =
      rw (submit-calm r s a.0)
        (submit_all-calm rs (submitted r s) (AllNew-submitted r s a.0 rs a.1 a.2))

  lrange-all_submitted :
      (rs : List Request) (s : State) (k : Text)
      → text_eq pending_key k ≡ false
      → S.lrange (all_submitted rs s).redis k ≡ S.lrange s.redis k
  lrange-all_submitted [] s k n = refl
  lrange-all_submitted (r ∷ rs) s k n =
      lrange-all_submitted rs (submitted r s) k n
      ∙ lrange-lpush_ne pending_key (S.stringify_job (job_at s.now r).payload) s.redis k n

  -- The queue holds these jobs, which wait and differ.
  abbrev Backlog : List Job → State → Type 0
  Backlog js s = (S.lrange s.redis pending_key ≡ backlog js) × AllWaiting js s × Distinct js

  Backlog-submitted :
      (rs : List Request) (js : List Job) (s : State)
      → AllNew rs s
      → Backlog js s
      → Backlog (js ++ map (job_at s.now) rs) (all_submitted rs s)
  Backlog-submitted [] js s a b = rw (append-nil js) b
  Backlog-submitted (r ∷ rs) js s a b =
      subst (λ l. Backlog l (all_submitted rs (submitted r s)))
        (append_assoc js (job_at s.now r ∷ []) (map (job_at s.now) rs))
        (Backlog-submitted rs (js ++ job_at s.now r ∷ []) (submitted r s)
          (AllNew-submitted r s a.0 rs a.1 a.2)
          (
            lrange-submitted r s a.0 js b.0,
            AllWaiting-submitted r s a.0 js b.1,
            Distinct-submitted r s a.0 js b.1 b.2,
          ))

  module _ (execute : Text → Text → Language → SandboxResult) (worker_id : Text) where
    -- Where no call fails, all requests of any list with new and different identifiers to a platform
    -- whose pending queue is empty are served by one worker in as many rounds as there are requests:
    -- the worker returns, the pending queue is empty again, every other list is what it was before,
    -- and GET /submissions/:id tells of each job the verdict on the run of its own code with the
    -- outputs, the message, the category, the exit code, the time and the flags of that run, the code
    -- itself and no retry.
    pub submit_all-served :
        (rs : List Request) (s : State)
        → AllNew rs s
        → S.lrange s.redis pending_key ≡ []
        → let jobs = map (job_at s.now) rs in
          let o = (submit_all rs >>= λ _. rounds execute (length jobs) worker_id) (at s []) in
          (o.0 ≡ returned tt)
          × ((k : Text) → S.lrange o.1.state.redis k ≡ S.lrange s.redis k)
          × AllAnswer execute worker_id jobs o.1.state
    unfolding ◌>>=◌
    submit_all-served rs s a e =
        let b = Backlog-submitted rs [] s a (e, tt, tt) in
        let o =
          rounds-serve execute worker_id (map (job_at s.now) rs) (all_submitted rs s) b.0 b.1 b.2 in
        rw (submit_all-calm rs s a)
          (o.0, λ k. o.1 k ∙ by_cases k (Bool-cases (text_eq pending_key k)), o.3)
      where
        by_cases :
            (k : Text)
            → (text_eq pending_key k ≡ true) ⊎ (text_eq pending_key k ≡ false)
            → (if text_eq pending_key k then [] else S.lrange (all_submitted rs s).redis k)
              ≡ S.lrange s.redis k
        by_cases k (inl same) = rw (same, ← (text_eq_iff pending_key k).0 same) (sym e)
        by_cases k (inr other) = rw other (lrange-all_submitted rs s k other)
