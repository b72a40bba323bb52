-- ===== src/System/Backlogs.antt =====
-- A worker of services/execution-worker/src/index.ts and a backlog of jobs, where no call fails.
use mathlib.Core.Option
use distributed_code_executi.Common.{
  ℕ, ◌+◌, ◌≡◌, refl, ap, ◌∙◌, Bool, true, false, Option, none, some, List, [], ◌∷◌, ◌++◌, length,
  Text, if◌then◌else◌, text_eq, text_eq_sym, text_eq_refl, text_eq_iff, ◌⊎◌, Bool-cases, inl, inr,
}
use distributed_code_executi.Contracts.{SubmissionStatus, QueuePayload, Language}
use distributed_code_executi.Contracts.Keys.{pending_key}
use distributed_code_executi.Services.{Services, State, Submission, returned}
use distributed_code_executi.Services.Effects.{◌>>=◌, call}
use distributed_code_executi.Services.Triples.{at}
use distributed_code_executi.Jobs.{with_status, has_id}
use distributed_code_executi.Worker.{process_next, rounds, result_row, result_conflict, claimable}
use distributed_code_executi.Worker.Serving.{submission-claimed, claimed, process_next-serves}
use distributed_code_executi.Worker.Verdict.{SandboxResult, verdict}
use distributed_code_executi.Gateway.Routes.{Detail, detail, get_submission}
use distributed_code_executi.Gateway.Stored.{Tells, get_submission-stored}

-- A payload with the row of its job.
pub record Job : Type 0 where
  pub payload : QueuePayload
  pub row : Submission

abbrev pub key : Job → Text
key j = j.payload.job_id

-- No job of the list has the identifier.
abbrev pub Absent : Text → List Job → Type 0
Absent i [] = Unit {0}
Absent i (j ∷ js) = (text_eq (key j) i ≡ false) × Absent i js

abbrev pub Distinct : List Job → Type 0
Distinct [] = Unit {0}
Distinct (j ∷ js) = Absent (key j) js × Distinct js

pub Absent-snoc :
    (i : Text) (js : List Job) (j : Job)
    → text_eq (key j) i ≡ false
    → Absent i js
    → Absent i (js ++ j ∷ [])
Absent-snoc i [] j n a = (n, tt)
Absent-snoc i (k ∷ js) j n a = (a.0, Absent-snoc i js j n a.1)

pub Distinct-snoc :
    (js : List Job) (j : Job) → Absent (key j) js → Distinct js → Distinct (js ++ j ∷ [])
Distinct-snoc [] j a d = (tt, tt)
Distinct-snoc (k ∷ js) j a d =
    (Absent-snoc (key k) js j (text_eq_sym (key j) (key k) ∙ a.0) d.0, Distinct-snoc js j a.1 d.1)

module _ ⦃S : Services⦄ where
  -- The pending queue that holds the jobs, of which the first is the oldest.
  abbrev pub backlog : List Job → List Text
  backlog [] = []
  backlog (j ∷ js) = backlog js ++ S.stringify_job j.payload ∷ []

  pub backlog-snoc :
      (js : List Job) (j : Job) → backlog (js ++ j ∷ []) ≡ S.stringify_job j.payload ∷ backlog js
  backlog-snoc [] j = refl
  backlog-snoc (k ∷ js) j = rw (backlog-snoc js j) refl

  abbrev pub Waiting : Job → State → Type 0
  Waiting j s = (S.submission s.db (key j) ≡ some j.row) × (j.row.status ≡ SubmissionStatus.pending)

  abbrev pub AllWaiting : List Job → State → Type 0
  AllWaiting [] s = Unit {0}
  AllWaiting (j ∷ js) s = Waiting j s × AllWaiting js s

  pub AllWaiting-snoc :
      (js : List Job) (j : Job) (s : State)
      → AllWaiting js s
      → Waiting j s
      → AllWaiting (js ++ j ∷ []) s
  AllWaiting-snoc [] j s w h = (h, tt)
  AllWaiting-snoc (k ∷ js) j s w h = (w.0, AllWaiting-snoc js j s w.1 h)

  -- The row and the result of the job are the same.
  abbrev pub Untouched : Text → State → State → Type 0
  Untouched i s t =
      (S.submission t.db i ≡ S.submission s.db i) × (S.result_of t.db i ≡ S.result_of s.db i)

  -- An update of the row of another job is not seen.
  pub update_other :
      (p : Submission → Bool) (f : Submission → Submission) (d : S.Db) (i j : Text)
      → ((r : Submission) → (f r).id ≡ r.id)
      → ((r : Submission) → text_eq j r.id ≡ false → p r ≡ false)
      → text_eq j i ≡ false
      → S.submission (S.update p f d) i ≡ S.submission d i
  update_other p f d i j keeps only other =
      S.submission-update p f keeps d i ∙ by_cases (S.submission d i) refl
    where
      by_cases :
          (o : Option Submission)
          → S.submission d i ≡ o
          → Option.map (λ s. if p s then f s else s) o ≡ o
      by_cases none e = refl
      by_cases (some r) e = rw (only r (rw (S.id-submission d i r e) other)) refl

  module _ (execute : Text → Text → Language → SandboxResult) (worker_id : Text) where
    abbrev pub run : Job → SandboxResult
    run j = execute (key j) j.payload.code j.payload.language

    -- GET /submissions/:id tells the verdict and the outputs of the run of the job.
    abbrev pub Answers : Job → State → Type 0
    Answers j t =
        (d : Detail) × ((get_submission (key j) (at t [])).0 ≡ returned (detail d))
        × Tells j.row (run j) d

    abbrev pub AllAnswer : List Job → State → Type 0
    AllAnswer [] t = Unit {0}
    AllAnswer (j ∷ js) t = Answers j t × AllAnswer js t

    served : State → State
    served s = (process_next execute worker_id (at s [])).1.state

    module _ (j : Job) (s : State) (xs : List Text)
        (waits : S.lrange s.redis pending_key ≡ xs ++ S.stringify_job j.payload ∷ [])
        (ready : Waiting j s) where
      round_lem :
          (process_next execute worker_id (at s []) ≡ (returned tt, at (served s) []))
          × (((served s).db)
              ≡ S.update
                  (has_id (key j))
                  (with_status (verdict (run j)).final_status (s.now + (run j).execution_time_ms))
                  (S.upsert_result
                    (result_row (key j) (run j) (verdict (run j)))
                    result_conflict
                    (claimed execute worker_id (S.stringify_job j.payload) j.payload s)))
          × ((k : Text)
              → S.lrange (served s).redis k
                ≡ (if text_eq pending_key k then xs else S.lrange s.redis k))
      unfolding served
      round_lem =
          process_next-serves execute worker_id (S.stringify_job j.payload) j.payload s j.row xs
            waits (S.parse-stringify j.payload) ready.0 ready.1

      served_other : (i : Text) → text_eq (key j) i ≡ false → Untouched i s (served s)
      served_other i other = (
        ap (λ d. S.submission d i) round_lem.1
            ∙ update_other (has_id (key j)) (with_status (verdict (run j)).final_status after)
                stored i (key j) (λ _. refl) (λ r e. e) other
            ∙ S.submission-upsert_result (result_row (key j) (run j) (verdict (run j)))
                result_conflict mine i
            ∙ update_other (claimable (key j)) (with_status SubmissionStatus.running s.now) s.db i
                (key j) (λ _. refl) (λ r e. rw e refl) other,
        ap (λ d. S.result_of d i) round_lem.1
            ∙ S.result_of-update (has_id (key j)) (with_status (verdict (run j)).final_status after)
                stored i
            ∙ S.result_of-upsert_result (result_row (key j) (run j) (verdict (run j)))
                result_conflict mine i
            ∙ rw other (
                S.result_of-update (claimable (key j)) (with_status SubmissionStatus.running s.now)
                  s.db i),
      )
        where
          after : ℕ
          after = s.now + (run j).execution_time_ms

          mine : S.Db
          mine = claimed execute worker_id (S.stringify_job j.payload) j.payload s

          stored : S.Db
          stored =
              S.upsert_result (result_row (key j) (run j) (verdict (run j))) result_conflict mine

      served_self : Answers j (served s)
      served_self =
          get_submission-stored (key j) (run j)
            (record s {
              db = claimed execute worker_id (S.stringify_job j.payload) j.payload s;
              now = s.now + (run j).execution_time_ms;
            })
            (served s) (with_status SubmissionStatus.running s.now j.row)
            (submission-claimed execute worker_id (S.stringify_job j.payload) j.payload s j.row
              ready.0 ready.1)
            round_lem.1

    Answers-Untouched : (j : Job) (s t : State) → Untouched (key j) s t → Answers j s → Answers j t
    unfolding get_submission call
    Answers-Untouched j s t u (d, told, tells) = (d, rw (u.0, u.1) told, tells)

    Waiting-Untouched : (j : Job) (s t : State) → Untouched (key j) s t → Waiting j s → Waiting j t
    Waiting-Untouched j s t u w = (u.0 ∙ w.0, w.1)

    AllWaiting-served :
        (js : List Job) (i : Text) (s t : State)
        → Absent i js
        → ((k : Text) → text_eq i k ≡ false → Untouched k s t)
        → AllWaiting js s
        → AllWaiting js t
    AllWaiting-served [] i s t a u w = tt
    AllWaiting-served (j ∷ js) i s t a u w = (
      Waiting-Untouched j s t (u (key j) (rw (text_eq_sym i (key j)) a.0)) w.0,
      AllWaiting-served js i s t a.1 u w.1,
    )

    -- What a worker without faults does to a backlog.
    pub rounds-serve :
        (js : List Job) (s : State)
        → S.lrange s.redis pending_key ≡ backlog js
        → AllWaiting js s
        → Distinct js
        → let t = (rounds execute (length js) worker_id (at s [])).1.state in
          ((rounds execute (length js) worker_id (at s [])).0 ≡ returned tt)
          × ((k : Text)
              → S.lrange t.redis k ≡ (if text_eq pending_key k then [] else S.lrange s.redis k))
          × ((i : Text) → Absent i js → Untouched i s t)
          × AllAnswer js t
    unfolding rounds ◌>>=◌
    rounds-serve [] s e w d =
        (refl, λ k. by_cases k (Bool-cases (text_eq pending_key k)), λ i a. (refl, refl), tt)
      where
        by_cases :
            (k : Text)
            → (text_eq pending_key k ≡ true) ⊎ (text_eq pending_key k ≡ false)
            → S.lrange s.redis k ≡ (if text_eq pending_key k then [] else S.lrange s.redis k)
        by_cases k (inl same) = rw (same, ← (text_eq_iff pending_key k).0 same) e
        by_cases k (inr other) = rw other refl
    rounds-serve (j ∷ js) s e w d =
        let o = round_lem j s (backlog js) e w.0 in
        let u = served_other j s (backlog js) e w.0 in
        let left = o.2 pending_key ∙ rw (text_eq_refl pending_key) in
        let ih =
          rounds-serve js (served s) left (AllWaiting-served js (key j) s (served s) d.0 u w.1)
            d.1 in
        rw o.0 (
          ih.0,
          λ k. ih.1 k ∙ by_cases k (Bool-cases (text_eq pending_key k)) (o.2 k),
          λ i a. ((ih.2 i a.1).0 ∙ (u i a.0).0, (ih.2 i a.1).1 ∙ (u i a.0).1),
          (
            Answers-Untouched j (served s) _ (ih.2 (key j) d.0)
                (served_self j s (backlog js) e w.0),
            ih.3,
          ),
        )
      where
        by_cases :
            (k : Text)
            → (text_eq pending_key k ≡ true) ⊎ (text_eq pending_key k ≡ false)
            → S.lrange (served s).redis k
              ≡ (if text_eq pending_key k then backlog js else S.lrange s.redis k)
            → (if text_eq pending_key k then [] else S.lrange (served s).redis k)
              ≡ (if text_eq pending_key k then [] else S.lrange s.redis k)
        by_cases k (inl same) h = rw same refl
        by_cases k (inr other) h = rw other (rw other at h)
