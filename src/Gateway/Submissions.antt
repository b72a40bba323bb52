-- ===== src/Gateway/Submissions.antt =====
-- What the client of POST /submissions can rely on.
use distributed_code_executi.Common.{
  ℕ, List, [], ◌≡◌, refl, Bool, true, false, none, some, Text, arith,
}
use distributed_code_executi.Contracts.{SubmissionStatus}
use distributed_code_executi.Services.{
  Services, State, World, Outcome, Exception, Fault, returned, thrown, crashed,
}
use distributed_code_executi.Services.Triples.{
  any, quiet, Triple, Triple-pure, Triple-bind, Triple-catch, Triple-call, Triple-call_quiet,
  Triple-count, Triple-time, Holds, at,
}
use distributed_code_executi.Jobs.{status_of, unless_stored}
use distributed_code_executi.Jobs.Results.{Triple-store_result}
use distributed_code_executi.Gateway.Handlers.{
  SubmissionBody, Reply, created, unavailable, submission_payload, enqueue_result, enqueue_conflict,
  insert_submission, fail_enqueue, enqueue, submit,
}
use distributed_code_executi.Gateway.Answers.{
  Answered, row_inserted, pushed_Created, status_failed, result_told, stored_then,
}

module _ ⦃S : Services⦄ (i : Text) (body : SubmissionBody) where
  abbrev Fresh : State → Type 0
  Fresh s = S.submission s.db i ≡ none

  abbrev Pending : State → Type 0
  Pending s = status_of i s ≡ some SubmissionStatus.pending

  abbrev Failed : State → Type 0
  Failed s = status_of i s ≡ some SubmissionStatus.failed

  module _ {E : Exception → State → Type 0} {C : State → Type 0} where
    created_quiet :
        (now : ℕ)
        → Triple quiet Pending
            (enqueue (submission_payload i body (S.iso now)))
            (λ reply s. (reply ≡ created) × Answered i reply s)
            E
            C
    unfolding enqueue
    created_quiet now =
        Triple-bind {R = λ _ s. Answered i created s}
          (Triple-call_quiet _ (pushed_Created i body now))
          λ _. Triple-bind {R = λ _ s. Answered i created s} (Triple-call_quiet _ (λ s h. h)) λ d.
            Triple-bind {R = λ _ s. Answered i created s} (Triple-count _ (λ s h. h))
              λ _. Triple-pure created (λ s h. (refl, h))

  enqueue_told :
      (now : ℕ)
      → Triple any Pending
          (enqueue (submission_payload i body (S.iso now)))
          (λ reply s. Answered i reply s)
          (λ _ s. Pending s)
          (λ _. Unit {0})
  unfolding enqueue
  enqueue_told now =
      Triple-bind {R = λ _ s. Answered i created s}
        (Triple-call _ (pushed_Created i body now) (λ s h. h) (λ s h. h) (λ s h. tt))
        λ _.
          Triple-bind {R = λ _ s. Answered i created s}
            (Triple-call _ (λ s h. h) (λ s h. h.0) (λ s h. h.0) (λ s h. tt))
            λ d.
              Triple-bind {R = λ _ s. Answered i created s} (Triple-count _ (λ s h. h))
                λ _. Triple-pure created (λ s h. h)

  fail_told :
      Triple any Pending
        (fail_enqueue i)
        (λ reply s. Answered i reply s)
        (λ _ _. Unit {0})
        (λ _. Unit {0})
  unfolding fail_enqueue
  fail_told = Triple-bind {R = λ _ s. Pending s} (Triple-count _ (λ s h. h)) λ _.
      Triple-bind {R = λ _ s. Failed s}
        (Triple-call _ (status_failed i body) (λ s h. tt) (λ s h. tt) (λ s h. tt))
        λ _.
          Triple-bind {R = λ _ s. Answered i unavailable s}
            (Triple-store_result (enqueue_result i) enqueue_conflict (λ s h. ground arith)
              (result_told i body) (λ s h. tt) (λ s h. tt) (λ s h. tt))
            λ _. Triple-pure unavailable (λ s h. h)

  submit_told :
      Triple any Fresh
        (submit i body)
        (λ reply s. Answered i reply s)
        (λ _ _. Unit {0})
        (λ _. Unit {0})
  unfolding submit insert_submission
  submit_told = Triple-bind Triple-time λ now.
      Triple-bind {R = λ _ s. Pending s}
        (Triple-bind {R = λ b s. Pending s × (b ≡ true)}
          (Triple-call _
            (λ s h.
              row_inserted i body now s h (λ x. Pending x.1 × (x.0 ≡ true)) (λ t p. (p, refl)))
            (λ s h. tt) (λ s h. tt) (λ s h. tt))
          (stored_then i body))
        λ _. Triple-catch (enqueue_told now) (λ e. fail_told)

  submit_created :
      Triple quiet Fresh
        (submit i body)
        (λ reply s. (reply ≡ created) × Answered i reply s)
        (λ _ _. ⊥)
        (λ _. ⊥)
  unfolding submit insert_submission
  submit_created = Triple-bind Triple-time λ now.
      Triple-bind {R = λ _ s. Pending s}
        (Triple-bind {R = λ b s. Pending s × (b ≡ true)}
          (Triple-call_quiet _ (λ s h.
            row_inserted i body now s h (λ x. Pending x.1 × (x.0 ≡ true)) (λ t p. (p, refl))))
          stored_quiet)
        λ _.
          Triple-catch {H = λ _ _. ⊥} (created_quiet now)
            (λ e. record { run = λ s fs ok h. absurd h })
    where
      stored_quiet :
          (b : Bool)
          → Triple quiet
              (λ s. Pending s × (b ≡ true))
              (unless_stored b)
              (λ _ s. Pending s)
              (λ _ _. ⊥)
              (λ _. ⊥)
      stored_quiet true = Triple-pure tt (λ s h. h.0)
      stored_quiet false = record { run = λ s fs ok h. cc (h.1) }

  -- Nothing is promised to a client that gets no reply.
  abbrev pub Told : Outcome Reply → World → Type 0
  Told (returned reply) w = Answered i reply w.state
  Told (thrown e) w = Unit {0}
  Told crashed w = Unit {0}

  -- A reply to POST /submissions is true when it is sent, whatever faults the handler met, if the
  -- identifier that was drawn is new. After 201 the row of the job is PENDING and the pending queue
  -- holds its payload; after 503 the row is FAILED and the result has the category UNKNOWN.
  pub submit-Told :
      (s : State) (faults : List Fault)
      → S.submission s.db i ≡ none
      → Told (submit i body (at s faults)).0 (submit i body (at s faults)).1
  submit-Told s faults fresh =
      told (submit i body (at s faults)).0 (submit i body (at s faults)).1
        (submit_told.run s faults tt fresh)
    where
      told :
          (o : Outcome Reply) (w : World)
          → Holds any (λ reply s. Answered i reply s) (λ _ _. Unit {0}) (λ _. Unit {0}) o w
          → Told o w
      told (returned reply) w h = h.1
      told (thrown e) w h = tt
      told crashed w h = tt

  -- Where no call fails, POST /submissions with a new identifier replies 201, and the job has a
  -- row that is PENDING and a payload in the pending queue.
  pub submit-returns :
      (s : State)
      → S.submission s.db i ≡ none
      → ((submit i body (at s [])).0 ≡ returned created)
        × Answered i created (submit i body (at s [])).1.state
  submit-returns s fresh =
      told (submit i body (at s [])).0 (submit i body (at s [])).1
        (submit_created.run s [] tt fresh)
    where
      told :
          (o : Outcome Reply) (w : World)
          → Holds quiet (λ reply s. (reply ≡ created) × Answered i reply s) (λ _ _. ⊥) (λ _. ⊥) o w
          → (o ≡ returned created) × Answered i created w.state
      told (returned created) w h = (refl, h.1.1)
      told (returned unavailable) w h = cc (h.1.0)
      told (thrown e) w h = absurd (h.1)
      told crashed w h = absurd h
