-- ===== src/System/Bystanding.antt =====
-- What the requests to services/api-gateway/src/routes/submissions.ts that change state do to a job
-- that is there already, as seen from the processing queue of a worker.
use distributed_code_executi.Common.{
  ◌≡◌, ◌⊎◌, refl, ap, Bool, true, false, Option, none, some, List, [], ◌∷◌, Text, text_eq,
  text_eq_iff, if◌then◌else◌, Bool-cases, inl, inr,
}
use distributed_code_executi.Contracts.{SubmissionStatus, QueuePayload}
use distributed_code_executi.Contracts.Keys.{
  pending_key, dead_letter_key, make_processing_key, text_eq-dead_letter-pending,
  text_eq-dead_letter-processing,
}
use distributed_code_executi.Services.{Services, State, Submission, key_violation}
use distributed_code_executi.Services.Effects.{M}
use distributed_code_executi.Services.Triples.{
  any, Triple, Triple-pure, Triple-bind, Triple-call, Triple-given, Triple-throw, Triple-weaken,
  Triple-time, Keeps, Keeps-call, spent-key_violation,
}
use distributed_code_executi.Services.Keeping.{Keeps-pure, Keeps-bind, Keeps-catch, Keeps-count}
use distributed_code_executi.Jobs.{is_some, with_status, unless_stored, lrem}
use distributed_code_executi.Jobs.Places.{Safe, lrange-lrem_ne}
use distributed_code_executi.Jobs.Rollbacks.{Keeps-store_result}
use distributed_code_executi.Jobs.Bystanders.{
  Safe-with_result, Safe-Stable, Stable-has_id, Keeps-lpush_pending,
}
use distributed_code_executi.Gateway.{
  SubmissionBody, submission_row, submission_payload, insert_submission, fail_enqueue, enqueue,
  submit,
}
use distributed_code_executi.Gateway.Routes.{
  remove_if, remove_each, remove_from_dlq, unless_removed, item_of,
}

module _ ⦃S : Services⦄ (u i : Text) where
  abbrev I : State → Type 0
  I = Safe (make_processing_key u) i

  -- A row of another job is inserted, or none.
  other_inserted :
      (r : Submission) (s : State) (o : Option Submission)
      → S.submission s.db r.id ≡ o
      → I s
      → let x : Bool × State =
          if is_some o then (false, s) else (true, record s { db = S.insert r s.db }) in
        I x.1 × (x.0 ≡ true → text_eq r.id i ≡ false)
  other_inserted r s (some old) e h = (h, λ x. cc)
  other_inserted r s none e h =
      let other = differs (Bool-cases (text_eq r.id i)) in
      (rw (S.submission-insert r s.db i e, other) h, λ x. other)
    where
      differs : (text_eq r.id i ≡ true) ⊎ (text_eq r.id i ≡ false) → text_eq r.id i ≡ false
      differs (inl same) =
          cc (h.0, ap (λ j. is_some (S.submission s.db j)) ((text_eq_iff r.id i).0 same), e)
      differs (inr other) = other

  insert_other :
      (r : Submission)
      → Triple any I (insert_submission r) (λ _ s. I s × (text_eq r.id i ≡ false)) (λ _ s. I s) I
  unfolding insert_submission
  insert_other r =
      Triple-bind {R = λ b s. I s × (b ≡ true → text_eq r.id i ≡ false)}
        (Triple-call _ (λ s h. other_inserted r s (S.submission s.db r.id) refl h) (λ s h. h)
          (λ s h. (other_inserted r s (S.submission s.db r.id) refl h).0) (λ s h. h))
        unless
    where
      unless :
          (b : Bool)
          → Triple any
              (λ s. I s × (b ≡ true → text_eq r.id i ≡ false))
              (unless_stored b)
              (λ _ s. I s × (text_eq r.id i ≡ false))
              (λ _ s. I s)
              I
      unless true = Triple-pure tt (λ s h. (h.0, h.1 refl))
      unless false = Triple-throw key_violation (spent-key_violation any) (λ s h. h.0)

  fail_other : (j : Text) → text_eq j i ≡ false → Keeps I any (fail_enqueue j)
  unfolding fail_enqueue
  fail_other j other = Keeps-bind (Keeps-count _ (λ s h. h)) λ _.
      Keeps-bind
        (Keeps-call _ λ s h.
          Stable-has_id (Safe-Stable u i) j (with_status SubmissionStatus.failed s.now) (λ r. refl)
            other s h)
        λ _. Keeps-bind (Keeps-store_result I (Safe-with_result u i) _ _) λ _. Keeps-pure _

  enqueue_other : (payload : QueuePayload) → Keeps I any (enqueue payload)
  unfolding enqueue
  enqueue_other payload = Keeps-bind (Keeps-lpush_pending u i _) λ _.
      Keeps-bind (Keeps-call _ (λ s h. h))
        λ d. Keeps-bind (Keeps-count _ (λ s h. h)) λ _. Keeps-pure _

  pub Keeps-submit : (j : Text) (body : SubmissionBody) → Keeps I any (submit j body)
  unfolding submit
  Keeps-submit j body = Keeps-bind Triple-time λ now.
      Triple-bind (insert_other (submission_row j body now)) λ _.
        Triple-given (λ s h. h.1)
          λ other.
            Triple-weaken (λ s h. h.0) (λ _ s h. h) (λ e s h. h) (λ s h. h)
              (Keeps-catch (enqueue_other (submission_payload j body (S.iso now)))
                (λ e. fail_other j other))

  dead_lrem : (raw : Text) → Keeps I any (lrem dead_letter_key raw)
  dead_lrem raw = Keeps-call _ λ s h.
      rw
        (
          lrange-lrem_ne dead_letter_key raw s.redis pending_key text_eq-dead_letter-pending,
          lrange-lrem_ne dead_letter_key raw s.redis (make_processing_key u)
              (text_eq-dead_letter-processing u),
        )
        h

  remove_if_other : (b : Bool) (raw : Text) → Keeps I any (remove_if b raw)
  remove_if_other false raw = Keeps-pure _
  remove_if_other true raw =
      Keeps-catch (Keeps-bind (dead_lrem raw) (λ _. Keeps-pure _)) (λ e. Keeps-pure _)

  unless_removed_other :
      (rest : M Bool) → Keeps I any rest → (done : Bool) → Keeps I any (unless_removed done rest)
  unless_removed_other rest h true = Keeps-pure _
  unless_removed_other rest h false = h

  remove_each_other : (j : Text) (raws : List Text) → Keeps I any (remove_each j raws)
  remove_each_other j [] = Keeps-pure _
  remove_each_other j (raw ∷ raws) =
      Keeps-bind (remove_if_other (item_of j (S.parse_dlq raw)) raw)
        (unless_removed_other (remove_each j raws) (remove_each_other j raws))

  pub Keeps-remove_from_dlq : (j : Text) → Keeps I any (remove_from_dlq j)
  unfolding remove_from_dlq
  Keeps-remove_from_dlq j =
      Keeps-bind (Keeps-call _ (λ s h. h))
        λ all_raw. Keeps-bind (remove_each_other j all_raw) λ done. Keeps-pure _
