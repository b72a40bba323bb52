-- ===== src/Gateway/Readings.antt =====
-- What GET /dlq and DELETE /dlq/:jobId of services/api-gateway/src/routes/submissions.ts do with what
-- sendToDLQ has written.
use distributed_code_executi.Common.{
  suc, length, map, ◌≡◌, refl, ap, ◌∙◌, none, some, [], ◌∷◌, Text, text_eq_refl,
}
use distributed_code_executi.Contracts.{QueuePayload, SubmissionStatus}
use distributed_code_executi.Contracts.Keys.{dead_letter_key}
use distributed_code_executi.Services.{Services, State, Submission, returned, dead_letter_jobs}
use distributed_code_executi.Services.Effects.{
  ◌>>=◌, call, local, try_catch, transaction, begin_commit, released, count, time,
}
use distributed_code_executi.Services.Triples.{at}
use distributed_code_executi.Jobs.{
  has_id, with_status, send_to_dlq, fail_job, store_result, dlq_payload, dlq_result, dlq_conflict,
}
use distributed_code_executi.Gateway.Handlers.{
  absent, parse_positive_integer, dlq_page, lrange_between, total_pages,
}
use distributed_code_executi.Gateway.Routes.{
  Page, DlqItem, parsed, to_item, listing, list_dlq, dead_letters, removal, removed,
  remove_from_dlq,
}
use distributed_code_executi.Gateway.Removals.{remove_from_dlq_lem, has_item, without_first}

module _ ⦃S : Services⦄ where
  -- The state after `sendToDLQ`.
  buried : QueuePayload → Text → State → State
  buried job reason s = record s {
    db =
        S.upsert_result (dlq_result job.job_id reason) dlq_conflict
          (S.update (has_id job.job_id) (with_status SubmissionStatus.failed s.now) s.db);
    open_tx = none;
    redis =
        S.lpush dead_letter_key (S.stringify_dlq (dlq_payload job (S.iso s.now) reason)) s.redis;
    metrics = dead_letter_jobs ∷ s.metrics;
  }

  send_to_dlq-calm :
      (job : QueuePayload) (reason : Text) (s : State) (row : Submission)
      → S.submission s.db job.job_id ≡ some row
      → send_to_dlq job reason (at s []) ≡ (returned tt, at (buried job reason s) [])
  unfolding buried send_to_dlq fail_job transaction store_result released begin_commit try_catch
      call local time count ◌>>=◌
  send_to_dlq-calm job reason s row h =
      rw
        (
          S.submission-update (has_id job.job_id) (with_status SubmissionStatus.failed s.now)
              (λ _. refl) s.db job.job_id,
          h,
        )
        refl

  dead_letters-buried :
      (job : QueuePayload) (reason : Text) (s : State)
      → dead_letters (buried job reason s)
        ≡ S.stringify_dlq (dlq_payload job (S.iso s.now) reason) ∷ dead_letters s
  unfolding buried
  dead_letters-buried job reason s =
      S.lrange-lpush dead_letter_key (S.stringify_dlq (dlq_payload job (S.iso s.now) reason))
        s.redis dead_letter_key
      ∙ rw (text_eq_refl dead_letter_key)

  -- If no call fails, DELETE /dlq/:jobId takes back what `sendToDLQ` has put on the dead letter
  -- queue for a job that has a row: it replies that the job was removed, and the queue is what it
  -- was before.
  pub remove_from_dlq-send_to_dlq :
      (job : QueuePayload) (reason : Text) (s : State) (row : Submission)
      → S.submission s.db job.job_id ≡ some row
      → let sent = (send_to_dlq job reason (at s [])).1.state in
        ((remove_from_dlq job.job_id (at sent [])).0 ≡ returned removed)
        × (dead_letters (remove_from_dlq job.job_id (at sent [])).1.state ≡ dead_letters s)
  remove_from_dlq-send_to_dlq job reason s row h =
      let taken = remove_from_dlq_lem job.job_id (buried job reason s) in
      let entry = S.parse-stringify_dlq (dlq_payload job (S.iso s.now) reason) in
      rw (send_to_dlq-calm job reason s row h) (
        taken.0
            ∙ ap (λ l. returned (removal (has_item job.job_id l)))
                (dead_letters-buried job reason s)
            ∙ rw (entry, text_eq_refl job.job_id),
        taken.1
            ∙ ap (without_first job.job_id) (dead_letters-buried job reason s)
            ∙ rw (entry, text_eq_refl job.job_id),
      )

  -- If no call fails, then once `sendToDLQ` has buried a job that has a row, GET /dlq without
  -- parameters counts one entry more than there were and shows first the very payload that was
  -- buried, with its reason.
  pub list_dlq-send_to_dlq :
      (job : QueuePayload) (reason : Text) (s : State) (row : Submission)
      → S.submission s.db job.job_id ≡ some row
      → let sent = (send_to_dlq job reason (at s [])).1.state in
        (p : Page DlqItem) × (list_dlq absent absent (at sent [])
          ≡ (returned (listing p), at sent []))
        × (p.total ≡ suc (length (dead_letters s)))
        × (p.items
            ≡ parsed (dlq_payload job (S.iso s.now) reason)
              ∷ map to_item (lrange_between 0 18 (dead_letters s)))
  unfolding list_dlq parse_positive_integer dlq_page call ◌>>=◌
  list_dlq-send_to_dlq job reason s row h =
      let payload = dlq_payload job (S.iso s.now) reason in
      (
        record {
          total = suc (length (dead_letters s));
          page = 1;
          limit = 20;
          total_pages = total_pages (suc (length (dead_letters s))) 20;
          items = parsed payload ∷ map to_item (lrange_between 0 18 (dead_letters s));
        },
        rw
            (
              send_to_dlq-calm job reason s row h,
              dead_letters-buried job reason s,
              S.parse-stringify_dlq payload,
            )
            refl,
        refl,
        refl,
      )
