-- ===== src/Gateway/Handlers.antt =====
-- The routes of services/api-gateway/src/routes/submissions.ts that change state, and the pages of
-- the listing routes.
use distributed_code_executi.Common.{
  ℕ, zero, suc, ◌+◌, ◌-◌, ◌*◌, ◌/◌, Bool, true, false, ◌||◌, Option, none, some, List, [], ◌∷◌,
  Text, codes, length, ltb, if◌then◌else◌,
}
use distributed_code_executi.Contracts.{SubmissionStatus, QueuePayload, Language, unknown}
use distributed_code_executi.Contracts.Keys.{pending_key}
use distributed_code_executi.Services.{
  Services, State, Submission, SubmissionResult, queue_depth, enqueue_failures,
}
use distributed_code_executi.Services.Effects.{M, pure, try_catch, call, count, time, ◌>>=◌, ◌>>◌}
use distributed_code_executi.Jobs.{is_some, unless_stored, set_status, store_result, lpush}

-- The body of a request, once the schema has accepted it.
pub record SubmissionBody : Type 0 where
  pub code : Text
  pub language : Language
  pub user_id : Option Text

-- 201 and 503
pub data Reply : Type 0 where
  created unavailable : Reply

abbrev pub submission_row : Text → SubmissionBody → ℕ → Submission
submission_row job_id body now = record {
  id = job_id;
  user_id = body.user_id;
  language = body.language;
  source_code = body.code;
  status = SubmissionStatus.pending;
  retry_count = 0;
  created_at = now;
  updated_at = now;
}

abbrev pub submission_payload : Text → SubmissionBody → Text → QueuePayload
submission_payload job_id body submitted_at = record {
  job_id = job_id;
  user_id = body.user_id;
  code = body.code;
  language = body.language;
  retry_count = 0;
  submitted_at = submitted_at;
}

abbrev pub enqueue_result : Text → SubmissionResult
enqueue_result job_id = record {
  job_id = job_id;
  exit_code = none;
  stdout = [];
  stderr = [];
  error_message = some (codes "Infrastructure error: failed to enqueue submission");
  error_category = some unknown;
  execution_time_ms = none;
  memory_used_bytes = none;
  output_truncated = false;
  stream_output_limit_exceeded = false;
}

-- ON CONFLICT (job_id) DO UPDATE SET error_message, error_category
abbrev pub enqueue_conflict : SubmissionResult → SubmissionResult → SubmissionResult
enqueue_conflict old r = record old {
  error_message = r.error_message;
  error_category = r.error_category;
}

-- What a query parameter is for `Number`: not given; a natural number; or any other value, among
-- them negative numbers, fractions and what is no number.
pub data QueryValue : Type 0 where
  absent : QueryValue
  natural : ℕ → QueryValue
  other : QueryValue

unfoldable pub parse_positive_integer : QueryValue → ℕ → ℕ → Option ℕ
parse_positive_integer absent fallback max = some fallback
parse_positive_integer (natural n) fallback max = if ltb n 1 || ltb max n then none else some n
parse_positive_integer other fallback max = none

-- LRANGE key start stop, for bounds that are not negative.
abbrev pub lrange_between : ℕ → ℕ → List Text → List Text
lrange_between start stop [] = []
lrange_between zero zero (x ∷ xs) = x ∷ []
lrange_between zero (suc stop) (x ∷ xs) = x ∷ lrange_between zero stop xs
lrange_between (suc start) zero (x ∷ xs) = []
lrange_between (suc start) (suc stop) (x ∷ xs) = lrange_between start stop xs

-- The entries that GET /dlq reads for a page.
unfoldable pub dlq_page : ℕ → ℕ → List Text → List Text
dlq_page page limit entries =
    let start = (page - 1) * limit in lrange_between start (start + limit - 1) entries

-- Math.ceil(total / limit)
unfoldable pub total_pages : ℕ → ℕ → ℕ
total_pages total limit = (total + limit - 1) / limit

module _ ⦃S : Services⦄ where
  abbrev pub inserted : Submission → State → Bool × State
  inserted r s =
      if is_some (S.submission s.db r.id)
      then (false, s)
      else (true, record s { db = S.insert r s.db })

  -- INSERT INTO submissions; the primary key refuses a second row of the job.
  unfoldable pub insert_submission : Submission → M Unit
  insert_submission r = do stored ← call (inserted r); unless_stored stored

  -- The `catch` block: the client is told that the job failed, and so is the database.
  unfoldable pub fail_enqueue : Text → M Reply
  fail_enqueue job_id = do
    count enqueue_failures
    set_status SubmissionStatus.failed job_id
    store_result (enqueue_result job_id) enqueue_conflict
    pure unavailable

  unfoldable pub enqueue : QueuePayload → M Reply
  enqueue payload = do
    lpush pending_key (S.stringify_job payload)
    depth ← call (λ s. (length (S.lrange s.redis pending_key), s))
    count (queue_depth depth)
    pure created

  -- POST /submissions, for the identifier that was drawn.
  unfoldable pub submit : Text → SubmissionBody → M Reply
  submit job_id body = do
    now ← time
    insert_submission (submission_row job_id body now)
    try_catch (enqueue (submission_payload job_id body (S.iso now))) (λ _. fail_enqueue job_id)
