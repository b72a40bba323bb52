-- ===== src/Gateway/Routes.antt =====
-- The routes of services/api-gateway/src/routes/submissions.ts that read submissions and the dead
-- letter queue, and the one that removes a job from it.
use distributed_code_executi.Common.{
  ℕ, ◌-◌, ◌*◌, Bool, true, false, Option, none, some, List, [], ◌∷◌, map, Text, length, text_eq,
}
use distributed_code_executi.Contracts.{
  SubmissionStatus, status_eq, ErrorCategory, Language, DlqPayload,
}
use distributed_code_executi.Contracts.Keys.{dead_letter_key}
use distributed_code_executi.Services.{Services, State, Submission, SubmissionResult}
use distributed_code_executi.Services.Effects.{M, pure, try_catch, call, ◌>>=◌, ◌>>◌}
use distributed_code_executi.Jobs.{lrem}
use distributed_code_executi.Gateway.Handlers.{
  QueryValue, parse_positive_integer, dlq_page, total_pages,
}

-- The body of the reply of GET /submissions/:id. What comes from the LEFT JOIN is null when there is
-- no result; the two flags are false then.
pub record Detail : Type 0 where
  pub job_id : Text
  pub user_id : Option Text
  pub language : Language
  pub source_code : Text
  pub status : SubmissionStatus
  pub retry_count : ℕ
  pub exit_code : Option ℕ
  pub stdout : Option Text
  pub stderr : Option Text
  pub error_message : Option Text
  pub error_category : Option ErrorCategory
  pub execution_time_ms : Option ℕ
  pub memory_used_bytes : Option ℕ
  pub output_truncated : Bool
  pub stream_output_limit_exceeded : Bool
  pub created_at : ℕ
  pub updated_at : ℕ

abbrev pub detail_of : Submission → Option SubmissionResult → Detail
detail_of row none = record {
  job_id = row.id;
  user_id = row.user_id;
  language = row.language;
  source_code = row.source_code;
  status = row.status;
  retry_count = row.retry_count;
  exit_code = none;
  stdout = none;
  stderr = none;
  error_message = none;
  error_category = none;
  execution_time_ms = none;
  memory_used_bytes = none;
  output_truncated = false;
  stream_output_limit_exceeded = false;
  created_at = row.created_at;
  updated_at = row.updated_at;
}
detail_of row (some r) = record {
  job_id = row.id;
  user_id = row.user_id;
  language = row.language;
  source_code = row.source_code;
  status = row.status;
  retry_count = row.retry_count;
  exit_code = r.exit_code;
  stdout = some r.stdout;
  stderr = some r.stderr;
  error_message = r.error_message;
  error_category = r.error_category;
  execution_time_ms = r.execution_time_ms;
  memory_used_bytes = r.memory_used_bytes;
  output_truncated = r.output_truncated;
  stream_output_limit_exceeded = r.stream_output_limit_exceeded;
  created_at = row.created_at;
  updated_at = row.updated_at;
}

-- 404, or the detail.
pub data DetailReply : Type 0 where
  submission_not_found : DetailReply
  detail : Detail → DetailReply

abbrev pub detail_reply : Option Submission → Option SubmissionResult → DetailReply
detail_reply none result = submission_not_found
detail_reply (some row) result = detail (detail_of row result)

-- An element of `submissions` in the reply of GET /submissions.
pub record Summary : Type 0 where
  pub job_id : Text
  pub user_id : Option Text
  pub language : Language
  pub status : SubmissionStatus
  pub retry_count : ℕ
  pub created_at : ℕ
  pub updated_at : ℕ

abbrev pub summary_of : Submission → Summary
summary_of row = record {
  job_id = row.id;
  user_id = row.user_id;
  language = row.language;
  status = row.status;
  retry_count = row.retry_count;
  created_at = row.created_at;
  updated_at = row.updated_at;
}

-- What a listing route replies: 400, or a page.
pub record Page (A : Type 0) : Type 0 where
  pub total : ℕ
  pub page : ℕ
  pub limit : ℕ
  pub total_pages : ℕ
  pub items : List A

pub data PageReply (A : Type 0) : Type 0 where
  invalid_pagination : PageReply A
  listing : Page A → PageReply A

-- `statusFilter`
abbrev pub status_filter : Option SubmissionStatus → Submission → Bool
status_filter none row = true
status_filter (some status) row = status_eq row.status status

-- An element of `items` in the reply of GET /dlq.
pub data DlqItem : Type 0 where
  parsed : DlqPayload → DlqItem
  parse_error : Text → DlqItem

-- 200 and 404
pub data Removal : Type 0 where
  removed not_in_dlq : Removal

abbrev pub removal : Bool → Removal
removal true = removed
removal false = not_in_dlq

-- `item.jobId === jobId`; an entry that does not parse is skipped.
abbrev pub item_of : Text → Option DlqPayload → Bool
item_of job_id none = false
item_of job_id (some item) = text_eq item.job_id job_id

module _ ⦃S : Services⦄ where
  unfoldable pub get_submission : Text → M DetailReply
  get_submission id = call (λ s. (detail_reply (S.submission s.db id) (S.result_of s.db id), s))

  abbrev pub count_submissions : Option SubmissionStatus → M ℕ
  count_submissions status = call (λ s. (S.count_rows (status_filter status) s.db, s))

  abbrev pub select_submissions : Option SubmissionStatus → ℕ → ℕ → M (List Submission)
  select_submissions status limit offset =
      call (λ s. (S.select_newest (status_filter status) limit offset s.db, s))

  abbrev pub list_page : Option SubmissionStatus → Option ℕ → Option ℕ → M (PageReply Summary)
  list_page status none limit = pure invalid_pagination
  list_page status (some page) none = pure invalid_pagination
  list_page status (some page) (some limit) = do
    total ← count_submissions status
    rows ← select_submissions status limit ((page - 1) * limit)
    pure (
        listing (record {
          total = total;
          page = page;
          limit = limit;
          total_pages = total_pages total limit;
          items = map summary_of rows;
        }))

  -- GET /submissions. The maximum of the page is Number.MAX_SAFE_INTEGER.
  unfoldable pub list_submissions :
      QueryValue → QueryValue → Option SubmissionStatus → M (PageReply Summary)
  list_submissions page limit status =
      list_page status (parse_positive_integer page 1 9007199254740991)
        (parse_positive_integer limit 10 100)

  abbrev pub dlq_item : Text → Option DlqPayload → DlqItem
  dlq_item raw none = parse_error raw
  dlq_item raw (some p) = parsed p

  abbrev pub to_item : Text → DlqItem
  to_item raw = dlq_item raw (S.parse_dlq raw)

  abbrev pub dead_letters : State → List Text
  dead_letters s = S.lrange s.redis dead_letter_key

  abbrev pub dlq_listing : Option ℕ → Option ℕ → M (PageReply DlqItem)
  dlq_listing none limit = pure invalid_pagination
  dlq_listing (some page) none = pure invalid_pagination
  dlq_listing (some page) (some limit) = do
    total ← call (λ s. (length (dead_letters s), s))
    raw_items ← call (λ s. (dlq_page page limit (dead_letters s), s))
    pure (
        listing (record {
          total = total;
          page = page;
          limit = limit;
          total_pages = total_pages total limit;
          items = map to_item raw_items;
        }))

  -- GET /dlq
  unfoldable pub list_dlq : QueryValue → QueryValue → M (PageReply DlqItem)
  list_dlq page limit =
      dlq_listing (parse_positive_integer page 1 9007199254740991)
        (parse_positive_integer limit 20 100)

  -- The body of the `try`: whether the entry was removed. An error of LREM is swallowed like one of
  -- the parser.
  abbrev pub remove_if : Bool → Text → M Bool
  remove_if false raw = pure false
  remove_if true raw = try_catch (do lrem dead_letter_key raw; pure true) (λ _. pure false)

  abbrev pub unless_removed : Bool → M Bool → M Bool
  unless_removed true rest = pure true
  unless_removed false rest = rest

  abbrev pub remove_each : Text → List Text → M Bool
  remove_each job_id [] = pure false
  remove_each job_id (raw ∷ raws) = remove_if (item_of job_id (S.parse_dlq raw)) raw >>= λ done.
      unless_removed done (remove_each job_id raws)

  -- DELETE /dlq/:jobId
  unfoldable pub remove_from_dlq : Text → M Removal
  remove_from_dlq job_id = do
    all_raw ← call (λ s. (dead_letters s, s))
    done ← remove_each job_id all_raw
    pure (removal done)
