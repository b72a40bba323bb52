-- ===== src/Contracts/Defs.antt =====
-- shared/contracts/src/index.ts: the enumerations, the status machine, the payloads, the limits.
use distributed_code_executi.Common.{
  ℕ, ◌*◌, Bool, true, false, ◌||◌, Option, none, some, List, [], ◌∷◌, Text,
}

pub data SubmissionStatus : Type 0 where
  pending running completed failed timeout : SubmissionStatus

pub data ErrorCategory : Type 0 where
  syntax_error runtime_error oom timeout worker_crash unknown : ErrorCategory

pub data Language : Type 0 where
  python javascript : Language

abbrev pub status_eq : SubmissionStatus → SubmissionStatus → Bool
status_eq SubmissionStatus.pending SubmissionStatus.pending = true
status_eq SubmissionStatus.running SubmissionStatus.running = true
status_eq SubmissionStatus.completed SubmissionStatus.completed = true
status_eq SubmissionStatus.failed SubmissionStatus.failed = true
status_eq SubmissionStatus.timeout SubmissionStatus.timeout = true
status_eq _ _ = false

-- `Set.has`
abbrev pub has : List SubmissionStatus → SubmissionStatus → Bool
has [] s = false
has (x ∷ xs) s = status_eq x s || has xs s

abbrev pub terminal_statuses : List SubmissionStatus
terminal_statuses =
    SubmissionStatus.completed ∷ SubmissionStatus.failed ∷ SubmissionStatus.timeout ∷ []

-- `none` is both `null` and `undefined`.
unfoldable pub is_terminal_status : Option SubmissionStatus → Bool
is_terminal_status none = false
is_terminal_status (some s) = has terminal_statuses s

unfoldable pub allowed_transitions : SubmissionStatus → List SubmissionStatus
allowed_transitions SubmissionStatus.pending = SubmissionStatus.running ∷ []
allowed_transitions SubmissionStatus.running =
    SubmissionStatus.completed ∷ SubmissionStatus.failed ∷ SubmissionStatus.timeout ∷ []
allowed_transitions SubmissionStatus.completed = []
allowed_transitions SubmissionStatus.failed = []
allowed_transitions SubmissionStatus.timeout = []

unfoldable pub is_valid_transition : SubmissionStatus → SubmissionStatus → Bool
unfolding allowed_transitions
is_valid_transition from to = has (allowed_transitions from) to

-- What `validateTransition` throws on, with the two statuses that its message names.
pub data Validation : Type 0 where
  valid : Validation
  invalid_transition : SubmissionStatus → SubmissionStatus → Validation

unfoldable pub validate_transition : SubmissionStatus → SubmissionStatus → Validation
unfolding is_valid_transition
validate_transition from to = elim (is_valid_transition from to) [
  | true ↦ valid
  | false ↦ invalid_transition from to
]

pub record QueuePayload : Type 0 where
  pub job_id : Text
  pub user_id : Option Text
  pub code : Text
  pub language : Language
  pub retry_count : ℕ
  pub submitted_at : Text

pub data ChunkType : Type 0 where
  stdout stderr system : ChunkType

pub record StreamChunk : Type 0 where
  pub type : ChunkType
  pub content : Text
  pub timestamp : ℕ

pub record DlqPayload : Type 0 where
  pub job_id : Text
  pub user_id : Option Text
  pub code : Text
  pub language : Language
  pub retry_count : ℕ
  pub submitted_at : Text
  pub failed_at : Text
  pub reason : Text

abbrev pub max_retry_count : ℕ
max_retry_count = 3

abbrev pub heartbeat_ttl_seconds : ℕ
heartbeat_ttl_seconds = 15

abbrev pub max_code_length : ℕ
max_code_length = 65536

abbrev pub max_result_output_bytes : ℕ
max_result_output_bytes = 64 * 1024

abbrev pub max_stream_output_bytes : ℕ
max_stream_output_bytes = 1024 * 1024

abbrev pub max_stream_chunk_bytes : ℕ
max_stream_chunk_bytes = 16 * 1024

abbrev pub stream_retention_count : ℕ
stream_retention_count = 1000

abbrev pub stream_ttl_seconds : ℕ
stream_ttl_seconds = 60 * 60
