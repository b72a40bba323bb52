-- ===== src/Scripts/Recovery.antt =====
-- failure-benchmark.js: pollUntilTerminal, the results of the jobs, and their statistics.
use distributed_code_executi.Common.{
  ℕ, zero, suc, ◌+◌, ◌-◌, ◌*◌, ◌/◌, Bool, true, false, ◌&&◌, Option, none, some, List, [], ◌∷◌, ltb,
  ◌==◌, if◌then◌else◌, length,
}
use distributed_code_executi.Contracts.{SubmissionStatus, has, status_eq}
use distributed_code_executi.Scripts.Statistics.{sort, sum, get_elem?}

-- What a status check gets: a row with its status and retries; 200 with JSON that has no status; 200
-- with what is no JSON; another code; or an error of the connection.
pub data StatusReply : Type 0 where
  row : SubmissionStatus → ℕ → StatusReply
  blank : StatusReply
  garbled : StatusReply
  refused : StatusReply
  unreachable : StatusReply

-- A turn of the loop: the clock at the test, the reply to the check, and the clock after it.
pub record Check : Type 0 where
  pub now : ℕ
  pub reply : StatusReply
  pub after : ℕ

pub data Polled : Type 0 where
  found : SubmissionStatus → ℕ → Polled
  expired : Polled
  threw : Polled
  polling : Polled

-- ['COMPLETED', 'FAILED', 'TIMEOUT'].includes(status)
unfoldable pub is_over : SubmissionStatus → Bool
is_over status =
    has (SubmissionStatus.completed ∷ SubmissionStatus.failed ∷ SubmissionStatus.timeout ∷ [])
      status

abbrev pub judge : StatusReply → Polled → Polled
judge (row status retries) rest = if is_over status then found status retries else rest
judge blank rest = rest
judge garbled rest = rest
judge refused rest = threw
judge unreachable rest = threw

-- On the checks that the loop makes; it goes on after the last of them.
unfoldable pub poll_until_terminal : ℕ → List Check → Polled
poll_until_terminal deadline [] = polling
poll_until_terminal deadline (c ∷ cs) =
    let rest = poll_until_terminal deadline cs in
    if ltb c.now deadline then judge c.reply rest else expired

-- The status of a result: that of the row, or 'TIMED_OUT'.
pub data RunStatus : Type 0 where
  ended : SubmissionStatus → RunStatus
  timed_out : RunStatus

pub record JobResult : Type 0 where
  pub index : ℕ
  pub status : RunStatus
  -- `none` is '?'
  pub retry_count : Option ℕ
  pub recovery_ms : Option ℕ
  -- `false` is `undefined` too
  pub was_retried : Bool

-- What is pushed on the results after a poll; nothing if it threw or goes on.
unfoldable pub job_result : ℕ → ℕ → ℕ → Polled → Option JobResult
job_result kill_timestamp completed_at index (found status retries) = some (record {
  index = index;
  status = ended status;
  retry_count = some retries;
  recovery_ms = some (completed_at - kill_timestamp);
  was_retried = ltb 0 retries;
})
job_result kill_timestamp completed_at index expired = some (record {
  index = index;
  status = timed_out;
  retry_count = none;
  recovery_ms = none;
  was_retried = false;
})
job_result kill_timestamp completed_at index threw = none
job_result kill_timestamp completed_at index polling = none

unfoldable pub is_completed : JobResult → Bool
is_completed r = elim r.status [
  | ended status ↦ status_eq status SubmissionStatus.completed
  | timed_out ↦ false
]

unfoldable pub is_failed : JobResult → Bool
is_failed r = elim r.status [
  | ended status ↦ status_eq status SubmissionStatus.failed
  | timed_out ↦ true
]

-- retryCount === 0 && status === 'COMPLETED'
unfoldable pub is_clean : JobResult → Bool
unfolding is_completed
is_clean r = elim r.retry_count [ none ↦ false | some retries ↦ (retries == 0) && is_completed r ]

abbrev pub was_retried : JobResult → Bool
was_retried r = r.was_retried

unfoldable pub filter : (JobResult → Bool) → List JobResult → List JobResult
filter p [] = []
filter p (r ∷ rs) = if p r then r ∷ filter p rs else filter p rs

-- .map(r => r.recoveryMs).filter(Boolean): `null` and 0 are left out.
abbrev pub with_time : Option ℕ → List ℕ → List ℕ
with_time none times = times
with_time (some zero) times = times
with_time (some (suc n)) times = suc n ∷ times

unfoldable pub times_of : List JobResult → List ℕ
times_of [] = []
times_of (r ∷ rs) = with_time r.recovery_ms (times_of rs)

unfoldable pub recovery_times : List JobResult → List ℕ
unfolding filter times_of
recovery_times results = sort (times_of (filter was_retried results))

-- Math.round(sum / length), or `null` for an empty list
unfoldable pub avg_recovery : List ℕ → Option ℕ
avg_recovery [] = none
avg_recovery (t ∷ ts) = let n = length (t ∷ ts) in some ((2 * sum (t ∷ ts) + n) / (2 * n))

abbrev pub min_recovery : List ℕ → Option ℕ
min_recovery times = get_elem? times 0

abbrev pub max_recovery : List ℕ → Option ℕ
max_recovery times = get_elem? times (length times - 1)

-- The last lines say that all jobs were recovered when this holds.
unfoldable pub all_recovered : List JobResult → Bool
unfolding filter is_failed
all_recovered results = length (filter is_failed results) == 0

-- The tag of a job in the breakdown.
pub data Tag : Type 0 where
  retried clean failed : Tag

unfoldable pub tag_of : JobResult → Tag
unfolding is_completed
tag_of r = if r.was_retried then retried else if is_completed r then clean else failed
