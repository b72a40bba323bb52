-- ===== src/Scripts/Reports.antt =====
-- What failure-benchmark.js reports of its jobs.
use native.Mathlib.Nat.{le-div_iff_mul-le, div-lt_iff_lt-mul}
use distributed_code_executi.Common.{
  ℕ, suc, ◌+◌, ◌-◌, ◌*◌, ◌/◌, ◌≤◌, ◌<◌, ◌≡◌, ◌↔◌, refl, subst, Bool, true, false, Option, none,
  some, List, [], ◌∷◌, ltb, ==_iff, length, arith, Bool-cases, inl, inr,
}
use distributed_code_executi.Contracts.{SubmissionStatus, status_eq}
use distributed_code_executi.Scripts.Statistics.{sum}
use distributed_code_executi.Scripts.Percentiles.{
  IsSorted, sort-IsSorted, nth, get_elem?-nth, nth-le,
}
use distributed_code_executi.Scripts.Recovery.{
  StatusReply, row, blank, garbled, refused, unreachable, Check, Polled, found, expired, threw,
  polling, is_over, judge, poll_until_terminal, JobResult, ended, timed_out, job_result,
  is_completed, is_failed, filter, all_recovered, times_of, recovery_times, avg_recovery,
  min_recovery, max_recovery, was_retried,
}

-- A job of the benchmark: its checks, and the clock when its poll is over.
pub record TrackedJob : Type 0 where
  pub checks : List Check
  pub completed_at : ℕ

abbrev added : Option JobResult → Option (List JobResult) → Option (List JobResult)
added none rest = none
added (some r) none = none
added (some r) (some rs) = some (r ∷ rs)

-- The results of the jobs, numbered from `index`; none if a poll threw, which ends the script without
-- a report, or goes on.
unfoldable pub results_of : ℕ → ℕ → ℕ → List TrackedJob → Option (List JobResult)
results_of kill_timestamp deadline index [] = some []
results_of kill_timestamp deadline index (j ∷ js) =
    added (job_result kill_timestamp j.completed_at index (poll_until_terminal deadline j.checks))
      (results_of kill_timestamp deadline (index + 1) js)

-- The row of the job says TIMEOUT.
abbrev pub is_timeout : JobResult → Bool
is_timeout r = elim r.status [
  | ended status ↦ status_eq status SubmissionStatus.timeout
  | timed_out ↦ false
]

-- What a poll finds is over.
Sound : Polled → Type 0
Sound (found status retries) = is_over status ≡ true
Sound expired = Unit {0}
Sound threw = Unit {0}
Sound polling = Unit {0}

judge-Sound : (r : StatusReply) (rest : Polled) → Sound rest → Sound (judge r rest)
unfolding Sound
judge-Sound (row status retries) rest h = elim (Bool-cases (is_over status)) [
  | inl e ↦ rw e e
  | inr e ↦ rw e h
]
judge-Sound blank rest h = h
judge-Sound garbled rest h = h
judge-Sound refused rest h = tt
judge-Sound unreachable rest h = tt

poll-Sound : (deadline : ℕ) (cs : List Check) → Sound (poll_until_terminal deadline cs)
unfolding poll_until_terminal Sound
poll-Sound deadline [] = tt
poll-Sound deadline (c ∷ cs) = elim (Bool-cases (ltb c.now deadline)) [
  | inl e ↦ rw e (judge-Sound c.reply (poll_until_terminal deadline cs) (poll-Sound deadline cs))
  | inr e ↦ rw e tt
]

abbrev completed_of : List JobResult → ℕ
completed_of rs = length (filter is_completed rs)

abbrev failed_of : List JobResult → ℕ
failed_of rs = length (filter is_failed rs)

abbrev timeouts_of : List JobResult → ℕ
timeouts_of rs = length (filter is_timeout rs)

abbrev Partitioned : List JobResult → Type 0
Partitioned rs = completed_of rs + failed_of rs + timeouts_of rs ≡ length rs

abbrev IfReported : Option (List JobResult) → Type 0
IfReported none = Unit {0}
IfReported (some rs) = Partitioned rs

added-IfReported :
    (kill completed_at index : ℕ) (p : Polled) (o : Option (List JobResult))
    → Sound p
    → IfReported o
    → IfReported (added (job_result kill completed_at index p) o)
unfolding Sound job_result filter is_completed is_failed is_over
added-IfReported kill completed_at index (found status retries) none sound h = tt
added-IfReported kill completed_at index (found status retries) (some rs) sound h =
    by_status status sound
  where
    by_status :
        (s : SubmissionStatus)
        → is_over s ≡ true
        → IfReported (added (job_result kill completed_at index (found s retries)) (some rs))
    by_status SubmissionStatus.pending e = cc
    by_status SubmissionStatus.running e = cc
    by_status SubmissionStatus.completed e = omega (arith, h)
    by_status SubmissionStatus.failed e = omega (arith, h)
    by_status SubmissionStatus.timeout e = omega (arith, h)
added-IfReported kill completed_at index expired none sound h = tt
added-IfReported kill completed_at index expired (some rs) sound h = omega (arith, h)
added-IfReported kill completed_at index threw o sound h = tt
added-IfReported kill completed_at index polling o sound h = tt

results-IfReported :
    (kill deadline index : ℕ) (js : List TrackedJob)
    → IfReported (results_of kill deadline index js)
unfolding results_of filter
results-IfReported kill deadline index [] = refl
results-IfReported kill deadline index (j ∷ js) =
    added-IfReported kill j.completed_at index (poll_until_terminal deadline j.checks)
      (results_of kill deadline (index + 1) js) (poll-Sound deadline j.checks)
      (results-IfReported kill deadline (index + 1) js)

-- Whatever the status checks reply, if there is a report, then each of its results is of a row that is
-- COMPLETED, or counts as failed (a row that is FAILED, or a poll past the deadline), or is of a row
-- that is TIMEOUT, which counts as neither; and the report says that all jobs were recovered exactly
-- when all results are of rows that are COMPLETED or TIMEOUT.
pub all_recovered_iff :
    (kill_timestamp deadline index : ℕ) (js : List TrackedJob) (rs : List JobResult)
    → results_of kill_timestamp deadline index js ≡ some rs
    → (length (filter is_completed rs)
          + length (filter is_failed rs)
          + length (filter is_timeout rs)
        ≡ length rs)
      × ((all_recovered rs ≡ true)
          ↔ (length (filter is_completed rs) + length (filter is_timeout rs) ≡ length rs))
unfolding all_recovered
all_recovered_iff kill_timestamp deadline index js rs e =
    let h : Partitioned rs =
      subst IfReported e (results-IfReported kill_timestamp deadline index js) in
    (h, ground (arith, h, ==_iff (length (filter is_failed rs)) 0))

sum-ge : (m : ℕ) (xs : List ℕ) → ((i : ℕ) → i < length xs → m ≤ nth xs i) → m * length xs ≤ sum xs
unfolding sum nth
sum-ge m [] h = omega arith
sum-ge m (x ∷ xs) h =
    let ih = sum-ge m xs (λ i l. h (suc i) (omega arith)) in
    let first : m ≤ x = h 0 (omega arith) in grind (arith, ih, first)

sum-le : (m : ℕ) (xs : List ℕ) → ((i : ℕ) → i < length xs → nth xs i ≤ m) → sum xs ≤ m * length xs
unfolding sum nth
sum-le m [] h = omega arith
sum-le m (x ∷ xs) h =
    let ih = sum-le m xs (λ i l. h (suc i) (omega arith)) in
    let first : x ≤ m = h 0 (omega arith) in grind (arith, ih, first)

low-le-average : (low n total : ℕ) → 0 < n → low * n ≤ total → low ≤ (2 * total + n) / (2 * n)
low-le-average low n total pos h =
    (le-div_iff_mul-le {k = 2 * n} {x = low} {y = 2 * total + n} (omega arith)).1 (grind (arith, h))

average-le-high : (high n total : ℕ) → 0 < n → total ≤ high * n → (2 * total + n) / (2 * n) ≤ high
average-le-high high n total pos h =
    let strict : (2 * total + n) / (2 * n) < high + 1 =
      (div-lt_iff_lt-mul {k = 2 * n} {x = 2 * total + n} {y = high + 1} (omega arith)).1
        (grind (arith, h)) in
    omega (arith, strict)

-- Of a sorted list.
abbrev Averaged : List ℕ → Type 0
Averaged times =
    (low : ℕ) × (avg : ℕ) × (high : ℕ) × (min_recovery times ≡ some low)
    × (avg_recovery times ≡ some avg)
    × (max_recovery times ≡ some high)
    × (low ≤ avg)
    × (avg ≤ high)

average : (times : List ℕ) → IsSorted times → 1 ≤ length times → Averaged times
unfolding avg_recovery
average [] s h = absurd (omega arith)
average (t ∷ ts) s h =
    let n = length (t ∷ ts) in
    (
      nth (t ∷ ts) 0,
      (2 * sum (t ∷ ts) + n) / (2 * n),
      nth (t ∷ ts) (n - 1),
      get_elem?-nth (t ∷ ts) 0 (omega arith),
      refl,
      get_elem?-nth (t ∷ ts) (n - 1) (omega arith),
      low-le-average (nth (t ∷ ts) 0) n (sum (t ∷ ts)) (omega arith)
          (sum-ge (nth (t ∷ ts) 0) (t ∷ ts) (λ i l. nth-le (t ∷ ts) 0 i s (omega arith) l)),
      average-le-high (nth (t ∷ ts) (n - 1)) n (sum (t ∷ ts)) (omega arith) (
          sum-le (nth (t ∷ ts) (n - 1)) (t ∷ ts)
            (λ i l. nth-le (t ∷ ts) i (n - 1) s (omega arith) (omega arith))),
    )

-- If some job was retried and recovered, the shortest time, the rounded average and the longest time
-- are all reported, in this order.
pub recovery_times-average :
    (results : List JobResult)
    → 1 ≤ length (recovery_times results)
    → let times = recovery_times results in
      (low : ℕ) × (avg : ℕ) × (high : ℕ) × (min_recovery times ≡ some low)
      × (avg_recovery times ≡ some avg)
      × (max_recovery times ≡ some high)
      × (low ≤ avg)
      × (avg ≤ high)
unfolding recovery_times
recovery_times-average results h =
    average (recovery_times results) (sort-IsSorted (times_of (filter was_retried results))) h
