-- ===== src/Scripts/Pollers.antt =====
-- The three loops that wait for the end of a job, compared.
use mathlib.Core.Option
use distributed_code_executi.Common.{
  ℕ, zero, suc, ◌≤◌, ◌<◌, ◌≡◌, refl, true, Option, none, some, List, [], ◌∷◌, ltb, length, arith,
  Bool-cases, inl, inr,
}
use distributed_code_executi.Contracts.{SubmissionStatus}
use distributed_code_executi.Scripts.Recovery.{
  row, Check, Polled, found, is_over, poll_until_terminal,
}
use distributed_code_executi.Scripts.Waiting.{
  Waited, ended_with, wait_for_job, max_poll_attempts, poll_attempts,
}

-- Every check comes before the deadline and finds a row.
abbrev pub AllRows : ℕ → List Check → Type 0
AllRows deadline [] = Unit {0}
AllRows deadline (c ∷ cs) =
    ((s : SubmissionStatus) × (n : ℕ) × (c.reply ≡ row s n))
    × (c.now < deadline)
    × AllRows deadline cs

-- The status that a poll has found.
abbrev pub of_polled : Polled → Option SubmissionStatus
of_polled (found status retries) = some status
of_polled _ = none

abbrev pub of_waited : Waited → Option SubmissionStatus
of_waited (ended_with status latency) = some status
of_waited _ = none

abbrev pub of_attempts : Option (SubmissionStatus × ℕ) → Option SubmissionStatus
of_attempts = Option.map (λ x. x.0)

agree :
    (deadline submitted_at attempts : ℕ) (cs : List Check)
    → AllRows deadline cs
    → length cs ≤ attempts
    → (of_polled (poll_until_terminal deadline cs) ≡ of_waited (wait_for_job submitted_at cs))
      × (of_attempts (poll_attempts attempts cs) ≡ of_waited (wait_for_job submitted_at cs))
unfolding poll_until_terminal wait_for_job poll_attempts
agree deadline submitted_at zero [] h n = (refl, refl)
agree deadline submitted_at (suc k) [] h n = (refl, refl)
agree deadline submitted_at zero (c ∷ cs) h n = absurd (omega arith)
agree deadline submitted_at (suc k) (c ∷ cs) ((s, m, e), early, later) n =
    let before : ltb c.now deadline ≡ true = ground arith in
    elim (Bool-cases (is_over s)) [
      | inl o ↦ rw (e, before, o) (refl, refl)
      | inr o ↦ rw (e, before, o) (agree deadline submitted_at k cs later (omega arith))
    ]

-- As long as every check finds a row, before the deadline and within the attempts of the load test,
-- the three scripts come to the same end: waitForJob of benchmark.js, pollUntilTerminal of
-- failure-benchmark.js and the loop of k6-load-test.js find the same status, or go on.
pub pollers_agree :
    (deadline submitted_at : ℕ) (cs : List Check)
    → AllRows deadline cs
    → length cs ≤ max_poll_attempts
    → (of_polled (poll_until_terminal deadline cs) ≡ of_waited (wait_for_job submitted_at cs))
      × (of_attempts (poll_attempts max_poll_attempts cs)
          ≡ of_waited (wait_for_job submitted_at cs))
pollers_agree deadline submitted_at cs h n = agree deadline submitted_at max_poll_attempts cs h n
