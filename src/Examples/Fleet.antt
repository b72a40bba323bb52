-- ===== src/Examples/Fleet.antt =====
-- The theorems on whole systems at concrete inputs.
use distributed_code_executi.Common.{
  ◌+◌, ◌≤◌, ◌≡◌, refl, true, none, List, [], ◌∷◌, map, Text, codes, text_eq,
}
use distributed_code_executi.Contracts.{SubmissionStatus, python, is_terminal_status}
use distributed_code_executi.Services.{State, World, Outcome, returned}
use distributed_code_executi.Services.Effects.{◌>>=◌}
use distributed_code_executi.Services.Triples.{at}
use distributed_code_executi.Jobs.Updates.{ended}
use distributed_code_executi.Worker.{rounds}
use distributed_code_executi.System.Backlogs.{AllAnswer}
use distributed_code_executi.System.Lifetimes.{Request, job_at, submit_all, submit_all-served}
use distributed_code_executi.System.Interleavings.{
  Change, claiming, storing, burying, retrying, resetting,
}
use distributed_code_executi.System.Exclusion.{
  wins, frees, claims_exclusive, apply_all, ended-apply_all,
}
use distributed_code_executi.Examples.Setting.{
  services, idle, waiting, body, execute, worker, killed_run, row,
}

abbrev j1 : Text
j1 = codes "j1"

abbrev requests : List Request
requests =
    record { id = j1; body = body }
    ∷ record {
      id = codes "j2";
      body = record { code = codes "x"; language = python; user_id = none };
    }
    ∷ []

abbrev after_both : Outcome (Unit {0}) × World
after_both = (submit_all requests >>= λ _. rounds execute 2 worker) (at idle [])

submit_all-served_example :
    (after_both.0 ≡ returned tt)
    × ((k : Text) → services.lrange after_both.1.state.redis k ≡ services.lrange idle.redis k)
    × AllAnswer execute worker (map (job_at idle.now) requests) after_both.1.state
unfolding text_eq
submit_all-served_example =
    submit_all-served execute worker requests idle (refl, (refl, tt), (refl, tt, tt)) refl

-- Two workers claim the job; the first dies, and the reaper retries it, though a third process marks it
-- as failed in between.
abbrev changes : List Change
changes =
    claiming j1
    ∷ claiming j1
    ∷ burying j1 []
    ∷ retrying 1 j1
    ∷ claiming j1
    ∷ storing j1 killed_run
    ∷ []

claims_exclusive_example : wins j1 changes waiting ≤ 1 + frees j1 changes
claims_exclusive_example = claims_exclusive j1 changes waiting

-- The job is over.
abbrev done : State
done = record waiting {
  db = record { rows = row SubmissionStatus.completed ∷ []; results = λ _. none };
}

over : ended j1 done.db ≡ true
unfolding is_terminal_status text_eq
over = refl

ended-apply_all_example : ended j1 (apply_all (claiming j1 ∷ resetting ∷ []) done).db ≡ true
ended-apply_all_example = ended-apply_all j1 (claiming j1 ∷ resetting ∷ []) done refl over
