-- ===== src/Examples/Rows.antt =====
-- The theorems on the rows of whole histories at concrete inputs.
use distributed_code_executi.Common.{◌≡◌, refl, none, [], ◌∷◌, Text, codes, text_eq}
use distributed_code_executi.Services.{State, calm, refused, lost}
use distributed_code_executi.Services.Triples.{at}
use distributed_code_executi.Worker.{process_queue}
use distributed_code_executi.Reaper.{run_reaper_scan}
use distributed_code_executi.Gateway.{submit}
use distributed_code_executi.Gateway.Submissions.{submit-returns}
use distributed_code_executi.System.Histories.{History, nothing, then_step, working, scanning}
use distributed_code_executi.System.Provenance.{HasRow, submit-HasRow}
use distributed_code_executi.Examples.Setting.{services, waiting, worker, execute, body}

abbrev j1 : Text
j1 = codes "j1"

abbrev j2 : Text
j2 = codes "j2"

abbrev OneWorker : Text → Type 0
OneWorker w = w ≡ worker

-- A worker serves the job that waits.
abbrev served : State
served = (process_queue execute 1 worker (at waiting [])).1.state

-- A job is accepted; the worker's second call, to take a job, replies with an error; a scan follows.
abbrev accepted : State
accepted = (submit j2 body (at waiting [])).1.state

abbrev tried : State
tried = (process_queue execute 2 worker (at accepted (calm ∷ lost ∷ []))).1.state

abbrev scanned : State
scanned = (run_reaper_scan (codes "p-1") (at tried (lost ∷ refused ∷ []))).1.state

happened : History execute OneWorker accepted scanned
happened =
    then_step (then_step (nothing accepted) (working worker 2 (calm ∷ lost ∷ []) accepted refl tt))
      (scanning (codes "p-1") (lost ∷ refused ∷ []) tried)

unseen : services.submission waiting.db j2 ≡ none
unfolding text_eq
unseen = refl

submit-HasRow_example : HasRow j2 body (services.submission scanned.db j2)
submit-HasRow_example =
    submit-HasRow execute OneWorker j2 body waiting scanned [] unseen
      (submit-returns j2 body waiting unseen).0 happened
