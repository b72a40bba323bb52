-- ===== src/Examples/Runs.antt =====
-- The theorems at concrete inputs.
use distributed_code_executi.Common.{
  Option, take, ℕ, ◌≡◌, ◌↔◌, ◌⊎◌, ◌≤◌, refl, inl, inr, true, false, none, some, List, [], ◌∷◌, Text,
  codes, text_eq, length, arith,
}
use distributed_code_executi.Contracts.{
  SubmissionStatus, ErrorCategory, completed, failed, is_terminal_status, max_stream_chunk_bytes,
  stdout, stderr,
}
use distributed_code_executi.Contracts.Keys.{pending_key, make_processing_key}
use distributed_code_executi.Services.{calm, refused, lost, killed, returned}
use distributed_code_executi.Services.Triples.{at}
use distributed_code_executi.Jobs.{status_of}
use distributed_code_executi.Jobs.Updates.{known, ended}
use distributed_code_executi.Jobs.Places.{Safe, in_pending}
use distributed_code_executi.Startup.{recover_orphaned_jobs_on_startup}
use distributed_code_executi.Startup.Recovery.{recover_on_startup-refills}
use distributed_code_executi.Gateway.Access.{
  Environment, Request, is_production, refuses_to_start, authenticate, pass, is_health, truthy,
  same_text, authenticate-production,
}
use distributed_code_executi.Worker.{process_queue}
use distributed_code_executi.Worker.Verdict.{verdict}
use distributed_code_executi.Worker.Verdicts.{verdict_exact}
use distributed_code_executi.Worker.Rounds.{process_queue-Safe}
use distributed_code_executi.Worker.Chunks.{
  Each, joined, split_for_stream, joined-split_for_stream, split_for_stream-fits,
}
use distributed_code_executi.Worker.Output.{
  Stream, out, err, collect, nothing_collected, handle_output, append_within_cap,
}
use distributed_code_executi.Worker.Collecting.{streamed, collect-streamed}
use distributed_code_executi.Reaper.{run_reaper_scan, reaper_lock_key}
use distributed_code_executi.Reaper.Scans.{run_reaper_scan-Safe}
use distributed_code_executi.Gateway.{submit, total_pages}
use distributed_code_executi.Gateway.Submissions.{Told, submit-Told, submit-returns}
use distributed_code_executi.Gateway.Pages.{pages, pages-total_pages}
use distributed_code_executi.System.Histories.{
  History, Somewhere, nothing, then_step, working, scanning, submit-History,
}
use distributed_code_executi.Services.{State}
use distributed_code_executi.Examples.Setting.{
  services, waiting, orphaned, locked, worker, execute, body, killed_run, repeated, utf8_length,
  utf8_length_le,
}

waiting-Safe : Safe (make_processing_key worker) (codes "j1") waiting
unfolding pending_key make_processing_key text_eq is_terminal_status
waiting-Safe = (refl, refl)

orphaned-Safe : Safe (make_processing_key worker) (codes "j1") orphaned
unfolding pending_key make_processing_key text_eq is_terminal_status
orphaned-Safe = (refl, refl)

fresh : services.submission waiting.db (codes "j2") ≡ none
unfolding text_eq
fresh = refl

orphaned_lost : services.lrange orphaned.redis pending_key ≡ []
unfolding pending_key make_processing_key text_eq
orphaned_lost = refl

orphaned_known : known (codes "j1") orphaned.db ≡ true
unfolding text_eq
orphaned_known = refl

orphaned_live : ended (codes "j1") orphaned.db ≡ false
unfolding text_eq is_terminal_status
orphaned_live = refl

others : text_eq (codes "p-1") (codes "p-2") ≡ false
unfolding text_eq
others = refl

held : services.get locked.redis reaper_lock_key ≡ some (codes "p-2")
unfolding text_eq
held = refl

process_queue-Safe_example :
    Safe
      (make_processing_key worker)
      (codes "j1")
      (process_queue execute 2 worker
        (at waiting (calm ∷ calm ∷ calm ∷ calm ∷ calm ∷ refused ∷ []))).1.state
process_queue-Safe_example =
    process_queue-Safe execute worker 2 (codes "j1") waiting
      (calm ∷ calm ∷ calm ∷ calm ∷ calm ∷ refused ∷ []) tt waiting-Safe

run_reaper_scan-Safe_example :
    Safe
      (make_processing_key worker)
      (codes "j1")
      (run_reaper_scan (codes "p-1") (at orphaned (lost ∷ calm ∷ refused ∷ killed ∷ []))).1.state
run_reaper_scan-Safe_example =
    run_reaper_scan-Safe worker (codes "j1") (codes "p-1") orphaned
      (lost ∷ calm ∷ refused ∷ killed ∷ []) orphaned-Safe

submit-Told_example :
    Told
      (codes "j2")
      body
      (submit (codes "j2") body (at waiting (calm ∷ lost ∷ []))).0
      (submit (codes "j2") body (at waiting (calm ∷ lost ∷ []))).1
submit-Told_example = submit-Told (codes "j2") body waiting (calm ∷ lost ∷ []) fresh

-- The job is accepted; a worker dies at its first call; another one runs; and a scan follows.
abbrev accepted : State
accepted = (submit (codes "j2") body (at waiting [])).1.state

abbrev died : State
died = (process_queue execute 1 worker (at accepted (calm ∷ killed ∷ []))).1.state

abbrev relieved : State
relieved = (process_queue execute 2 (codes "w2") (at died [])).1.state

abbrev TwoWorkers : Text → Type 0
TwoWorkers w = (w ≡ worker) ⊎ (w ≡ codes "w2")

history :
    History execute TwoWorkers accepted
      (run_reaper_scan (codes "p-1") (at relieved (lost ∷ []))).1.state
history =
    then_step
      (then_step
        (then_step (nothing accepted)
          (working worker 1 (calm ∷ killed ∷ []) accepted (inl refl) tt))
        (working (codes "w2") 2 [] died (inr refl) tt))
      (scanning (codes "p-1") (lost ∷ []) relieved)

submit-History_example :
    Somewhere execute TwoWorkers
      (codes "j2")
      (run_reaper_scan (codes "p-1") (at relieved (lost ∷ []))).1.state
submit-History_example =
    submit-History execute TwoWorkers worker (codes "j2") body waiting
      (run_reaper_scan (codes "p-1") (at relieved (lost ∷ []))).1.state [] (inl refl) fresh
      (submit-returns (codes "j2") body waiting fresh).0 history

verdict_exact_example :
    (((verdict killed_run).final_status ≡ completed) ↔ (
      (killed_run.timed_out ≡ false)
      × (killed_run.stream_output_limit_exceeded ≡ false)
      × (killed_run.oom_killed ≡ false)
      × (killed_run.exit_code ≡ some 0)))
    × (((verdict killed_run).final_status ≡ completed)
        ↔ ((verdict killed_run).error_category ≡ none))
    × (((verdict killed_run).final_status ≡ SubmissionStatus.timeout)
        ↔ (killed_run.timed_out ≡ true))
    × (((verdict killed_run).error_category ≡ some ErrorCategory.oom) ↔ (
        (killed_run.timed_out ≡ false)
        × (killed_run.stream_output_limit_exceeded ≡ false)
        × (killed_run.oom_killed ≡ true)))
verdict_exact_example = verdict_exact killed_run

joined-split_for_stream_example :
    joined (split_for_stream utf8_length (repeated 20000 233)) ≡ repeated 20000 233
joined-split_for_stream_example = joined-split_for_stream utf8_length (repeated 20000 233)

split_for_stream-fits_example :
    Each
      (λ c. utf8_length c ≤ max_stream_chunk_bytes)
      (split_for_stream utf8_length (repeated 20000 233))
split_for_stream-fits_example =
    split_for_stream-fits utf8_length utf8_length_le (repeated 20000 233)

abbrev dead_letters : List Text
dead_letters = codes "a" ∷ codes "b" ∷ codes "c" ∷ codes "d" ∷ codes "e" ∷ []

pages-total_pages_example :
    pages (total_pages (length dead_letters) 2) 2 dead_letters ≡ dead_letters
pages-total_pages_example = pages-total_pages 2 dead_letters (omega arith)

abbrev asked : ℕ
asked = 101

failed_is_terminal : is_terminal_status (some failed) ≡ true
unfolding is_terminal_status
failed_is_terminal = refl

recover_on_startup-refills_example :
    ((recover_orphaned_jobs_on_startup (at orphaned [])).0 ≡ returned tt)
    × (in_pending (codes "j1") (recover_orphaned_jobs_on_startup (at orphaned [])).1.state ≡ true)
    × (status_of (codes "j1") (recover_orphaned_jobs_on_startup (at orphaned [])).1.state
        ≡ some SubmissionStatus.pending)
recover_on_startup-refills_example =
    recover_on_startup-refills (codes "j1") orphaned orphaned_lost orphaned_known orphaned_live

abbrev production : Environment
production = record {
  api_key = some (codes "k");
  allow_unauthenticated = some (codes "true");
  node_env = some (codes "production");
}

abbrev with_key : Request
with_key = record { url = codes "/submissions"; ip = codes "10.0.0.9"; provided = some (codes "k") }

starts : refuses_to_start production ≡ false
unfolding refuses_to_start
starts = refl

is_in_production : is_production production ≡ true
unfolding text_eq
is_in_production = refl

passes : authenticate production with_key ≡ pass
unfolding authenticate text_eq
passes = refl

authenticate-production_example :
    (is_health with_key ≡ true)
    ⊎ ((truthy production.api_key ≡ true) × (same_text with_key.provided production.api_key ≡ true))
authenticate-production_example =
    authenticate-production production with_key is_in_production starts passes

abbrev events : List (Stream × Text)
events = (out, codes "hi") ∷ (err, codes "no") ∷ (out, codes "!") ∷ []

-- The text of a run that reports no memory.
abbrev no_peak : Text → Option ℕ × Text
no_peak text = (none, text)

not_truncated : (collect utf8_length take no_peak events nothing_collected).output_truncated ≡ false
unfolding collect handle_output append_within_cap
not_truncated = refl

collect-streamed_example :
    ((collect utf8_length take no_peak events nothing_collected).stdout_accumulator
      ≡ streamed stdout (collect utf8_length take no_peak events nothing_collected).published)
    × ((collect utf8_length take no_peak events nothing_collected).stderr_accumulator
        ≡ streamed stderr (collect utf8_length take no_peak events nothing_collected).published)
collect-streamed_example = collect-streamed utf8_length take no_peak events not_truncated
