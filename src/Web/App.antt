-- ===== src/Web/App.antt =====
-- The logic of apps/web/src/App.tsx: the live job, the history and the view of a past job.
use distributed_code_executi.Common.{
  Bool, true, false, Option, none, some, List, [], ◌∷◌, ◌++◌, Text, codes, if◌then◌else◌,
}
use distributed_code_executi.Contracts.{Language, stdout, stderr, is_terminal_status}
use distributed_code_executi.Gateway.Routes.{Detail}
use distributed_code_executi.Web.Handlers.{
  UiStatus, of_job, OutputLine, Client, ClientEvent, click, submitted, on_event,
}
use distributed_code_executi.Web.History.{JobHistoryEntry, add_entry, update_status}

pub record App : Type 0 where
  pub language : Language
  pub code : Text
  pub historical_view : Option Detail
  pub history_error : Option Text
  pub entries : List JobHistoryEntry
  -- what `run` was called with last
  pub run_language : Language
  pub submission : Client

-- status === 'submit_error' || isTerminalStatus(status)
abbrev pub has_outcome : UiStatus → Bool
has_outcome UiStatus.idle = false
has_outcome UiStatus.submitting = false
has_outcome UiStatus.submit_error = true
has_outcome (of_job s) = is_terminal_status (some s)

abbrev pub synced : Option Text → UiStatus → List JobHistoryEntry → List JobHistoryEntry
synced none status entries = entries
synced (some job_id) status entries =
    if has_outcome status then update_status job_id status entries else entries

-- The effect that follows the job and its status.
unfoldable pub sync_history : App → App
sync_history app = record app {
  entries = synced app.submission.job_id app.submission.status app.entries;
}

unfoldable pub handle_run : App → App
handle_run app = record app {
  historical_view = none;
  history_error = none;
  run_language = app.language;
  submission = on_event click app.submission;
}

-- An event of the hook; a new job is put down in the history first, at the time `now`.
abbrev pub noted : ClientEvent → Language → Text → List JobHistoryEntry → List JobHistoryEntry
noted (submitted job_id) language now entries = add_entry job_id language now entries
noted e language now entries = entries

unfoldable pub handle_event : Text → ClientEvent → App → App
handle_event now e app = sync_history (record app {
  submission = on_event e app.submission;
  entries = noted e app.run_language now app.entries;
})

-- The reply of getSubmission for an entry of the history, or its failure.
unfoldable pub handle_select_history : Option Detail → App → App
handle_select_history none app = record app {
  history_error = some (codes "Could not load that job — it may have been removed.");
}
handle_select_history (some detail) app = record app {
  history_error = none;
  historical_view = some detail;
  language = detail.language;
  code = detail.source_code;
}

-- `value ? [line] : []`
abbrev pub stdout_line : Option Text → List OutputLine
stdout_line none = []
stdout_line (some []) = []
stdout_line (some (c ∷ cs)) = record { type = stdout; content = c ∷ cs } ∷ []

abbrev pub stderr_line : Option Text → List OutputLine
stderr_line none = []
stderr_line (some []) = []
stderr_line (some (c ∷ cs)) = record { type = stderr; content = c ∷ cs } ∷ []

abbrev pub display_output : Option Detail → Client → List OutputLine
display_output none submission = submission.output
display_output (some view) submission = stdout_line view.stdout ++ stderr_line view.stderr

abbrev pub display_result : Option Detail → Client → Option Detail
display_result none submission = submission.result
display_result (some view) submission = some view

abbrev pub display_status : Option Detail → Client → UiStatus
display_status none submission = submission.status
display_status (some view) submission = of_job view.status
