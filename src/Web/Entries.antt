-- ===== src/Web/Entries.antt =====
-- The history of the jobs of a client: apps/web/src/hooks/useJobHistory.ts and how
-- apps/web/src/App.tsx keeps it.
use mathlib.Core.Option
use distributed_code_executi.Common.{
  suc, ◌≤◌, ◌≡◌, refl, ap, ◌∙◌, Bool, true, false, not, inl, inr, Bool-cases, Option, none, some,
  List, [], ◌∷◌, Text, length, length-take, text_eq, text_eq_iff, text_eq_refl, arith,
  if◌then◌else◌,
}
use distributed_code_executi.Contracts.{Language, SubmissionStatus, is_terminal_status}
use distributed_code_executi.Gateway.Routes.{Detail}
use distributed_code_executi.Web.Handlers.{
  UiStatus, of_job, submitted, submit_failed, final_reply, on_event, run_clicked, run_submitted,
  Client, ClientEvent, click, message, stream_closed, stream_error, fallback_fires, poll_reply,
  on_message, on_socket_error, on_fallback_timer, start_fallback_poll, poll_if, unless_seen, shown,
  timer_of,
}
use distributed_code_executi.Web.History.{
  JobHistoryEntry, max_entries, new_entry, add_entry, update_status, load, save, entries_or_none,
}
use distributed_code_executi.Web.App.{
  App, sync_history, handle_run, handle_event, synced, noted, has_outcome,
}
use distributed_code_executi.Web.Polling.{is_of, all_of, and_true}

-- The status that the history shows of a job: that of its newest entry.
abbrev pub status_in : Text → List JobHistoryEntry → Option UiStatus
status_in id [] = none
status_in id (e ∷ es) = if text_eq e.job_id id then some e.status else status_in id es

-- What the hook does to the entries.
pub data Change : Type 0 where
  add : Text → Language → Text → Change
  update : Text → UiStatus → Change

abbrev pub changed : Change → List JobHistoryEntry → List JobHistoryEntry
changed (add id language now) es = add_entry id language now es
changed (update id status) es = update_status id status es

abbrev pub changed_by : List Change → List JobHistoryEntry → List JobHistoryEntry
changed_by [] es = es
changed_by (c ∷ cs) es = changed_by cs (changed c es)

length-update_status :
    (id : Text) (status : UiStatus) (es : List JobHistoryEntry)
    → length (update_status id status es) ≡ length es
unfolding update_status
length-update_status id status [] = refl
length-update_status id status (e ∷ es) = ap (λ n. suc n) (length-update_status id status es)

length-changed :
    (c : Change) (es : List JobHistoryEntry)
    → length es ≤ max_entries
    → length (changed c es) ≤ max_entries
unfolding add_entry
length-changed (add id language now) es h = length-take max_entries (new_entry id language now ∷ es)
length-changed (update id status) es h = omega (arith, length-update_status id status es, h)

-- However jobs are added and updated, the history keeps to its ten entries, if it did at first.
pub length-changed_by :
    (cs : List Change) (es : List JobHistoryEntry)
    → length es ≤ max_entries
    → length (changed_by cs es) ≤ max_entries
length-changed_by [] es h = h
length-changed_by (c ∷ cs) es h = length-changed_by cs (changed c es) (length-changed c es h)

-- An update changes the status that the history shows of that job, if it has an entry, and of no
-- other.
pub status_in-update_status :
    (id : Text) (status : UiStatus) (es : List JobHistoryEntry) (other : Text)
    → status_in other (update_status id status es)
      ≡ Option.map (λ old. if text_eq id other then status else old) (status_in other es)
unfolding update_status
status_in-update_status id status [] other = refl
status_in-update_status id status (e ∷ es) other = ground (
  arith,
  text_eq_iff e.job_id id,
  text_eq_iff e.job_id other,
  text_eq_iff id other,
  status_in-update_status id status es other,
)

status_in-add_entry :
    (id : Text) (language : Language) (now : Text) (es : List JobHistoryEntry)
    → status_in id (add_entry id language now es) ≡ some (of_job SubmissionStatus.pending)
unfolding add_entry
status_in-add_entry id language now es = rw (text_eq_refl id)

module _ (stringify : List JobHistoryEntry → Text)
    (parse : Text → Option (List JobHistoryEntry)) where
  -- What was saved is what the next page loads, if JSON reads back what it wrote and the empty text
  -- is no JSON; a storage that is not available gives back what it held before.
  pub load-save :
      (entries : List JobHistoryEntry) (old : Option Text)
      → ((es : List JobHistoryEntry) → parse (stringify es) ≡ some es)
      → parse [] ≡ none
      → (load stringify parse (save stringify parse true entries old) ≡ entries)
        × (load stringify parse (save stringify parse false entries old) ≡ load stringify parse old)
  unfolding save load
  load-save entries old reads empty = (loaded (stringify entries) (reads entries), refl)
    where
      loaded : (raw : Text) → parse raw ≡ some entries → load stringify parse (some raw) ≡ entries
      loaded [] h = cc
      loaded (c ∷ cs) h = ap entries_or_none h

settled_entry :
    (id : Text) (status : UiStatus) (es : List JobHistoryEntry) (old : UiStatus)
    → status_in id es ≡ some old
    → status_in id (update_status id status es) ≡ some status
settled_entry id status es old h = status_in-update_status id status es id ∙ rw (h, text_eq_refl id)

-- The handlers of the application, for events that all come at one time: the time is of no account
-- but for a job that is submitted.
abbrev pub handle_events : Text → List ClientEvent → App → App
handle_events now [] app = app
handle_events now (e ∷ es) app = handle_events now es (handle_event now e app)

if_job :
    (j : Option Text) (b : Bool) (p q : Client)
    → p.job_id ≡ j
    → q.job_id ≡ j
    → (if b then p else q).job_id ≡ j
if_job j true p q h k = h
if_job j false p q h k = k

unless_seen-job_id :
    (id : Text) (j : Option Text) (c : Client) → c.job_id ≡ j → (unless_seen id c).job_id ≡ j
unfolding start_fallback_poll
unless_seen-job_id id j c h =
    if_job j (not (c.saw_first_message id)) (poll_if c.poll_interval_ref id c) c
      (polling c.poll_interval_ref) h
  where
    polling : (o : Option Text) → (poll_if o id c).job_id ≡ j
    polling none = h
    polling (some p) = h

-- No event of the run of a job makes another job the current one.
job_id-on_event :
    (id : Text) (e : ClientEvent) (c : Client)
    → is_of id e ≡ true
    → (on_event e c).job_id ≡ c.job_id
unfolding on_event on_message on_socket_error on_fallback_timer
job_id-on_event id click c i = cc
job_id-on_event id (submitted other) c i = cc (i)
job_id-on_event id (submit_failed text) c i = refl
job_id-on_event id (message other none) c i = refl
job_id-on_event id (message other (some chunk)) c i =
    if_job c.job_id (shown chunk.type) _ _ refl refl
job_id-on_event id (stream_closed other) c i = refl
job_id-on_event id (stream_error other) c i =
    if_job c.job_id (not (c.received_any_message other)) (unless_seen other c) c
      (unless_seen-job_id other c.job_id c refl) refl
job_id-on_event id (fallback_fires other) c i =
    if_job c.job_id (timer_of c.fallback_timer_ref other) (unless_seen other c) c
      (unless_seen-job_id other c.job_id c refl) refl
job_id-on_event id (poll_reply other none) c i = refl
job_id-on_event id (poll_reply other (some d)) c i =
    if_job c.job_id (is_terminal_status (some d.status)) _ _ refl refl
job_id-on_event id (final_reply other none) c i = refl
job_id-on_event id (final_reply other (some d)) c i = refl

-- The job is the current one, and has an entry.
Listed : Text → App → Type 0
Listed id app =
    (app.submission.job_id ≡ some id) × ((old : UiStatus) × (status_in id app.entries ≡ some old))

synced-listed :
    (id : Text) (j : Option Text) (status : UiStatus) (es : List JobHistoryEntry)
    → j ≡ some id
    → (old : UiStatus) × (status_in id es ≡ some old)
    → (old : UiStatus) × (status_in id (synced j status es) ≡ some old)
synced-listed id none status es e h = cc (e)
synced-listed id (some j) status es e (old, h) = elim (Bool-cases (has_outcome status)) [
  | inl over ↦ (
    if text_eq j id then status else old,
    rw over (status_in-update_status j status es id ∙ rw h refl),
  )
  | inr not_yet ↦ (old, rw not_yet h)
]

noted_none :
    (id : Text) (e : ClientEvent) (language : Language) (now : Text) (es : List JobHistoryEntry)
    → is_of id e ≡ true
    → noted e language now es ≡ es
noted_none id click language now es i = cc
noted_none id (submitted other) language now es i = cc (i)
noted_none id (submit_failed text) language now es i = refl
noted_none id (message other parsed) language now es i = refl
noted_none id (stream_closed other) language now es i = refl
noted_none id (stream_error other) language now es i = refl
noted_none id (fallback_fires other) language now es i = refl
noted_none id (poll_reply other reply) language now es i = refl
noted_none id (final_reply other reply) language now es i = refl

handle_event-Listed :
    (id now : Text) (e : ClientEvent) (app : App)
    → is_of id e ≡ true
    → Listed id app
    → Listed id (handle_event now e app)
unfolding Listed handle_event sync_history
handle_event-Listed id now e app i (current, (old, h)) =
    let same = job_id-on_event id e app.submission i ∙ current in
    (
      same,
      synced-listed id (on_event e app.submission).job_id (on_event e app.submission).status
          (noted e app.run_language now app.entries) same
          (old, ap (status_in id) (noted_none id e app.run_language now app.entries i) ∙ h),
    )

handle_events-Listed :
    (id now : Text) (es : List ClientEvent) (app : App)
    → all_of id es ≡ true
    → Listed id app
    → Listed id (handle_events now es app)
handle_events-Listed id now [] app a h = h
handle_events-Listed id now (e ∷ es) app a h =
    handle_events-Listed id now es (handle_event now e app) (and_true a).1
      (handle_event-Listed id now e app (and_true a).0 h)

submitted-Listed : (id now : Text) (app : App) → Listed id (handle_event now (submitted id) app)
unfolding Listed handle_event sync_history on_event run_submitted is_terminal_status add_entry
submitted-Listed id now app = (
  refl,
  (of_job SubmissionStatus.pending, status_in-add_entry id app.run_language now app.entries),
)

outcome_shown :
    (id later : Text) (detail : Detail) (app : App)
    → is_terminal_status (some detail.status) ≡ true
    → Listed id app
    → (status_in id (handle_event later (final_reply id (some detail)) app).entries
        ≡ some (of_job detail.status))
      × (status_in id (handle_event later (poll_reply id (some detail)) app).entries
          ≡ some (of_job detail.status))
unfolding Listed handle_event sync_history on_event
outcome_shown id later detail app over (current, (old, h)) =
    let shows = settled_entry id (of_job detail.status) app.entries old h in
    (rw (current, over) shows, rw (over, current, over) shows)

-- A job that was submitted stands in the history. As long as nothing but the events of this job comes
-- after its submission (messages, errors, timers and replies, and no other run), a reply to a poll or
-- to the final request that tells a terminal status makes the history show that status.
pub history_outcome :
    (id now later : Text) (es : List ClientEvent) (detail : Detail) (app : App)
    → all_of id es ≡ true
    → is_terminal_status (some detail.status) ≡ true
    → let before = handle_events later es (handle_event now (submitted id) app) in
      (status_in id (handle_event later (final_reply id (some detail)) before).entries
        ≡ some (of_job detail.status))
      × (status_in id (handle_event later (poll_reply id (some detail)) before).entries
          ≡ some (of_job detail.status))
history_outcome id now later es detail app only over =
    outcome_shown id later detail (handle_events later es (handle_event now (submitted id) app))
      over
      (handle_events-Listed id later es (handle_event now (submitted id) app) only
        (submitted-Listed id now app))

-- A submission that the gateway does not take is put down to the job before: once the request of a
-- next run has failed, the history shows a failed submission for the job that had run last, whatever
-- it showed of it.
pub submit_failed-overwrites :
    (id now text : Text) (old : UiStatus) (app : App)
    → app.submission.job_id ≡ some id
    → status_in id app.entries ≡ some old
    → status_in id (handle_event now (submit_failed text) (handle_run app)).entries
      ≡ some UiStatus.submit_error
unfolding handle_event handle_run sync_history on_event run_clicked
submit_failed-overwrites id now text old app j h =
    rw j (settled_entry id UiStatus.submit_error app.entries old h)
