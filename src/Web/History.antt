-- ===== src/Web/History.antt =====
-- apps/web/src/hooks/useJobHistory.ts. JSON of a list of entries is a parameter.
use distributed_code_executi.Common.{
  ℕ, Bool, true, false, Option, none, some, List, [], ◌∷◌, map, Text, take, text_eq, if◌then◌else◌,
}
use distributed_code_executi.Contracts.{Language, SubmissionStatus}
use distributed_code_executi.Web.Handlers.{UiStatus, of_job}

abbrev pub max_entries : ℕ
max_entries = 10

pub record JobHistoryEntry : Type 0 where
  pub job_id : Text
  pub language : Language
  pub status : UiStatus
  pub submitted_at : Text

abbrev pub new_entry : Text → Language → Text → JobHistoryEntry
new_entry job_id language now = record {
  job_id = job_id;
  language = language;
  status = of_job SubmissionStatus.pending;
  submitted_at = now;
}

unfoldable pub add_entry : Text → Language → Text → List JobHistoryEntry → List JobHistoryEntry
add_entry job_id language now entries = take max_entries (new_entry job_id language now ∷ entries)

abbrev pub entry_with_status : Text → UiStatus → JobHistoryEntry → JobHistoryEntry
entry_with_status job_id status e =
    if text_eq e.job_id job_id then record e { status = status } else e

unfoldable pub update_status : Text → UiStatus → List JobHistoryEntry → List JobHistoryEntry
update_status job_id status entries = map (entry_with_status job_id status) entries

abbrev pub entries_or_none : Option (List JobHistoryEntry) → List JobHistoryEntry
entries_or_none none = []
entries_or_none (some entries) = entries

module _ (stringify : List JobHistoryEntry → Text)
    (parse : Text → Option (List JobHistoryEntry)) where
  -- What the storage holds under the key, if anything; `parse` gives nothing where JSON.parse throws
  -- or gives no array.
  unfoldable pub load : Option Text → List JobHistoryEntry
  load none = []
  load (some []) = []
  load (some (c ∷ cs)) = entries_or_none (parse (c ∷ cs))

  -- A storage that is full or not available keeps what it had.
  unfoldable pub save : (available : Bool) → List JobHistoryEntry → Option Text → Option Text
  save true entries old = some (stringify entries)
  save false entries old = old
