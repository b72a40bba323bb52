-- ===== src/Examples/Monitors.antt =====
-- The theorems on the monitor at concrete inputs.
use distributed_code_executi.Common.{
  ◌≡◌, refl, true, false, none, some, inl, inr, List, [], ◌∷◌, map, Text, codes, text_eq,
  Bool-cases,
}
use distributed_code_executi.Contracts.{SubmissionStatus, QueuePayload, is_terminal_status}
use distributed_code_executi.Contracts.Keys.{pending_key, make_processing_key}
use distributed_code_executi.Services.{State, World, Outcome, returned}
use distributed_code_executi.Services.Effects.{◌>>=◌, call}
use distributed_code_executi.Services.Triples.{at}
use distributed_code_executi.Jobs.Places.{Safe, Settled}
use distributed_code_executi.Worker.{rounds}
use distributed_code_executi.Reaper.{
  run_reaper_scan, acquire_lock, reaper_lock_key, member, distinct, find_dead, remove_text,
  extract_worker_id_from_queue, extract_worker_id_from_heartbeat,
}
use distributed_code_executi.Reaper.Orphans.{NoStranger}
use distributed_code_executi.Reaper.Rescued.{
  run_reaper_scan-rescues, queue_keys, heartbeat_keys, locked, dead,
}
use distributed_code_executi.Reaper.Turns.{
  LockStep, acquiring, releasing, lock_step, lock_steps, turn, turns, ended, holder, turn_excludes,
}
use distributed_code_executi.System.Backlogs.{AllAnswer, Job}
use distributed_code_executi.System.Crashes.{crash-served, retried}
use distributed_code_executi.Examples.Setting.{services, idle, orphaned, job, row, worker, execute}

abbrev p1 : Text
p1 = codes "p-1"

orphaned_free : services.get orphaned.redis reaper_lock_key ≡ none
orphaned_free = refl

orphaned_seen :
    member (make_processing_key worker) (queue_keys p1 worker (locked p1 worker orphaned)) ≡ true
unfolding member make_processing_key text_eq
orphaned_seen = refl

orphaned_silent :
    member worker
      (map extract_worker_id_from_heartbeat (heartbeat_keys p1 worker (locked p1 worker orphaned)))
    ≡ false
unfolding member make_processing_key
orphaned_silent = refl

-- The only entry is of the job, which has a row.
orphaned_known : NoStranger orphaned
unfolding text_eq
orphaned_known v =
    elim (Bool-cases (text_eq (make_processing_key worker) (make_processing_key v))) [
      | inl e ↦ rw e (refl, tt)
      | inr e ↦ rw e tt
    ]

orphaned_held : Safe (make_processing_key worker) (codes "j1") orphaned
unfolding pending_key make_processing_key text_eq is_terminal_status
orphaned_held = (refl, refl)

run_reaper_scan-rescues_example :
    ((run_reaper_scan p1 (at orphaned [])).0 ≡ returned tt)
    × (services.lrange
          (run_reaper_scan p1 (at orphaned [])).1.state.redis
          (make_processing_key worker)
        ≡ [])
    × Settled (codes "j1") (run_reaper_scan p1 (at orphaned [])).1.state
run_reaper_scan-rescues_example =
    run_reaper_scan-rescues p1 worker (codes "j1") orphaned orphaned_free orphaned_seen
      orphaned_silent orphaned_known orphaned_held

-- The first attempt at the job was cut short.
abbrev first_try : QueuePayload
first_try = record job { retry_count = 0 }

abbrev crashed_at : State
crashed_at = record orphaned {
  redis = services.lpush (make_processing_key worker) (services.stringify_job first_try) idle.redis;
}

crashed_dead : dead p1 worker (locked p1 worker crashed_at) ≡ worker ∷ []
unfolding find_dead distinct member make_processing_key text_eq extract_worker_id_from_queue
    extract_worker_id_from_heartbeat remove_text
crashed_dead = refl

crashed_queue :
    services.lrange crashed_at.redis (make_processing_key worker)
    ≡ services.stringify_job first_try ∷ []
unfolding make_processing_key text_eq
crashed_queue = refl

crashed_row : services.submission crashed_at.db (codes "j1") ≡ some (row SubmissionStatus.running)
unfolding text_eq
crashed_row = refl

crashed_pending : services.lrange crashed_at.redis pending_key ≡ []
unfolding make_processing_key pending_key text_eq
crashed_pending = refl

abbrev tried_again : List Job
tried_again = retried p1 worker first_try (row SubmissionStatus.running) crashed_at.now ∷ []

abbrev after_both : Outcome (Unit {0}) × World
after_both = (run_reaper_scan p1 >>= λ _. rounds execute 1 (codes "w2")) (at crashed_at [])

crash-served_example :
    (after_both.0 ≡ returned tt)
    × (services.lrange after_both.1.state.redis (make_processing_key worker) ≡ [])
    × (services.lrange after_both.1.state.redis pending_key ≡ [])
    × AllAnswer execute (codes "w2") tried_again after_both.1.state
crash-served_example =
    crash-served execute p1 worker (codes "w2") first_try (row SubmissionStatus.running) []
      crashed_at refl crashed_dead crashed_queue crashed_row refl refl crashed_pending tt tt tt

-- Two monitors.
abbrev others : List LockStep
others = acquiring (codes "p-2") ∷ releasing (codes "p-2") ∷ acquiring (codes "p-3") ∷ []

granted_first : turn (acquiring p1) idle ≡ 1
unfolding acquire_lock call
granted_first = refl

others_apart : ended p1 others ≡ false
unfolding ended text_eq
others_apart = refl

turn_excludes_example :
    (turns others (lock_step (acquiring p1) idle) ≡ 0)
    × (holder (lock_steps others (lock_step (acquiring p1) idle)) ≡ some p1)
turn_excludes_example = turn_excludes p1 others idle granted_first others_apart
