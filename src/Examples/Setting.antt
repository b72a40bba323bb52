-- ===== src/Examples/Setting.antt =====
-- A job, its row, a worker and a sandbox.
use distributed_code_executi.Common.{
  ℕ, zero, suc, ◌+◌, ◌*◌, ◌≤◌, true, length, ltb, if◌then◌else◌, arith, false, none, some, [], ◌∷◌,
  Text, codes,
}
use distributed_code_executi.Contracts.{QueuePayload, SubmissionStatus, python, Language}
use distributed_code_executi.Contracts.Keys.{pending_key, make_processing_key}
use distributed_code_executi.Services.{Services, State, Submission}
use distributed_code_executi.Worker.Verdict.{SandboxResult}
use distributed_code_executi.Reaper.{reaper_lock_key, reaper_lock_ttl_ms}
use distributed_code_executi.Gateway.{SubmissionBody}
use distributed_code_executi.Examples.Database.{postgres}
use distributed_code_executi.Examples.Server.{server}
use distributed_code_executi.Examples.Codec.{json}

instance abbrev pub services : Services
services = record { postgres = postgres; server = server; json = json }

abbrev pub worker : Text
worker = codes "w1"

abbrev pub job : QueuePayload
job = record {
  job_id = codes "j1";
  user_id = none;
  code = codes "print(1)";
  language = python;
  retry_count = 3;
  submitted_at = 5 ∷ [];
}

abbrev pub row : SubmissionStatus → Submission
row status = record {
  id = codes "j1";
  user_id = none;
  language = python;
  source_code = codes "print(1)";
  status = status;
  retry_count = 3;
  created_at = 5;
  updated_at = 5;
}

-- The job waits in the pending queue.
abbrev pub waiting : State
waiting = record {
  db = record { rows = row SubmissionStatus.pending ∷ []; results = λ _. none };
  open_tx = none;
  redis =
      server.lpush pending_key (json.stringify_job job)
        (record { lists = λ _. []; strings = λ _. none; keys = [] });
  now = 7;
  published = [];
  metrics = [];
}

-- The job is in the queue of the worker, which had claimed it.
abbrev pub orphaned : State
orphaned = record {
  db = record { rows = row SubmissionStatus.running ∷ []; results = λ _. none };
  open_tx = none;
  redis =
      server.lpush (make_processing_key worker) (json.stringify_job job)
        (record { lists = λ _. []; strings = λ _. none; keys = [] });
  now = 7;
  published = [];
  metrics = [];
}

abbrev pub execute : Text → Text → Language → SandboxResult
execute id code language = record {
  exit_code = some 0;
  stdout = codes "1";
  stderr = [];
  timed_out = false;
  oom_killed = false;
  output_truncated = false;
  stream_output_limit_exceeded = false;
  execution_time_ms = 4;
  memory_used_bytes = none;
  container_init_ms = 1;
  code_runtime_ms = 2;
}

-- No job at all.
abbrev pub idle : State
idle = record {
  db = record { rows = []; results = λ _. none };
  open_tx = none;
  redis = record { lists = λ _. []; strings = λ _. none; keys = [] };
  now = 3;
  published = [];
  metrics = [];
}

-- Another monitor holds the lock of the reaper.
abbrev pub locked : State
locked = record idle {
  redis = server.set reaper_lock_key (codes "p-2") (some reaper_lock_ttl_ms) idle.redis;
}

abbrev pub body : SubmissionBody
body = record { code = codes "print(2)"; language = python; user_id = some (codes "u7") }

-- A run that the OOM killer ended.
abbrev pub killed_run : SandboxResult
killed_run = record {
  exit_code = some 137;
  stdout = [];
  stderr = [];
  timed_out = false;
  oom_killed = true;
  output_truncated = false;
  stream_output_limit_exceeded = false;
  execution_time_ms = 900;
  memory_used_bytes = none;
  container_init_ms = 300;
  code_runtime_ms = 600;
}

abbrev pub repeated : ℕ → ℕ → Text
repeated zero c = []
repeated (suc n) c = c ∷ repeated n c

-- The number of bytes in UTF-8 of a text without surrogate pairs.
abbrev pub unit_length : ℕ → ℕ
unit_length c = if ltb c 128 then 1 else if ltb c 2048 then 2 else 3

abbrev pub utf8_length : Text → ℕ
utf8_length [] = 0
utf8_length (c ∷ cs) = unit_length c + utf8_length cs

pub utf8_length_le : (t : Text) → utf8_length t ≤ 3 * length t
utf8_length_le [] = omega arith
utf8_length_le (c ∷ cs) = ground (arith, utf8_length_le cs)
