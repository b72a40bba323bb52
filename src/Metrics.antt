-- ===== src/Metrics.antt =====
-- shared/metrics/src/index.ts: the metrics that are declared, less their help texts, and the server
-- that shows them. What prom-client does with them is not modelled.
use distributed_code_executi.Common.{
  ℕ, ◌≡◌, refl, sym, ap, ◌∙◌, Option, none, some, List, [], ◌∷◌, Text, codes, text_eq,
  if◌then◌else◌,
}
use mathlib.Core.Option.{some-injective}

pub data MetricKind : Type 0 where
  gauge counter histogram : MetricKind

pub data MetricId : Type 0 where
  queue_depth active_workers worker_job_counter execution_duration active_web_sockets
        websocket_events :
      MetricId
  dead_worker_recoveries dead_letter_jobs rate_limit_hits output_truncations
        stream_output_limit_hits :
      MetricId
  enqueue_failures docker_spawn_failures reaper_terminal_skips websocket_replay_connections
        queue_wait_time :
      MetricId

-- The options of a metric. No buckets are those of the library.
pub record MetricSpec : Type 0 where
  pub kind : MetricKind
  pub name : Text
  pub label_names : List Text
  pub buckets : List ℕ

abbrev pub plain : MetricKind → Text → MetricSpec
plain kind name = record { kind = kind; name = name; label_names = []; buckets = [] }

unfoldable pub metric_spec : MetricId → MetricSpec
metric_spec queue_depth = plain gauge (codes "code_execution_queue_depth")
metric_spec active_workers = plain gauge (codes "code_execution_active_workers")
metric_spec worker_job_counter = record {
  kind = counter;
  name = codes "code_execution_worker_jobs_total";
  label_names = codes "worker_id" ∷ codes "status" ∷ codes "language" ∷ [];
  buckets = [];
}
metric_spec execution_duration = record {
  kind = histogram;
  name = codes "code_execution_duration_ms";
  label_names = codes "language" ∷ codes "status" ∷ [];
  buckets = [];
}
metric_spec active_web_sockets = plain gauge (codes "code_execution_websocket_connections_active")
metric_spec websocket_events = record {
  kind = counter;
  name = codes "code_execution_websocket_events_total";
  label_names = codes "event" ∷ [];
  buckets = [];
}
metric_spec dead_worker_recoveries =
    plain counter (codes "code_execution_dead_worker_recoveries_total")
metric_spec dead_letter_jobs = plain counter (codes "code_execution_dead_letter_jobs_total")
metric_spec rate_limit_hits = plain counter (codes "code_execution_rate_limit_hits_total")
metric_spec output_truncations = plain counter (codes "code_execution_output_truncations_total")
metric_spec stream_output_limit_hits =
    plain counter (codes "code_execution_stream_output_limit_hits_total")
metric_spec enqueue_failures = plain counter (codes "code_execution_enqueue_failures_total")
metric_spec docker_spawn_failures =
    plain counter (codes "code_execution_docker_spawn_failures_total")
metric_spec reaper_terminal_skips =
    plain counter (codes "code_execution_reaper_terminal_skips_total")
metric_spec websocket_replay_connections =
    plain counter (codes "code_execution_websocket_replay_connections_total")
metric_spec queue_wait_time = record {
  kind = histogram;
  name = codes "code_execution_queue_wait_ms";
  label_names = codes "language" ∷ [];
  buckets = 50 ∷ 100 ∷ 250 ∷ 500 ∷ 1000 ∷ 2500 ∷ 5000 ∷ 10000 ∷ 30000 ∷ [];
}

-- `collect` of the queue's depth: with a provider that answers the gauge is its answer, and
-- otherwise it stays.
unfoldable pub collected_depth : Option (Option ℕ) → ℕ → ℕ
collected_depth none old = old
collected_depth (some none) old = old
collected_depth (some (some depth)) old = depth

-- The status of the reply to a request for a path.
unfoldable pub metrics_status : Text → ℕ
metrics_status url = if text_eq url (codes "/metrics") then 200 else 404

abbrev all_metrics : List MetricId
all_metrics =
    queue_depth ∷ active_workers ∷ worker_job_counter ∷ execution_duration ∷ active_web_sockets
    ∷ websocket_events ∷ dead_worker_recoveries ∷ dead_letter_jobs ∷ rate_limit_hits
    ∷ output_truncations ∷ stream_output_limit_hits ∷ enqueue_failures ∷ docker_spawn_failures
    ∷ reaper_terminal_skips ∷ websocket_replay_connections ∷ queue_wait_time ∷ []

abbrev named : Text → List MetricId → Option MetricId
named t [] = none
named t (m ∷ ms) = if text_eq (metric_spec m).name t then some m else named t ms

named_lem : (m : MetricId) → named (metric_spec m).name all_metrics ≡ some m
unfolding metric_spec text_eq
named_lem queue_depth = refl
named_lem active_workers = refl
named_lem worker_job_counter = refl
named_lem execution_duration = refl
named_lem active_web_sockets = refl
named_lem websocket_events = refl
named_lem dead_worker_recoveries = refl
named_lem dead_letter_jobs = refl
named_lem rate_limit_hits = refl
named_lem output_truncations = refl
named_lem stream_output_limit_hits = refl
named_lem enqueue_failures = refl
named_lem docker_spawn_failures = refl
named_lem reaper_terminal_skips = refl
named_lem websocket_replay_connections = refl
named_lem queue_wait_time = refl

-- No two metrics have the same name, so that none is refused when it is declared.
pub metric_name-distinct : (a b : MetricId) → (metric_spec a).name ≡ (metric_spec b).name → a ≡ b
metric_name-distinct a b h =
    some-injective a b (sym (named_lem a) ∙ ap (λ t. named t all_metrics) h ∙ named_lem b)
