-- ===== src/Scripts/Pool.antt =====
-- benchmark.js: the clients of runBenchmark, which share the counters. A client acts from one
-- `await` to the next without interruption, so that an event is one client's turn.
use distributed_code_executi.Common.{ℕ, zero, suc, ◌+◌, List, [], ◌∷◌, ◌++◌, ltb, if◌then◌else◌}

-- A client is about to test the counter, awaits the end of a job, or is over.
pub data PoolClient : Type 0 where
  looking : PoolClient
  awaiting : ℕ → PoolClient
  finished : PoolClient

pub record Pool : Type 0 where
  pub clients : List PoolClient
  pub submitted_count : ℕ
  pub completed_count : ℕ
  pub latencies : List ℕ
  -- the jobs whose errors were printed
  pub errors : List ℕ

-- What the client with this number meets: its turn at the loop's test, the end of its job after so
-- many milliseconds, or an exception of submitJob or of waitForJob.
pub data PoolEvent : Type 0 where
  turn : ℕ → PoolEvent
  completion : ℕ → ℕ → PoolEvent
  exception : ℕ → PoolEvent

abbrev pub replicate : ℕ → List PoolClient
replicate zero = []
replicate (suc n) = looking ∷ replicate n

-- Array.from({ length: concurrency }, () => worker())
unfoldable pub pool_start : ℕ → Pool
pool_start concurrency = record {
  clients = replicate concurrency;
  submitted_count = 0;
  completed_count = 0;
  latencies = [];
  errors = [];
}

abbrev pub client_at : List PoolClient → ℕ → PoolClient
client_at [] k = finished
client_at (c ∷ cs) zero = c
client_at (c ∷ cs) (suc k) = client_at cs k

abbrev pub with_client : ℕ → PoolClient → List PoolClient → List PoolClient
with_client k c [] = []
with_client zero c (d ∷ ds) = c ∷ ds
with_client (suc k) c (d ∷ ds) = d ∷ with_client k c ds

-- The test of the loop, and the index that is taken.
abbrev pub take_turn : ℕ → ℕ → PoolClient → Pool → Pool
take_turn total k looking p =
    if ltb p.submitted_count total
    then record p {
      clients = with_client k (awaiting p.submitted_count) p.clients;
      submitted_count = p.submitted_count + 1;
    }
    else record p { clients = with_client k finished p.clients }
take_turn total k (awaiting job) p = p
take_turn total k finished p = p

abbrev pub complete_job : ℕ → ℕ → PoolClient → Pool → Pool
complete_job k latency looking p = p
complete_job k latency (awaiting job) p = record p {
  clients = with_client k looking p.clients;
  latencies = p.latencies ++ latency ∷ [];
  completed_count = p.completed_count + 1;
}
complete_job k latency finished p = p

abbrev pub print_error : ℕ → PoolClient → Pool → Pool
print_error k looking p = p
print_error k (awaiting job) p = record p {
  clients = with_client k looking p.clients;
  errors = p.errors ++ job ∷ [];
}
print_error k finished p = p

unfoldable pub on_pool_event : ℕ → PoolEvent → Pool → Pool
on_pool_event total (turn k) p = take_turn total k (client_at p.clients k) p
on_pool_event total (completion k latency) p = complete_job k latency (client_at p.clients k) p
on_pool_event total (exception k) p = print_error k (client_at p.clients k) p

unfoldable pub on_pool_events : ℕ → List PoolEvent → Pool → Pool
on_pool_events total [] p = p
on_pool_events total (e ∷ es) p = on_pool_events total es (on_pool_event total e p)
