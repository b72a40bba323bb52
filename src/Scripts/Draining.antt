-- ===== src/Scripts/Draining.antt =====
-- The clients of runBenchmark in benchmark.js, whatever happens to their jobs and in any order.
use distributed_code_executi.Common.{
  ℕ, zero, suc, ◌+◌, ◌≤◌, ◌≡◌, refl, sym, subst, List, [], ◌∷◌, ltb, length, length-append, ltb→lt,
  arith, Bool-cases, inl, inr,
}
use distributed_code_executi.Scripts.Pool.{
  PoolClient, looking, awaiting, finished, Pool, PoolEvent, turn, completion, exception, replicate,
  pool_start, client_at, with_client, take_turn, complete_job, print_error, on_pool_event,
  on_pool_events,
}

-- How many clients await the end of a job, and how many are over.
abbrev awaits : PoolClient → ℕ
awaits (awaiting job) = 1
awaits looking = 0
awaits finished = 0

abbrev over : PoolClient → ℕ
over finished = 1
over looking = 0
over (awaiting job) = 0

pub total_of : (PoolClient → ℕ) → List PoolClient → ℕ
total_of w [] = 0
total_of w (c ∷ cs) = w c + total_of w cs

abbrev IsLive : PoolClient → Type 0
IsLive looking = Unit {0}
IsLive (awaiting job) = Unit {0}
IsLive finished = ⊥

total_of-with_client :
    (w : PoolClient → ℕ) (k : ℕ) (c d : PoolClient) (cs : List PoolClient)
    → client_at cs k ≡ d
    → IsLive d
    → total_of w (with_client k c cs) + w d ≡ total_of w cs + w c
unfolding total_of
total_of-with_client w k c d [] e live = absurd (subst IsLive (sym e) live)
total_of-with_client w zero c d (x ∷ xs) e live = rw e (omega arith)
total_of-with_client w (suc k) c d (x ∷ xs) e live =
    omega (arith, total_of-with_client w k c d xs e live)

-- Every job that was taken is completed, failed or awaited; the counter stays within the total, and
-- has reached it when a client is over.
pub record Counted (total : ℕ) (p : Pool) : Type 0 where
  pub accounted :
      p.submitted_count ≡ p.completed_count + length p.errors + total_of awaits p.clients
  pub measured : p.completed_count ≡ length p.latencies
  pub bounded : p.submitted_count ≤ total
  pub exhausted : 1 ≤ total_of over p.clients → total ≤ p.submitted_count

module _ (total k : ℕ) where
  turn_Counted :
      (c : PoolClient) (p : Pool)
      → client_at p.clients k ≡ c
      → Counted total p
      → Counted total (take_turn total k c p)
  turn_Counted looking p e h = elim (Bool-cases (ltb p.submitted_count total)) [
    | inl more ↦ rw more (record {
      accounted = omega (
        arith,
        h.accounted,
        total_of-with_client awaits k (awaiting p.submitted_count) looking p.clients e tt,
      );
      measured = h.measured;
      bounded = omega (arith, ltb→lt p.submitted_count total more);
      exhausted = λ f. omega (
        arith,
        h.exhausted,
        ltb→lt p.submitted_count total more,
        total_of-with_client over k (awaiting p.submitted_count) looking p.clients e tt,
      );
    })
    | inr none_left ↦ rw none_left (record {
      accounted =
          omega (arith, h.accounted, total_of-with_client awaits k finished looking p.clients e tt);
      measured = h.measured;
      bounded = h.bounded;
      exhausted = λ f. ground arith;
    })
  ]
  turn_Counted (awaiting job) p e h = h
  turn_Counted finished p e h = h

  completion_Counted :
      (latency : ℕ) (c : PoolClient) (p : Pool)
      → client_at p.clients k ≡ c
      → Counted total p
      → Counted total (complete_job k latency c p)
  completion_Counted latency looking p e h = h
  completion_Counted latency (awaiting job) p e h = record {
    accounted =
        omega
          (arith, h.accounted, total_of-with_client awaits k looking (awaiting job) p.clients e tt);
    measured = omega (arith, h.measured, length-append {0} p.latencies (latency ∷ []));
    bounded = h.bounded;
    exhausted = λ f.
        h.exhausted
          (omega (arith, total_of-with_client over k looking (awaiting job) p.clients e tt));
  }
  completion_Counted latency finished p e h = h

  error_Counted :
      (c : PoolClient) (p : Pool)
      → client_at p.clients k ≡ c
      → Counted total p
      → Counted total (print_error k c p)
  error_Counted looking p e h = h
  error_Counted (awaiting job) p e h = record {
    accounted = omega (
      arith,
      h.accounted,
      length-append {0} p.errors (job ∷ []),
      total_of-with_client awaits k looking (awaiting job) p.clients e tt,
    );
    measured = h.measured;
    bounded = h.bounded;
    exhausted = λ f.
        h.exhausted
          (omega (arith, total_of-with_client over k looking (awaiting job) p.clients e tt));
  }
  error_Counted finished p e h = h

event_Counted :
    (total : ℕ) (e : PoolEvent) (p : Pool)
    → Counted total p
    → Counted total (on_pool_event total e p)
unfolding on_pool_event
event_Counted total (turn k) p h = turn_Counted total k (client_at p.clients k) p refl h
event_Counted total (completion k latency) p h =
    completion_Counted total k latency (client_at p.clients k) p refl h
event_Counted total (exception k) p h = error_Counted total k (client_at p.clients k) p refl h

events_Counted :
    (total : ℕ) (es : List PoolEvent) (p : Pool)
    → Counted total p
    → Counted total (on_pool_events total es p)
unfolding on_pool_events
events_Counted total [] p h = h
events_Counted total (e ∷ es) p h =
    events_Counted total es (on_pool_event total e p) (event_Counted total e p h)

total_of-replicate : (w : PoolClient → ℕ) (n : ℕ) → w looking ≡ 0 → total_of w (replicate n) ≡ 0
unfolding total_of
total_of-replicate w zero h = refl
total_of-replicate w (suc n) h = omega (arith, h, total_of-replicate w n h)

start_Counted : (total n : ℕ) → Counted total (pool_start n)
unfolding pool_start
start_Counted total n = record {
  accounted = omega (arith, total_of-replicate awaits n refl);
  measured = refl;
  bounded = omega arith;
  exhausted = λ f. absurd (omega (arith, total_of-replicate over n refl));
}

abbrev pub AllFinished : List PoolClient → Type 0
AllFinished [] = Unit {0}
AllFinished (c ∷ cs) = (c ≡ finished) × AllFinished cs

AllFinished-over : (cs : List PoolClient) → AllFinished cs → total_of over cs ≡ length cs
unfolding total_of
AllFinished-over [] h = refl
AllFinished-over (c ∷ cs) h = rw h.0 (omega (arith, AllFinished-over cs h.1))

AllFinished-awaits : (cs : List PoolClient) → AllFinished cs → total_of awaits cs ≡ 0
unfolding total_of
AllFinished-awaits [] h = refl
AllFinished-awaits (c ∷ cs) h = rw h.0 (omega (arith, AllFinished-awaits cs h.1))

length-with_client :
    (k : ℕ) (c : PoolClient) (cs : List PoolClient) → length (with_client k c cs) ≡ length cs
length-with_client k c [] = refl
length-with_client zero c (d ∷ ds) = refl
length-with_client (suc k) c (d ∷ ds) = omega (arith, length-with_client k c ds)

-- Whatever the clients meet and in whichever order: at every moment the latencies are as many as the
-- completed jobs, and no more jobs than asked for were taken.
pub on_pool_events-within :
    (total concurrency : ℕ) (es : List PoolEvent)
    → let p = on_pool_events total es (pool_start concurrency) in
      (p.completed_count ≡ length p.latencies) × (p.submitted_count ≤ total)
on_pool_events-within total concurrency es =
    let h = events_Counted total es (pool_start concurrency) (start_Counted total concurrency) in
    (h.measured, h.bounded)

-- Whatever the clients meet and in whichever order: once all of them are over, of which there is at
-- least one, exactly as many jobs as asked for were taken, and each was either completed, and its
-- latency is among those that the statistics are about, or its error was printed.
pub on_pool_events-drained :
    (total concurrency : ℕ) (es : List PoolEvent)
    → AllFinished (on_pool_events total es (pool_start concurrency)).clients
    → 1 ≤ length (on_pool_events total es (pool_start concurrency)).clients
    → let p = on_pool_events total es (pool_start concurrency) in
      (p.submitted_count ≡ total)
      × (p.completed_count ≡ length p.latencies)
      × (length p.latencies + length p.errors ≡ total)
on_pool_events-drained total concurrency es f n =
    let h = events_Counted total es (pool_start concurrency) (start_Counted total concurrency) in
    let p = on_pool_events total es (pool_start concurrency) in
    let reached = h.exhausted (omega (arith, AllFinished-over p.clients f)) in
    (
      omega (arith, reached, h.bounded),
      h.measured,
      omega (arith, reached, h.bounded, h.measured, h.accounted, AllFinished-awaits p.clients f),
    )
