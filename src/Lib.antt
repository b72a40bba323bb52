-- ===== src/Lib.antt =====
-- Distributed code execution platform: the life of a job, from the client to its result.
--
-- A client posts code to the API gateway, which stores a row in PostgreSQL and pushes a payload on
-- a Redis list. Workers move payloads to a processing list of their own, claim the row, run the
-- code in a Docker sandbox, store the result and acknowledge. The system monitor watches the
-- heartbeats of the workers and puts back what dead workers held.
--
-- Files and the code that they model:
--   Common        helpers: Boolean tests, lists over native numbers, texts as UTF-16 code units
--   Contracts     shared/contracts/src/index.ts: statuses (SubmissionStatus), the status machine
--                 (ALLOWED_TRANSITIONS), payloads, keys, limits; StreamChunk.data is `content`
--   Services      infra/schema.sql, PostgreSQL, Redis and JSON as the record `Services` of
--                 operations and laws; State is what the services share; an action of a handler is
--                 a World -> Outcome x World, and every call meets the next fault of a schedule:
--                 calm, refused (not done, an error), lost (done, an error), killed (the process
--                 dies). Triples are the rules to reason about actions under such schedules
--   Jobs          the SQL statements and sendToDLQ, which worker and reaper share; where a job is
--   Worker        services/execution-worker/src/index.ts: processQueue (process_queue) and what it
--                 calls, on a number of rounds in place of the flag shouldRun; the verdict on a
--                 run; services/execution-worker/src/sandbox.ts: SandboxResult, splitForStream,
--                 appendWithinCap, handleOutput, and runInSandbox (Sandbox) as handlers of what the
--                 process, the timer and the publish queue report
--   Reaper        services/system-monitor/src/reaper.ts: runReaperScan and what it calls (Handlers);
--                 which workers a scan holds for dead (Detection), and the lock among several
--                 monitors (Turns)
--   Startup       services/system-monitor/src/index.ts: recoverOrphanedJobsOnStartup
--   Gateway       services/api-gateway/src/routes/submissions.ts: POST /submissions, pagination (in
--                 Handlers), GET /submissions, GET /submissions/:id, GET /dlq and DELETE /dlq/:jobId
--                 (Routes), the WebSocket route and its replay (Sockets); streams.ts: activeStreams
--                 (Registry); services/api-gateway/src/index.ts: pmessage (broadcast), the
--                 authentication hook and the allow list (Access). Connections holds the steps of all
--                 sockets and the states that they reach
--   Web           apps/web/src: hooks/useSubmission.ts with api/stream.ts and the badge's test
--                 (Handlers), hooks/useJobHistory.ts (History), App.tsx (App)
--   Metrics       shared/metrics/src/index.ts: the declared metrics, the status of their server
--   Scripts       benchmark.js: calculateStats (Statistics), the clients of runBenchmark (Pool), its
--                 submitJob and waitForJob with the loop of infra/k6-load-test.js and the results of
--                 load-test.js (Waiting); failure-benchmark.js (Recovery); run-file.js (RunFile)
--   System        initDb and the bootstraps of worker and monitor; all services on the shared state:
--                 histories of whole handlers of any workers, of the monitor and of the gateway;
--                 jobs from their submission to their result (Backlogs, Lifetimes), and from the
--                 crash of their worker to their result (Crashes); all that the services commit to
--                 the rows, interleaved statement by statement (Interleavings, Exclusion); and what
--                 the handlers commit (Commits, Records), and so what a row tells of its job
--                 (Provenance)
--   Examples      concrete services that fulfil the laws, and the theorems at concrete inputs
--
-- Bounds and fuel. The loops of splitForStream run on fuel: the inner one on its first `end`,
-- the outer one on the length of the text, each round consumes one of them, and a loop that used
-- them up would give none. decimal runs on the number itself. Everything else is structural.
-- Numbers are natural: the counters and sizes of the source are far below 2 ^ 53, where they are
-- exact.
--
-- What is a parameter: the database, the Redis server, JSON and dates (`Services`), the sandbox
-- process (`execute`), the byte length and the first bytes of a string (`byte_length`,
-- `first_bytes`), the search for the memory peak (`memory_peak`), the drawn identifiers. A call of
-- Redis or of the database is one step, and so is each Lua script. In the histories one process acts
-- at a time, and each handler runs to its end or to the death of its process; in Interleavings the
-- statements and transactions of all processes stand in any order, each at the moment of its commit.
--
-- Events. The handlers of the sandbox, of the WebSocket route, of the web client and of the scripts
-- are functions from an event and a state to a state, and the theorems are about any sequence of
-- events, but for what their hypotheses ask of it. A timer that was cleared does not fire. A socket is its messages sent, and whether it is
-- open. Times of the sandbox are microseconds, so that Math.round is written out.
--
-- What is not modelled: what interleaved handlers do to the queues; the heartbeat and scan
-- intervals, the expiry of keys, but for the lock of the reaper (Turns), signals; what docker
-- does; the counters of the rate limit; the schemas of requests, which the framework checks;
-- logging, the registry of the metrics, connections; the markup of the web client.
mod Common
pub mod Contracts
pub mod Services
pub mod Jobs
pub mod Worker
pub mod Reaper
pub mod Startup
pub mod Gateway
pub mod Web
pub mod Metrics
pub mod Scripts
pub mod System
pub mod Examples
