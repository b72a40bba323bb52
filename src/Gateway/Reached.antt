-- ===== src/Gateway/Reached.antt =====
-- What holds in every state that the connections of the gateway reach:
-- services/api-gateway/src/routes/submissions.ts and services/api-gateway/src/index.ts.
use distributed_code_executi.Common.{
  ℕ, ◌≡◌, refl, ap, ◌∙◌, false, codes, List, [], ◌∷◌, Text, text_eq_refl, arith, if◌then◌else◌,
}
use distributed_code_executi.Contracts.{SubmissionStatus}
use distributed_code_executi.Services.{Services}
use distributed_code_executi.Reaper.{remove_text}
use distributed_code_executi.Gateway.Registry.{IsTidy, map_get, size}
use distributed_code_executi.Gateway.Registrations.{registered-nil}
use distributed_code_executi.Gateway.Sockets.{
  Hub, if_ready, closed, delivered, connected, cleanup, socket_error, StreamEntry, broadcast,
  replay, replay_unknown, replay_failed, close_complete, dropped,
}
use distributed_code_executi.Gateway.Deliveries.{quiet-broadcast, broadcast_lem}
use distributed_code_executi.Gateway.Replays.{quiet-replay, sockets-replay, payloads}
use distributed_code_executi.Gateway.Connections.{
  Step, connecting, ending, erring, publishing, replaying, refusing, failing, dropping, closing,
  Reachable, start, after, new_socket, active_on, IsConsistent, untouched_lem, same_refl,
  connected_socket, connected-IsConsistent, cleanup-IsConsistent, view-on_socket, view-if_ready,
  view-send_all,
}

module _ ⦃S : Services⦄ where
  view-replay :
      (k : ℕ) (status : SubmissionStatus) (es : List StreamEntry) (hub : Hub) (job : Text) (x : ℕ)
      → active_on job ((replay k status es hub).sockets x) ≡ active_on job (hub.sockets x)
  view-replay k status es hub job x =
      ap (active_on job) (sockets-replay k status es hub x)
      ∙ ground (arith, view-send_all (payloads es) (hub.sockets x) job)

  view-broadcast :
      (channel message : Text) (hub : Hub) (job : Text) (x : ℕ)
      → IsTidy hub.streams
      → active_on job ((broadcast channel message hub).sockets x) ≡ active_on job (hub.sockets x)
  view-broadcast channel message hub job x t =
      ap (active_on job) (broadcast_lem channel message hub x t) ∙ ground arith

  Step-IsConsistent : {hub next : Hub} → Step hub next → IsConsistent hub → IsConsistent next
  unfolding socket_error replay_unknown replay_failed close_complete
  Step-IsConsistent (connecting job k hub h) c = connected-IsConsistent job k hub h c
  Step-IsConsistent (ending job k hub h) c = cleanup-IsConsistent job k hub h c
  Step-IsConsistent (erring hub) c = c
  Step-IsConsistent (publishing channel message hub) c =
      let q = quiet-broadcast channel message hub in
      untouched_lem hub (broadcast channel message hub) q.0 q.1
        (λ job x. view-broadcast channel message hub job x c.0) c
  Step-IsConsistent (replaying k status es hub) c =
      let q = quiet-replay k status es hub in
      untouched_lem hub (replay k status es hub) q.0 q.1 (view-replay k status es hub) c
  Step-IsConsistent (refusing k hub) c =
      untouched_lem hub (replay_unknown k hub) refl refl
        (view-on_socket k (closed 1008 (codes "Submission not found")) hub (λ socket job. refl)) c
  Step-IsConsistent (failing k hub) c =
      untouched_lem hub (replay_failed k hub) refl refl
        (view-on_socket k (if_ready (closed 1011 (codes "Stream replay failed"))) hub
          (view-if_ready (closed 1011 (codes "Stream replay failed")) (λ socket job. refl)))
        c
  Step-IsConsistent (dropping k hub) c =
      untouched_lem hub (dropped k hub) refl refl
        (view-on_socket k (λ socket. record socket { ready = false }) hub (λ socket job. refl)) c
  Step-IsConsistent (closing k hub) c =
      untouched_lem hub (close_complete k hub) refl refl
        (view-on_socket k (if_ready (closed 1000 (codes "Execution complete"))) hub
          (view-if_ready (closed 1000 (codes "Execution complete")) (λ socket job. refl)))
        c

  -- In every state that the handlers reach, the map of the active streams has every job once, with a
  -- set of sockets that is not empty; the gauge is the number of registered sockets; and a socket is
  -- registered for a job just when it is connected to it and its end was not handled yet.
  pub reachable_lem : (hub : Hub) → Reachable hub → IsConsistent hub
  unfolding map_get
  reachable_lem hub start = (tt, refl, λ job k. refl)
  reachable_lem hub (after {hub = before} r step) = Step-IsConsistent step (reachable_lem before r)

  -- Once the end of every connection was handled, the map of the active streams is empty and the
  -- gauge is zero, whatever was published, replayed or refused before.
  pub released_lem :
      (hub : Hub)
      → Reachable hub
      → ((job : Text) (k : ℕ) → active_on job (hub.sockets k) ≡ false)
      → (hub.streams ≡ []) × (hub.active_web_sockets ≡ 0)
  released_lem hub r h =
      let c = reachable_lem hub r in
      let empty = registered-nil hub.streams c.0 (λ job k. c.2 job k ∙ h job k) in
      (empty, c.1 ∙ ap size empty)

  -- In every state that the handlers reach, a published message goes once to every open socket that
  -- is connected to the job of the channel and has not ended, and no other socket changes.
  pub reachable-broadcast :
      (channel message : Text) (hub : Hub) (k : ℕ)
      → Reachable hub
      → (broadcast channel message hub).sockets k ≡ (
          if active_on (remove_text (codes "jobs:streams:") channel) (hub.sockets k)
          then if_ready (delivered message) (hub.sockets k)
          else hub.sockets k)
  reachable-broadcast channel message hub k r =
      let c = reachable_lem hub r in
      broadcast_lem channel message hub k c.0
      ∙ ap (λ b. if b then if_ready (delivered message) (hub.sockets k) else hub.sockets k)
          (c.2 (remove_text (codes "jobs:streams:") channel) k)

  -- A second `close` event of a socket changes nothing.
  pub cleanup-cleanup :
      (job : Text) (k : ℕ) (hub : Hub) → cleanup job k (cleanup job k hub) ≡ cleanup job k hub
  unfolding cleanup
  cleanup-cleanup job k hub = ground arith

  -- The client of a new connection: a message that is published before the replay comes first, and
  -- then everything that the stream holds, that message too if it stands there.
  pub replay-broadcast-connected :
      (job : Text) (k : ℕ) (channel message : Text) (status : SubmissionStatus)
      (es : List StreamEntry) (hub : Hub)
      → Reachable hub
      → hub.sockets k ≡ new_socket
      → remove_text (codes "jobs:streams:") channel ≡ job
      → ((replay k status es (broadcast channel message (connected job k hub))).sockets k).sent
        ≡ message ∷ payloads es
  replay-broadcast-connected job k channel message status es hub r new e =
      let live = broadcast channel message (connected job k hub) in
      let at_start = connected_socket job k hub new in
      ap (λ socket. socket.sent) (sockets-replay k status es live k)
      ∙ rw (
        reachable-broadcast channel message (connected job k hub) k
            (after r (connecting job k hub new)),
        at_start,
        e,
        text_eq_refl job,
        same_refl k,
      )
