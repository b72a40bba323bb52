-- ===== src/Gateway/Sockets.antt =====
-- The WebSocket route of services/api-gateway/src/routes/submissions.ts and the subscriber of
-- services/api-gateway/src/index.ts. Each handler runs to its end without a pause but for the
-- replay, which is in parts: what it does after the row is not found, after the stream was read,
-- and after an error.
use distributed_code_executi.Common.{
  ℕ, ◌+◌, ◌-◌, Bool, true, false, ◌&&◌, ◌||◌, Option, none, some, List, [], ◌∷◌, ◌++◌, Text, codes,
  text_eq, ◌==◌, if◌then◌else◌,
}
use distributed_code_executi.Contracts.{
  SubmissionStatus, StreamChunk, ChunkType, system, stdout, stderr, is_terminal_status,
}
use distributed_code_executi.Services.{Services}
use distributed_code_executi.Reaper.{remove_text}
use distributed_code_executi.Gateway.Registry.{
  Streams, map_get, register, unregister, sockets_or_new,
}

-- What the gateway holds of one connection.
pub record Socket : Type 0 where
  -- readyState === 1
  pub ready : Bool
  -- the messages that were sent, the oldest first
  pub sent : List Text
  pub closed_with : Option (ℕ × Text)
  pub cleaned_up : Bool
  -- the job of the route, once connected
  pub following : Option Text

-- The labels of `websocketEvents`.
pub data SocketEvent : Type 0 where
  connect disconnect error : SocketEvent

pub record Hub : Type 0 where
  pub streams : Streams
  pub sockets : ℕ → Socket
  pub active_web_sockets : ℕ
  pub events : List SocketEvent
  pub replay_connections : ℕ
  -- the sockets that a timer is going to close
  pub closing : List ℕ

abbrev pub with_socket : ℕ → Socket → Hub → Hub
with_socket k socket hub = record hub { sockets = λ j. if k == j then socket else hub.sockets j }

-- socket.send, which is reached only when the socket is ready
abbrev pub delivered : Text → Socket → Socket
delivered message socket = record socket { sent = socket.sent ++ message ∷ [] }

abbrev pub closed : ℕ → Text → Socket → Socket
closed code reason socket = record socket { ready = false; closed_with = some (code, reason) }

-- if (readyState === 1) …
abbrev pub if_ready : (Socket → Socket) → Socket → Socket
if_ready f socket = if socket.ready then f socket else socket

abbrev pub on_socket : ℕ → (Socket → Socket) → Hub → Hub
on_socket k f hub = with_socket k (f (hub.sockets k)) hub

unfoldable pub connected : Text → ℕ → Hub → Hub
connected job k hub =
    on_socket k (λ socket. record socket { following = some job })
      (record hub {
        active_web_sockets = hub.active_web_sockets + 1;
        events = connect ∷ hub.events;
        streams = register job k hub.streams;
      })

-- The gauge counts the socket, so that it is positive here.
abbrev pub cleaned : Text → ℕ → Hub → Hub
cleaned job k hub =
    on_socket k (λ socket. record socket { cleaned_up = true })
      (record hub {
        active_web_sockets = hub.active_web_sockets - 1;
        events = disconnect ∷ hub.events;
        streams = unregister job k hub.streams;
      })

-- `cleanup`, the handler of `close`
unfoldable pub cleanup : Text → ℕ → Hub → Hub
cleanup job k hub = if (hub.sockets k).cleaned_up then hub else cleaned job k hub

unfoldable pub socket_error : Hub → Hub
socket_error hub = record hub { events = error ∷ hub.events }

-- An entry of XRANGE: its fields, or what is no pair of an identifier and fields.
pub data StreamEntry : Type 0 where
  malformed : StreamEntry
  entry : List Text → StreamEntry

abbrev pub payload_field : List Text → Option Text
payload_field [] = none
payload_field (name ∷ []) = none
payload_field (name ∷ value ∷ fields) =
    let rest = payload_field fields in if text_eq name (codes "payload") then some value else rest

unfoldable pub parse_stream_payload : StreamEntry → Option Text
parse_stream_payload malformed = none
parse_stream_payload (entry fields) = payload_field fields

abbrev pub is_system : ChunkType → Bool
is_system stdout = false
is_system stderr = false
is_system system = true

abbrev pub completes : Option StreamChunk → Bool
completes none = false
completes (some chunk) = is_system chunk.type && text_eq chunk.content (codes "EXECUTION_COMPLETE")

-- `continue` on null, and on the empty text.
abbrev pub usable : Option Text → Option Text
usable none = none
usable (some []) = none
usable (some (c ∷ cs)) = some (c ∷ cs)

module _ ⦃S : Services⦄ where
  unfoldable pub is_completion_payload : Text → Bool
  is_completion_payload payload = completes (S.parse_chunk payload)

  -- A socket of the job. One that is to be closed waits for its timer.
  abbrev pub send_one : Bool → Text → ℕ → Hub → Hub
  send_one is_complete message k hub =
      if (hub.sockets k).ready
      then record (on_socket k (delivered message) hub) {
        closing = if is_complete then k ∷ hub.closing else hub.closing;
      }
      else hub

  -- The loop over the sockets of a job.
  abbrev pub send_each : Bool → Text → List ℕ → Hub → Hub
  send_each is_complete message [] hub = hub
  send_each is_complete message (k ∷ ks) hub =
      send_each is_complete message ks (send_one is_complete message k hub)

  -- The handler of `pmessage`. With no set of sockets there is nothing to do.
  unfoldable pub broadcast : Text → Text → Hub → Hub
  broadcast channel message hub =
      send_each (is_completion_payload message) message
        (sockets_or_new (map_get (remove_text (codes "jobs:streams:") channel) hub.streams)) hub

  -- What the loop of the replay has seen.
  pub record Replay : Type 0 where
    pub hub : Hub
    pub replayed : Bool
    pub saw_completion : Bool

  abbrev pub replay_payload : ℕ → Option Text → Replay → Replay
  replay_payload k none r = r
  replay_payload k (some payload) r = record {
    hub = on_socket k (if_ready (delivered payload)) r.hub;
    replayed = true;
    saw_completion = is_completion_payload payload || r.saw_completion;
  }

  abbrev pub replay_each : ℕ → List StreamEntry → Replay → Replay
  replay_each k [] r = r
  replay_each k (e ∷ es) r = replay_each k es (replay_payload k (usable (parse_stream_payload e)) r)

  abbrev pub finish_replay : ℕ → Option SubmissionStatus → Replay → Hub
  finish_replay k status r =
      let hub = r.hub in
      let counted = record hub {
        replay_connections =
            if r.replayed then hub.replay_connections + 1 else hub.replay_connections;
      } in
      if r.saw_completion || is_terminal_status status
      then record counted { closing = k ∷ hub.closing }
      else counted

  -- The stream was read.
  unfoldable pub replay : ℕ → SubmissionStatus → List StreamEntry → Hub → Hub
  replay k status entries hub =
      finish_replay k (some status)
        (replay_each k entries (record { hub = hub; replayed = false; saw_completion = false }))

-- There is no such submission.
unfoldable pub replay_unknown : ℕ → Hub → Hub
replay_unknown k hub = on_socket k (closed 1008 (codes "Submission not found")) hub

unfoldable pub replay_failed : ℕ → Hub → Hub
replay_failed k hub = on_socket k (if_ready (closed 1011 (codes "Stream replay failed"))) hub

-- The peer is gone: readyState leaves OPEN before `close` is reported.
abbrev pub dropped : ℕ → Hub → Hub
dropped k hub = on_socket k (λ socket. record socket { ready = false }) hub

-- The timer of 100 ms fires.
unfoldable pub close_complete : ℕ → Hub → Hub
close_complete k hub = on_socket k (if_ready (closed 1000 (codes "Execution complete"))) hub
