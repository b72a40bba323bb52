-- ===== src/Gateway/Replays.antt =====
-- What the replay of the WebSocket route sends:
-- services/api-gateway/src/routes/submissions.ts.
use distributed_code_executi.Common.{
  ℕ, ◌≡◌, refl, ap, ◌∙◌, Bool, true, false, ◌||◌, Option, none, some, List, [], ◌∷◌, ◌++◌, Text,
  ◌==◌, arith, if◌then◌else◌,
}
use mathlib.Core.List.{append_assoc, append-nil}
use distributed_code_executi.Contracts.{SubmissionStatus, is_terminal_status}
use distributed_code_executi.Services.{Services}
use distributed_code_executi.Gateway.Sockets.{
  Socket, Hub, StreamEntry, parse_stream_payload, usable, is_completion_payload, Replay,
  replay_payload, replay_each, finish_replay, replay,
}
use distributed_code_executi.Gateway.Deliveries.{same-member}

or-false : (b : Bool) → (b || false) ≡ b
or-false true = refl
or-false false = refl

-- Every text in turn, if the socket is open.
abbrev pub send_all : List Text → Socket → Socket
send_all ts socket = if socket.ready then record socket { sent = socket.sent ++ ts } else socket

module _ ⦃S : Services⦄ where
  -- What the entries of a stream hold, in their order, less the entries with no text.
  abbrev pub prepend : Option Text → List Text → List Text
  prepend none ts = ts
  prepend (some t) ts = t ∷ ts

  abbrev pub payloads : List StreamEntry → List Text
  payloads [] = []
  payloads (e ∷ es) = prepend (usable (parse_stream_payload e)) (payloads es)

  abbrev pub has_completion : List Text → Bool
  has_completion [] = false
  has_completion (t ∷ ts) = is_completion_payload t || has_completion ts

  sockets-replay_payload :
      (k : ℕ) (o : Option Text) (r : Replay) (j : ℕ) (ts : List Text)
      → (if k == j
          then send_all ts ((replay_payload k o r).hub.sockets j)
          else (replay_payload k o r).hub.sockets j)
        ≡ (if k == j then send_all (prepend o ts) (r.hub.sockets j) else r.hub.sockets j)
  sockets-replay_payload k none r j ts = refl
  sockets-replay_payload k (some t) r j ts =
      ground (arith, same-member k j, append_assoc (r.hub.sockets j).sent (t ∷ []) ts)

  sockets-replay_each :
      (k : ℕ) (es : List StreamEntry) (r : Replay) (j : ℕ)
      → (replay_each k es r).hub.sockets j
        ≡ (if k == j then send_all (payloads es) (r.hub.sockets j) else r.hub.sockets j)
  sockets-replay_each k [] r j = ground (arith, append-nil (r.hub.sockets j).sent)
  sockets-replay_each k (e ∷ es) r j =
      sockets-replay_each k es (replay_payload k (usable (parse_stream_payload e)) r) j
      ∙ sockets-replay_payload k (usable (parse_stream_payload e)) r j (payloads es)

  saw_completion-replay_payload :
      (k : ℕ) (o : Option Text) (r : Replay) (ts : List Text)
      → (has_completion ts || (replay_payload k o r).saw_completion)
        ≡ (has_completion (prepend o ts) || r.saw_completion)
  saw_completion-replay_payload k none r ts = refl
  saw_completion-replay_payload k (some t) r ts = ground arith

  saw_completion-replay_each :
      (k : ℕ) (es : List StreamEntry) (r : Replay)
      → (replay_each k es r).saw_completion ≡ (has_completion (payloads es) || r.saw_completion)
  saw_completion-replay_each k [] r = refl
  saw_completion-replay_each k (e ∷ es) r =
      saw_completion-replay_each k es (replay_payload k (usable (parse_stream_payload e)) r)
      ∙ saw_completion-replay_payload k (usable (parse_stream_payload e)) r (payloads es)

  -- What the replay of an entry leaves as it was.
  quiet-replay_payload :
      (k : ℕ) (o : Option Text) (r : Replay)
      → let after = (replay_payload k o r).hub in
        (after.streams ≡ r.hub.streams)
        × (after.active_web_sockets ≡ r.hub.active_web_sockets)
        × (after.closing ≡ r.hub.closing)
  quiet-replay_payload k none r = (refl, refl, refl)
  quiet-replay_payload k (some t) r = (refl, refl, refl)

  quiet-replay_each :
      (k : ℕ) (es : List StreamEntry) (r : Replay)
      → let after = (replay_each k es r).hub in
        (after.streams ≡ r.hub.streams)
        × (after.active_web_sockets ≡ r.hub.active_web_sockets)
        × (after.closing ≡ r.hub.closing)
  quiet-replay_each k [] r = (refl, refl, refl)
  quiet-replay_each k (e ∷ es) r =
      let r2 = replay_payload k (usable (parse_stream_payload e)) r in
      let one = quiet-replay_payload k (usable (parse_stream_payload e)) r in
      let rest = quiet-replay_each k es r2 in (rest.0 ∙ one.0, rest.1 ∙ one.1, rest.2 ∙ one.2)

  sockets-finish_replay :
      (k : ℕ) (status : Option SubmissionStatus) (r : Replay)
      → (finish_replay k status r).sockets ≡ r.hub.sockets
  sockets-finish_replay k status r = ground arith

  quiet-finish_replay :
      (k : ℕ) (status : Option SubmissionStatus) (r : Replay)
      → let after = finish_replay k status r in
        (after.sockets ≡ r.hub.sockets)
        × (after.streams ≡ r.hub.streams)
        × (after.active_web_sockets ≡ r.hub.active_web_sockets)
        × (after.closing ≡ (
            if r.saw_completion || is_terminal_status status
            then k ∷ r.hub.closing
            else r.hub.closing))
  quiet-finish_replay k status r = ground arith

  start : Hub → Replay
  start hub = record { hub = hub; replayed = false; saw_completion = false }

  pub quiet-replay :
      (k : ℕ) (status : SubmissionStatus) (es : List StreamEntry) (hub : Hub)
      → let after = replay k status es hub in
        (after.streams ≡ hub.streams) × (after.active_web_sockets ≡ hub.active_web_sockets)
  unfolding replay start
  quiet-replay k status es hub =
      let finish = quiet-finish_replay k (some status) (replay_each k es (start hub)) in
      let each = quiet-replay_each k es (start hub) in (finish.1 ∙ each.0, finish.2 ∙ each.1)

  pub sockets-replay :
      (k : ℕ) (status : SubmissionStatus) (es : List StreamEntry) (hub : Hub) (j : ℕ)
      → (replay k status es hub).sockets j
        ≡ (if k == j then send_all (payloads es) (hub.sockets j) else hub.sockets j)
  unfolding replay start
  sockets-replay k status es hub j =
      ap (λ f. f j) (quiet-finish_replay k (some status) (replay_each k es (start hub))).0
      ∙ sockets-replay_each k es (start hub) j

  -- The replay sends the socket, if it is open, the payloads of the entries in their order, after
  -- what it was sent before; no other socket changes; and the socket is put down to be closed just
  -- when one of the payloads says that the execution is complete or the status is terminal.
  pub replay_lem :
      (k : ℕ) (status : SubmissionStatus) (es : List StreamEntry) (hub : Hub)
      → ((j : ℕ)
          → (replay k status es hub).sockets j
            ≡ (if k == j then send_all (payloads es) (hub.sockets j) else hub.sockets j))
        × ((replay k status es hub).closing ≡ (
            if has_completion (payloads es) || is_terminal_status (some status)
            then k ∷ hub.closing
            else hub.closing))
  unfolding replay start
  replay_lem k status es hub =
      let finish = quiet-finish_replay k (some status) (replay_each k es (start hub)) in
      (
        sockets-replay k status es hub,
        finish.3
            ∙ rw (
              saw_completion-replay_each k es (start hub),
              (quiet-replay_each k es (start hub)).2,
              or-false (has_completion (payloads es)),
            ),
      )
