-- ===== src/Gateway/Deliveries.antt =====
-- What the subscriber and the replay send: services/api-gateway/src/index.ts and the WebSocket
-- route of services/api-gateway/src/routes/submissions.ts.
use distributed_code_executi.Common.{
  ℕ, ◌≡◌, refl, ap, ◌∙◌, Bool, true, List, [], ◌∷◌, Text, codes, ◌==◌, arith, if◌then◌else◌,
}
use distributed_code_executi.Services.{Services}
use distributed_code_executi.Reaper.{remove_text}
use distributed_code_executi.Gateway.Registry.{
  member, Distinct, IsTidy, map_get, sockets_or_new, registered,
}
use distributed_code_executi.Gateway.Registrations.{map_get-Distinct, listed-new}
use distributed_code_executi.Gateway.Sockets.{
  Hub, delivered, if_ready, is_completion_payload, send_one, send_each, broadcast,
}

pub same-member : (k j : ℕ) → (k == j) ≡ true → k ≡ j
same-member k j h = ground arith

module _ ⦃S : Services⦄ where
  sockets-send_one :
      (b : Bool) (message : Text) (k j : ℕ) (hub : Hub)
      → (send_one b message k hub).sockets j
        ≡ (if k == j then if_ready (delivered message) (hub.sockets j) else hub.sockets j)
  sockets-send_one b message k j hub = ground (arith, same-member k j)

  sockets-send_each :
      (b : Bool) (message : Text) (ks : List ℕ) (j : ℕ) (hub : Hub)
      → Distinct ks
      → (send_each b message ks hub).sockets j
        ≡ (if member j ks then if_ready (delivered message) (hub.sockets j) else hub.sockets j)
  sockets-send_each b message [] j hub d = refl
  sockets-send_each b message (k ∷ ks) j hub d = ground (
    arith,
    same-member k j,
    sockets-send_one b message k j hub,
    sockets-send_each b message ks j (send_one b message k hub) d.1,
  )

  quiet-send_one :
      (b : Bool) (message : Text) (k : ℕ) (hub : Hub)
      → let after = send_one b message k hub in
        (after.streams ≡ hub.streams) × (after.active_web_sockets ≡ hub.active_web_sockets)
  quiet-send_one b message k hub = ground arith

  quiet-send_each :
      (b : Bool) (message : Text) (ks : List ℕ) (hub : Hub)
      → let after = send_each b message ks hub in
        (after.streams ≡ hub.streams) × (after.active_web_sockets ≡ hub.active_web_sockets)
  quiet-send_each b message [] hub = (refl, refl)
  quiet-send_each b message (k ∷ ks) hub =
      let one = quiet-send_one b message k hub in
      let rest = quiet-send_each b message ks (send_one b message k hub) in
      (rest.0 ∙ one.0, rest.1 ∙ one.1)

  pub quiet-broadcast :
      (channel message : Text) (hub : Hub)
      → let after = broadcast channel message hub in
        (after.streams ≡ hub.streams) × (after.active_web_sockets ≡ hub.active_web_sockets)
  unfolding broadcast
  quiet-broadcast channel message hub =
      let job = remove_text (codes "jobs:streams:") channel in
      quiet-send_each (is_completion_payload message) message
        (sockets_or_new (map_get job hub.streams)) hub

  -- A published message goes once to every open socket that is registered for the job of its
  -- channel, after what the socket was sent before, and no other socket changes in any way.
  pub broadcast_lem :
      (channel message : Text) (hub : Hub) (k : ℕ)
      → IsTidy hub.streams
      → (broadcast channel message hub).sockets k ≡ (
          if registered hub.streams (remove_text (codes "jobs:streams:") channel) k
          then if_ready (delivered message) (hub.sockets k)
          else hub.sockets k)
  unfolding broadcast
  broadcast_lem channel message hub k t =
      let job = remove_text (codes "jobs:streams:") channel in
      sockets-send_each (is_completion_payload message) message
        (sockets_or_new (map_get job hub.streams)) k hub (map_get-Distinct job hub.streams t)
      ∙ ap (λ b. if b then if_ready (delivered message) (hub.sockets k) else hub.sockets k)
          (listed-new k (map_get job hub.streams))
