-- ===== src/Gateway/Connections.antt =====
-- The connections of the gateway over time: services/api-gateway/src/routes/submissions.ts and
-- services/api-gateway/src/index.ts. Every handler that touches a socket is a step.
use distributed_code_executi.Common.{
  ℕ, ◌≡◌, sym, ap, ◌∙◌, Bool, true, false, not, ◌&&◌, ◌||◌, Option, none, some, List, [], Text,
  text_eq, text_eq_refl, ◌==◌, arith, Bool-cases, inl, inr,
}
use distributed_code_executi.Contracts.{SubmissionStatus}
use distributed_code_executi.Services.{Services}
use distributed_code_executi.Gateway.Registry.{IsTidy, registered, size}
use distributed_code_executi.Gateway.Sizes.{size-register, size-unregister}
use distributed_code_executi.Gateway.Registrations.{
  registered-register, registered-unregister, register-IsTidy, unregister-IsTidy,
}
use distributed_code_executi.Gateway.Sockets.{
  Socket, Hub, on_socket, if_ready, connected, cleaned, cleanup, socket_error, StreamEntry,
  broadcast, replay, replay_unknown, replay_failed, close_complete, dropped,
}
use distributed_code_executi.Gateway.Replays.{send_all}

-- A socket that no handler has touched.
abbrev pub new_socket : Socket
new_socket = record {
  ready = true;
  sent = [];
  closed_with = none;
  cleaned_up = false;
  following = none;
}

abbrev pub no_connections : Hub
no_connections = record {
  streams = [];
  sockets = λ _. new_socket;
  active_web_sockets = 0;
  events = [];
  replay_connections = 0;
  closing = [];
}

module _ ⦃S : Services⦄ where
  pub data Step : Hub → Hub → Type 0 where
    connecting :
        (job : Text) (k : ℕ) (hub : Hub)
        → hub.sockets k ≡ new_socket
        → Step hub (connected job k hub)
    ending :
        (job : Text) (k : ℕ) (hub : Hub)
        → (hub.sockets k).following ≡ some job
        → Step hub (cleanup job k hub)
    erring : (hub : Hub) → Step hub (socket_error hub)
    publishing : (channel message : Text) (hub : Hub) → Step hub (broadcast channel message hub)
    replaying :
        (k : ℕ) (status : SubmissionStatus) (es : List StreamEntry) (hub : Hub)
        → Step hub (replay k status es hub)
    refusing : (k : ℕ) (hub : Hub) → Step hub (replay_unknown k hub)
    failing : (k : ℕ) (hub : Hub) → Step hub (replay_failed k hub)
    dropping : (k : ℕ) (hub : Hub) → Step hub (dropped k hub)
    closing : (k : ℕ) (hub : Hub) → Step hub (close_complete k hub)

  pub data Reachable : Hub → Type 0 where
    start : Reachable no_connections
    after : {hub next : Hub} → Reachable hub → Step hub next → Reachable next

-- The socket is connected to the job and its end was not handled yet.
abbrev pub follows : Text → Option Text → Bool
follows job none = false
follows job (some other) = text_eq other job

abbrev pub active_on : Text → Socket → Bool
active_on job socket = follows job socket.following && not socket.cleaned_up

abbrev pub IsConsistent : Hub → Type 0
IsConsistent hub =
    IsTidy hub.streams
    × (hub.active_web_sockets ≡ size hub.streams)
    × ((job : Text) (k : ℕ) → registered hub.streams job k ≡ active_on job (hub.sockets k))

-- A step that touches neither the registry nor who follows what.
pub untouched_lem :
    (hub next : Hub)
    → next.streams ≡ hub.streams
    → next.active_web_sockets ≡ hub.active_web_sockets
    → ((job : Text) (k : ℕ) → active_on job (next.sockets k) ≡ active_on job (hub.sockets k))
    → IsConsistent hub
    → IsConsistent next
untouched_lem hub next s a f c = rw (s, a) (c.0, c.1, λ job k. c.2 job k ∙ sym (f job k))

same-socket : (k x : ℕ) → (k == x) ≡ true → k ≡ x
same-socket k x h = ground arith

connected_view :
    (job : Text) (k : ℕ) (hub : Hub)
    → hub.sockets k ≡ new_socket
    → (j : Text) (x : ℕ) → IsConsistent hub
    → ((text_eq job j && (k == x)) || registered hub.streams j x)
      ≡ active_on j ((connected job k hub).sockets x)
unfolding connected
connected_view job k hub h j x c =
    let u = ap (λ socket. socket.cleaned_up) h in
    let n = ap (λ socket. active_on j socket) h in ground (arith, same-socket k x, u, n, c.2 j x)

pub same_refl : (k : ℕ) → (k == k) ≡ true
same_refl k = ground arith

pub connected_socket :
    (job : Text) (k : ℕ) (hub : Hub)
    → hub.sockets k ≡ new_socket
    → (connected job k hub).sockets k ≡ record new_socket { following = some job }
unfolding connected
connected_socket job k hub h = rw (h, same_refl k)

still_active :
    (job : Text) (socket : Socket)
    → socket.following ≡ some job
    → socket.cleaned_up ≡ false
    → active_on job socket ≡ true
still_active job socket h u = ground (arith, text_eq_refl job)

cleaned_view :
    (job : Text) (k : ℕ) (hub : Hub)
    → (hub.sockets k).following ≡ some job
    → (j : Text) (x : ℕ) → IsConsistent hub
    → (registered hub.streams j x && not (text_eq job j && (k == x)))
      ≡ active_on j ((cleaned job k hub).sockets x)
cleaned_view job k hub h j x c = ground (arith, same-socket k x, ap (follows j) h, c.2 j x)

pub connected-IsConsistent :
    (job : Text) (k : ℕ) (hub : Hub)
    → hub.sockets k ≡ new_socket
    → IsConsistent hub
    → IsConsistent (connected job k hub)
unfolding connected
connected-IsConsistent job k hub h c =
    let absent = c.2 job k ∙ ap (active_on job) h in
    (
      register-IsTidy job k hub.streams c.0,
      omega (arith, size-register job k hub.streams absent, c.1),
      λ j x. registered-register job k hub.streams j x ∙ connected_view job k hub h j x c,
    )

cleaned-IsConsistent :
    (job : Text) (k : ℕ) (hub : Hub)
    → (hub.sockets k).following ≡ some job
    → (hub.sockets k).cleaned_up ≡ false
    → IsConsistent hub
    → IsConsistent (cleaned job k hub)
cleaned-IsConsistent job k hub h u c =
    let present = c.2 job k ∙ still_active job (hub.sockets k) h u in
    (
      unregister-IsTidy job k hub.streams c.0,
      omega (arith, size-unregister job k hub.streams present, c.1),
      λ j x. registered-unregister job k hub.streams j x c.0 ∙ cleaned_view job k hub h j x c,
    )

pub cleanup-IsConsistent :
    (job : Text) (k : ℕ) (hub : Hub)
    → (hub.sockets k).following ≡ some job
    → IsConsistent hub
    → IsConsistent (cleanup job k hub)
unfolding cleanup
cleanup-IsConsistent job k hub h c = elim (Bool-cases (hub.sockets k).cleaned_up) [
  | inl u ↦ rw u c
  | inr u ↦ rw u (cleaned-IsConsistent job k hub h u c)
]

-- What a handler changes at one socket without a bearing on what it follows.
pub view-on_socket :
    (k : ℕ) (f : Socket → Socket) (hub : Hub)
    → ((socket : Socket) (job : Text) → active_on job (f socket) ≡ active_on job socket)
    → (job : Text) (x : ℕ)
    → active_on job ((on_socket k f hub).sockets x) ≡ active_on job (hub.sockets x)
view-on_socket k f hub h job x = ground (arith, same-socket k x, h (hub.sockets k) job)

pub view-if_ready :
    (f : Socket → Socket)
    → ((socket : Socket) (job : Text) → active_on job (f socket) ≡ active_on job socket)
    → (socket : Socket) (job : Text) → active_on job (if_ready f socket) ≡ active_on job socket
view-if_ready f h socket job = ground (arith, h socket job)

pub view-send_all :
    (ts : List Text) (socket : Socket) (job : Text)
    → active_on job (send_all ts socket) ≡ active_on job socket
view-send_all ts socket job = ground arith
