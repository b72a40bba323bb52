-- ===== src/Examples/Streams.antt =====
-- The theorems on the gateway's connections and routes at concrete inputs.
use distributed_code_executi.Common.{
  ℕ, ◌≡◌, ◌↔◌, ◌≤◌, ◌-◌, ◌*◌, ◌&&◌, ◌||◌, ◌==◌, not, min, refl, false, some, List, [], ◌∷◌, Text,
  codes, text_eq, length, if◌then◌else◌, arith,
}
use distributed_code_executi.Contracts.{SubmissionStatus, is_terminal_status, system, stdout}
use distributed_code_executi.Contracts.Keys.{dead_letter_key}
use distributed_code_executi.Services.{returned, State}
use distributed_code_executi.Services.Triples.{at}
use distributed_code_executi.Jobs.{send_to_dlq}
use distributed_code_executi.Reaper.{remove_text}
use distributed_code_executi.Gateway.{natural}
use distributed_code_executi.Gateway.Registry.{Streams, IsTidy, registered, register, unregister}
use distributed_code_executi.Gateway.Registrations.{registry_refines}
use distributed_code_executi.Gateway.Sockets.{
  Hub, delivered, if_ready, connected, cleanup, broadcast, StreamEntry, entry, malformed, replay,
}
use distributed_code_executi.Gateway.Replays.{send_all, payloads, has_completion, replay_lem}
use distributed_code_executi.Gateway.Connections.{
  Reachable, start, after, connecting, ending, publishing, no_connections, new_socket, active_on,
  IsConsistent,
}
use distributed_code_executi.Gateway.Reached.{
  reachable_lem, released_lem, reachable-broadcast, replay-broadcast-connected,
}
use distributed_code_executi.Gateway.Routes.{
  dead_letters, removal, removed, remove_from_dlq, Page, Summary, listing, list_submissions,
}
use distributed_code_executi.Gateway.Removals.{has_item, without_first, remove_from_dlq_lem}
use distributed_code_executi.Gateway.Readings.{remove_from_dlq-send_to_dlq}
use distributed_code_executi.Gateway.Listings.{AllHave, list_submissions_lem}
use distributed_code_executi.Examples.Setting.{services, orphaned, waiting, job, row}

abbrev j1 : Text
j1 = codes "j1"

abbrev hi : Text
hi = services.stringify_chunk (record { type = stdout; content = codes "hi"; timestamp = 1 })

abbrev over : Text
over =
    services.stringify_chunk
      (record { type = system; content = codes "EXECUTION_COMPLETE"; timestamp = 2 })

-- A socket is connected, another one follows the same job, and a message comes.
abbrev watched : Hub
watched = broadcast (codes "jobs:streams:j1") hi (connected j1 1 (connected j1 0 no_connections))

fresh_1 : (connected j1 0 no_connections).sockets 1 ≡ new_socket
unfolding connected
fresh_1 = refl

watched_Reachable : Reachable watched
watched_Reachable =
    after
      (after (after start (connecting j1 0 no_connections refl))
        (connecting j1 1 (connected j1 0 no_connections) fresh_1))
      (publishing (codes "jobs:streams:j1") hi (connected j1 1 (connected j1 0 no_connections)))

reachable_lem_example : IsConsistent watched
reachable_lem_example = reachable_lem watched watched_Reachable

-- One socket came and went.
abbrev gone : Hub
gone = cleanup j1 0 (connected j1 0 no_connections)

was_following : ((connected j1 0 no_connections).sockets 0).following ≡ some j1
unfolding connected
was_following = refl

gone_Reachable : Reachable gone
gone_Reachable =
    after (after start (connecting j1 0 no_connections refl))
      (ending j1 0 (connected j1 0 no_connections) was_following)

nobody_left : (i : Text) (k : ℕ) → active_on i (gone.sockets k) ≡ false
unfolding connected cleanup
nobody_left i k = ground arith

released_lem_example : (gone.streams ≡ []) × (gone.active_web_sockets ≡ 0)
released_lem_example = released_lem gone gone_Reachable nobody_left

reachable-broadcast_example : (broadcast (codes "jobs:streams:j1") over watched).sockets 1 ≡ (
    if active_on (remove_text (codes "jobs:streams:") (codes "jobs:streams:j1")) (watched.sockets 1)
    then if_ready (delivered over) (watched.sockets 1)
    else watched.sockets 1)
reachable-broadcast_example =
    reachable-broadcast (codes "jobs:streams:j1") over watched 1 watched_Reachable

abbrev entries : List StreamEntry
entries = entry (codes "payload" ∷ hi ∷ []) ∷ malformed ∷ entry (codes "payload" ∷ over ∷ []) ∷ []

replay_lem_example :
    ((j : ℕ)
      → (replay 1 SubmissionStatus.running entries watched).sockets j
        ≡ (if 1 == j then send_all (payloads entries) (watched.sockets j) else watched.sockets j))
    × ((replay 1 SubmissionStatus.running entries watched).closing ≡ (
        if has_completion (payloads entries) || is_terminal_status (some SubmissionStatus.running)
        then 1 ∷ watched.closing
        else watched.closing))
replay_lem_example = replay_lem 1 SubmissionStatus.running entries watched

channel_lem : remove_text (codes "jobs:streams:") (codes "jobs:streams:j1") ≡ j1
unfolding remove_text
channel_lem = refl

replay-broadcast-connected_example :
    ((replay 0 SubmissionStatus.running entries
        (broadcast (codes "jobs:streams:j1") hi (connected j1 0 no_connections))).sockets
      0).sent
    ≡ hi ∷ payloads entries
replay-broadcast-connected_example =
    replay-broadcast-connected j1 0 (codes "jobs:streams:j1") hi SubmissionStatus.running entries
      no_connections start refl channel_lem

abbrev one_stream : Streams
one_stream = (codes "j1", 4 ∷ 7 ∷ []) ∷ []

registry_refines_example :
    IsTidy (register j1 9 one_stream)
    × IsTidy (unregister j1 9 one_stream)
    × ((j : Text) (x : ℕ)
        → registered (register j1 9 one_stream) j x
          ≡ ((text_eq j1 j && (9 == x)) || registered one_stream j x))
    × ((j : Text) (x : ℕ)
        → registered (unregister j1 9 one_stream) j x
          ≡ (registered one_stream j x && not (text_eq j1 j && (9 == x))))
registry_refines_example = registry_refines j1 9 one_stream (refl, tt, (refl, (refl, tt)), tt)

remove_from_dlq_lem_example :
    ((remove_from_dlq j1 (at orphaned [])).0
      ≡ returned (removal (has_item j1 (dead_letters orphaned))))
    × (dead_letters (remove_from_dlq j1 (at orphaned [])).1.state
        ≡ without_first j1 (dead_letters orphaned))
    × ((j : Text)
        → text_eq dead_letter_key j ≡ false
        → services.lrange (remove_from_dlq j1 (at orphaned [])).1.state.redis j
          ≡ services.lrange orphaned.redis j)
    × ((remove_from_dlq j1 (at orphaned [])).1.state.db ≡ orphaned.db)
remove_from_dlq_lem_example = remove_from_dlq_lem j1 orphaned

stored_row : services.submission orphaned.db j1 ≡ some (row SubmissionStatus.running)
unfolding text_eq
stored_row = refl

abbrev sent_to_dlq : State
sent_to_dlq = (send_to_dlq job (codes "why") (at orphaned [])).1.state

remove_from_dlq-send_to_dlq_example :
    ((remove_from_dlq j1 (at sent_to_dlq [])).0 ≡ returned removed)
    × (dead_letters (remove_from_dlq j1 (at sent_to_dlq [])).1.state ≡ dead_letters orphaned)
remove_from_dlq-send_to_dlq_example =
    remove_from_dlq-send_to_dlq job (codes "why") orphaned (row SubmissionStatus.running) stored_row

list_submissions_lem_example :
    (p : Page Summary) × (list_submissions
        (natural 1)
        (natural 5)
        (some SubmissionStatus.pending)
        (at waiting [])
      ≡ (returned (listing p), at waiting []))
    × (length p.items ≡ min 5 (p.total - (1 - 1) * 5))
    × ((1 ≤ length p.items) ↔ (1 ≤ p.total_pages))
    × AllHave (some SubmissionStatus.pending) p.items
list_submissions_lem_example =
    list_submissions_lem 1 5 (some SubmissionStatus.pending) waiting (omega arith) (omega arith)
      (omega arith) (omega arith)
