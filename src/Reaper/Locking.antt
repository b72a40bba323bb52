-- ===== src/Reaper/Locking.antt =====
-- The lock of the reaper, and the names of the keys that it reads.
use distributed_code_executi.Common.{◌≡◌, refl, none, some, false, [], Text, text_eq, text_eq_refl}
use distributed_code_executi.Contracts.Keys.{make_processing_key, make_heartbeat_key}
use distributed_code_executi.Services.{Services, State, returned}
use distributed_code_executi.Services.Effects.{call, ◌>>=◌}
use distributed_code_executi.Services.Triples.{at}
use distributed_code_executi.Reaper.Handlers.{
  reaper_lock_key, run_reaper_scan, acquire_lock, release_lock, remove_text,
  extract_worker_id_from_queue, extract_worker_id_from_heartbeat,
}

-- The identifier of a worker is read back from the keys that are made of it.
pub extract_worker_id-make :
    (worker_id : Text)
    → (extract_worker_id_from_queue (make_processing_key worker_id) ≡ worker_id)
      × (extract_worker_id_from_heartbeat (make_heartbeat_key worker_id) ≡ worker_id)
unfolding extract_worker_id_from_queue extract_worker_id_from_heartbeat make_processing_key
    make_heartbeat_key remove_text
extract_worker_id-make worker_id = (refl, refl)

module _ ⦃S : Services⦄ where
  -- While another monitor holds the lock, a scan without faults does nothing at all.
  pub run_reaper_scan-held :
      (lock_id owner : Text) (s : State)
      → S.get s.redis reaper_lock_key ≡ some owner
      → run_reaper_scan lock_id (at s []) ≡ (returned tt, at s [])
  unfolding run_reaper_scan acquire_lock call ◌>>=◌
  run_reaper_scan-held lock_id owner s held = rw held

  -- The lock that was acquired is released by its owner, and by no other.
  pub release_lock-acquired :
      (lock_id other : Text) (s : State)
      → S.get s.redis reaper_lock_key ≡ none
      → text_eq lock_id other ≡ false
      → (S.get
            (release_lock lock_id (acquire_lock lock_id (at s [])).1).1.state.redis
            reaper_lock_key
          ≡ none)
        × (S.get
              (release_lock other (acquire_lock lock_id (at s [])).1).1.state.redis
              reaper_lock_key
            ≡ some lock_id)
  unfolding acquire_lock release_lock call
  release_lock-acquired lock_id other s free ne = (
    rw (
      free,
      get_set_lock,
      text_eq_refl lock_id,
      S.get-del reaper_lock_key (S.set reaper_lock_key lock_id (some 15000) s.redis)
          reaper_lock_key,
      text_eq_refl reaper_lock_key,
    ),
    rw (free, get_set_lock, ne, get_set_lock),
  )
    where
      get_set_lock :
          S.get (S.set reaper_lock_key lock_id (some 15000) s.redis) reaper_lock_key ≡ some lock_id
      get_set_lock = rw (
        S.get-set reaper_lock_key lock_id (some 15000) s.redis reaper_lock_key,
        text_eq_refl reaper_lock_key,
      )
