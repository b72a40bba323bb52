-- ===== src/Reaper/Turns.antt =====
-- The lock of the scans (services/system-monitor/src/reaper.ts), taken and released by any number of
-- monitors in any order, and lost when its time to live is over.
use distributed_code_executi.Common.{
  ℕ, ◌+◌, ◌≡◌, refl, ◌∙◌, Bool, true, false, ◌||◌, Option, none, some, List, [], ◌∷◌, Text, text_eq,
  text_eq_refl, or_false, arith,
}
use distributed_code_executi.Services.{Services, State, Outcome, returned}
use distributed_code_executi.Services.Effects.{call}
use distributed_code_executi.Services.Triples.{at}
use distributed_code_executi.Reaper.Handlers.{
  acquire_lock, acquired, release_lock, deleted, reaper_lock_key, reaper_lock_ttl_ms,
}

-- What a monitor does with the lock, under the identifier that it has drawn, or the server.
pub data LockStep : Type 0 where
  acquiring releasing : Text → LockStep
  expiring : LockStep

module _ ⦃S : Services⦄ where
  unfoldable pub lock_step : LockStep → State → State
  lock_step (acquiring lock_id) s = (acquire_lock lock_id (at s [])).1.state
  lock_step (releasing lock_id) s = (release_lock lock_id (at s [])).1.state
  lock_step expiring s = (deleted reaper_lock_key s).1

  abbrev granted : Outcome Bool → ℕ
  granted (returned true) = 1
  granted _ = 0

  -- A scan that gets the lock.
  abbrev pub turn : LockStep → State → ℕ
  turn (acquiring lock_id) s = granted (acquire_lock lock_id (at s [])).0
  turn _ s = 0

  unfoldable pub turns : List LockStep → State → ℕ
  turns [] s = 0
  turns (x ∷ xs) s = turn x s + turns xs (lock_step x s)

  unfoldable pub lock_steps : List LockStep → State → State
  lock_steps [] s = s
  lock_steps (x ∷ xs) s = lock_steps xs (lock_step x s)

  -- The owner gives the lock back, or its time is over.
  abbrev ends : Text → LockStep → Bool
  ends owner (acquiring lock_id) = false
  ends owner (releasing lock_id) = text_eq owner lock_id
  ends owner expiring = true

  unfoldable pub ended : Text → List LockStep → Bool
  ended owner [] = false
  ended owner (x ∷ xs) = ends owner x || ended owner xs

  abbrev pub holder : State → Option Text
  holder s = S.get s.redis reaper_lock_key

  -- Another monitor's attempt, and another's release, leave a lock that is held.
  step_held :
      (owner : Text) (x : LockStep) (s : State)
      → holder s ≡ some owner
      → ends owner x ≡ false
      → (holder (lock_step x s) ≡ some owner) × (turn x s ≡ 0)
  unfolding lock_step acquire_lock release_lock call
  step_held owner (acquiring lock_id) s h n = (rw (lock_step, h) h, rw h refl)
  step_held owner (releasing lock_id) s h n = (rw (lock_step, h, n) h, refl)
  step_held owner expiring s h n = cc (n)

  -- Whoever holds the lock keeps it, and nobody else gets it.
  holder_excludes :
      (owner : Text) (xs : List LockStep) (s : State)
      → holder s ≡ some owner
      → ended owner xs ≡ false
      → (holder (lock_steps xs s) ≡ some owner) × (turns xs s ≡ 0)
  unfolding lock_steps turns ended
  holder_excludes owner [] s h n = (h, refl)
  holder_excludes owner (x ∷ xs) s h n =
      let (now, later) = or_false n in
      let (held, none_now) = step_held owner x s h now in
      let (still, none_later) = holder_excludes owner xs (lock_step x s) held later in
      (still, omega (arith, none_now, none_later))

  -- Who gets the lock is its holder.
  begun :
      (lock_id : Text) (s : State) (o : Option Text)
      → S.get s.redis reaper_lock_key ≡ o
      → granted (returned (acquired lock_id o s).0) ≡ 1
      → holder (acquired lock_id o s).1 ≡ some lock_id
  begun lock_id s none e h =
      S.get-set reaper_lock_key lock_id (some reaper_lock_ttl_ms) s.redis reaper_lock_key
      ∙ rw (text_eq_refl reaper_lock_key) refl
  begun lock_id s (some owner) e h = absurd (omega (arith, h))

  -- From the moment when a scan gets the lock of the reaper, until it has released it or the time to
  -- live of the lock is over, no scan of any monitor gets the lock, and it keeps the identifier of that
  -- scan, whichever acquisitions, and releases under other identifiers, come in whichever order.
  pub turn_excludes :
      (lock_id : Text) (xs : List LockStep) (s : State)
      → turn (acquiring lock_id) s ≡ 1
      → ended lock_id xs ≡ false
      → let t = lock_step (acquiring lock_id) s in
        (turns xs t ≡ 0) × (holder (lock_steps xs t) ≡ some lock_id)
  unfolding lock_step acquire_lock call
  turn_excludes lock_id xs s got n =
      let (kept, none_else) =
        holder_excludes lock_id xs (lock_step (acquiring lock_id) s)
          (begun lock_id s (S.get s.redis reaper_lock_key) refl got) n in
      (none_else, kept)
