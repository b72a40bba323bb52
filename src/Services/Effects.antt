-- ===== src/Services/Effects.antt =====
-- Handlers as actions that return, throw or die with their process; each call of a service meets
-- the next fault of the schedule.
use distributed_code_executi.Common.{ℕ, ◌+◌, Option, none, some, List, [], ◌∷◌}
use distributed_code_executi.Services.Server.{Services}
use distributed_code_executi.Services.Runtime.{
  Metric, Fault, Exception, Outcome, State, World, calm, refused, lost, killed, service_failed,
  returned, thrown, crashed,
}

module _ ⦃S : Services⦄ where
  abbrev pub M : Type 0 → Type 0
  M A = World → Outcome A × World

  abbrev pub pure : {A : Type 0} → A → M A
  pure a w = (returned a, w)

  abbrev pub throw : {A : Type 0} → Exception → M A
  throw e w = (thrown e, w)

  abbrev pub after : {A B : Type 0} → Outcome A → (A → M B) → M B
  after (returned a) f w = f a w
  after (thrown e) f w = (thrown e, w)
  after crashed f w = (crashed, w)

  infixl 10 ◌>>=◌ ◌>>◌
  unfoldable pub ◌>>=◌ : {A B : Type 0} → M A → (A → M B) → M B
  ◌>>=◌ m f w = let (r, w') = m w in after r f w'

  abbrev pub ◌>>◌ : {A B : Type 0} → M A → M B → M B
  m >> n = m >>= λ _. n

  abbrev pub handle : {A : Type 0} → Outcome A → (Exception → M A) → M A
  handle (returned a) h w = (returned a, w)
  handle (thrown e) h w = h e w
  handle crashed h w = (crashed, w)

  -- try { m } catch (e) { h e }
  unfoldable pub try_catch : {A : Type 0} → M A → (Exception → M A) → M A
  try_catch m h w = let (r, w') = m w in handle r h w'

  abbrev next_fault : List Fault → Fault
  next_fault [] = calm
  next_fault (f ∷ fs) = f

  abbrev rest_faults : List Fault → List Fault
  rest_faults [] = []
  rest_faults (f ∷ fs) = fs

  abbrev pub answer : {A : Type 0} → Fault → State → A × State → Outcome A × State
  answer calm s (a, s') = (returned a, s')
  answer refused s (a, s') = (thrown service_failed, s)
  answer lost s (a, s') = (thrown service_failed, s')
  answer killed s (a, s') = (crashed, s)

  abbrev resume : {A : Type 0} → Outcome A × State → List Fault → Outcome A × World
  resume (r, s) fs = (r, record { state = s; schedule = fs })

  -- One call of a service that does `f`.
  unfoldable pub call : {A : Type 0} → (State → A × State) → M A
  call f w = resume (answer (next_fault w.schedule) w.state (f w.state)) (rest_faults w.schedule)

  -- A local step, which cannot fail.
  unfoldable pub local : {A : Type 0} → (State → A × State) → M A
  local f w = let (a, s) = f w.state in (returned a, record w { state = s })

  -- `metric.inc()`, `.set()` and `.observe()`
  unfoldable pub count : Metric → M Unit
  count m = local (λ s. (tt, record s { metrics = m ∷ s.metrics }))

  unfoldable pub time : M ℕ
  time = local (λ s. (s.now, s))

  -- `setTimeout` for so many milliseconds, awaited
  unfoldable pub sleep : ℕ → M Unit
  sleep ms = local (λ s. (tt, record s { now = s.now + ms }))

  abbrev pub begun : State → Unit {0} × State
  begun s = (tt, record s { open_tx = some s.db })

  abbrev pub committed : State → Unit {0} × State
  committed s = (tt, record s { open_tx = none })

  abbrev pub restore : Option S.Db → State → State
  restore none s = record s { open_tx = none }
  restore (some d) s = record s { db = d; open_tx = none }

  -- The server goes back to where the transaction began, unless it was committed.
  abbrev pub roll_back : State → State
  roll_back s = restore s.open_tx s

  -- BEGIN, the statements, COMMIT; on an error ROLLBACK and the same error again.
  unfoldable pub begin_commit : M Unit → M Unit
  begin_commit body =
      try_catch (do call begun; body; call committed)
        (λ e. do call (λ s. (tt, roll_back s)); throw e)

  -- The client is released. An uncommitted transaction does not outlive its connection.
  unfoldable pub released : M Unit → M Unit
  released m w = let (r, w') = m w in (r, record w' { state = roll_back w'.state })

  -- A transaction over a client of its own, `pool.connect()` first.
  unfoldable pub transaction : M Unit → M Unit
  transaction body = do call (λ s. (tt, record s { open_tx = none })); released (begin_commit body)
