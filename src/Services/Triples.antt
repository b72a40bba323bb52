-- ===== src/Services/Triples.antt =====
-- Postconditions of actions, one rule for each way to build an action. A mode says what faults the
-- schedule may hold: any, at most one, or none. The postcondition has a part for a normal return,
-- one for an exception, and one for the state that a dead process leaves behind.
mod Modes
use distributed_code_executi.Common.{
  ℕ, ◌+◌, ◌≡◌, refl, ◌⊎◌, inl, inr, Bool, true, false, List, [], ◌∷◌, if◌then◌else◌,
}
use distributed_code_executi.Services.Server.{Services}
use distributed_code_executi.Services.Runtime.{
  Metric, Fault, Exception, Outcome, State, World, calm, refused, lost, killed, service_failed,
  bad_json, key_violation, returned, thrown, crashed,
}
use distributed_code_executi.Services.Effects.{
  M, pure, throw, ◌>>=◌, try_catch, call, local, after, handle, count, time, sleep,
}
pub use Modes.{
  Mode, any, once, quiet, AllCalm, AtMostOne, Allowed, spent, AllCalm-AtMostOne, Allowed-spent,
  Allowed-spent_twice, spent-key_violation,
}

module _ ⦃S : Services⦄ where
  abbrev pub Holds :
      {A : Type 0}
      → Mode
      → (A → State → Type 0)
      → (Exception → State → Type 0)
      → (State → Type 0)
      → Outcome A
      → World
      → Type 0
  Holds m Q E C (returned a) w = Allowed m w.schedule × Q a w.state
  Holds m Q E C (thrown e) w = Allowed (spent m e) w.schedule × E e w.state
  Holds m Q E C crashed w = C w.state

  abbrev pub at : State → List Fault → World
  at s fs = record { state = s; schedule = fs }

  pub record Triple {A : Type 0} (m : Mode) (P : State → Type 0) (act : M A)
      (Q : A → State → Type 0) (E : Exception → State → Type 0) (C : State → Type 0) : Type 0 where
    pub run :
        (s : State) (fs : List Fault)
        → Allowed m fs
        → P s
        → Holds m Q E C (act (at s fs)).0 (act (at s fs)).1

module _ ⦃S : Services⦄ {A : Type 0} {m : Mode} {P : State → Type 0} {Q : A → State → Type 0}
    {E : Exception → State → Type 0} {C : State → Type 0} where
  pub Triple-pure : (a : A) → ((s : State) → P s → Q a s) → Triple m P (pure a) Q E C
  Triple-pure a h = record { run = λ s fs ok p. (ok, h s p) }

  pub Triple-local :
      (f : State → A × State) → ((s : State) → P s → Q (f s).0 (f s).1) → Triple m P (local f) Q E C
  unfolding local
  Triple-local f h = record { run = λ s fs ok p. (ok, h s p) }

  pub Triple-throw :
      (e : Exception)
      → spent m e ≡ m
      → ((s : State) → P s → E e s)
      → Triple m P (throw {A = A} e) Q E C
  Triple-throw e same h = record { run = λ s fs ok p. (rw same ok, h s p) }

  pub Triple-when :
      (b : Bool) {x y : M A}
      → (b ≡ true → Triple m P x Q E C)
      → (b ≡ false → Triple m P y Q E C)
      → Triple m P (if b then x else y) Q E C
  Triple-when true hx hy = hx refl
  Triple-when false hx hy = hy refl

  -- A fact about the state, in hand.
  pub Triple-given :
      {F : Type 0} {x : M A}
      → ((s : State) → P s → F)
      → (F → Triple m P x Q E C)
      → Triple m P x Q E C
  Triple-given fact h = record { run = λ s fs ok p. (h (fact s p)).run s fs ok p }

module _ ⦃S : Services⦄ {A : Type 0} (Q : A → State → Type 0) (E : Exception → State → Type 0)
    (C : State → Type 0) where
  answer-run :
      (m : Mode) (f : State → A × State) (s : State) (fs : List Fault)
      → Allowed m fs
      → Q (f s).0 (f s).1
      → (AllCalm fs ⊎ (E service_failed s × E service_failed (f s).1 × C s))
      → Holds m Q E C (call f (at s fs)).0 (call f (at s fs)).1
  unfolding call
  answer-run any f s [] ok q h = (tt, q)
  answer-run any f s (calm ∷ fs) ok q h = (tt, q)
  answer-run any f s (refused ∷ fs) ok q (inl h) = absurd h
  answer-run any f s (refused ∷ fs) ok q (inr h) = (tt, h.0)
  answer-run any f s (lost ∷ fs) ok q (inl h) = absurd h
  answer-run any f s (lost ∷ fs) ok q (inr h) = (tt, h.1)
  answer-run any f s (killed ∷ fs) ok q (inl h) = absurd h
  answer-run any f s (killed ∷ fs) ok q (inr h) = h.2
  answer-run once f s [] ok q h = (tt, q)
  answer-run once f s (calm ∷ fs) ok q h = (ok, q)
  answer-run once f s (refused ∷ fs) ok q (inl h) = absurd h
  answer-run once f s (refused ∷ fs) ok q (inr h) = (ok, h.0)
  answer-run once f s (lost ∷ fs) ok q (inl h) = absurd h
  answer-run once f s (lost ∷ fs) ok q (inr h) = (ok, h.1)
  answer-run once f s (killed ∷ fs) ok q (inl h) = absurd h
  answer-run once f s (killed ∷ fs) ok q (inr h) = h.2
  answer-run quiet f s [] ok q h = (tt, q)
  answer-run quiet f s (calm ∷ fs) ok q h = (ok, q)
  answer-run quiet f s (refused ∷ fs) ok q h = absurd ok
  answer-run quiet f s (lost ∷ fs) ok q h = absurd ok
  answer-run quiet f s (killed ∷ fs) ok q h = absurd ok

module _ ⦃S : Services⦄ {A : Type 0} {P : State → Type 0} {Q : A → State → Type 0}
    {E : Exception → State → Type 0} {C : State → Type 0} where
  -- A call in any mode: done, refused, done with the reply lost, or never.
  pub Triple-call :
      {m : Mode} (f : State → A × State)
      → ((s : State) → P s → Q (f s).0 (f s).1)
      → ((s : State) → P s → E service_failed s)
      → ((s : State) → P s → E service_failed (f s).1)
      → ((s : State) → P s → C s)
      → Triple m P (call f) Q E C
  Triple-call {m} f q e l c = record {
    run = λ s fs ok p. answer-run Q E C m f s fs ok (q s p) (inr (e s p, l s p, c s p));
  }

  -- With no fault to come a call does what it should.
  pub Triple-call_quiet :
      (f : State → A × State)
      → ((s : State) → P s → Q (f s).0 (f s).1)
      → Triple quiet P (call f) Q E C
  Triple-call_quiet f q = record {
    run = λ s fs ok p. answer-run Q E C quiet f s fs ok (q s p) (inl ok);
  }

module _ ⦃S : Services⦄ {A B : Type 0} (m : Mode) (R : A → State → Type 0) (Q : B → State → Type 0)
    (E : Exception → State → Type 0) (C : State → Type 0) where
  bind-run :
      (o : Outcome A) (w : World) (f : A → M B)
      → Holds m R E C o w
      → ((a : A) → Triple m (R a) (f a) Q E C)
      → Holds m Q E C (after o f w).0 (after o f w).1
  bind-run (returned a) w f h k = (k a).run w.state w.schedule h.0 h.1
  bind-run (thrown e) w f h k = h
  bind-run crashed w f h k = h

module _ ⦃S : Services⦄ {A B : Type 0} {m : Mode} {P : State → Type 0} {R : A → State → Type 0}
    {Q : B → State → Type 0} {E : Exception → State → Type 0} {C : State → Type 0} where
  pub Triple-bind :
      {x : M A} {f : A → M B}
      → Triple m P x R E C
      → ((a : A) → Triple m (R a) (f a) Q E C)
      → Triple m P (x >>= f) Q E C
  unfolding ◌>>=◌
  Triple-bind {x} {f} t k = record {
    run = λ s fs ok p. let (r, w) = x (at s fs) in bind-run m R Q E C r w f (t.run s fs ok p) k;
  }

module _ ⦃S : Services⦄ {A : Type 0} (m : Mode) (Q : A → State → Type 0)
    (E : Exception → State → Type 0) (C : State → Type 0) where
  rethrown-Holds :
      (e : Exception) (o : Outcome A) (w : World) → Holds (spent m e) Q E C o w → Holds m Q E C o w
  rethrown-Holds e (returned a) w h = (Allowed-spent m e w.schedule h.0, h.1)
  rethrown-Holds e (thrown e') w h = (Allowed-spent_twice m e e' w.schedule h.0, h.1)
  rethrown-Holds e crashed w h = h

  handle-run :
      (H : Exception → State → Type 0) (o : Outcome A) (w : World) (h : Exception → M A)
      → Holds m Q H C o w
      → ((e : Exception) → Triple (spent m e) (H e) (h e) Q E C)
      → Holds m Q E C (handle o h w).0 (handle o h w).1
  handle-run H (returned a) w h p k = p
  handle-run H (thrown e) w h p k =
      rethrown-Holds e (h e w).0 (h e w).1 ((k e).run w.state w.schedule p.0 p.1)
  handle-run H crashed w h p k = p

module _ ⦃S : Services⦄ {A : Type 0} {m : Mode} {P : State → Type 0} {Q : A → State → Type 0}
    {H E : Exception → State → Type 0} {C : State → Type 0} where
  pub Triple-catch :
      {x : M A} {h : Exception → M A}
      → Triple m P x Q H C
      → ((e : Exception) → Triple (spent m e) (H e) (h e) Q E C)
      → Triple m P (try_catch x h) Q E C
  unfolding try_catch
  Triple-catch {x} {h} t k = record {
    run = λ s fs ok p. let (r, w) = x (at s fs) in handle-run m Q E C H r w h (t.run s fs ok p) k;
  }

module _ ⦃S : Services⦄ {A : Type 0} (m : Mode) (Q Q' : A → State → Type 0)
    (E E' : Exception → State → Type 0) (C C' : State → Type 0) where
  weaken-run :
      (o : Outcome A) (w : World)
      → ((a : A) (s : State) → Q a s → Q' a s)
      → ((e : Exception) (s : State) → E e s → E' e s)
      → ((s : State) → C s → C' s)
      → Holds m Q E C o w
      → Holds m Q' E' C' o w
  weaken-run (returned a) w q e c h = (h.0, q a w.state h.1)
  weaken-run (thrown x) w q e c h = (h.0, e x w.state h.1)
  weaken-run crashed w q e c h = c w.state h

module _ ⦃S : Services⦄ {A : Type 0} {m : Mode} {P P' : State → Type 0} {Q Q' : A → State → Type 0}
    {E E' : Exception → State → Type 0} {C C' : State → Type 0} where
  pub Triple-weaken :
      {x : M A}
      → ((s : State) → P' s → P s)
      → ((a : A) (s : State) → Q a s → Q' a s)
      → ((e : Exception) (s : State) → E e s → E' e s)
      → ((s : State) → C s → C' s)
      → Triple m P x Q E C
      → Triple m P' x Q' E' C'
  Triple-weaken {x} p q e c t = record {
    run = λ s fs ok h.
        let (r, w) = x (at s fs) in weaken-run m Q Q' E E' C C' r w q e c (t.run s fs ok (p s h));
  }

module _ ⦃S : Services⦄ {m : Mode} {P : State → Type 0} {Q : Unit {0} → State → Type 0}
    {E : Exception → State → Type 0} {C : State → Type 0} where
  pub Triple-count :
      (c : Metric)
      → ((s : State) → P s → Q tt (record s { metrics = c ∷ s.metrics }))
      → Triple m P (count c) Q E C
  unfolding count
  Triple-count c h = Triple-local _ h

  pub Triple-sleep :
      (ms : ℕ)
      → ((s : State) → P s → Q tt (record s { now = s.now + ms }))
      → Triple m P (sleep ms) Q E C
  unfolding sleep
  Triple-sleep ms h = Triple-local _ h

module _ ⦃S : Services⦄ {m : Mode} {P : State → Type 0} {E : Exception → State → Type 0}
    {C : State → Type 0} where
  pub Triple-time : Triple m P time (λ _ s. P s) E C
  unfolding time
  Triple-time = Triple-local _ (λ s h. h)

-- An action that keeps `I`, however it ends.
module _ ⦃S : Services⦄ (I : State → Type 0) where
  abbrev pub Keeps : {A : Type 0} → Mode → M A → Type 0
  Keeps m act = Triple m I act (λ _ s. I s) (λ _ s. I s) I

module _ ⦃S : Services⦄ {A : Type 0} {m : Mode} {I : State → Type 0} where
  pub Keeps-call : (f : State → A × State) → ((s : State) → I s → I (f s).1) → Keeps I m (call f)
  Keeps-call f h = Triple-call f h (λ s i. i) h (λ s i. i)
