-- ===== src/Services/Keeping.antt =====
-- Actions that keep a predicate on the state, however they end and whatever faults they meet.
use distributed_code_executi.Common.{ℕ, ◌+◌, inl, inr, List, ◌∷◌}
use distributed_code_executi.Services.Server.{Services}
use distributed_code_executi.Services.Runtime.{
  Metric, Exception, State, World, Fault, Outcome, returned, thrown, crashed,
}
use distributed_code_executi.Services.Effects.{M, pure, ◌>>=◌, try_catch, transaction, count, sleep}
use distributed_code_executi.Services.Triples.{
  Mode, spent, Allowed, Holds, at, Triple, Keeps, Triple-pure, Triple-bind, Triple-catch,
  Triple-weaken, Triple-count, Triple-sleep,
}
use distributed_code_executi.Services.Transactions.{Blind, InTx, Triple-transaction}

module _ ⦃S : Services⦄ {m : Mode} {I : State → Type 0} where
  pub Keeps-pure : {A : Type 0} (a : A) → Keeps I m (pure a)
  Keeps-pure a = Triple-pure a (λ s h. h)

  pub Keeps-count :
      (c : Metric)
      → ((s : State) → I s → I (record s { metrics = c ∷ s.metrics }))
      → Keeps I m (count c)
  Keeps-count c h = Triple-count c h

  pub Keeps-sleep :
      (ms : ℕ) → ((s : State) → I s → I (record s { now = s.now + ms })) → Keeps I m (sleep ms)
  Keeps-sleep ms h = Triple-sleep ms h

  pub Keeps-bind :
      {A B : Type 0} {x : M A} {f : A → M B}
      → Keeps I m x
      → ((a : A) → Keeps I m (f a))
      → Keeps I m (x >>= f)
  Keeps-bind kx kf = Triple-bind kx kf

  pub Keeps-catch :
      {A : Type 0} {x : M A} {h : Exception → M A}
      → Keeps I m x
      → ((e : Exception) → Keeps I (spent m e) (h e))
      → Keeps I m (try_catch x h)
  Keeps-catch kx kh = Triple-catch kx kh

  -- The statements must keep `I` on the way, since the transaction may be committed.
  pub Keeps-transaction :
      {body : M Unit}
      → Blind I
      → Triple m (λ s. InTx I s × I s) body (λ _ s. InTx I s × I s) (λ _ s. InTx I s) (InTx I)
      → Keeps I m (transaction body)
  Keeps-transaction blind t =
      Triple-weaken (λ s h. h) (λ _ s h. h) (λ e s h. elim h.1 [ inl i ↦ i | inr i ↦ i ])
        (λ s h. elim h [ inl i ↦ i | inr i ↦ i ])
        (Triple-transaction I I (λ _. Unit {0}) tt blind blind
          (Triple-weaken (λ s h. h) (λ _ s h. h) (λ e s h. (tt, h)) (λ s h. h) t))

  -- An action that throws nothing.
  pub Keeps-never : {A : Type 0} {x : M A} → Triple m I x (λ _ s. I s) (λ _ _. ⊥) I → Keeps I m x
  Keeps-never t = Triple-weaken (λ s h. h) (λ _ s h. h) (λ e s h. absurd h) (λ s h. h) t

  -- What an action keeps holds at its end, whatever it is.
  pub kept :
      {A : Type 0} (act : M A) (s : State) (faults : List Fault)
      → Allowed m faults
      → Keeps I m act
      → I s
      → I (act (at s faults)).1.state
  kept {A} act s faults ok k h =
      end_state (act (at s faults)).0 (act (at s faults)).1 (k.run s faults ok h)
    where
      end_state : (o : Outcome A) (w : World) → Holds m (λ _ s. I s) (λ _ s. I s) I o w → I w.state
      end_state (returned a) w h = h.1
      end_state (thrown e) w h = h.1
      end_state crashed w h = h
