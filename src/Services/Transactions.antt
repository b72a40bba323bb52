-- ===== src/Services/Transactions.antt =====
-- The rule for a transaction: all of its statements are done, or none.
use distributed_code_executi.Common.{◌≡◌, refl, sym, subst, ◌⊎◌, inl, inr, Option, none, some}
use distributed_code_executi.Services.Server.{Services}
use distributed_code_executi.Services.Runtime.{
  Exception, State, World, Outcome, service_failed, bad_json, key_violation, returned, thrown,
  crashed,
}
use distributed_code_executi.Services.Effects.{
  M, ◌>>=◌, ◌>>◌, throw, call, restore, begun, committed, roll_back, begin_commit, released,
  transaction,
}
use distributed_code_executi.Services.Triples.{
  Mode, spent, Holds, at, Triple, Triple-call, Triple-bind, Triple-catch, Triple-throw,
  Triple-call_quiet, Triple-weaken, any, once, quiet,
}

spent_twice : (m : Mode) (e : Exception) → spent (spent m e) e ≡ spent m e
spent_twice any e = refl
spent_twice once service_failed = refl
spent_twice once bad_json = refl
spent_twice once key_violation = refl
spent_twice quiet e = refl

module _ ⦃S : Services⦄ where
  -- A predicate that does not look at the open transaction.
  abbrev pub Blind : (State → Type 0) → Type 0
  Blind P = (s : State) (o : Option S.Db) → P s → P (record s { open_tx = o })

  -- Inside a transaction that goes back to a state where `P` holds.
  abbrev pub InTx : (State → Type 0) → State → Type 0
  InTx P s = (d : S.Db) × (s.open_tx ≡ some d) × P (record s { db = d; open_tx = none })

  restore-twice : (s : State) (o : Option S.Db) → roll_back (restore o s) ≡ restore o s
  restore-twice s none = refl
  restore-twice s (some d) = refl

module _ ⦃S : Services⦄ {A : Type 0} (m : Mode) (Q : A → State → Type 0)
    (E : Exception → State → Type 0) (C : State → Type 0) where
  released-run :
      (o : Outcome A) (w : World)
      → Holds m (λ a s. Q a (roll_back s)) (λ e s. E e (roll_back s)) (λ s. C (roll_back s)) o w
      → Holds m Q E C o (record w { state = roll_back w.state })
  released-run (returned a) w h = h
  released-run (thrown e) w h = h
  released-run crashed w h = h

-- `X` says which exceptions the statements throw.
module _ ⦃S : Services⦄ (P Q : State → Type 0) (X : Exception → Type 0) (x : X service_failed) where
  -- What a transaction that did not return may leave.
  abbrev pub Settled : State → Type 0
  Settled s = P s ⊎ Q s

  abbrev pub Failed : Exception → State → Type 0
  Failed e s = X e × Settled s

  roll_back-InTx : (s : State) → InTx P s → P (roll_back s)
  roll_back-InTx s (d, e, h) = subst (λ o. P (restore o s)) (sym e) h

  Settled-twice : (s : State) → Settled (roll_back s) → Settled (roll_back (roll_back s))
  Settled-twice s h = subst Settled (sym (restore-twice s s.open_tx)) h

  abort :
      (m : Mode) (e : Exception)
      → Triple
          (spent m e)
          (λ s. X e × Settled (roll_back s))
          (call (λ s. (tt, roll_back s)) >>= λ _. throw {A = Unit} e)
          (λ _ s. Q (roll_back s))
          (λ e' s. Failed e' (roll_back s))
          (λ s. Settled (roll_back s))
  abort m e =
      Triple-bind
        (Triple-call {Q = λ _ s. X e × Settled (roll_back s)} (λ s. (tt, roll_back s))
          (λ s h. (h.0, Settled-twice s h.1)) (λ s h. (x, h.1)) (λ s h. (x, Settled-twice s h.1))
          (λ s h. h.1))
        (λ _. Triple-throw e (spent_twice m e) (λ s h. h))

  fresh : (s : State) → Blind P → P s × (s.open_tx ≡ none) → P (roll_back s)
  fresh s blind h = subst (λ o. P (restore o s)) (sym h.1) (blind s none h.0)

  module _ {m : Mode} {body : M Unit} (blind_p : Blind P) (blind_q : Blind Q)
      (t : Triple m
        (λ s. InTx P s × P s)
        body
        (λ _ s. InTx P s × Q s)
        (λ e s. X e × InTx P s)
        (InTx P)) where
    statements :
        Triple m
          (λ s. P s × (s.open_tx ≡ none))
          (do call begun; body; call committed)
          (λ _ s. Q (roll_back s))
          (λ e s. X e × Settled (roll_back s))
          (λ s. Settled (roll_back s))
    statements =
        Triple-bind
          (Triple-call {Q = λ _ s. InTx P s × P s} begun
            (λ s h. ((s.db, refl, blind_p s none h.0), blind_p s (some s.db) h.0))
            (λ s h. (x, inl (fresh s blind_p h))) (λ s h. (x, inl (blind_p s none h.0)))
            (λ s h. inl (fresh s blind_p h)))
          λ _.
            Triple-bind
              (Triple-weaken (λ s h. h) (λ _ s h. h) (λ e s h. (h.0, inl (roll_back-InTx s h.1)))
                (λ s h. inl (roll_back-InTx s h)) t)
              λ _.
                Triple-call committed (λ s h. blind_q s none h.1)
                  (λ s h. (x, inl (roll_back-InTx s h.0))) (λ s h. (x, inr (blind_q s none h.1)))
                  (λ s h. inl (roll_back-InTx s h.0))

    at_release :
        Triple m
          (λ s. P s × (s.open_tx ≡ none))
          (begin_commit body)
          (λ _ s. Q (roll_back s))
          (λ e s. Failed e (roll_back s))
          (λ s. Settled (roll_back s))
    unfolding begin_commit
    at_release = Triple-catch statements (abort m)

    after_release :
        Triple m
          (λ s. P s × (s.open_tx ≡ none))
          (released (begin_commit body))
          (λ _ s. Q s)
          Failed
          Settled
    unfolding released
    after_release = record {
      run = λ s fs ok h.
          let (r, w) = begin_commit body (at s fs) in
          released-run m (λ _ s. Q s) Failed Settled r w (at_release.run s fs ok h);
    }

    -- A transaction does what its statements do; one that throws, or whose process dies, leaves
    -- the state before it or the one after it.
    pub Triple-transaction : Triple m P (transaction body) (λ _ s. Q s) Failed Settled
    unfolding transaction
    Triple-transaction =
        Triple-bind
          (Triple-call (λ s. (tt, record s { open_tx = none })) (λ s h. (blind_p s none h, refl))
            (λ s h. (x, inl h)) (λ s h. (x, inl (blind_p s none h))) (λ s h. inl h))
          (λ _. after_release)

module _ ⦃S : Services⦄ {P Q : State → Type 0} {body : M Unit} (blind_p : Blind P)
    (blind_q : Blind Q)
    (t : Triple quiet (λ s. InTx P s × P s) body (λ _ s. InTx P s × Q s) (λ _ _. ⊥) (λ _. ⊥)) where
  quiet_statements :
      Triple quiet P
        (do call begun; body; call committed)
        (λ _ s. Q (roll_back s))
        (λ _ _. ⊥)
        (λ _. ⊥)
  quiet_statements =
      Triple-bind
        (Triple-call_quiet {Q = λ _ s. InTx P s × P s} begun
          (λ s h. ((s.db, refl, blind_p s none h), blind_p s (some s.db) h)))
        λ _. Triple-bind t λ _. Triple-call_quiet committed (λ s h. blind_q s none h.1)

  quiet_release : Triple quiet P (begin_commit body) (λ _ s. Q (roll_back s)) (λ _ _. ⊥) (λ _. ⊥)
  unfolding begin_commit
  quiet_release =
      Triple-catch
        (Triple-weaken (λ s h. h) (λ _ s h. h) (λ e s h. h) (λ s h. absurd h) quiet_statements)
        (λ e. record { run = λ s fs ok h. absurd h })

  quiet_released : Triple quiet P (released (begin_commit body)) (λ _ s. Q s) (λ _ _. ⊥) (λ _. ⊥)
  unfolding released
  quiet_released = record {
    run = λ s fs ok h.
        let (r, w) = begin_commit body (at s fs) in
        released-run quiet (λ _ s. Q s) (λ _ _. ⊥) (λ _. ⊥) r w (quiet_release.run s fs ok h);
  }

  -- With no fault to come a transaction whose statements do not throw is committed.
  pub Triple-transaction_quiet :
      {E : Exception → State → Type 0} {C : State → Type 0}
      → Triple quiet P (transaction body) (λ _ s. Q s) E C
  unfolding transaction
  Triple-transaction_quiet =
      Triple-bind
        (Triple-call_quiet {Q = λ _ s. P s} (λ s. (tt, record s { open_tx = none }))
          (λ s h. blind_p s none h))
        (λ _.
          Triple-weaken (λ s h. h) (λ _ s h. h) (λ e s h. absurd h) (λ s h. absurd h)
            quiet_released)
