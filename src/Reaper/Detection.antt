-- ===== src/Reaper/Detection.antt =====
-- Which workers a scan (services/system-monitor/src/reaper.ts) holds for dead.
use distributed_code_executi.Common.{
  ◌≡◌, refl, ap, ◌∙◌, Bool, true, false, ◌&&◌, not, inl, inr, List, [], ◌∷◌, ◌++◌, map, Text,
  text_eq, text_eq_iff, text_eq_refl, Bool-cases, arith, if◌then◌else◌,
}
use distributed_code_executi.Services.{Services, State}
use distributed_code_executi.Services.Triples.{
  quiet, Triple, Triple-pure, Triple-bind, Triple-call_quiet, Triple-given, Triple-local,
  Triple-weaken,
}
use distributed_code_executi.Reaper.Handlers.{member, distinct, find_dead, fetch_pages, scan_keys}

distinct_cases :
    (seen xs : List Text) (x : Text) (b : Bool)
    → member x seen ≡ b
    → distinct seen (x ∷ xs) ≡ (if b then distinct seen xs else x ∷ distinct (x ∷ seen) xs)
unfolding distinct
distinct_cases seen xs x true e = rw (distinct, e) refl
distinct_cases seen xs x false e = rw (distinct, e) refl

pub member-distinct :
    (w : Text) (seen xs : List Text)
    → member w (distinct seen xs) ≡ (member w xs && not (member w seen))
unfolding member distinct
member-distinct w seen [] = refl
member-distinct w seen (x ∷ xs) = elim (Bool-cases (member x seen)) [
  | inl e ↦ elim (Bool-cases (text_eq w x)) [
    | inl same ↦
        rw
          (
            distinct_cases seen xs x true e,
            member-distinct w seen xs,
            same,
            (text_eq_iff w x).0 same,
          )
          (ground (arith, e))
    | inr other ↦ rw (distinct_cases seen xs x true e, member-distinct w seen xs, other)
  ]
  | inr e ↦ elim (Bool-cases (text_eq w x)) [
    | inl same ↦
        rw (distinct_cases seen xs x false e, same, (text_eq_iff w x).0 same) (ground (arith, e))
    | inr other ↦ rw (distinct_cases seen xs x false e, member-distinct w (x ∷ seen) xs, other)
  ]
]

-- The worker is held for dead just when it has a queue and no heartbeat.
pub member-find_dead :
    (w : Text) (alive ws : List Text)
    → member w (find_dead alive ws) ≡ (member w ws && not (member w alive))
unfolding member find_dead
member-find_dead w alive [] = refl
member-find_dead w alive (x ∷ xs) = elim (Bool-cases (member x alive)) [
  | inl e ↦ elim (Bool-cases (text_eq w x)) [
    | inl same ↦
        rw (e, member-find_dead w alive xs, same, (text_eq_iff w x).0 same, e) (ground arith)
    | inr other ↦ rw (e, member-find_dead w alive xs, other)
  ]
  | inr e ↦ elim (Bool-cases (text_eq w x)) [
    | inl same ↦ rw (e, same, (text_eq_iff w x).0 same, e) refl
    | inr other ↦ rw (e, member-find_dead w alive xs, other)
  ]
]

pub member-map :
    (f : Text → Text) (k : Text) (xs : List Text)
    → member k xs ≡ true
    → member (f k) (map f xs) ≡ true
unfolding member
member-map f k [] h = cc h
member-map f k (x ∷ xs) h = elim (Bool-cases (text_eq k x)) [
  | inl e ↦ rw (ap f ((text_eq_iff k x).0 e), text_eq_refl (f x)) refl
  | inr e ↦ ground (arith, member-map f k xs (rw e at h))
]

abbrev pub all_pages : List (List Text) → List Text
all_pages [] = []
all_pages (page ∷ pages) = page ++ all_pages pages

module _ ⦃S : Services⦄ where
  -- What SCAN gives of the whole key space, while nothing else acts.
  module _ (t : State) where
    abbrev pub Same : {A : Type 0} → A → A → State → Type 0
    Same a b s = (s ≡ t) × (a ≡ b)

    pages_calm :
        (pages : List (List Text))
        → Triple quiet
            (λ s. s ≡ t)
            (fetch_pages pages)
            (λ ks s. Same ks (all_pages pages) s)
            (λ _ _. ⊥)
            (λ _. ⊥)
    unfolding fetch_pages
    pages_calm [] = Triple-pure [] (λ s h. (h, refl))
    pages_calm (p ∷ ps) =
        Triple-bind {R = λ found s. Same found p s} (Triple-call_quiet _ (λ s h. (h, refl)))
          λ found.
            Triple-given (λ s h. h.1)
              λ e.
                Triple-weaken (λ s h. h.0) (λ _ s h. h) (λ e s h. h) (λ s h. h)
                  (Triple-bind (pages_calm ps) λ rest.
                    Triple-pure _ (λ s h. (h.0, ap (λ xs. xs ++ rest) e ∙ ap (λ xs. p ++ xs) h.1)))

    pub keys_calm :
        (prefix : Text)
        → Triple quiet
            (λ s. s ≡ t)
            (scan_keys prefix)
            (λ ks s. Same ks (all_pages (S.scan_pages t.redis prefix)) s)
            (λ _ _. ⊥)
            (λ _. ⊥)
    unfolding scan_keys
    keys_calm prefix =
        Triple-bind {R = λ pages s. Same pages (S.scan_pages t.redis prefix) s}
          (Triple-local _ (λ s h. (h, ap (λ x. S.scan_pages x.redis prefix) h)))
          λ pages.
            Triple-given (λ s h. h.1)
              λ e.
                Triple-weaken (λ s h. h.0) (λ _ s h. (h.0, h.1 ∙ ap all_pages e)) (λ e s h. h)
                  (λ s h. h) (pages_calm pages)
