-- ===== src/Examples/Database.antt =====
-- A small database that keeps the laws of the parameter: two lists of rows.
use mathlib.Core.Option
use mathlib.Core.Option.{some-injective}
use distributed_code_executi.Common.{
  ℕ, zero, suc, ◌-◌, min, take, drop, length, ◌≡◌, ◌||◌, leb, arith, text_eq_refl, refl, sym, ap,
  ◌∙◌, Bool, true, false, Option, none, some, inl, inr, List, [], ◌∷◌, map, Text, text_eq,
  text_eq_iff, Bool-cases, if◌then◌else◌,
}
use distributed_code_executi.Services.{Submission, SubmissionResult, Postgres, has_row, Every}

abbrev lookup : List Submission → Text → Option Submission
lookup [] i = none
lookup (r ∷ rs) i = if text_eq r.id i then some r else lookup rs i

abbrev changed : (Submission → Bool) → (Submission → Submission) → Submission → Submission
changed p f r = if p r then f r else r

abbrev kept : (Submission → Bool) → Option Submission → List Submission → List Submission
kept p none rest = rest
kept p (some r) rest = if p r then r ∷ rest else rest

-- The rows that the keys of the second list lead to.
abbrev selected : (Submission → Bool) → List Submission → List Submission → List Submission
selected p d [] = []
selected p d (r ∷ rs) = kept p (lookup d r.id) (selected p d rs)

pub record Tables : Type 0 where
  pub rows : List Submission
  pub results : Text → Option SubmissionResult

pub lookup_id : (d : List Submission) (i : Text) (s : Submission) → lookup d i ≡ some s → s.id ≡ i
lookup_id [] i s h = cc
lookup_id (r ∷ rs) i s h = elim (Bool-cases (text_eq r.id i)) [
  | inl e ↦ ap (λ x. x.id) (sym (some-injective r s (rw e at h))) ∙ (text_eq_iff r.id i).0 e
  | inr e ↦ lookup_id rs i s (rw e at h)
]

changed_id :
    (p : Submission → Bool) (f : Submission → Submission) (r : Submission)
    → (f r).id ≡ r.id
    → (changed p f r).id ≡ r.id
changed_id p f r h = elim (Bool-cases (p r)) [ inl e ↦ rw e h | inr e ↦ rw e refl ]

pub lookup-changed :
    (p : Submission → Bool) (f : Submission → Submission)
    → ((s : Submission) → (f s).id ≡ s.id)
    → (d : List Submission) (i : Text)
    → lookup (map (changed p f) d) i ≡ Option.map (changed p f) (lookup d i)
lookup-changed p f keeps [] i = refl
lookup-changed p f keeps (r ∷ rs) i =
    ap (λ x. if text_eq x i then some (changed p f r) else lookup (map (changed p f) rs) i)
      (changed_id p f r (keeps r))
    ∙ at_key (text_eq r.id i) (lookup-changed p f keeps rs i)
  where
    at_key :
        (b : Bool)
        → lookup (map (changed p f) rs) i ≡ Option.map (changed p f) (lookup rs i)
        → (if b then some (changed p f r) else lookup (map (changed p f) rs) i)
          ≡ Option.map (changed p f) (if b then some r else lookup rs i)
    at_key true h = refl
    at_key false h = h

abbrev placed : Submission → List Submission → List Submission
placed x [] = x ∷ []
placed x (r ∷ rs) = if leb x.created_at r.created_at then x ∷ r ∷ rs else r ∷ placed x rs

-- By age, the oldest first.
abbrev sorted : List Submission → List Submission
sorted [] = []
sorted (r ∷ rs) = placed r (sorted rs)

has_row-placed :
    (i : Text) (x : Submission) (rs : List Submission)
    → has_row i (placed x rs) ≡ (text_eq x.id i || has_row i rs)
has_row-placed i x [] = refl
has_row-placed i x (r ∷ rs) = ground (arith, has_row-placed i x rs)

has_row-sorted : (i : Text) (rs : List Submission) → has_row i (sorted rs) ≡ has_row i rs
has_row-sorted i [] = refl
has_row-sorted i (r ∷ rs) =
    has_row-placed i r (sorted rs) ∙ ap (λ b. text_eq r.id i || b) (has_row-sorted i rs)

has_row-kept :
    (i : Text) (p : Submission → Bool) (o : Option Submission) (rest : List Submission)
    → has_row i rest ≡ true
    → has_row i (kept p o rest) ≡ true
has_row-kept i p none rest h = h
has_row-kept i p (some r) rest h = elim (Bool-cases (p r)) [
  | inl e ↦ rw e (ground arith)
  | inr e ↦ rw e h
]

pub has_row-selected :
    (p : Submission → Bool) (d l : List Submission) (i : Text) (s x : Submission)
    → lookup d i ≡ some s
    → p s ≡ true
    → lookup l i ≡ some x
    → has_row i (selected p d l) ≡ true
has_row-selected p d [] i s x h ps g = cc
has_row-selected p d (r ∷ rs) i s x h ps g = elim (Bool-cases (text_eq r.id i)) [
  | inl e ↦ rw ((text_eq_iff r.id i).0 e, h, ps) (rw (lookup_id d i s h, text_eq_refl i))
  | inr e ↦
      has_row-kept i p (lookup d r.id) (selected p d rs)
        (has_row-selected p d rs i s x h ps (rw e at g))
]

pub has_row-oldest :
    (p : Submission → Bool) (d : List Submission) (i : Text) (s : Submission)
    → lookup d i ≡ some s
    → p s ≡ true
    → has_row i (sorted (selected p d d)) ≡ true
has_row-oldest p d i s h ps =
    has_row-sorted i (selected p d d) ∙ has_row-selected p d d i s s h ps h

kept-nil :
    (p : Submission → Bool) (o : Option Submission)
    → ((s : Submission) → o ≡ some s → p s ≡ false)
    → kept p o [] ≡ []
kept-nil p none h = refl
kept-nil p (some s) h = rw (h s refl)

pub selected-nil :
    (p : Submission → Bool) (d l : List Submission)
    → ((i : Text) (s : Submission) → lookup d i ≡ some s → p s ≡ false)
    → selected p d l ≡ []
selected-nil p d [] h = refl
selected-nil p d (r ∷ rs) h = rw (selected-nil p d rs h) (kept-nil p (lookup d r.id) (h r.id))

abbrev filtered : (Submission → Bool) → List Submission → List Submission
filtered p [] = []
filtered p (r ∷ rs) = if p r then r ∷ filtered p rs else filtered p rs

abbrev placed_newest : Submission → List Submission → List Submission
placed_newest x [] = x ∷ []
placed_newest x (r ∷ rs) =
    if leb r.created_at x.created_at then x ∷ r ∷ rs else r ∷ placed_newest x rs

-- The newest first.
abbrev newest : List Submission → List Submission
newest [] = []
newest (r ∷ rs) = placed_newest r (newest rs)

pub Every-filtered : (p : Submission → Bool) (rs : List Submission) → Every p (filtered p rs)
Every-filtered p [] = tt
Every-filtered p (r ∷ rs) = elim (Bool-cases (p r)) [
  | inl e ↦ rw e (e, Every-filtered p rs)
  | inr e ↦ rw e (Every-filtered p rs)
]

Every-placed :
    (p : Submission → Bool) (x : Submission) (rs : List Submission)
    → p x ≡ true
    → Every p rs
    → Every p (placed_newest x rs)
Every-placed p x [] h e = (h, tt)
Every-placed p x (r ∷ rs) h e = elim (Bool-cases (leb r.created_at x.created_at)) [
  | inl l ↦ rw l (h, e)
  | inr l ↦ rw l (e.0, Every-placed p x rs h e.1)
]

pub Every-newest : (p : Submission → Bool) (rs : List Submission) → Every p rs → Every p (newest rs)
Every-newest p [] e = tt
Every-newest p (r ∷ rs) e = Every-placed p r (newest rs) e.0 (Every-newest p rs e.1)

pub Every-take :
    (p : Submission → Bool) (n : ℕ) (rs : List Submission) → Every p rs → Every p (take n rs)
Every-take p zero rs e = tt
Every-take p (suc n) [] e = tt
Every-take p (suc n) (r ∷ rs) e = (e.0, Every-take p n rs e.1)

pub Every-drop :
    (p : Submission → Bool) (n : ℕ) (rs : List Submission) → Every p rs → Every p (drop n rs)
Every-drop p zero rs e = e
Every-drop p (suc n) [] e = tt
Every-drop p (suc n) (r ∷ rs) e = Every-drop p n rs e.1

length-placed :
    (x : Submission) (rs : List Submission) → length (placed_newest x rs) ≡ suc (length rs)
length-placed x [] = refl
length-placed x (r ∷ rs) = ground (arith, length-placed x rs)

pub length-newest : (rs : List Submission) → length (newest rs) ≡ length rs
length-newest [] = refl
length-newest (r ∷ rs) = length-placed r (newest rs) ∙ ap suc (length-newest rs)

-- A page holds what the limit leaves after the offset.
pub length-page :
    (limit offset : ℕ) (rs : List Submission)
    → length (take limit (drop offset rs)) ≡ min limit (length rs - offset)
length-page zero offset rs = omega arith
length-page (suc limit) zero [] = omega arith
length-page (suc limit) zero (r ∷ rs) = omega (arith, length-page limit zero rs)
length-page (suc limit) (suc offset) [] = omega arith
length-page (suc limit) (suc offset) (r ∷ rs) = omega (arith, length-page (suc limit) offset rs)

abbrev pub postgres : Postgres
postgres = record {
  Db = Tables;
  submission = λ d i. lookup d.rows i;
  result_of = λ d i. d.results i;
  select = λ p d. selected p d.rows d.rows;
  select_oldest = λ p d. sorted (selected p d.rows d.rows);
  count_rows = λ p d. length (filtered p d.rows);
  select_newest = λ p limit offset d. take limit (drop offset (newest (filtered p d.rows)));
  length-select_newest = λ p limit offset d.
      length-page limit offset (newest (filtered p d.rows))
      ∙ ap (λ n. min limit (n - offset)) (length-newest (filtered p d.rows));
  select_newest-Every = λ p limit offset d.
      Every-take p limit (drop offset (newest (filtered p d.rows))) (
        Every-drop p offset (newest (filtered p d.rows))
          (Every-newest p (filtered p d.rows) (Every-filtered p d.rows)));
  update = λ p f d. record d { rows = map (changed p f) d.rows };
  insert = λ r d. record d { rows = r ∷ d.rows };
  upsert_result = λ r m d. record d {
    results = λ i.
        if text_eq r.job_id i
        then some (elim (d.results i) [ none ↦ r | some old ↦ m old r ])
        else d.results i;
  };
  id-submission = λ d i s h. lookup_id d.rows i s h;
  select-nil = λ p d h. selected-nil p d.rows d.rows h;
  has_row-select = λ p d i s h ps. has_row-selected p d.rows d.rows i s s h ps h;
  has_row-select_oldest = λ p d i s h ps. has_row-oldest p d.rows i s h ps;
  submission-update = λ p f keeps d i. lookup-changed p f keeps d.rows i;
  result_of-update = λ p f d i. refl;
  submission-insert = λ r d i h. refl;
  result_of-insert = λ r d i. refl;
  submission-upsert_result = λ r m d i. refl;
  result_of-upsert_result = λ r m d i. refl;
}
