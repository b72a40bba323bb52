-- ===== src/Gateway/Pages.antt =====
-- Paging: what the pages of the dead letter queue show, and which parameters are accepted.
use distributed_code_executi.Common.{
  ℕ, zero, suc, ◌+◌, ◌-◌, ◌*◌, ◌/◌, ◌⊎◌, ◌≤◌, ◌≡◌, ◌↔◌, refl, ap, sym, ◌∙◌, some, List, [], ◌∷◌,
  ◌++◌, Text, length, drop, arith,
}
use mathlib.Core.List.{append_assoc, append-nil}
use native.Mathlib.Nat.{div-add-mod', mod-lt}
use distributed_code_executi.Gateway.Handlers.{
  QueryValue, absent, natural, other, parse_positive_integer, lrange_between, dlq_page, total_pages,
}

abbrev pub pages : ℕ → ℕ → List Text → List Text
pages zero limit entries = []
pages (suc n) limit entries = pages n limit entries ++ dlq_page (suc n) limit entries

between_drop :
    (start stop : ℕ) (xs : List Text)
    → start ≤ suc stop
    → lrange_between start stop xs ++ drop (suc stop) xs ≡ drop start xs
between_drop zero zero [] h = refl
between_drop zero zero (x ∷ xs) h = refl
between_drop zero (suc stop) [] h = refl
between_drop zero (suc stop) (x ∷ xs) h = ap (λ l. x ∷ l) (between_drop zero stop xs (omega arith))
between_drop (suc start) zero [] h = refl
between_drop (suc zero) zero (x ∷ xs) h = refl
between_drop (suc (suc start)) zero (x ∷ xs) h = absurd (omega arith)
between_drop (suc start) (suc stop) [] h = refl
between_drop (suc start) (suc stop) (x ∷ xs) h = between_drop start stop xs (omega arith)

length-between :
    (start stop : ℕ) (xs : List Text)
    → start ≤ suc stop
    → length (lrange_between start stop xs) + start ≤ suc stop
length-between zero zero [] h = omega arith
length-between zero zero (x ∷ xs) h = omega arith
length-between zero (suc stop) [] h = omega arith
length-between zero (suc stop) (x ∷ xs) h = omega (arith, length-between zero stop xs (omega arith))
length-between (suc start) zero [] h = omega arith
length-between (suc start) zero (x ∷ xs) h = omega arith
length-between (suc start) (suc stop) [] h = omega arith
length-between (suc start) (suc stop) (x ∷ xs) h =
    omega (arith, length-between start stop xs (omega arith))

drop_all : (n : ℕ) (xs : List Text) → length xs ≤ n → drop n xs ≡ []
drop_all zero [] h = refl
drop_all zero (x ∷ xs) h = absurd (omega arith)
drop_all (suc n) [] h = refl
drop_all (suc n) (x ∷ xs) h = drop_all n xs (omega arith)

-- A page of the dead letter queue has no more entries than the limit.
pub length-dlq_page :
    (page limit : ℕ) (entries : List Text)
    → 1 ≤ limit
    → length (dlq_page page limit entries) ≤ limit
unfolding dlq_page
length-dlq_page page limit entries h = omega (
  arith,
  length-between ((page - 1) * limit) ((page - 1) * limit + limit - 1) entries (omega arith),
)

page_start : (n limit : ℕ) → (suc n - 1) * limit ≡ n * limit
page_start n limit = ap (λ k. k * limit) (omega arith)

page_drop :
    (n limit : ℕ) (entries : List Text)
    → 1 ≤ limit
    → dlq_page (suc n) limit entries ++ drop (suc n * limit) entries ≡ drop (n * limit) entries
unfolding dlq_page
page_drop n limit entries h =
    ap
      (λ k.
        lrange_between ((suc n - 1) * limit) ((suc n - 1) * limit + limit - 1) entries
        ++ drop k entries)
      stop_lem
    ∙ between_drop ((suc n - 1) * limit) ((suc n - 1) * limit + limit - 1) entries (omega arith)
    ∙ ap (λ k. drop k entries) (page_start n limit)
  where
    suc_times : suc n * limit ≡ n * limit + limit
    suc_times = grind arith

    stop_lem : suc n * limit ≡ suc ((suc n - 1) * limit + limit - 1)
    stop_lem = omega (arith, suc_times, page_start n limit)

zero_times : (n : ℕ) → 0 * n ≡ 0
zero_times n = omega arith

pages-drop :
    (n limit : ℕ) (entries : List Text)
    → 1 ≤ limit
    → pages n limit entries ++ drop (n * limit) entries ≡ entries
pages-drop zero limit entries h = ap (λ k. drop k entries) (zero_times limit)
pages-drop (suc n) limit entries h =
    append_assoc (pages n limit entries) (dlq_page (suc n) limit entries)
      (drop (suc n * limit) entries)
    ∙ ap (λ l. pages n limit entries ++ l) (page_drop n limit entries h)
    ∙ pages-drop n limit entries h

-- The pages of GET /dlq, one after another, are the whole dead letter queue, each entry once and in
-- order, where the limit is positive and as many pages are read as the reply's totalPages says.
pub pages-total_pages :
    (limit : ℕ) (entries : List Text)
    → 1 ≤ limit
    → pages (total_pages (length entries) limit) limit entries ≡ entries
unfolding total_pages
pages-total_pages limit entries h =
    sym (append-nil (pages n limit entries))
    ∙ ap (λ l. pages n limit entries ++ l) (sym (drop_all (n * limit) entries enough))
    ∙ pages-drop n limit entries h
  where
    n : ℕ
    n = (length entries + limit - 1) / limit

    enough : length entries ≤ (length entries + limit - 1) / limit * limit
    enough = omega (
      arith,
      div-add-mod' (length entries + limit - 1) limit,
      mod-lt (length entries + limit - 1) h,
    )

-- A query parameter is accepted exactly when it is absent or a whole number from 1 to the maximum;
-- an absent one takes the fallback.
pub parse_positive_integer_iff :
    (v : QueryValue) (fallback max n : ℕ)
    → (parse_positive_integer v fallback max ≡ some n)
      ↔ (((v ≡ absent) × (n ≡ fallback)) ⊎ ((v ≡ natural n) × (1 ≤ n) × (n ≤ max)))
unfolding parse_positive_integer
parse_positive_integer_iff absent fallback max n = ground arith
parse_positive_integer_iff (natural k) fallback max n = ground arith
parse_positive_integer_iff other fallback max n = ground arith
