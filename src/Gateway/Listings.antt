-- ===== src/Gateway/Listings.antt =====
-- The listing route GET /submissions of services/api-gateway/src/routes/submissions.ts.
use distributed_code_executi.Common.{
  ℕ, suc, ◌+◌, ◌-◌, ◌*◌, ◌/◌, ◌%◌, ◌≤◌, ◌<◌, ◌⊎◌, min, ◌≡◌, ◌↔◌, refl, ap, ◌∙◌, true, Option, none,
  some, List, [], ◌∷◌, map, length, arith, inl, inr,
}
use native.Mathlib.Nat.{div-add-mod', mod-lt}
use distributed_code_executi.Contracts.{SubmissionStatus, status_eq}
use distributed_code_executi.Services.{Services, State, Submission, returned, Every}
use distributed_code_executi.Services.Effects.{◌>>=◌, call}
use distributed_code_executi.Services.Triples.{at}
use distributed_code_executi.Gateway.Handlers.{natural, total_pages}
use distributed_code_executi.Gateway.Pages.{parse_positive_integer_iff}
use distributed_code_executi.Gateway.Routes.{
  Summary, summary_of, Page, listing, status_filter, list_submissions,
}

length-map : (rows : List Submission) → length (map summary_of rows) ≡ length rows
length-map [] = refl
length-map (r ∷ rs) = ap suc (length-map rs)

-- Every submission of a page has the status that was asked for.
abbrev pub AllHave : Option SubmissionStatus → List Summary → Type 0
AllHave none items = Unit {0}
AllHave (some status) [] = Unit {0}
AllHave (some status) (x ∷ xs) = (status_eq x.status status ≡ true) × AllHave (some status) xs

map-AllHave :
    (status : Option SubmissionStatus) (rows : List Submission)
    → Every (status_filter status) rows
    → AllHave status (map summary_of rows)
map-AllHave none rows e = tt
map-AllHave (some status) [] e = tt
map-AllHave (some status) (r ∷ rs) e = (e.0, map-AllHave (some status) rs e.1)

times_mono : (a b l : ℕ) → a ≤ b → a * l ≤ b * l
times_mono a b l h = grind arith

times_suc : (a l : ℕ) → suc a * l ≡ a * l + l
times_suc a l = grind arith

le_or_lt : (a b : ℕ) → (a ≤ b) ⊎ (suc b ≤ a)
le_or_lt a b = ground arith

-- A page has something on it just when it is one of the pages that were announced.
page_filled :
    (n l total : ℕ) → 1 ≤ n → 1 ≤ l → (1 ≤ min l (total - (n - 1) * l)) ↔ (n ≤ total_pages total l)
unfolding total_pages
page_filled n l total hn hl = (
  λ h. elim (le_or_lt n ((total + l - 1) / l)) [
    | inl below ↦ below
    | inr past ↦ absurd (
        omega
          (arith, h, whole, rest, times_mono ((total + l - 1) / l) (n - 1) l (omega (arith, past))))
  ],
  λ h. omega (
    arith,
    whole,
    rest,
    times_suc (n - 1) l,
    times_mono (suc (n - 1)) ((total + l - 1) / l) l (omega (arith, h, hn)),
  ),
)
  where
    whole : (total + l - 1) / l * l + (total + l - 1) % l ≡ total + l - 1
    whole = div-add-mod' (total + l - 1) l

    rest : (total + l - 1) % l < l
    rest = mod-lt (total + l - 1) hl

module _ ⦃S : Services⦄ where
  -- If no call fails, GET /submissions with a page and a limit that are accepted replies with a
  -- page: it holds what the limit leaves of the matching submissions after those of the pages
  -- before; it is not empty just when it is one of totalPages; and every submission on it has the
  -- status that was asked for, if one was.
  pub list_submissions_lem :
      (n l : ℕ) (status : Option SubmissionStatus) (s : State)
      → 1 ≤ n
      → n ≤ 9007199254740991
      → 1 ≤ l
      → l ≤ 100
      → (p : Page Summary) × (list_submissions (natural n) (natural l) status (at s [])
          ≡ (returned (listing p), at s []))
        × (length p.items ≡ min l (p.total - (n - 1) * l))
        × ((1 ≤ length p.items) ↔ (n ≤ p.total_pages))
        × AllHave status p.items
  unfolding list_submissions call ◌>>=◌
  list_submissions_lem n l status s n1 n2 l1 l2 =
      let rows = S.select_newest (status_filter status) l ((n - 1) * l) s.db in
      let total = S.count_rows (status_filter status) s.db in
      let many =
        length-map rows ∙ S.length-select_newest (status_filter status) l ((n - 1) * l) s.db in
      (
        record {
          total = total;
          page = n;
          limit = l;
          total_pages = total_pages total l;
          items = map summary_of rows;
        },
        rw
            (
              (parse_positive_integer_iff (natural n) 1 9007199254740991 n).1 (inr (refl, n1, n2)),
              (parse_positive_integer_iff (natural l) 10 100 l).1 (inr (refl, l1, l2)),
            )
            refl,
        many,
        rw many (page_filled n l total n1 l1),
        map-AllHave status rows (S.select_newest-Every (status_filter status) l ((n - 1) * l) s.db),
      )
