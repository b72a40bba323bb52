-- ===== src/Scripts/Percentiles.antt =====
-- What the numbers of calculateStats in benchmark.js say of the latencies.
use distributed_code_executi.Common.{
  ℕ, zero, suc, ◌-◌, ◌*◌, ◌/◌, ◌≤◌, ◌<◌, ◌≡◌, refl, ap, ◌∙◌, Option, some, List, [], ◌∷◌, Text, leb,
  length, arith, Bool-cases, inl, inr,
}
use distributed_code_executi.Scripts.Statistics.{
  get_elem?, insert, sort, or_number, Stats, calculate_stats,
}

-- Each number of the list is at least `b`.
abbrev pub AtLeast : ℕ → List ℕ → Type 0
AtLeast b [] = Unit {0}
AtLeast b (x ∷ xs) = (b ≤ x) × AtLeast b xs

abbrev pub IsSorted : List ℕ → Type 0
IsSorted [] = Unit {0}
IsSorted (x ∷ xs) = AtLeast x xs × IsSorted xs

AtLeast-le : (a b : ℕ) (xs : List ℕ) → a ≤ b → AtLeast b xs → AtLeast a xs
AtLeast-le a b [] h l = tt
AtLeast-le a b (x ∷ xs) h l = (omega (arith, l.0), AtLeast-le a b xs h l.1)

AtLeast-insert : (b x : ℕ) (xs : List ℕ) → b ≤ x → AtLeast b xs → AtLeast b (insert x xs)
unfolding insert
AtLeast-insert b x [] h l = (h, tt)
AtLeast-insert b x (y ∷ ys) h l = elim (Bool-cases (leb x y)) [
  | inl e ↦ rw e (h, l)
  | inr e ↦ rw e (l.0, AtLeast-insert b x ys h l.1)
]

insert-IsSorted : (x : ℕ) (xs : List ℕ) → IsSorted xs → IsSorted (insert x xs)
unfolding insert
insert-IsSorted x [] s = (tt, tt)
insert-IsSorted x (y ∷ ys) s = elim (Bool-cases (leb x y)) [
  | inl e ↦ let h : x ≤ y = ground arith in rw e ((h, AtLeast-le x y ys h s.0), s)
  | inr e ↦
      let h : y ≤ x = ground arith in rw e (AtLeast-insert y x ys h s.0, insert-IsSorted x ys s.1)
]

pub sort-IsSorted : (xs : List ℕ) → IsSorted (sort xs)
unfolding sort
sort-IsSorted [] = tt
sort-IsSorted (x ∷ xs) = insert-IsSorted x (sort xs) (sort-IsSorted xs)

AtLeast-sort : (b : ℕ) (xs : List ℕ) → AtLeast b xs → AtLeast b (sort xs)
unfolding sort
AtLeast-sort b [] l = tt
AtLeast-sort b (x ∷ xs) l = AtLeast-insert b x (sort xs) l.0 (AtLeast-sort b xs l.1)

length-insert : (x : ℕ) (xs : List ℕ) → length (insert x xs) ≡ suc (length xs)
unfolding insert
length-insert x [] = refl
length-insert x (y ∷ ys) = ground (arith, length-insert x ys)

length-sort : (xs : List ℕ) → length (sort xs) ≡ length xs
unfolding sort
length-sort [] = refl
length-sort (x ∷ xs) = length-insert x (sort xs) ∙ ap suc (length-sort xs)

-- The number at a place, which there is below the length.
unfoldable pub nth : List ℕ → ℕ → ℕ
nth [] i = 0
nth (x ∷ xs) zero = x
nth (x ∷ xs) (suc i) = nth xs i

pub get_elem?-nth : (xs : List ℕ) (i : ℕ) → i < length xs → get_elem? xs i ≡ some (nth xs i)
unfolding nth
get_elem?-nth [] i h = absurd (omega arith)
get_elem?-nth (x ∷ xs) zero h = refl
get_elem?-nth (x ∷ xs) (suc i) h = get_elem?-nth xs i (omega arith)

pub nth-AtLeast : (b : ℕ) (xs : List ℕ) (i : ℕ) → AtLeast b xs → i < length xs → b ≤ nth xs i
unfolding nth
nth-AtLeast b [] i l h = absurd (omega arith)
nth-AtLeast b (x ∷ xs) zero l h = l.0
nth-AtLeast b (x ∷ xs) (suc i) l h = nth-AtLeast b xs i l.1 (omega arith)

pub nth-le : (xs : List ℕ) (i j : ℕ) → IsSorted xs → i ≤ j → j < length xs → nth xs i ≤ nth xs j
unfolding nth
nth-le [] i j s h l = absurd (omega arith)
nth-le (x ∷ xs) zero zero s h l = omega arith
nth-le (x ∷ xs) zero (suc j) s h l = nth-AtLeast x xs j s.0 (omega arith)
nth-le (x ∷ xs) (suc i) zero s h l = absurd (omega arith)
nth-le (x ∷ xs) (suc i) (suc j) s h l = nth-le xs i j s.1 (omega arith) (omega arith)

or_number-pos : (n : ℕ) (other : Option ℕ) → 1 ≤ n → or_number (some n) other ≡ some n
or_number-pos zero other h = absurd (omega arith)
or_number-pos (suc n) other h = refl

-- The five numbers are there, and in order.
pub record InOrder (s : Stats) : Type 0 where
  pub least : ℕ
  pub half : ℕ
  pub most : ℕ
  pub rare : ℕ
  pub greatest : ℕ
  pub min_lem : s.min ≡ some least
  pub p50_lem : s.p50 ≡ some half
  pub p95_lem : s.p95 ≡ some most
  pub p99_lem : s.p99 ≡ some rare
  pub max_lem : s.max ≡ some greatest
  pub least-le-half : least ≤ half
  pub half-le-most : half ≤ most
  pub most-le-rare : most ≤ rare
  pub rare-le-greatest : rare ≤ greatest

module _ (to_fixed : ℕ → ℕ → ℕ → Text) where
  -- If some job was completed, each took at least a millisecond, and `count` is the number of
  -- latencies, then all of min, p50, p95, p99 and max are defined and stand in this order.
  pub calculate_stats-InOrder :
      (latencies : List ℕ) (total_duration : ℕ)
      → 1 ≤ length latencies
      → AtLeast 1 latencies
      → InOrder (calculate_stats to_fixed latencies total_duration (length latencies))
  unfolding calculate_stats
  calculate_stats-InOrder latencies total_duration nonempty positive = record {
    least = nth sorted 0;
    half = nth sorted (n / 2);
    most = nth sorted (n * 95 / 100);
    rare = nth sorted (n * 99 / 100);
    greatest = nth sorted (n - 1);
    min_lem = there 0 (omega arith);
    p50_lem = there (n / 2) (omega arith);
    p95_lem = kept (n * 95 / 100) (omega arith);
    p99_lem = kept (n * 99 / 100) (omega arith);
    max_lem = there (n - 1) (omega arith);
    least-le-half = below 0 (n / 2) (omega arith) (omega arith);
    half-le-most = below (n / 2) (n * 95 / 100) (omega arith) (omega arith);
    most-le-rare = below (n * 95 / 100) (n * 99 / 100) (omega arith) (omega arith);
    rare-le-greatest = below (n * 99 / 100) (n - 1) (omega arith) (omega arith);
  }
    where
      n : ℕ
      n = length latencies

      sorted : List ℕ
      sorted = sort latencies

      there : (i : ℕ) → i < n → get_elem? sorted i ≡ some (nth sorted i)
      there i h = get_elem?-nth sorted i (omega (arith, length-sort latencies))

      kept :
          (i : ℕ)
          → i < n
          → or_number (get_elem? sorted i) (get_elem? sorted (n - 1)) ≡ some (nth sorted i)
      kept i h = rw (there i h) (
          or_number-pos (nth sorted i) (get_elem? sorted (n - 1)) (
            nth-AtLeast 1 sorted i (AtLeast-sort 1 latencies positive)
              (omega (arith, length-sort latencies))))

      below : (i j : ℕ) → i ≤ j → j < n → nth sorted i ≤ nth sorted j
      below i j h l =
          nth-le sorted i j (sort-IsSorted latencies) h (omega (arith, length-sort latencies))
