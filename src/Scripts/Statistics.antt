-- ===== src/Scripts/Statistics.antt =====
-- benchmark.js: calculateStats.
use distributed_code_executi.Common.{
  ℕ, zero, suc, ◌+◌, ◌-◌, ◌*◌, ◌/◌, Option, none, some, List, [], ◌∷◌, Text, leb, if◌then◌else◌,
}

-- list[i]; `none` is `undefined`.
abbrev pub get_elem? : List ℕ → ℕ → Option ℕ
get_elem? [] i = none
get_elem? (x ∷ xs) zero = some x
get_elem? (x ∷ xs) (suc i) = get_elem? xs i

unfoldable pub insert : ℕ → List ℕ → List ℕ
insert x [] = x ∷ []
insert x (y ∷ ys) = if leb x y then x ∷ y ∷ ys else y ∷ insert x ys

-- list.sort((a, b) => a - b)
unfoldable pub sort : List ℕ → List ℕ
sort [] = []
sort (x ∷ xs) = insert x (sort xs)

-- list.reduce((a, b) => a + b, 0)
unfoldable pub sum : List ℕ → ℕ
sum [] = 0
sum (x ∷ xs) = x + sum xs

-- `||` on numbers: `undefined` and 0 give way.
abbrev pub or_number : Option ℕ → Option ℕ → Option ℕ
or_number none other = other
or_number (some zero) other = other
or_number (some (suc n)) other = some (suc n)

pub record Stats : Type 0 where
  pub throughput : Text
  pub avg : Text
  pub p50 : Option ℕ
  pub p95 : Option ℕ
  pub p99 : Option ℕ
  pub min : Option ℕ
  pub max : Option ℕ

-- `to_fixed a b d` is (a / b).toFixed(d).
module _ (to_fixed : ℕ → ℕ → ℕ → Text) where
  unfoldable pub calculate_stats : List ℕ → ℕ → ℕ → Stats
  calculate_stats latencies total_duration count =
      let sorted = sort latencies in
      record {
        throughput = to_fixed (count * 1000) total_duration 2;
        avg = to_fixed (sum sorted) count 1;
        p50 = get_elem? sorted (count / 2);
        p95 = or_number (get_elem? sorted (count * 95 / 100)) (get_elem? sorted (count - 1));
        p99 = or_number (get_elem? sorted (count * 99 / 100)) (get_elem? sorted (count - 1));
        min = get_elem? sorted 0;
        max = get_elem? sorted (count - 1);
      }
