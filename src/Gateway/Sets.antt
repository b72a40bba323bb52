-- ===== src/Gateway/Sets.antt =====
-- The sets and the map that services/api-gateway/src/streams.ts stands on.
use distributed_code_executi.Common.{
  ℕ, ◌+◌, ◌≡◌, refl, ◌∙◌, true, false, not, ◌&&◌, ◌||◌, none, some, List, [], ◌∷◌, Text, text_eq,
  text_eq_iff, ◌==◌, length, arith, if◌then◌else◌, Bool-cases, inl, inr,
}
use distributed_code_executi.Gateway.Registry.{
  member, set_add, set_delete, Streams, map_get, map_set, map_delete, Distinct, has_key, NotEmpty,
  IsTidy,
}

pub member-set_add : (k j : ℕ) (xs : List ℕ) → member j (set_add k xs) ≡ ((k == j) || member j xs)
unfolding set_add
member-set_add k j [] = refl
member-set_add k j (x ∷ xs) = ground (arith, member-set_add k j xs)

pub Distinct-set_add : (k : ℕ) (xs : List ℕ) → Distinct xs → Distinct (set_add k xs)
unfolding set_add
Distinct-set_add k [] h = (refl, tt)
Distinct-set_add k (x ∷ xs) h = ground (arith, member-set_add k x xs, Distinct-set_add k xs h.1)

pub member-set_delete :
    (k j : ℕ) (xs : List ℕ)
    → Distinct xs
    → member j (set_delete k xs) ≡ (member j xs && not (k == j))
unfolding set_delete
member-set_delete k j [] h = refl
member-set_delete k j (x ∷ xs) h = ground (arith, member-set_delete k j xs h.1)

pub Distinct-set_delete : (k : ℕ) (xs : List ℕ) → Distinct xs → Distinct (set_delete k xs)
unfolding set_delete
Distinct-set_delete k [] h = tt
Distinct-set_delete k (x ∷ xs) h =
    ground (arith, member-set_delete k x xs h.1, Distinct-set_delete k xs h.1)

pub length-set_add :
    (k : ℕ) (xs : List ℕ) → member k xs ≡ false → length (set_add k xs) ≡ length xs + 1
unfolding set_add
length-set_add k [] h = omega arith
length-set_add k (x ∷ xs) h = ground (arith, length-set_add k xs)

pub length-set_delete :
    (k : ℕ) (xs : List ℕ) → member k xs ≡ true → length (set_delete k xs) + 1 ≡ length xs
unfolding set_delete
length-set_delete k [] h = cc
length-set_delete k (x ∷ xs) h = ground (arith, length-set_delete k xs)

pub map_get-map_set :
    (i j : Text) (set : List ℕ) (m : Streams)
    → map_get j (map_set i set m) ≡ (if text_eq i j then some set else map_get j m)
unfolding map_get map_set
map_get-map_set i j set [] = refl
map_get-map_set i j set ((key, old) ∷ rest) =
    ground
      (arith, text_eq_iff key i, text_eq_iff key j, text_eq_iff i j, map_get-map_set i j set rest)

pub has_key-map_get : (j : Text) (m : Streams) → has_key j m ≡ false → map_get j m ≡ none
unfolding map_get
has_key-map_get j [] h = refl
has_key-map_get j ((key, set) ∷ rest) h = ground (arith, has_key-map_get j rest)

pub map_get-map_delete :
    (i j : Text) (m : Streams)
    → IsTidy m
    → map_get j (map_delete i m) ≡ (if text_eq i j then none else map_get j m)
unfolding map_get map_delete
map_get-map_delete i j [] t = ground arith
map_get-map_delete i j ((key, set) ∷ rest) t = ground (
  arith,
  text_eq_iff key i,
  text_eq_iff key j,
  text_eq_iff i j,
  has_key-map_get key rest,
  map_get-map_delete i j rest t.3,
)

pub has_key-map_set :
    (j i : Text) (set : List ℕ) (m : Streams)
    → has_key j (map_set i set m) ≡ (text_eq i j || has_key j m)
unfolding map_set
has_key-map_set j i set [] = refl
has_key-map_set j i set ((key, old) ∷ rest) =
    ground
      (arith, text_eq_iff key i, text_eq_iff key j, text_eq_iff i j, has_key-map_set j i set rest)

pub has_key-map_delete :
    (j i : Text) (m : Streams) → has_key j m ≡ false → has_key j (map_delete i m) ≡ false
unfolding map_delete
has_key-map_delete j i [] h = refl
has_key-map_delete j i ((key, old) ∷ rest) h = ground (arith, has_key-map_delete j i rest)

pub IsTidy-map_set :
    (i : Text) (set : List ℕ) (m : Streams)
    → NotEmpty set
    → Distinct set
    → IsTidy m
    → IsTidy (map_set i set m)
unfolding map_set
IsTidy-map_set i set [] n d t = (refl, n, d, tt)
IsTidy-map_set i set ((key, old) ∷ rest) n d t = elim (Bool-cases (text_eq key i)) [
  | inl e ↦ rw e (t.0, n, d, t.3)
  | inr e ↦ rw e (
    has_key-map_set key i set rest ∙ ground (arith, text_eq_iff key i, text_eq_iff i key, t.0),
    t.1,
    t.2,
    IsTidy-map_set i set rest n d t.3,
  )
]

pub IsTidy-map_delete : (i : Text) (m : Streams) → IsTidy m → IsTidy (map_delete i m)
unfolding map_delete
IsTidy-map_delete i [] t = tt
IsTidy-map_delete i ((key, old) ∷ rest) t = elim (Bool-cases (text_eq key i)) [
  | inl e ↦ rw e t.3
  | inr e ↦ rw e (has_key-map_delete key i rest t.0, t.1, t.2, IsTidy-map_delete i rest t.3)
]
