-- ===== src/Examples/Server.antt =====
-- A small Redis server that keeps the laws of the parameter: a function for the lists, a function
-- for the strings, and the keys ever written.
use distributed_code_executi.Common.{
  ◌≡◌, ◌≢◌, refl, ap, ◌∙◌, false, Option, none, some, inl, inr, List, [], ◌∷◌, ◌++◌, Text, text_eq,
  text_eq_iff, Bool-cases, if◌then◌else◌,
}
use distributed_code_executi.Services.{RedisServer, remove_first}
use distributed_code_executi.Jobs.Queues.{split_last}
use distributed_code_executi.Worker.Verdict.{starts_with}

pub record Store : Type 0 where
  pub lists : Text → List Text
  pub strings : Text → Option Text
  pub keys : List Text

abbrev on_list : Text → (List Text → List Text) → Store → Store
on_list k f r = record r {
  lists = λ j. if text_eq k j then f (r.lists j) else r.lists j;
  keys = k ∷ r.keys;
}

abbrev moved : Text → Text → Option (List Text × Text) → Store → Store
moved src dst none r = r
moved src dst (some (xs, v)) r = record r {
  lists = λ j. if text_eq src j then xs else if text_eq dst j then v ∷ r.lists j else r.lists j;
  keys = dst ∷ r.keys;
}

abbrev without : Text → List Text → List Text
without k [] = []
without k (x ∷ xs) = if text_eq k x then without k xs else x ∷ without k xs

abbrev matching : Text → List Text → List Text
matching prefix [] = []
matching prefix (x ∷ xs) =
    if starts_with prefix x then x ∷ matching prefix xs else matching prefix xs

pub split_last-append : (xs : List Text) (v : Text) → split_last (xs ++ v ∷ []) ≡ some (xs, v)
unfolding split_last
split_last-append [] v = refl
split_last-append (x ∷ xs) v = rw (split_last-append xs v)

text_eq_of_ne : (k j : Text) → k ≢ j → text_eq k j ≡ false
text_eq_of_ne k j h = elim (Bool-cases (text_eq k j)) [
  | inl e ↦ absurd (h ((text_eq_iff k j).0 e))
  | inr e ↦ e
]

abbrev pub server : RedisServer
server = record {
  Store = Store;
  lrange = λ r k. r.lists k;
  lpush = λ k v r. on_list k (λ xs. v ∷ xs) r;
  lrem = λ k v r. on_list k (remove_first v) r;
  rpoplpush = λ src dst r. moved src dst (split_last (r.lists src)) r;
  del = λ k r. record {
    lists = λ j. if text_eq k j then [] else r.lists j;
    strings = λ j. if text_eq k j then none else r.strings j;
    keys = without k r.keys;
  };
  get = λ r k. r.strings k;
  set = λ k v ttl r. record r {
    strings = λ j. if text_eq k j then some v else r.strings j;
    keys = k ∷ r.keys;
  };
  xadd = λ k n v r. record r { keys = k ∷ r.keys };
  expire = λ k n r. r;
  scan_pages = λ r prefix. matching prefix r.keys ∷ [];
  lrange-lpush = λ k v r j. refl;
  lrange-lrem = λ k v r j. refl;
  lrange-rpoplpush = λ src dst v xs r j ne e.
      ap (λ o. (moved src dst o r).lists j) (ap split_last e ∙ split_last-append xs v);
  lrange-del = λ k r j. refl;
  lrange-set = λ k v ttl r j ne. refl;
  lrange-xadd = λ k n v r j. refl;
  lrange-expire = λ k n r j. refl;
  get-set = λ k v ttl r j. refl;
  get-del = λ k r j. refl;
  get-lpush = λ k v r j ne. refl;
}
