-- ===== src/Gateway/Registrations.antt =====
-- The registry of the active streams as a set of pairs of a job and a socket.
use distributed_code_executi.Common.{
  ℕ, ◌≡◌, refl, ap, ◌∙◌, false, not, ◌&&◌, ◌||◌, Option, none, some, List, [], ◌∷◌, Text, text_eq,
  text_eq_iff, text_eq_refl, ◌==◌, arith, if◌then◌else◌, Bool-cases, inl, inr,
}
use distributed_code_executi.Gateway.Registry.{
  member, set_add, set_delete, Streams, map_get, sockets_or_new, register, put_back, take_out,
  unregister, listed, registered, Distinct, NotEmpty, IsTidy,
}
use distributed_code_executi.Gateway.Sets.{
  member-set_add, Distinct-set_add, member-set_delete, Distinct-set_delete, map_get-map_set,
  map_get-map_delete, IsTidy-map_set, IsTidy-map_delete,
}

-- What the registry holds of a job.
pub map_get-Distinct :
    (job : Text) (m : Streams) → IsTidy m → Distinct (sockets_or_new (map_get job m))
unfolding map_get
map_get-Distinct job [] t = tt
map_get-Distinct job ((key, set) ∷ rest) t = elim (Bool-cases (text_eq key job)) [
  | inl e ↦ rw e t.2
  | inr e ↦ rw e (map_get-Distinct job rest t.3)
]

pub listed-new : (j : ℕ) (o : Option (List ℕ)) → member j (sockets_or_new o) ≡ listed j o
listed-new j none = refl
listed-new j (some set) = refl

set_add-NotEmpty : (k : ℕ) (xs : List ℕ) → NotEmpty (set_add k xs)
unfolding set_add
set_add-NotEmpty k [] = tt
set_add-NotEmpty k (x ∷ xs) = elim (Bool-cases (x == k)) [ inl e ↦ rw e tt | inr e ↦ rw e tt ]

-- A connection adds its pair of a job and a socket, and no other, whatever the registry holds.
pub registered-register :
    (job : Text) (k : ℕ) (m : Streams) (j : Text) (x : ℕ)
    → registered (register job k m) j x ≡ ((text_eq job j && (k == x)) || registered m j x)
unfolding register
registered-register job k m j x =
    ap (listed x) (map_get-map_set job j (set_add k (sockets_or_new (map_get job m))) m)
    ∙ elim (Bool-cases (text_eq job j)) [
      | inl e ↦ rw e (
          member-set_add k x (sockets_or_new (map_get job m))
          ∙ ap (λ b. (k == x) || b)
              (listed-new x (map_get job m)
                ∙ ap (λ i. listed x (map_get i m)) ((text_eq_iff job j).0 e)))
      | inr e ↦ rw e
    ]

pub register-IsTidy : (job : Text) (k : ℕ) (m : Streams) → IsTidy m → IsTidy (register job k m)
unfolding register
register-IsTidy job k m t =
    IsTidy-map_set job (set_add k (sockets_or_new (map_get job m))) m
      (set_add-NotEmpty k (sockets_or_new (map_get job m)))
      (Distinct-set_add k (sockets_or_new (map_get job m)) (map_get-Distinct job m t)) t

put_back-IsTidy :
    (job : Text) (set : List ℕ) (m : Streams)
    → Distinct set
    → IsTidy m
    → IsTidy (put_back job set m)
put_back-IsTidy job [] m d t = IsTidy-map_delete job m t
put_back-IsTidy job (x ∷ xs) m d t = IsTidy-map_set job (x ∷ xs) m tt d t

take_out-IsTidy :
    (job : Text) (k : ℕ) (o : Option (List ℕ)) (m : Streams)
    → Distinct (sockets_or_new o)
    → IsTidy m
    → IsTidy (take_out job k o m)
take_out-IsTidy job k none m d t = t
take_out-IsTidy job k (some set) m d t =
    put_back-IsTidy job (set_delete k set) m (Distinct-set_delete k set d) t

pub unregister-IsTidy : (job : Text) (k : ℕ) (m : Streams) → IsTidy m → IsTidy (unregister job k m)
unfolding unregister
unregister-IsTidy job k m t = take_out-IsTidy job k (map_get job m) m (map_get-Distinct job m t) t

registered-put_back :
    (job : Text) (set : List ℕ) (m : Streams) (j : Text) (x : ℕ)
    → IsTidy m
    → registered (put_back job set m) j x
      ≡ (if text_eq job j then member x set else registered m j x)
registered-put_back job [] m j x t = ap (listed x) (map_get-map_delete job j m t) ∙ ground arith
registered-put_back job (y ∷ ys) m j x t =
    ap (listed x) (map_get-map_set job j (y ∷ ys) m) ∙ ground arith

registered-take_out :
    (job : Text) (k : ℕ) (o : Option (List ℕ)) (m : Streams) (j : Text) (x : ℕ)
    → IsTidy m
    → Distinct (sockets_or_new o)
    → map_get job m ≡ o
    → registered (take_out job k o m) j x ≡ (registered m j x && not (text_eq job j && (k == x)))
registered-take_out job k none m j x t d e = ground (arith, text_eq_iff job j)
registered-take_out job k (some set) m j x t d e =
    registered-put_back job (set_delete k set) m j x t
    ∙ ground (arith, text_eq_iff job j, member-set_delete k x set d)

-- The end of a connection takes away its pair of a job and a socket, and no other.
pub registered-unregister :
    (job : Text) (k : ℕ) (m : Streams) (j : Text) (x : ℕ)
    → IsTidy m
    → registered (unregister job k m) j x ≡ (registered m j x && not (text_eq job j && (k == x)))
unfolding unregister
registered-unregister job k m j x t =
    registered-take_out job k (map_get job m) m j x t (map_get-Distinct job m t) refl

-- A registry that keeps its shape and in which no socket follows a job is empty: nothing leaks.
pub registered-nil :
    (m : Streams) → IsTidy m → ((j : Text) (x : ℕ) → registered m j x ≡ false) → m ≡ []
unfolding map_get
registered-nil [] t h = refl
registered-nil ((key, []) ∷ rest) t h = absurd t.1
registered-nil ((key, y ∷ ys) ∷ rest) t h = ground (arith, h key y, text_eq_refl key)

-- The registry of the gateway does what a set of pairs of a job and a socket does: where every job
-- stands in it once with a set that is not empty, which both operations keep so, to register adds
-- just the pair, and to unregister takes away just the pair.
pub registry_refines :
    (job : Text) (k : ℕ) (m : Streams)
    → IsTidy m
    → IsTidy (register job k m)
      × IsTidy (unregister job k m)
      × ((j : Text) (x : ℕ)
          → registered (register job k m) j x ≡ ((text_eq job j && (k == x)) || registered m j x))
      × ((j : Text) (x : ℕ)
          → registered (unregister job k m) j x
            ≡ (registered m j x && not (text_eq job j && (k == x))))
registry_refines job k m t = (
  register-IsTidy job k m t,
  unregister-IsTidy job k m t,
  λ j x. registered-register job k m j x,
  λ j x. registered-unregister job k m j x t,
)
