-- ===== src/Gateway/Sizes.antt =====
-- How many sockets the registry of services/api-gateway/src/streams.ts holds.
use distributed_code_executi.Common.{
  ℕ, ◌+◌, ◌≡◌, refl, ap, ◌∙◌, true, false, Option, none, some, List, [], ◌∷◌, Text, length, arith,
}
use distributed_code_executi.Gateway.Registry.{
  set_add, set_delete, Streams, map_get, map_set, map_delete, sockets_or_new, register, put_back,
  take_out, unregister, listed, registered, size,
}
use distributed_code_executi.Gateway.Sets.{length-set_add, length-set_delete}
use distributed_code_executi.Gateway.Registrations.{listed-new}

size-map_set :
    (i : Text) (set : List ℕ) (m : Streams)
    → size (map_set i set m) + length (sockets_or_new (map_get i m)) ≡ size m + length set
unfolding map_set map_get
size-map_set i set [] = omega arith
size-map_set i set ((key, old) ∷ rest) = ground (arith, size-map_set i set rest)

size-map_delete :
    (i : Text) (m : Streams)
    → size (map_delete i m) + length (sockets_or_new (map_get i m)) ≡ size m
unfolding map_delete map_get
size-map_delete i [] = omega arith
size-map_delete i ((key, old) ∷ rest) = ground (arith, size-map_delete i rest)

pub size-register :
    (job : Text) (k : ℕ) (m : Streams)
    → registered m job k ≡ false
    → size (register job k m) ≡ size m + 1
unfolding register
size-register job k m h = omega (
  arith,
  size-map_set job (set_add k (sockets_or_new (map_get job m))) m,
  length-set_add k (sockets_or_new (map_get job m)) (listed-new k (map_get job m) ∙ h),
)

size-put_back :
    (job : Text) (set : List ℕ) (m : Streams)
    → size (put_back job set m) + length (sockets_or_new (map_get job m)) ≡ size m + length set
size-put_back job [] m = omega (arith, size-map_delete job m)
size-put_back job (x ∷ xs) m = size-map_set job (x ∷ xs) m

size-take_out :
    (job : Text) (k : ℕ) (o : Option (List ℕ)) (m : Streams)
    → map_get job m ≡ o
    → listed k o ≡ true
    → size (take_out job k o m) + 1 ≡ size m
size-take_out job k none m e h = cc
size-take_out job k (some set) m e h = omega (
  arith,
  size-put_back job (set_delete k set) m,
  length-set_delete k set h,
  ap (λ o. length (sockets_or_new o)) e,
)

pub size-unregister :
    (job : Text) (k : ℕ) (m : Streams)
    → registered m job k ≡ true
    → size (unregister job k m) + 1 ≡ size m
unfolding unregister
size-unregister job k m h = size-take_out job k (map_get job m) m refl h
