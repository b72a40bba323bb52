-- ===== src/Gateway/Registry.antt =====
-- services/api-gateway/src/streams.ts: the map of the active streams, from a job to the set of its
-- sockets, and what the WebSocket route does with it.
use distributed_code_executi.Common.{
  ℕ, ◌+◌, ◌≡◌, Bool, false, ◌||◌, Option, none, some, List, [], ◌∷◌, Text, text_eq, ◌==◌, length,
  if◌then◌else◌,
}

-- A `Set` of sockets, in the order of insertion.
abbrev pub member : ℕ → List ℕ → Bool
member k [] = false
member k (x ∷ xs) = (x == k) || member k xs

unfoldable pub set_add : ℕ → List ℕ → List ℕ
set_add k [] = k ∷ []
set_add k (x ∷ xs) = if x == k then x ∷ xs else x ∷ set_add k xs

unfoldable pub set_delete : ℕ → List ℕ → List ℕ
set_delete k [] = []
set_delete k (x ∷ xs) = if x == k then xs else x ∷ set_delete k xs

abbrev pub Streams : Type 0
Streams = List (Text × List ℕ)

unfoldable pub map_get : Text → Streams → Option (List ℕ)
map_get job [] = none
map_get job ((key, sockets) ∷ rest) = if text_eq key job then some sockets else map_get job rest

unfoldable pub map_set : Text → List ℕ → Streams → Streams
map_set job sockets [] = (job, sockets) ∷ []
map_set job sockets ((key, old) ∷ rest) =
    if text_eq key job then (key, sockets) ∷ rest else (key, old) ∷ map_set job sockets rest

unfoldable pub map_delete : Text → Streams → Streams
map_delete job [] = []
map_delete job ((key, sockets) ∷ rest) =
    if text_eq key job then rest else (key, sockets) ∷ map_delete job rest

abbrev pub sockets_or_new : Option (List ℕ) → List ℕ
sockets_or_new none = []
sockets_or_new (some sockets) = sockets

-- A new connection.
unfoldable pub register : Text → ℕ → Streams → Streams
register job socket streams =
    map_set job (set_add socket (sockets_or_new (map_get job streams))) streams

abbrev pub put_back : Text → List ℕ → Streams → Streams
put_back job [] streams = map_delete job streams
put_back job (x ∷ xs) streams = map_set job (x ∷ xs) streams

abbrev pub take_out : Text → ℕ → Option (List ℕ) → Streams → Streams
take_out job socket none streams = streams
take_out job socket (some sockets) streams = put_back job (set_delete socket sockets) streams

-- The end of a connection: the last socket of a job takes the job with it.
unfoldable pub unregister : Text → ℕ → Streams → Streams
unregister job socket streams = take_out job socket (map_get job streams) streams

abbrev pub listed : ℕ → Option (List ℕ) → Bool
listed socket none = false
listed socket (some sockets) = member socket sockets

-- The abstract view: which socket follows which job.
abbrev pub registered : Streams → Text → ℕ → Bool
registered streams job socket = listed socket (map_get job streams)

-- No member twice.
abbrev pub Distinct : List ℕ → Type 0
Distinct [] = Unit {0}
Distinct (x ∷ xs) = (member x xs ≡ false) × Distinct xs

-- Every key once, and under it a set that is not empty.
abbrev pub has_key : Text → Streams → Bool
has_key job [] = false
has_key job ((key, sockets) ∷ rest) = text_eq key job || has_key job rest

abbrev pub NotEmpty : List ℕ → Type 0
NotEmpty [] = ⊥
NotEmpty (x ∷ xs) = Unit {0}

abbrev pub IsTidy : Streams → Type 0
IsTidy [] = Unit {0}
IsTidy ((key, sockets) ∷ rest) =
    (has_key key rest ≡ false) × NotEmpty sockets × Distinct sockets × IsTidy rest

-- How many sockets are registered.
abbrev pub size : Streams → ℕ
size [] = 0
size ((key, sockets) ∷ rest) = length sockets + size rest
