-- ===== src/Services/Server.antt =====
-- The Redis commands that the services send, and the JSON codec of the payloads.
use distributed_code_executi.Common.{
  ℕ, ◌≡◌, ◌≢◌, Option, none, some, List, [], ◌∷◌, ◌++◌, Text, text_eq, if◌then◌else◌,
}
use distributed_code_executi.Contracts.{QueuePayload, DlqPayload, StreamChunk}
use distributed_code_executi.Services.Tables.{Postgres}

-- What LREM key 1 value leaves of a list.
unfoldable pub remove_first : Text → List Text → List Text
remove_first v [] = []
remove_first v (x ∷ xs) = if text_eq x v then xs else x ∷ remove_first v xs

-- The head of a list is its left end, where LPUSH writes and from which LREM with count 1 looks.
pub record RedisServer : Type 1 where
  pub Store : Type 0
  -- LRANGE key 0 -1
  pub lrange : Store → Text → List Text
  pub lpush : Text → Text → Store → Store
  -- LREM key 1 value
  pub lrem : Text → Text → Store → Store
  -- what RPOPLPUSH leaves when the source is not empty
  pub rpoplpush : Text → Text → Store → Store
  pub del : Text → Store → Store
  -- GET key
  pub get : Store → Text → Option Text
  -- SET key value, with or without a time to live in milliseconds
  pub set : Text → Text → Option ℕ → Store → Store
  -- XADD key MAXLEN ~ count * payload value
  pub xadd : Text → ℕ → Text → Store → Store
  -- EXPIRE key seconds
  pub expire : Text → ℕ → Store → Store
  -- the pages of a whole SCAN … MATCH pattern*
  pub scan_pages : Store → Text → List (List Text)
  pub lrange-lpush :
      (k v : Text) (r : Store) (j : Text)
      → lrange (lpush k v r) j ≡ (if text_eq k j then v ∷ lrange r j else lrange r j)
  pub lrange-lrem :
      (k v : Text) (r : Store) (j : Text)
      → lrange (lrem k v r) j ≡ (if text_eq k j then remove_first v (lrange r j) else lrange r j)
  pub lrange-rpoplpush :
      (src dst v : Text) (xs : List Text) (r : Store) (j : Text)
      → src ≢ dst
      → lrange r src ≡ xs ++ v ∷ []
      → lrange (rpoplpush src dst r) j
        ≡ (if text_eq src j then xs else if text_eq dst j then v ∷ lrange r j else lrange r j)
  pub lrange-del :
      (k : Text) (r : Store) (j : Text)
      → lrange (del k r) j ≡ (if text_eq k j then [] else lrange r j)
  pub lrange-set :
      (k v : Text) (ttl : Option ℕ) (r : Store) (j : Text)
      → k ≢ j
      → lrange (set k v ttl r) j ≡ lrange r j
  pub lrange-xadd :
      (k : Text) (n : ℕ) (v : Text) (r : Store) (j : Text) → lrange (xadd k n v r) j ≡ lrange r j
  pub lrange-expire :
      (k : Text) (n : ℕ) (r : Store) (j : Text) → lrange (expire k n r) j ≡ lrange r j
  pub get-set :
      (k v : Text) (ttl : Option ℕ) (r : Store) (j : Text)
      → get (set k v ttl r) j ≡ (if text_eq k j then some v else get r j)
  pub get-del :
      (k : Text) (r : Store) (j : Text) → get (del k r) j ≡ (if text_eq k j then none else get r j)
  pub get-lpush : (k v : Text) (r : Store) (j : Text) → k ≢ j → get (lpush k v r) j ≡ get r j

-- JSON.stringify and JSON.parse at the payloads, Date.prototype.toISOString and Date.parse.
pub record Json : Type 0 where
  pub stringify_job : QueuePayload → Text
  pub parse_job : Text → Option QueuePayload
  pub stringify_dlq : DlqPayload → Text
  pub stringify_chunk : StreamChunk → Text
  pub iso : ℕ → Text
  -- Date.parse
  pub parse_date : Text → ℕ
  pub parse_chunk : Text → Option StreamChunk
  pub parse_dlq : Text → Option DlqPayload
  pub parse-stringify_chunk : (c : StreamChunk) → parse_chunk (stringify_chunk c) ≡ some c
  pub parse-stringify_dlq : (p : DlqPayload) → parse_dlq (stringify_dlq p) ≡ some p
  pub parse-stringify : (job : QueuePayload) → parse_job (stringify_job job) ≡ some job

pub record Services : Type 1 where
  pub postgres : Postgres
  pub open postgres use *
  pub server : RedisServer
  pub open server use *
  pub json : Json
  pub open json use *
