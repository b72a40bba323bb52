-- ===== src/Gateway/Access.antt =====
-- The authentication hook and the allow list of services/api-gateway/src/index.ts.
use distributed_code_executi.Common.{
  ◌≡◌, ◌⊎◌, refl, Bool, true, false, not, ◌&&◌, ◌||◌, Option, none, some, [], ◌∷◌, Text, codes,
  text_eq, if◌then◌else◌, arith,
}

-- The environment variables, where they are set.
pub record Environment : Type 0 where
  pub api_key : Option Text
  pub allow_unauthenticated : Option Text
  pub node_env : Option Text

pub record Request : Type 0 where
  pub url : Text
  pub ip : Text
  -- the header x-api-key
  pub provided : Option Text

-- A handler goes on, or the reply is 500 or 401.
pub data Access : Type 0 where
  pass server_locked unauthorized : Access

-- `===` on values that may be undefined
abbrev pub same_text : Option Text → Option Text → Bool
same_text none none = true
same_text none (some b) = false
same_text (some a) none = false
same_text (some a) (some b) = text_eq a b

-- What `if (value)` finds: the empty text is false.
abbrev pub truthy : Option Text → Bool
truthy none = false
truthy (some []) = false
truthy (some (c ∷ cs)) = true

abbrev pub is_production : Environment → Bool
is_production env = same_text env.node_env (some (codes "production"))

-- ALLOW_UNAUTHENTICATED_DEV
unfoldable pub allow_unauthenticated_dev : Environment → Bool
allow_unauthenticated_dev env =
    same_text env.allow_unauthenticated (some (codes "true")) && not (is_production env)

-- The process exits before it listens.
unfoldable pub refuses_to_start : Environment → Bool
refuses_to_start env = not (truthy env.api_key) && is_production env

abbrev pub is_health : Request → Bool
is_health r = text_eq r.url (codes "/health")

unfoldable pub authenticate : Environment → Request → Access
authenticate env r =
    if is_health r
    then pass
    else if not (truthy env.api_key) && allow_unauthenticated_dev env
    then pass
    else if not (truthy env.api_key)
    then server_locked
    else if not (same_text r.provided env.api_key)
    then unauthorized
    else pass

abbrev is_some : Option Text → Bool
is_some none = false
is_some (some a) = true

-- The requests that the rate limit leaves alone.
unfoldable pub allow_listed : Environment → Request → Bool
allow_listed env r =
    is_health r
    || text_eq r.ip (codes "127.0.0.1")
    || text_eq r.ip (codes "::1")
    || (is_some env.api_key && same_text r.provided env.api_key)

-- In production, a gateway that has started lets a request pass only if it asks for /health or
-- carries the key of the server, which is not empty.
pub authenticate-production :
    (env : Environment) (r : Request)
    → is_production env ≡ true
    → refuses_to_start env ≡ false
    → authenticate env r ≡ pass
    → (is_health r ≡ true)
      ⊎ ((truthy env.api_key ≡ true) × (same_text r.provided env.api_key ≡ true))
unfolding refuses_to_start authenticate allow_unauthenticated_dev
authenticate-production env r p s a = ground arith

truthy-is_some : (o : Option Text) → truthy o ≡ true → is_some o ≡ true
truthy-is_some none h = cc
truthy-is_some (some a) h = refl

-- Where the server has a key that is not empty, no request that passes the authentication counts
-- against the rate limit: it stands on the allow list.
pub authenticate-allow_listed :
    (env : Environment) (r : Request)
    → truthy env.api_key ≡ true
    → authenticate env r ≡ pass
    → allow_listed env r ≡ true
unfolding authenticate allow_listed
authenticate-allow_listed env r k a = ground (arith, truthy-is_some env.api_key k)
