-- ===== src/Cache.antt =====
-- src/services/cache-service/in-memory-cache-service.ts. The closure's `map` is the state; `now` is
-- what `Date.now()` returns in the call.
pub mod View
mod Tests
use verifier_core.Shared.{
  ℕ, ◌+◌, String, Bool, false, Option, none, some, List, [], ltb, if◌then◌else◌,
}
use verifier_core.Shared.Dict.{lookup, insert, delete}

pub record CacheEntry {ℓ} (V : Type ℓ) : Type ℓ where
  pub value : V
  pub expires_at : Option ℕ

abbrev pub Cache {ℓ} : Type ℓ → Type ℓ
Cache V = List (String × CacheEntry V)

-- `expiresAt !== undefined && now > expiresAt`
abbrev pub is_expired : ℕ → Option ℕ → Bool
is_expired now none = false
is_expired now (some expires_at) = ltb expires_at now

-- `ttlMs !== undefined && ttlMs > 0 ? now + ttlMs : undefined`
abbrev pub expiry : ℕ → Option ℕ → Option ℕ
expiry now none = none
expiry now (some ttl_ms) = if ltb 0 ttl_ms then some (now + ttl_ms) else none

module _ {ℓ} {V : Type ℓ} where
  abbrev pub empty : Cache V
  empty = []

  -- The entry that `get` finds, and the map that it leaves.
  get_entry : ℕ → String → Option (CacheEntry V) → Cache V → Option V × Cache V
  get_entry now key none map = (none, map)
  get_entry now key (some entry) map =
      if is_expired now entry.expires_at then (none, delete key map) else (some entry.value, map)

  pub get : ℕ → String → Cache V → Option V × Cache V
  unfolding get_entry
  get now key map = get_entry now key (lookup key map) map

  pub set : ℕ → String → V → Option ℕ → Cache V → Cache V
  set now key value ttl_ms map =
      insert key (record { value = value; expires_at = expiry now ttl_ms }) map
