-- ===== src/Cache/View.antt =====
-- src/services/cache-service/in-memory-cache-service.ts: the cache as a function of time, in which
-- the lazy removal of expired entries cannot be seen.
use verifier_core.Shared.{
  ℕ, ◌+◌, ◌≤◌, String, Bool, true, not, ◌||◌, nat_eq, leb, Option, none, some, if◌then◌else◌, ◌≡◌,
  refl, arith, ◌==◌, eq_iff, Bool-cases, inl, inr,
}
use verifier_core.Shared.Dict.{lookup, delete, lookup-insert, lookup-delete}
use mathlib.Core.Path.{subst}
use verifier_core.Cache.{CacheEntry, Cache, is_expired, get_entry, get, set}

-- Whether a value stored at `now` is still there at `later`: for ever without a time to live or with one of zero, and
-- else up to the instant at which it has passed, that instant included.
abbrev lives : ℕ → Option ℕ → ℕ → Bool
lives now none later = true
lives now (some ttl_ms) later = nat_eq ttl_ms 0 || leb later (now + ttl_ms)

-- The instant at which an entry expires has not passed.
abbrev is_current : ℕ → Option ℕ → Bool
is_current now none = true
is_current now (some expires_at) = leb now expires_at

is_current-is_expired :
    (now : ℕ) (expires_at : Option ℕ) → is_current now expires_at ≡ not (is_expired now expires_at)
is_current-is_expired now none = refl
is_current-is_expired now (some t) = ground arith

is_expired_later :
    (now later : ℕ) (expires_at : Option ℕ)
    → now ≤ later
    → is_expired now expires_at ≡ true
    → is_expired later expires_at ≡ true
is_expired_later now later none h e = e
is_expired_later now later (some t) h e = ground arith

module _ {ℓ} {V : Type ℓ} where
  live : ℕ → Option (CacheEntry V) → Option V
  live now none = none
  live now (some entry) = if is_current now entry.expires_at then some entry.value else none

  -- What a reader finds under `key` at the time `now`.
  pub view : Cache V → ℕ → String → Option V
  unfolding live
  view map now key = live now (lookup key map)

  -- `get` answers what the view holds.
  get-view : (now : ℕ) (key : String) (map : Cache V) → (get now key map).0 ≡ view map now key
  unfolding get view
  get-view now key map = ground (arith, is_current-is_expired now)

  -- `set` changes the view at its key alone: there it holds the value until the time to live, if it is
  -- positive, has passed, and for ever if there is none.
  view-set :
      (now later : ℕ) (key j : String) (value : V) (ttl_ms : Option ℕ) (map : Cache V)
      → view (set now key value ttl_ms map) later j ≡ (
          if key == j
          then (if lives now ttl_ms later then some value else none)
          else view map later j)
  unfolding set view
  view-set now later key j value ttl_ms map = rw lookup-insert (ground arith)

  view-delete :
      (later : ℕ) (key j : String) (entry : CacheEntry V) (map : Cache V)
      → lookup key map ≡ some entry
      → is_expired later entry.expires_at ≡ true
      → view (delete key map) later j ≡ view map later j
  unfolding view
  view-delete later key j entry map found expired = elim (Bool-cases (key == j)) [
    | inl same ↦
        let here : lookup j map ≡ some entry =
          subst (λ k. lookup k map ≡ some entry) ((eq_iff key j).0 same) found in
        rw (lookup-delete, same, here, is_current-is_expired later entry.expires_at, expired)
    | inr other ↦ rw (lookup-delete, other)
  ]

  view-get_entry :
      (now later : ℕ) (key j : String) (found : Option (CacheEntry V)) (map : Cache V)
      → now ≤ later
      → lookup key map ≡ found
      → view (get_entry now key found map).1 later j ≡ view map later j
  unfolding get_entry
  view-get_entry now later key j none map h e = refl
  view-get_entry now later key j (some entry) map h e =
      elim (Bool-cases (is_expired now entry.expires_at)) [
        | inl expired ↦ rw expired (
            view-delete later key j entry map e
              (is_expired_later now later entry.expires_at h expired))
        | inr alive ↦ rw alive
      ]

  -- `get` changes the view at no later time.
  view-get :
      (now later : ℕ) (key j : String) (map : Cache V)
      → now ≤ later
      → view (get now key map).1 later j ≡ view map later j
  unfolding get
  view-get now later key j map h = view-get_entry now later key j (lookup key map) map h refl

  -- The cache refines the view: reading is the view at that time, writing changes one key of it, and
  -- a read, which may drop an expired entry, is invisible at every later time.
  pub record Refines (map : Cache V) : Type ℓ where
    pub reads : (now : ℕ) (key : String) → (get now key map).0 ≡ view map now key
    pub writes :
        (now later : ℕ) (key j : String) (value : V) (ttl_ms : Option ℕ)
        → view (set now key value ttl_ms map) later j ≡ (
            if key == j
            then (if lives now ttl_ms later then some value else none)
            else view map later j)
    pub forgets :
        (now later : ℕ) (key j : String)
        → now ≤ later
        → view (get now key map).1 later j ≡ view map later j

-- The cache refines its view: every read answers it, every write changes it at one key, until more than
-- its time to live has passed since the write (for ever, where that is absent or zero), and no read, though it drops an expired entry, changes it at a later time.
pub cache-Refines {ℓ} : {V : Type ℓ} (map : Cache V) → Refines map
cache-Refines map = record {
  reads = λ now key. get-view now key map;
  writes = λ now later key j value ttl_ms. view-set now later key j value ttl_ms map;
  forgets = λ now later key j h. view-get now later key j map h;
}
