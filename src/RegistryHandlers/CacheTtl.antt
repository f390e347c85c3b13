-- ===== src/RegistryHandlers/CacheTtl.antt =====
-- src/services/registry-handlers/cache-ttl.ts. The regular expression of `max-age` is written out as a scan
-- of the text. `Number.parseInt` is exact up to the range of a double, beyond which a number is infinite; the rounding
-- of numbers from 2^53 on is left out.
use Prim.Native.Char.{Char, code}
use Prim.Native.Nat.{◌^◌}
use verifier_core.Shared.{
  ℕ, ◌+◌, ◌*◌, ◌-◌, ◌≤◌, ◌≡◌, refl, String, Bool, false, not, ◌&&◌, ◌||◌, Option, none, some, List,
  [], ◌∷◌, arith, nat_eq, ltb, leb, is_nonempty, if◌then◌else◌,
}
use verifier_core.Json.{Json, str}
use verifier_core.Types.{Platform, Headers}

abbrev pub default_ttl_ms : ℕ
default_ttl_ms = 3600000

abbrev is_between : ℕ → ℕ → ℕ → Bool
is_between low high n = leb low n && leb n high

abbrev pub is_digit : Char → Bool
is_digit c = is_between b'0' b'9' (code c)

-- `\w`
abbrev is_word : Char → Bool
is_word c =
    is_digit c
    || is_between b'a' b'z' (code c)
    || is_between b'A' b'Z' (code c)
    || nat_eq (code c) b'_'

-- `\s`
abbrev pub is_space : Char → Bool
is_space c =
    is_between 9 13 (code c)
    || nat_eq (code c) 32
    || nat_eq (code c) 160
    || nat_eq (code c) 5760
    || is_between 8192 8202 (code c)
    || nat_eq (code c) 8232
    || nat_eq (code c) 8233
    || nat_eq (code c) 8239
    || nat_eq (code c) 8287
    || nat_eq (code c) 12288
    || nat_eq (code c) 65279

abbrev lower : Char → ℕ
lower c = if is_between b'A' b'Z' (code c) then code c + 32 else code c

-- What follows a word in lower case, whatever case the text has.
after_word : String → String → Option String
after_word String.[] s = some s
after_word (String.◌∷◌ p ps) String.[] = none
after_word (String.◌∷◌ p ps) (String.◌∷◌ c s) =
    let rest = after_word ps s in if nat_eq (lower c) (code p) then rest else none

unfoldable pub skip_spaces : String → String
skip_spaces String.[] = String.[]
skip_spaces (String.◌∷◌ c s) =
    let rest = skip_spaces s in if is_space c then rest else String.◌∷◌ c s

-- The digits that follow the given ones, up to a `\b`.
more_digits : ℕ → String → Option ℕ
more_digits value String.[] = some value
more_digits value (String.◌∷◌ c s) =
    let rest = more_digits (value * 10 + (code c - b'0')) s in
    if is_digit c then rest else if is_word c then none else some value

-- `(\d+)\b`
digits : String → Option ℕ
unfolding more_digits
digits String.[] = none
digits (String.◌∷◌ c s) = if is_digit c then more_digits (code c - b'0') s else none

and_then : Option String → (String → Option ℕ) → Option ℕ
and_then none f = none
and_then (some s) f = f s

-- `max-age\s*=\s*(\d+)\b` at the start of a text
max_age_here : String → Option ℕ
unfolding after_word skip_spaces digits and_then
max_age_here s =
    and_then (after_word "max-age" s)
      (λ name. and_then (after_word "=" (skip_spaces name)) (λ equals. digits (skip_spaces equals)))

-- The first match, where the character before the text is or is no part of a word.
first_max_age : Bool → String → Option ℕ
unfolding max_age_here
first_max_age after String.[] = none
first_max_age after (String.◌∷◌ c s) =
    let later = first_max_age (is_word c) s in
    elim (max_age_here (String.◌∷◌ c s)) [
      | none ↦ later
      | some seconds ↦ if after then later else some seconds
    ]

-- `Number.isFinite`: what rounds to a double at all, not to infinity.
is_finite : ℕ → Bool
is_finite n = ltb n (2 ^ 1024 - 2 ^ 970)

in_ms : Option ℕ → Option ℕ
unfolding is_finite
in_ms none = none
in_ms (some seconds) = if is_finite seconds then some (seconds * 1000) else none

max_age_of : Option String → Option ℕ
unfolding first_max_age in_ms
max_age_of none = none
max_age_of (some raw) = if not (is_nonempty raw) then none else in_ms (first_max_age false raw)

-- `parseCacheControlMaxAge`
pub parse_cache_control_max_age : Headers → Option ℕ
unfolding max_age_of
parse_cache_control_max_age headers = max_age_of (headers "cache-control")

until : Option ℕ → ℕ → Option ℕ
until none now = none
until (some end) now = if leb end now then none else some (end - now)

-- `ttlFromValidUntil`
pub ttl_from_valid_until : {W : Type 0} → Platform W → Option Json → ℕ → Option ℕ
unfolding until
ttl_from_valid_until platform (some (str s)) now = until (platform.parse_date s) now
ttl_from_valid_until platform _ now = none

-- `resolveTtl`
pub resolve_ttl : List (Option ℕ) → ℕ
unfolding is_finite
resolve_ttl [] = default_ttl_ms
resolve_ttl (none ∷ sources) = resolve_ttl sources
resolve_ttl (some ms ∷ sources) =
    let rest = resolve_ttl sources in if is_finite ms && ltb 0 ms then ms else rest

-- A resolved TTL is positive.
pub resolve_ttl-positive : (sources : List (Option ℕ)) → 1 ≤ resolve_ttl sources
unfolding resolve_ttl
resolve_ttl-positive [] = omega arith
resolve_ttl-positive (none ∷ sources) = resolve_ttl-positive sources
resolve_ttl-positive (some ms ∷ sources) = ground (arith, resolve_ttl-positive sources)

-- How long an answer may be kept: its `max-age`, or an hour where that is absent, zero or no finite number.
pub allowance : Option ℕ → ℕ
allowance none = 3600000
allowance (some max_age_ms) =
    if nat_eq max_age_ms 0 || not (is_finite max_age_ms) then 3600000 else max_age_ms

pub resolve_ttl-allowance : (max_age : Option ℕ) → resolve_ttl (max_age ∷ []) ≡ allowance max_age
unfolding resolve_ttl allowance
resolve_ttl-allowance none = refl
resolve_ttl-allowance (some ms) = ground arith
