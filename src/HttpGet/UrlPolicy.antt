-- ===== src/HttpGet/UrlPolicy.antt =====
-- src/services/http-get-service/url-policy.ts. The URL parser is the runtime's: a host that it gives is
-- normalised, an IPv6 literal in brackets.
pub mod Ranges
use Prim.Native.Char.{Char, code}
use Prim.Native.String.{slice, len}
use text.Mathlib.Text.{starts_with}
use verifier_core.Shared.{
  ℕ, zero, suc, ◌+◌, ◌*◌, ◌-◌, ◌/◌, ◌%◌, String, Bool, true, false, not, ◌&&◌, ◌||◌, Option, none,
  some, List, [], ◌∷◌, ◌++◌, ◌==◌, ◌<>◌, all, length, map, nat_eq, leb, ltb, is_nonempty, or_else,
  if◌then◌else◌,
}

pub data UrlCheck : Type 0 where
  allowed : UrlCheck
  refused : (reason : String) → UrlCheck

abbrev pub accepts : UrlCheck → Bool
accepts allowed = true
accepts (refused reason) = false

pub record ParsedUrl : Type 0 where
  pub protocol : String
  pub hostname : String

-- `s.split(separator)` for a separator of one character
unfoldable pub put_first : String → List String → List String
put_first c [] = []
put_first c (part ∷ parts) = (c <> part) ∷ parts

unfoldable pub split_on : ℕ → String → List String
unfolding put_first
split_on separator String.[] = "" ∷ []
split_on separator (String.◌∷◌ c s) =
    let rest = split_on separator s in
    if nat_eq (code c) separator then "" ∷ rest else put_first (String.◌∷◌ c "") rest

-- The value of a digit, in a base up to 16.
unfoldable pub digit_value : Char → Option ℕ
digit_value c =
    if leb b'0' (code c) && leb (code c) b'9'
    then some (code c - b'0')
    else if leb b'a' (code c) && leb (code c) b'f'
    then some (code c - b'a' + 10)
    else if leb b'A' (code c) && leb (code c) b'F'
    then some (code c - b'A' + 10)
    else none

-- `Number.parseInt(s, base)` of a text of digits, after the given ones
unfoldable pub number_after : ℕ → ℕ → String → ℕ
unfolding digit_value
number_after base value String.[] = value
number_after base value (String.◌∷◌ c s) =
    number_after base (value * base + or_else (digit_value c) 0) s

unfoldable pub is_decimal : String → Bool
is_decimal String.[] = true
is_decimal (String.◌∷◌ c s) = leb b'0' (code c) && (leb (code c) b'9' && is_decimal s)

-- `\d{1,3}`
unfoldable pub is_octet : String → Bool
unfolding is_decimal
is_octet s = is_nonempty s && (leb (len s) 3 && is_decimal s)

-- `IPV4_LITERAL.test(host)`
unfoldable pub is_ipv4_literal : String → Bool
unfolding is_octet split_on
is_ipv4_literal host = nat_eq (length (split_on b'.' host)) 4 && all is_octet (split_on b'.' host)

unfoldable pub from_octets : ℕ → List String → ℕ
unfolding number_after
from_octets value [] = value
from_octets value (octet ∷ octets) = from_octets (value * 256 + number_after 10 0 octet) octets

-- `>>> 0`
abbrev to_uint32 : ℕ → ℕ
to_uint32 n = n % 4294967296

-- `ipv4ToInt`
unfoldable pub ipv4_to_int : String → ℕ
unfolding from_octets split_on
ipv4_to_int dotted = to_uint32 (from_octets 0 (split_on b'.' dotted))

-- An entry of `IPV4_BLOCKED`: the network, the size of a block under its mask, and the reason.
pub record Blocked : Type 0 where
  pub network : ℕ
  pub block : ℕ
  pub reason : String

abbrev blocked : ℕ → ℕ → ℕ → ℕ → ℕ → String → Blocked
blocked a b c d block reason = record {
  network = ((a * 256 + b) * 256 + c) * 256 + d;
  block = block;
  reason = reason;
}

-- A prefix of `p` bits leaves blocks of `2 ^ (32 - p)` addresses.
abbrev pub ipv4_blocked : List Blocked
ipv4_blocked =
    blocked 0 0 0 0 16777216 "host is an unspecified address"
    ∷ blocked 127 0 0 0 16777216 "host is a loopback address"
    ∷ blocked 10 0 0 0 16777216 "host is a private address"
    ∷ blocked 172 16 0 0 1048576 "host is a private address"
    ∷ blocked 192 168 0 0 65536 "host is a private address"
    ∷ blocked 100 64 0 0 4194304 "host is a private address"
    ∷ blocked 168 63 129 16 1 "host is a private address"
    ∷ blocked 192 0 0 0 256 "host is a reserved address"
    ∷ blocked 169 254 0 0 65536 "host is a link-local address"
    ∷ blocked 224 0 0 0 268435456 "host is a multicast address"
    ∷ blocked 240 0 0 0 268435456 "host is a reserved address"
    ∷ []

-- `(address & mask) >>> 0` clears what lies below the block.
abbrev pub masked : ℕ → ℕ → ℕ
masked address block = address - address % block

unfoldable pub check_blocked : ℕ → List Blocked → UrlCheck
check_blocked address [] = allowed
check_blocked address (b ∷ bs) =
    let rest = check_blocked address bs in
    if nat_eq (masked address b.block) b.network then refused b.reason else rest

-- `checkIpv4`
unfoldable pub check_ipv4 : ℕ → UrlCheck
unfolding check_blocked
check_ipv4 address = check_blocked address ipv4_blocked

-- `literal.split('::')`, the part before and the part after the first one; `none` where there is none
split_double : String → String × Option String
split_double String.[] = ("", none)
split_double (String.◌∷◌ c String.[]) = (String.◌∷◌ c "", none)
split_double (String.◌∷◌ c (String.◌∷◌ d s)) =
    let (head, tail) = split_double (String.◌∷◌ d s) in
    if nat_eq (code c) b':' && nat_eq (code d) b':' then ("", some s) else (String.◌∷◌ c head, tail)

groups_of : String → List ℕ
unfolding split_on number_after
groups_of s = if s == "" then [] else map (λ g. number_after 16 0 g) (split_on b':' s)

zeros : ℕ → List ℕ
zeros zero = []
zeros (suc n) = 0 ∷ zeros n

-- `expandIpv6`
expand_ipv6 : String → List ℕ
unfolding split_double groups_of zeros
expand_ipv6 literal =
    let (head, tail) = split_double literal in
    let head_groups = groups_of head in
    let tail_groups = groups_of (or_else tail "") in
    head_groups ++ (zeros (8 - length head_groups - length tail_groups) ++ tail_groups)

nth : ℕ → List ℕ → Option ℕ
nth n [] = none
nth zero (g ∷ gs) = some g
nth (suc n) (g ∷ gs) = nth n gs

first_zero : ℕ → List ℕ → Bool
first_zero zero gs = true
first_zero (suc n) [] = true
first_zero (suc n) (g ∷ gs) = nat_eq g 0 && first_zero n gs

drop_groups : ℕ → List ℕ → List ℕ
drop_groups zero gs = gs
drop_groups (suc n) [] = []
drop_groups (suc n) (g ∷ gs) = drop_groups n gs

-- `groups[n] === value`
is_group : ℕ → ℕ → List ℕ → Bool
unfolding nth
is_group n value groups = elim (nth n groups) [ none ↦ false | some g ↦ nat_eq g value ]

-- `(groups[n] & mask) === value`, for the mask that clears what lies below the block
is_masked : ℕ → ℕ → ℕ → List ℕ → Bool
unfolding nth
is_masked n block value groups = nat_eq (masked (or_else (nth n groups) 0) block) value

-- `((groups[n] << 16) | groups[m]) >>> 0`
embedded : ℕ → ℕ → List ℕ → ℕ
unfolding nth
embedded n m groups = or_else (nth n groups) 0 * 65536 + or_else (nth m groups) 0

check_groups : List ℕ → UrlCheck
unfolding first_zero drop_groups is_group is_masked embedded
check_groups groups =
    let nat64 = is_group 0 100 groups && is_group 1 65435 groups in
    let mapped = first_zero 5 groups && (is_group 5 65535 groups || is_group 5 0 groups) in
    if first_zero 8 groups
    then refused "host is an unspecified address"
    else if first_zero 7 groups && is_group 7 1 groups
    then refused "host is a loopback address"
    else if mapped || (nat64 && first_zero 4 (drop_groups 2 groups))
    then check_ipv4 (embedded 6 7 groups)
    else if is_group 0 8194 groups
    then check_ipv4 (embedded 1 2 groups)
    else if (nat64 && is_group 2 1 groups)
        || (is_masked 0 512 64512 groups || is_masked 0 64 65216 groups)
    then refused "host is a private address"
    else if is_masked 0 64 65152 groups
    then refused "host is a link-local address"
    else if is_masked 0 256 65280 groups
    then refused "host is a multicast address"
    else allowed

-- `checkIpv6`
pub check_ipv6 : String → UrlCheck
check_ipv6 literal = check_groups (expand_ipv6 literal)

-- `s.toLowerCase()`, of a host, which is ASCII
unfoldable pub lower_case : String → String
lower_case String.[] = ""
lower_case (String.◌∷◌ c s) =
    let rest = lower_case s in
    if leb b'A' (code c) && leb (code c) b'Z'
    then slice "abcdefghijklmnopqrstuvwxyz" (code c - b'A') (code c - b'A' + 1) <> rest
    else String.◌∷◌ c rest

abbrev ends_with : String → String → Bool
ends_with s suffix = leb (len suffix) (len s) && slice s (len s - len suffix) (len s) == suffix

-- `hostname.toLowerCase().replace(/\.$/, '')`
unfoldable pub judged_host : String → String
unfolding lower_case
judged_host hostname =
    let host = lower_case hostname in
    if ends_with host "." then slice host 0 (len host - 1) else host

unfoldable pub check_host : String → UrlCheck
check_host host =
    if host == "localhost" || ends_with host ".localhost"
    then refused "host is localhost"
    else if is_ipv4_literal host
    then check_ipv4 (ipv4_to_int host)
    else if starts_with host "["
    then check_ipv6 (slice host 1 (len host - 1))
    else allowed

unfoldable pub check_parsed : Bool → Option ParsedUrl → UrlCheck
unfolding check_host judged_host
check_parsed allow_insecure none = refused "not a valid URL"
check_parsed true (some url) =
    if url.protocol == "https:" || url.protocol == "http:"
    then allowed
    else refused "scheme is not http or https"
check_parsed false (some url) =
    if not (url.protocol == "https:")
    then refused "scheme is not https"
    else check_host (judged_host url.hostname)

-- `checkUrl`, for a URL parser
unfoldable pub check_url : (String → Option ParsedUrl) → String → Bool → UrlCheck
check_url parse_url url allow_insecure = check_parsed allow_insecure (parse_url url)
