-- ===== src/HttpGet/UrlPolicy/Ranges.antt =====
-- src/services/http-get-service/url-policy.ts: the blocked addresses as ranges.
use verifier_core.Shared.{
  ℕ, String, Bool, true, false, not, ◌&&◌, ◌||◌, Option, none, some, List, [], ◌∷◌, ◌≡◌, ◌∙◌, refl,
  arith, ◌==◌, all, nat_eq, leb,
}
use verifier_core.HttpGet.UrlPolicy.{
  accepts, ParsedUrl, Blocked, masked, check_blocked, check_ipv4, ipv4_blocked, is_ipv4_literal,
  ipv4_to_int, judged_host, check_host, check_parsed, check_url,
}

abbrev within : ℕ → ℕ × ℕ → Bool
within address (first, last) = leb first address && leb address last

-- The first and the last address of each range that is not public.
abbrev not_public : List (ℕ × ℕ)
not_public =
    (0, 16777215)
    ∷ (2130706432, 2147483647)
    ∷ (167772160, 184549375)
    ∷ (2886729728, 2887778303)
    ∷ (3232235520, 3232301055)
    ∷ (1681915904, 1686110207)
    ∷ (2822734096, 2822734096)
    ∷ (3221225472, 3221225727)
    ∷ (2851995648, 2852061183)
    ∷ (3758096384, 4026531839)
    ∷ (4026531840, 4294967295)
    ∷ []

abbrev is_outside : ℕ → Bool
is_outside address = all (λ range. not (within address range)) not_public

masked_0 : (address : ℕ) → nat_eq (masked address 16777216) 0 ≡ within address (0, 16777215)
masked_0 address = ground arith

masked_1 :
    (address : ℕ)
    → nat_eq (masked address 16777216) 2130706432 ≡ within address (2130706432, 2147483647)
masked_1 address = ground arith

masked_2 :
    (address : ℕ)
    → nat_eq (masked address 16777216) 167772160 ≡ within address (167772160, 184549375)
masked_2 address = ground arith

masked_3 :
    (address : ℕ)
    → nat_eq (masked address 1048576) 2886729728 ≡ within address (2886729728, 2887778303)
masked_3 address = ground arith

masked_4 :
    (address : ℕ)
    → nat_eq (masked address 65536) 3232235520 ≡ within address (3232235520, 3232301055)
masked_4 address = ground arith

masked_5 :
    (address : ℕ)
    → nat_eq (masked address 4194304) 1681915904 ≡ within address (1681915904, 1686110207)
masked_5 address = ground arith

masked_6 :
    (address : ℕ) → nat_eq (masked address 1) 2822734096 ≡ within address (2822734096, 2822734096)
masked_6 address = ground arith

masked_7 :
    (address : ℕ) → nat_eq (masked address 256) 3221225472 ≡ within address (3221225472, 3221225727)
masked_7 address = ground arith

masked_8 :
    (address : ℕ)
    → nat_eq (masked address 65536) 2851995648 ≡ within address (2851995648, 2852061183)
masked_8 address = ground arith

masked_9 :
    (address : ℕ)
    → nat_eq (masked address 268435456) 3758096384 ≡ within address (3758096384, 4026531839)
masked_9 address = ground arith

masked_10 :
    (address : ℕ)
    → nat_eq (masked address 268435456) 4026531840 ≡ within address (4026531840, 4294967295)
masked_10 address = ground arith

check_blocked-all :
    (address : ℕ) (bs : List Blocked)
    → accepts (check_blocked address bs)
      ≡ all (λ (b : Blocked). not (nat_eq (masked address b.block) b.network)) bs
unfolding check_blocked
check_blocked-all address [] = refl
check_blocked-all address (b ∷ bs) = ground (arith, check_blocked-all address bs)

-- The masks block exactly the addresses of the ranges.
check_ipv4-is_outside : (address : ℕ) → accepts (check_ipv4 address) ≡ is_outside address
unfolding check_ipv4
check_ipv4-is_outside address =
    check_blocked-all address ipv4_blocked
    ∙ rw (
      masked_0, masked_1, masked_2, masked_3, masked_4, masked_5, masked_6, masked_7, masked_8,
      masked_9, masked_10,
    )

-- A host that is not `localhost` and, where it is an IPv4 literal, an address outside the ranges.
abbrev is_public_host : String → Bool
is_public_host host =
    not (host == "localhost") && (not (is_ipv4_literal host) || is_outside (ipv4_to_int host))

abbrev pub is_public : Option ParsedUrl → Bool
is_public none = false
is_public (some url) = url.protocol == "https:" && is_public_host (judged_host url.hostname)

check_host-is_public_host :
    (host : String) → accepts (check_host host) ≡ true → is_public_host host ≡ true
unfolding check_host
check_host-is_public_host host h = ground (arith, check_ipv4-is_outside (ipv4_to_int host))

check_parsed-is_public :
    (url : Option ParsedUrl) → accepts (check_parsed false url) ≡ true → is_public url ≡ true
unfolding check_parsed
check_parsed-is_public none h = ground arith
check_parsed-is_public (some url) h =
    ground (arith, check_host-is_public_host (judged_host url.hostname))

pub check_url-is_public :
    (parse_url : String → Option ParsedUrl) (url : String)
    → accepts (check_url parse_url url false) ≡ true
    → is_public (parse_url url) ≡ true
unfolding check_url
check_url-is_public parse_url url h = check_parsed-is_public (parse_url url) h
