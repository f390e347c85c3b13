-- ===== src/RegistryHandlers/Jws/Signed.antt =====
-- src/services/registry-handlers/jws-verify.ts: what a valid result rests on.
use verifier_core.Shared.{
  String, Bool, true, false, not, Option, none, some, List, [], ◌∷◌, ◌≡◌, refl, ap, ◌∙◌, ◌⊎◌, inl,
  inr, arith, filter, is_some, if◌then◌else◌, ltb, length,
}
use mathlib.Core.List.{Memᴰ}
use verifier_core.Json.{Json, Fields, lookup_field}
use verifier_core.Types.{Attempt, done, thrown}
use verifier_core.RegistryHandlers.Jws.{
  JwsRuntime, JwsResult, valid, invalid, same_value, Alg, Parts, is_compatible, candidates,
  jwk_set_keys, has_typ, decode_jws, verify_with_jwk, unless_verified, try_keys, verify_keys,
  verify_parts, verify_jws,
}

Mem-if :
    {A : Type 0} (b : Bool) (x y : A) (xs : List A)
    → Memᴰ x (if b then y ∷ xs else xs)
    → ((x ≡ y) × (b ≡ true)) ⊎ Memᴰ x xs
Mem-if true x y xs (Memᴰ.head e) = inl (e, refl)
Mem-if true x y xs (Memᴰ.tail m) = inr m
Mem-if false x y xs m = inr m

Mem-filter :
    {A : Type 0} (p : A → Bool) (x : A) (xs : List A)
    → Memᴰ x (filter p xs)
    → Memᴰ x xs × (p x ≡ true)
Mem-filter p x [] m = elim m [ ]
Mem-filter p x (y ∷ xs) m = elim (Mem-if (p y) x y (filter p xs) m) [
  | inl (e, t) ↦ (Memᴰ.head e, ap p e ∙ t)
  | inr n ↦ let (listed, t) = Mem-filter p x xs n in (Memᴰ.tail listed, t)
]

Mem-choice :
    {A : Type 0} (b : Bool) (x : A) (xs ys : List A)
    → Memᴰ x (if b then xs else ys)
    → Memᴰ x xs ⊎ Memᴰ x ys
Mem-choice true x xs ys m = inl m
Mem-choice false x xs ys m = inr m

candidates-Mem :
    (alg : Alg) (kid : Option Json) (keys : List Fields) (key : Fields)
    → Memᴰ key (candidates alg kid keys)
    → Memᴰ key keys × (is_compatible alg key ≡ true)
unfolding candidates
candidates-Mem alg kid keys key m =
    let compatible = filter (is_compatible alg) keys in
    let named = λ (k : Fields). same_value (lookup_field "kid" k) kid in
    elim (Mem-choice (ltb 0 (length (filter named compatible))) key (filter named compatible)
      compatible m) [
        | inl by_kid ↦
            Mem-filter (is_compatible alg) key keys (Mem-filter named key compatible by_kid).0
        | inr listed ↦ Mem-filter (is_compatible alg) key keys listed
      ]

module _ {W : Type 0} (runtime : JwsRuntime W) where
  -- The JWS decodes to the payload, its header has no `crit`, has the wanted `typ` and a supported `alg`, and a key of the set that fits the
  -- algorithm verified the signature over the header and the payload.
  pub record IsSigned (jws : String) (jwks : Option Json) (typ : Option String) (payload : Fields)
      : Type 0 where
    pub parts : Parts
    pub decoded : decode_jws runtime jws ≡ some parts
    pub carries : parts.payload ≡ payload
    pub not_critical : is_some (lookup_field "crit" parts.header) ≡ false
    pub typed : has_typ typ parts.header ≡ true
    pub alg : Alg
    pub keys : List Fields
    pub key_set : jwk_set_keys jwks ≡ some keys
    pub key : Fields
    pub listed : Memᴰ key keys
    pub compatible : is_compatible alg key ≡ true
    pub world : W
    pub verified : (verify_with_jwk runtime alg key parts world).0 ≡ done true

  unless_verified-valid :
      (answer : Attempt Bool) (verified rest : JwsResult × W) (payload : Fields)
      → (unless_verified runtime answer verified rest).0 ≡ valid payload
      → ((answer ≡ done true) × (verified.0 ≡ valid payload)) ⊎ (rest.0 ≡ valid payload)
  unless_verified-valid (done true) verified rest payload h = inl (refl, h)
  unless_verified-valid (done false) verified rest payload h = inr h
  unless_verified-valid (thrown error) verified rest payload h = inr h

  -- A key among the given ones verified.
  record HasKey (alg : Alg) (parts : Parts) (keys : List Fields) (payload : Fields) : Type 0 where
    key : Fields
    listed : Memᴰ key keys
    carries : parts.payload ≡ payload
    world : W
    verified : (verify_with_jwk runtime alg key parts world).0 ≡ done true

  try_keys-HasKey :
      (alg : Alg) (parts : Parts) (keys : List Fields) (payload : Fields) (w : W)
      → (try_keys runtime alg parts keys w).0 ≡ valid payload
      → HasKey alg parts keys payload
  unfolding try_keys
  try_keys-HasKey alg parts [] payload w h = absurd (cc)
  try_keys-HasKey alg parts (key ∷ keys) payload w h =
      elim (unless_verified-valid (verify_with_jwk runtime alg key parts w).0 _ _ payload h) [
        | inl (verified, carries) ↦ record {
          key = key;
          listed = Memᴰ.head refl;
          carries = cc;
          world = w;
          verified = verified;
        }
        | inr later ↦
            let found = try_keys-HasKey alg parts keys payload _ later in
            record {
              key = found.key;
              listed = Memᴰ.tail found.listed;
              carries = found.carries;
              world = found.world;
              verified = found.verified;
            }
      ]

  -- The set holds a compatible key that verified.
  record HasSetKey (jwks : Option Json) (parts : Parts) (payload : Fields) : Type 0 where
    alg : Alg
    keys : List Fields
    key_set : jwk_set_keys jwks ≡ some keys
    chosen : HasKey alg parts (candidates alg (lookup_field "kid" parts.header) keys) payload

  verify_keys-HasSetKey :
      (alg : Option Alg) (jwks : Option Json) (set : Option (List Fields)) (parts : Parts)
      (payload : Fields) (w : W)
      → jwk_set_keys jwks ≡ set
      → (verify_keys runtime alg set parts w).0 ≡ valid payload
      → HasSetKey jwks parts payload
  unfolding verify_keys
  verify_keys-HasSetKey none jwks set parts payload w e h = absurd (cc)
  verify_keys-HasSetKey (some alg) jwks none parts payload w e h = absurd (cc)
  verify_keys-HasSetKey (some alg) jwks (some keys) parts payload w e h = record {
    alg = alg;
    keys = keys;
    key_set = e;
    chosen = try_keys-HasKey alg parts _ payload w h;
  }

  guard-valid :
      (refused : Bool) (reason : String) (otherwise : JwsResult × W) (payload : Fields) (w : W)
      → (if refused then (invalid reason, w) else otherwise).0 ≡ valid payload
      → (refused ≡ false) × (otherwise.0 ≡ valid payload)
  guard-valid true reason otherwise payload w h = absurd (cc)
  guard-valid false reason otherwise payload w h = (refl, h)

  verify_parts-IsSigned :
      (jws : String) (jwks : Option Json) (typ : Option String) (parts : Option Parts)
      (payload : Fields) (w : W)
      → decode_jws runtime jws ≡ parts
      → (verify_parts runtime jwks typ parts w).0 ≡ valid payload
      → IsSigned jws jwks typ payload
  unfolding verify_parts
  verify_parts-IsSigned jws jwks typ none payload w e h = absurd (cc)
  verify_parts-IsSigned jws jwks typ (some parts) payload w e h =
      let (not_critical, rest) =
        guard-valid (is_some (lookup_field "crit" parts.header)) "unsupported crit" _ payload w h in
      let (untyped, checked) =
        guard-valid (not (has_typ typ parts.header)) "unexpected typ" _ payload w rest in
      let signed = verify_keys-HasSetKey _ jwks _ parts payload w refl checked in
      let (listed, compatible) =
        candidates-Mem signed.alg _ signed.keys signed.chosen.key signed.chosen.listed in
      record {
        parts = parts;
        decoded = e;
        carries = signed.chosen.carries;
        not_critical = not_critical;
        typed = ground arith;
        alg = signed.alg;
        keys = signed.keys;
        key_set = signed.key_set;
        key = signed.chosen.key;
        listed = listed;
        compatible = compatible;
        world = signed.chosen.world;
        verified = signed.chosen.verified;
      }

  pub verify_jws-IsSigned :
      (jws : String) (jwks : Option Json) (typ : Option String) (payload : Fields) (w : W)
      → (verify_jws runtime jws jwks typ w).0 ≡ valid payload
      → IsSigned jws jwks typ payload
  unfolding verify_jws
  verify_jws-IsSigned jws jwks typ payload w h =
      verify_parts-IsSigned jws jwks typ (decode_jws runtime jws) payload w refl h
