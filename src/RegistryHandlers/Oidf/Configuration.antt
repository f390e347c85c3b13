-- ===== src/RegistryHandlers/Oidf/Configuration.antt =====
-- src/services/registry-handlers/oidf-handler.ts: what a verified entity configuration says.
use verifier_core.Shared.{
  ℕ, ◌<◌, ◌==◌, String, Option, none, some, ◌≡◌, refl, ap, sym, ◌∙◌, eq_iff, Bool-cases, inl, inr,
  arith,
}
use verifier_core.Json.{Json, Fields, null, bool, num, arr, obj, str, lookup_field, property}
use verifier_core.Registry.{RegistryHandlerContext}
use verifier_core.RegistryHandlers.Jws.{
  JwsRuntime, JwsResult, valid, invalid, verify_jws, jwt_decode_payload,
}
use verifier_core.RegistryHandlers.Jws.Signed.{IsSigned, verify_jws-IsSigned}
use verifier_core.RegistryHandlers.Oidf.{
  VerifiedEntityConfiguration, instant, unexpired, numeric_date, unexpired_numeric_date,
  configuration_of, get_federation_fetch_endpoint, judge_configuration, verify_decoded,
  verify_entity_configuration,
}

unexpired-later :
    (seconds : Option ℕ) (now exp : ℕ)
    → unexpired seconds now ≡ some exp
    → (seconds ≡ some exp) × (now < instant exp)
unfolding unexpired
unexpired-later none now exp h = absurd (cc)
unexpired-later (some seconds) now exp h = (ground arith, ground arith)

pub unexpired_numeric_date-later :
    (date : Option Json) (now exp : ℕ)
    → unexpired_numeric_date date now ≡ some exp
    → (numeric_date date ≡ some exp) × (now < instant exp)
unfolding unexpired_numeric_date
unexpired_numeric_date-later date now exp h = unexpired-later (numeric_date date) now exp h

-- The fields of a configuration are those that it is made of, and its entity is both `iss` and `sub`.
record IsMadeOf (iss sub : Option Json) (exp : Option ℕ) (endpoint : Option String)
    (jwks : Option Json) (ec : VerifiedEntityConfiguration) : Type 0 where
  issuer : iss ≡ some (str ec.entity_id)
  subject : sub ≡ some (str ec.entity_id)
  expiry : exp ≡ some ec.exp
  endpoint_is : endpoint ≡ some ec.fetch_endpoint
  keys : jwks ≡ ec.jwks

configuration_of-IsMadeOf :
    (iss sub : Option Json) (exp : Option ℕ) (endpoint : Option String) (jwks : Option Json)
    (ec : VerifiedEntityConfiguration)
    → configuration_of iss sub exp endpoint jwks ≡ some ec
    → IsMadeOf iss sub exp endpoint jwks ec
unfolding configuration_of
configuration_of-IsMadeOf (some (str iss)) (some (str sub)) (some exp) (some endpoint) jwks ec h =
    elim (Bool-cases (iss == sub)) [
      | inl e ↦
          let made : VerifiedEntityConfiguration = record {
            entity_id = iss;
            jwks = jwks;
            fetch_endpoint = endpoint;
            exp = exp;
          } in
          let kept : some made ≡ some ec = rw e at h in
          let same : made ≡ ec = cc in
          record {
            issuer = ap (λ c. some (str c.entity_id)) same;
            subject =
                ap (λ t. some (str t)) (sym ((eq_iff iss sub).0 e))
                ∙ ap (λ c. some (str c.entity_id)) same;
            expiry = ap (λ c. some c.exp) same;
            endpoint_is = ap (λ c. some c.fetch_endpoint) same;
            keys = ap (λ c. c.jwks) same;
          }
      | inr e ↦ let nothing : none ≡ some ec = rw e at h in absurd (cc)
    ]
configuration_of-IsMadeOf (some (str iss)) (some (str sub)) (some exp) none jwks ec h = absurd (cc)
configuration_of-IsMadeOf (some (str iss)) (some (str sub)) none endpoint jwks ec h = absurd (cc)
configuration_of-IsMadeOf (some (str iss)) none exp endpoint jwks ec h = absurd (cc)
configuration_of-IsMadeOf (some (str iss)) (some null) exp endpoint jwks ec h = absurd (cc)
configuration_of-IsMadeOf (some (str iss)) (some (bool b)) exp endpoint jwks ec h = absurd (cc)
configuration_of-IsMadeOf (some (str iss)) (some (num n)) exp endpoint jwks ec h = absurd (cc)
configuration_of-IsMadeOf (some (str iss)) (some (arr vs)) exp endpoint jwks ec h = absurd (cc)
configuration_of-IsMadeOf (some (str iss)) (some (obj fields)) exp endpoint jwks ec h = absurd (cc)
configuration_of-IsMadeOf none sub exp endpoint jwks ec h = absurd (cc)
configuration_of-IsMadeOf (some null) sub exp endpoint jwks ec h = absurd (cc)
configuration_of-IsMadeOf (some (bool b)) sub exp endpoint jwks ec h = absurd (cc)
configuration_of-IsMadeOf (some (num n)) sub exp endpoint jwks ec h = absurd (cc)
configuration_of-IsMadeOf (some (arr vs)) sub exp endpoint jwks ec h = absurd (cc)
configuration_of-IsMadeOf (some (obj fields)) sub exp endpoint jwks ec h = absurd (cc)

module _ {W : Type 0} (runtime : JwsRuntime W) where
  -- The JWT is signed, with the type of an entity statement, by a key that it carries itself; its `iss` and its `sub` are
  -- both the entity, its `exp` lies ahead, and its keys and its fetch endpoint are those of the configuration.
  pub record IsConfiguration (jwt : String) (now : ℕ) (ec : VerifiedEntityConfiguration)
      : Type 0 where
    pub unverified : Json
    pub decoded : jwt_decode_payload runtime jwt ≡ some unverified
    pub payload : Fields
    pub signed :
        IsSigned runtime jwt (property "jwks" unverified) (some "entity-statement+jwt") payload
    pub issuer : lookup_field "iss" payload ≡ some (str ec.entity_id)
    pub subject : lookup_field "sub" payload ≡ some (str ec.entity_id)
    pub dated : numeric_date (lookup_field "exp" payload) ≡ some ec.exp
    pub current : now < instant ec.exp
    pub endpoint : get_federation_fetch_endpoint payload ≡ some ec.fetch_endpoint
    pub keys : lookup_field "jwks" payload ≡ ec.jwks

  judge_configuration-IsConfiguration :
      (jwt : String) (now : ℕ) (unverified : Json) (result : JwsResult)
      (ec : VerifiedEntityConfiguration) (w : W)
      → jwt_decode_payload runtime jwt ≡ some unverified
      → (verify_jws runtime jwt (property "jwks" unverified) (some "entity-statement+jwt") w).0
        ≡ result
      → judge_configuration now result ≡ some ec
      → IsConfiguration jwt now ec
  unfolding judge_configuration
  judge_configuration-IsConfiguration jwt now unverified (invalid reason) ec w decoded e h =
      absurd (cc)
  judge_configuration-IsConfiguration jwt now unverified (valid payload) ec w decoded e h =
      let made =
        configuration_of-IsMadeOf (lookup_field "iss" payload) (lookup_field "sub" payload)
          (unexpired_numeric_date (lookup_field "exp" payload) now)
          (get_federation_fetch_endpoint payload) (lookup_field "jwks" payload) ec h in
      let (dated, current) =
        unexpired_numeric_date-later (lookup_field "exp" payload) now ec.exp made.expiry in
      record {
        unverified = unverified;
        decoded = decoded;
        payload = payload;
        signed =
            verify_jws-IsSigned runtime jwt (property "jwks" unverified)
              (some "entity-statement+jwt") payload w e;
        issuer = made.issuer;
        subject = made.subject;
        dated = dated;
        current = current;
        endpoint = made.endpoint_is;
        keys = made.keys;
      }

module _ {W V : Type 0} (runtime : JwsRuntime W)
    (lookup_url : (endpoint did : String) → Option String)
    (context : RegistryHandlerContext W V) where
  verify_decoded-IsConfiguration :
      (jwt : String) (now : ℕ) (unverified : Option Json) (ec : VerifiedEntityConfiguration) (w : W)
      → jwt_decode_payload runtime jwt ≡ unverified
      → (verify_decoded runtime lookup_url context jwt now unverified w).0 ≡ some ec
      → IsConfiguration runtime jwt now ec
  unfolding verify_decoded
  verify_decoded-IsConfiguration jwt now none ec w e h = absurd (cc)
  verify_decoded-IsConfiguration jwt now (some unverified) ec w e h =
      judge_configuration-IsConfiguration runtime jwt now unverified _ ec w e refl h

  pub verify_entity_configuration-IsConfiguration :
      (jwt : String) (now : ℕ) (ec : VerifiedEntityConfiguration) (w : W)
      → (verify_entity_configuration runtime lookup_url context jwt now w).0 ≡ some ec
      → IsConfiguration runtime jwt now ec
  unfolding verify_entity_configuration
  verify_entity_configuration-IsConfiguration jwt now ec w h =
      verify_decoded-IsConfiguration jwt now (jwt_decode_payload runtime jwt) ec w refl h
