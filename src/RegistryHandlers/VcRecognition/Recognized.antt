-- ===== src/RegistryHandlers/VcRecognition/Recognized.antt =====
-- src/services/registry-handlers/vc-recognition-handler.ts: on what ground an issuer is found.
use verifier_core.Shared.{
  String, Bool, true, false, not, Option, none, some, List, ◌≤◌, ◌<◌, ◌≡◌, refl, sym, ap, ◌∙◌, ◌<>◌,
  ◌⊎◌, inl, inr, if◌then◌else◌,
}
use mathlib.Core.Path.{subst}
use verifier_core.Json.{Json}
use verifier_core.Types.{
  Attempt, Platform, Action, ◌>>=◌, pure, done, HttpGetResult, >>=-answer, payload,
  EntityIdentityRegistry, RegistryEntity, CredentialVerificationResult,
}
use verifier_core.Registry.{HandlerResult, found, unchecked, RegistryHandlerContext}
use verifier_core.Registry.IssuerCheck.{credential_issuer_id}
use verifier_core.RegistryHandlers.Answer.{payload-kept, cached_payload, fetch}
use verifier_core.RegistryHandlers.VcRecognition.Grounds.{
  IsListed, IsAccepted, judge_credential-IsListed, named-IsAccepted, load-result,
}
use verifier_core.RegistryHandlers.VcRecognition.{
  load, Verifies, judge_credential, is_accepted, recognition_call, now_ms, store_at,
  recognition_ttl, store_verified, judge_loaded, load_recognition, answer_recognition,
  answer_from_cache, lookup_vc_recognition, fetch_recognition_credential_json,
}

module _ {W : Type 0} (platform : Platform W)
    (context : RegistryHandlerContext W (Verifies W)) where
  -- The registry's URL, asked in the world, served a credential that lists the issuer and names an accepted issuer, and the
  -- verifier, asked next, answered `verified` for it.
  pub record IsRecognized (verify : Verifies W) (url : String) (accepted_issuers : List String)
      (did : String) (entity : Option RegistryEntity) (w : W) : Type 0 where
    pub result : HttpGetResult
    pub served : (context.http_get_service.get url w).0 ≡ done result
    pub succeeded : (200 ≤ result.status) × (result.status < 300)
    pub accepted : IsAccepted accepted_issuers result.body
    pub verification : CredentialVerificationResult
    pub answered :
        (verify (recognition_call result.body) (context.http_get_service.get url w).1).0
        ≡ done verification
    pub verified : verification.verified ≡ true
    pub listed : IsListed did result.body
    pub judged : judge_credential did result.body ≡ found entity

  -- The cache, read in the world, held a credential under the registry's URL that lists the issuer.
  pub record IsCached (did url : String) (entity : Option RegistryEntity) (w : W) : Type 0 where
    pub credential : Json
    pub held :
        (context.cache_service.get ("vc-recognition:" <> url) w).0
        ≡ done (some (payload credential))
    pub listed : IsListed did credential
    pub judged : judge_credential did credential ≡ found entity

  store_at-found :
      (key did : String) (loaded : Json) (entity : Option RegistryEntity) (w : W)
      → ((now_ms platform context >>= store_at platform context key did loaded) w).0
        ≡ done (found entity)
      → judge_credential did loaded ≡ found entity
  store_at-found key did loaded entity w h =
      let (now, _, stored) =
        >>=-answer (now_ms platform context) (store_at platform context key did loaded) w h in
      let (_, _, judged) =
        >>=-answer
          (context.cache_service.set key (payload loaded)
            (some (recognition_ttl platform loaded now)))
          (λ _. pure (judge_credential did loaded)) (now_ms platform context w).1 stored in
      cc

  -- What is found past a guard has passed the guard.
  guard-found :
      (passed : Bool) (m : Action W HandlerResult) (entity : Option RegistryEntity) (w : W)
      → ((if not passed then pure unchecked else m) w).0 ≡ done (found entity)
      → (passed ≡ true) × ((m w).0 ≡ done (found entity))
  guard-found true m entity w h = (refl, h)
  guard-found false m entity w h = absurd (cc)

  -- What the judge of a loaded credential found it on.
  record IsJudged (verify : Verifies W) (accepted_issuers : List String) (did : String)
      (loaded : Option Json) (entity : Option RegistryEntity) (w : W) : Type 0 where
    credential : Json
    is_loaded : loaded ≡ some credential
    accepted : IsAccepted accepted_issuers credential
    verification : CredentialVerificationResult
    answered : (verify (recognition_call credential) w).0 ≡ done verification
    verified : verification.verified ≡ true
    judged : judge_credential did credential ≡ found entity

  judge_loaded-found :
      (verify : Verifies W) (key : String) (accepted_issuers : List String) (did : String)
      (loaded : Option Json) (entity : Option RegistryEntity) (w : W)
      → (judge_loaded platform context verify key accepted_issuers did loaded w).0
        ≡ done (found entity)
      → IsJudged verify accepted_issuers did loaded entity w
  judge_loaded-found verify key accepted_issuers did none entity w h = absurd (cc)
  judge_loaded-found verify key accepted_issuers did (some loaded) entity w h =
      let (accepted, asked) =
        guard-found (is_accepted accepted_issuers loaded)
          (verify (recognition_call loaded) >>= store_verified platform context key did loaded)
          entity w h in
      let (verification, answered, kept) =
        >>=-answer (verify (recognition_call loaded))
          (store_verified platform context key did loaded) w asked in
      let (verified, stored) =
        guard-found verification.verified
          (now_ms platform context >>= store_at platform context key did loaded) entity
          (verify (recognition_call loaded) w).1 kept in
      record {
        credential = loaded;
        is_loaded = refl;
        accepted =
            named-IsAccepted accepted_issuers loaded (credential_issuer_id loaded) refl accepted;
        verification = verification;
        answered = answered;
        verified = verified;
        judged = store_at-found key did loaded entity (verify (recognition_call loaded) w).1 stored;
      }

  IsJudged-IsRecognized :
      (verify : Verifies W) (url : String) (accepted_issuers : List String) (did : String)
      (loaded : Option Json) (entity : Option RegistryEntity) (w : W)
      → load (fetch context.http_get_service url w).0 ≡ loaded
      → IsJudged verify accepted_issuers did loaded entity (context.http_get_service.get url w).1
      → IsRecognized verify url accepted_issuers did entity w
  IsJudged-IsRecognized verify url accepted_issuers did loaded entity w e j =
      let (result, served, low, high, body) =
        load-result (context.http_get_service.get url w).0 j.credential (e ∙ j.is_loaded) in
      let next = (context.http_get_service.get url w).1 in
      record {
        result = result;
        served = served;
        succeeded = (low, high);
        accepted = subst (λ c. IsAccepted accepted_issuers c) (sym body) j.accepted;
        verification = j.verification;
        answered = ap (λ c. (verify (recognition_call c) next).0) body ∙ j.answered;
        verified = j.verified;
        listed =
            subst (λ c. IsListed did c) (sym body)
              (judge_credential-IsListed did j.credential entity j.judged);
        judged = ap (judge_credential did) body ∙ j.judged;
      }

  answer_recognition-found :
      (verify : Verifies W) (url : String) (accepted_issuers : List String) (did : String)
      (cached : Option Json) (entity : Option RegistryEntity) (w : W)
      → (answer_recognition platform context verify url accepted_issuers did cached w).0
        ≡ done (found entity)
      → ((credential : Json) × (cached ≡ some credential)
          × (judge_credential did credential ≡ found entity))
        ⊎ IsRecognized verify url accepted_issuers did entity w
  unfolding answer_recognition load_recognition
  answer_recognition-found verify url accepted_issuers did (some credential) entity w h =
      inl (credential, refl, cc)
  answer_recognition-found verify url accepted_issuers did none entity w h =
      let (loaded, returned, judged) =
        >>=-answer (fetch_recognition_credential_json platform context url)
          (judge_loaded platform context verify ("vc-recognition:" <> url) accepted_issuers did) w
          h in
      let is_loaded : load (fetch context.http_get_service url w).0 ≡ loaded = cc in
      inr (
        IsJudged-IsRecognized verify url accepted_issuers did loaded entity w is_loaded (
          judge_loaded-found verify ("vc-recognition:" <> url) accepted_issuers did loaded entity
            (fetch_recognition_credential_json platform context url w).1 judged))

  -- Where the lookup in a recognition registry finds the issuer, either the cache held a credential under the
  -- registry's URL, with the issuer's DID as the `id` of an entry of its subject; or the HTTP service, asked for that
  -- URL right after the cache, served such a credential with a status from 200 to 299, the credential's own issuer
  -- is among the accepted ones, and the verifier of the context, asked next for that credential and without registries,
  -- answered `verified`. What the cache held is not compared with the accepted issuers.
  pub lookup_vc_recognition-found :
      (verify : Verifies W) (name url : String) (accepted_issuers : List String) (did : String)
      (entity : Option RegistryEntity) (w : W)
      → context.verifier ≡ done verify
      → (lookup_vc_recognition platform context did
          (EntityIdentityRegistry.vc_recognition name url accepted_issuers)
          w).0
        ≡ done (found entity)
      → IsCached did url entity w
        ⊎ IsRecognized verify url accepted_issuers did entity
            (context.cache_service.get ("vc-recognition:" <> url) w).1
  unfolding lookup_vc_recognition
  lookup_vc_recognition-found verify name url accepted_issuers did entity w given h =
      let asked = λ (v : Attempt (Verifies W)).
        (((λ u. (v, u))
            >>= (λ verify. answer_from_cache platform context verify url accepted_issuers did))
          w).0 in
      let (cached, held, judged) =
        >>=-answer (context.cache_service.get ("vc-recognition:" <> url))
          (λ cached.
            answer_recognition platform context verify url accepted_issuers did
              (cached_payload cached))
          w (sym (ap asked given) ∙ h) in
      elim (answer_recognition-found verify url accepted_issuers did (cached_payload cached) entity
        (context.cache_service.get ("vc-recognition:" <> url) w).1 judged) [
          | inl (credential, kept, judged) ↦ inl (record {
            credential = credential;
            held = held ∙ ap done (payload-kept cached credential kept);
            listed = judge_credential-IsListed did credential entity judged;
            judged = judged;
          })
          | inr recognized ↦ inr recognized
        ]
