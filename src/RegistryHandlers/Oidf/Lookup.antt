-- ===== src/RegistryHandlers/Oidf/Lookup.antt =====
-- src/services/registry-handlers/oidf-handler.ts: an issuer is found on two verified statements.
use verifier_core.Shared.{
  ℕ, String, Bool, true, false, Option, none, some, ◌≡◌, ◌⊎◌, inl, inr, refl, ap, ◌∙◌, ◌<>◌,
  if◌then◌else◌,
}
use verifier_core.Json.{str}
use verifier_core.Types.{
  CacheValue, done, Action, ◌>>=◌, pure, >>=-answer, HttpGetResult, EntityIdentityRegistry,
  RegistryEntity,
}
use verifier_core.Registry.{found, RegistryHandlerContext}
use verifier_core.RegistryHandlers.Answer.{is_refused, fetch}
use verifier_core.RegistryHandlers.Jws.{JwsRuntime}
use verifier_core.RegistryHandlers.Oidf.Origin.{
  Origin, Keeps, IsFetched, fetch-IsFetched, cached_text-kept,
}
use verifier_core.RegistryHandlers.Oidf.Configuration.{
  IsConfiguration, verify_entity_configuration-IsConfiguration,
}
use verifier_core.RegistryHandlers.Oidf.Statement.{IsVouched, look_up_at-found}
use verifier_core.RegistryHandlers.Oidf.{
  VerifiedEntityConfiguration, body_to_jwt, ttl_bounded_by_exp, lift, verify_entity_configuration,
  store_configuration, judge_fetched_configuration, fetch_configuration, configuration_or_fetch,
  configuration_from, get_verified_entity_configuration, look_up_under, lookup_oidf, cached_text,
}

module _ {W V : Type 0} (runtime : JwsRuntime W)
    (lookup_url : (endpoint did : String) → Option String)
    (context : RegistryHandlerContext W V) where
  -- The world after a JWT was checked as an entity configuration.
  abbrev after_check : ℕ → String → W → W
  after_check now jwt w = (verify_entity_configuration runtime lookup_url context jwt now w).1

  -- The cache, read in the world, or the URL of the trust anchor gave a JWT that is an entity configuration.
  pub record IsAnchored (url : String) (now : ℕ) (ec : VerifiedEntityConfiguration) (w : W)
      : Type 0 where
    pub jwt : String
    pub origin : Origin context (after_check now) ("oidf:ec:" <> url) url jwt w
    pub says : IsConfiguration runtime jwt now ec

  -- The URL, asked in the world, served an entity configuration.
  record IsServed (url : String) (now : ℕ) (ec : VerifiedEntityConfiguration) (w : W) : Type 0 where
    jwt : String
    fetched : IsFetched context url jwt w
    says : IsConfiguration runtime jwt now ec

  store_configuration-kept :
      (key jwt : String) (result : HttpGetResult) (now : ℕ)
      (verdict : Option VerifiedEntityConfiguration) (ec : VerifiedEntityConfiguration) (w : W)
      → (store_configuration runtime lookup_url context key jwt result now verdict w).0
        ≡ done (some ec)
      → verdict ≡ some ec
  store_configuration-kept key jwt result now none ec w h = absurd (cc)
  store_configuration-kept key jwt result now (some kept) ec w h =
      let (_, _, same) =
        >>=-answer
          (context.cache_service.set key (CacheValue.payload (str jwt))
            (some (ttl_bounded_by_exp result.headers kept.exp now)))
          (λ _. pure (some kept)) w h in
      cc

  guard-configuration :
      (refused : Bool) (m : Action W (Option VerifiedEntityConfiguration))
      (ec : VerifiedEntityConfiguration) (w : W)
      → ((if refused then pure none else m) w).0 ≡ done (some ec)
      → (refused ≡ false) × ((m w).0 ≡ done (some ec))
  guard-configuration true m ec w h = absurd (cc)
  guard-configuration false m ec w h = (refl, h)

  judge_fetched_configuration-IsServed :
      (key url : String) (now : ℕ) (fetched : Option HttpGetResult)
      (ec : VerifiedEntityConfiguration) (u w : W)
      → (fetch context.http_get_service url u).0 ≡ fetched
      → (judge_fetched_configuration runtime lookup_url context key now fetched w).0
        ≡ done (some ec)
      → IsServed url now ec u
  judge_fetched_configuration-IsServed key url now none ec u w e h = absurd (cc)
  judge_fetched_configuration-IsServed key url now (some result) ec u w e h =
      let jwt = body_to_jwt result.body in
      let (verdict, w') = verify_entity_configuration runtime lookup_url context jwt now w in
      let (accepted, stored) =
        guard-configuration (is_refused result)
          (lift runtime lookup_url context
              (verify_entity_configuration runtime lookup_url context jwt now)
            >>= store_configuration runtime lookup_url context key jwt result now)
          ec w h in
      record {
        jwt = jwt;
        fetched = fetch-IsFetched context url jwt result u e accepted refl;
        says =
            verify_entity_configuration-IsConfiguration runtime lookup_url context jwt now ec w
              (store_configuration-kept key jwt result now verdict ec w' stored);
      }

  fetch_configuration-IsServed :
      (key url : String) (now : ℕ) (ec : VerifiedEntityConfiguration) (w : W)
      → (fetch_configuration runtime lookup_url context key url now w).0 ≡ done (some ec)
      → IsServed url now ec w
  fetch_configuration-IsServed key url now ec w h =
      let (fetched, w') = fetch context.http_get_service url w in
      judge_fetched_configuration-IsServed key url now fetched ec w w' refl h

  -- What a JWT that the cache held is worth, or what the URL serves after its check.
  configuration_or_fetch-cases :
      (key url : String) (now : ℕ) (verdict : Option VerifiedEntityConfiguration)
      (ec : VerifiedEntityConfiguration) (w : W)
      → (configuration_or_fetch runtime lookup_url context key url now verdict w).0 ≡ done (some ec)
      → (verdict ≡ some ec) ⊎ IsServed url now ec w
  configuration_or_fetch-cases key url now none ec w h =
      inr (fetch_configuration-IsServed key url now ec w h)
  configuration_or_fetch-cases key url now (some kept) ec w h = inl (cc)

  configuration_from-IsAnchored :
      (url : String) (now : ℕ) (cached : Option String) (ec : VerifiedEntityConfiguration) (w : W)
      → ((jwt : String) → cached ≡ some jwt → Keeps context ("oidf:ec:" <> url) jwt w)
      → (configuration_from runtime lookup_url context
          ("oidf:ec:" <> url)
          url
          now
          cached
          (context.cache_service.get ("oidf:ec:" <> url) w).1).0
        ≡ done (some ec)
      → IsAnchored url now ec w
  configuration_from-IsAnchored url now none ec w keeps h =
      let served = fetch_configuration-IsServed ("oidf:ec:" <> url) url now ec _ h in
      record { jwt = served.jwt; origin = inr (inl served.fetched); says = served.says }
  configuration_from-IsAnchored url now (some jwt) ec w keeps h =
      let read = (context.cache_service.get ("oidf:ec:" <> url) w).1 in
      let (verdict, w') = verify_entity_configuration runtime lookup_url context jwt now read in
      elim (configuration_or_fetch-cases ("oidf:ec:" <> url) url now verdict ec w' h) [
        | inl e ↦ record {
          jwt = jwt;
          origin = inl (keeps jwt refl);
          says =
              verify_entity_configuration-IsConfiguration runtime lookup_url context jwt now ec read
                e;
        }
        | inr served ↦ record {
          jwt = served.jwt;
          origin = inr (inr (jwt, keeps jwt refl, served.fetched));
          says = served.says;
        }
      ]

  get_verified_entity_configuration-IsAnchored :
      (url : String) (now : ℕ) (ec : VerifiedEntityConfiguration) (w : W)
      → (get_verified_entity_configuration runtime lookup_url context url now w).0 ≡ done (some ec)
      → IsAnchored url now ec w
  unfolding get_verified_entity_configuration
  get_verified_entity_configuration-IsAnchored url now ec w h =
      let (cached, held, answered) =
        >>=-answer (context.cache_service.get ("oidf:ec:" <> url))
          (λ cached.
            configuration_from runtime lookup_url context ("oidf:ec:" <> url) url now
              (cached_text cached))
          w h in
      configuration_from-IsAnchored url now (cached_text cached) ec w
        (λ jwt e. held ∙ ap done (cached_text-kept cached jwt e)) answered

  -- The ground on which an issuer is found at an instant, in a lookup that starts in the world.
  pub record IsMember (did trust_anchor_ec : String) (now : ℕ) (w : W) : Type 0 where
    pub ec : VerifiedEntityConfiguration
    pub anchored : IsAnchored trust_anchor_ec now ec w
    pub vouched :
        IsVouched runtime lookup_url context ec did now
          (get_verified_entity_configuration runtime lookup_url context trust_anchor_ec now w).1

  look_up_under-IsMember :
      (did url : String) (now : ℕ) (verdict : Option VerifiedEntityConfiguration)
      (entity : Option RegistryEntity) (w : W)
      → ((ec : VerifiedEntityConfiguration) → verdict ≡ some ec → IsAnchored url now ec w)
      → (look_up_under runtime lookup_url context did now verdict
          (get_verified_entity_configuration runtime lookup_url context url now w).1).0
        ≡ done (found entity)
      → IsMember did url now w
  look_up_under-IsMember did url now none entity w anchored h = absurd (cc)
  look_up_under-IsMember did url now (some ec) entity w anchored h = record {
    ec = ec;
    anchored = anchored ec refl;
    vouched =
        look_up_at-found runtime lookup_url context ec did now (lookup_url ec.fetch_endpoint did)
          entity _ refl h;
  }

  -- Where the lookup in a federation finds the issuer, two JWTs verify at the instant that the clock showed. The first is
  -- what the cache held under the URL of the trust anchor, or what that URL served: it is signed by a key that it
  -- carries, with the type of an entity statement, its `iss` and its `sub` are the same entity, its `exp` lies ahead, and it
  -- gives the keys and the fetch endpoint. The second is what the cache held under the lookup's URL, which is made of that
  -- endpoint and the issuer, or what that URL served: it is signed by one of those keys, with the same type, its `iss`
  -- is that entity, its `sub` the issuer, and its `exp` lies ahead. The cache is read, and a URL asked, in the worlds that the
  -- lookup passes through.
  pub lookup_oidf-IsMember :
      (did name trust_anchor_ec : String) (entity : Option RegistryEntity) (w : W)
      → (lookup_oidf runtime lookup_url context did
          (EntityIdentityRegistry.oidf name trust_anchor_ec)
          w).0
        ≡ done (found entity)
      → let (now, w') = context.time_service.date_now_ms w in IsMember did trust_anchor_ec now w'
  unfolding lookup_oidf
  lookup_oidf-IsMember did name trust_anchor_ec entity w h =
      let (now, w') = context.time_service.date_now_ms w in
      let (verdict, loaded, answered) =
        >>=-answer
          (get_verified_entity_configuration runtime lookup_url context trust_anchor_ec now)
          (look_up_under runtime lookup_url context did now) w' h in
      look_up_under-IsMember did trust_anchor_ec now verdict entity w'
        (λ ec e.
          get_verified_entity_configuration-IsAnchored trust_anchor_ec now ec w'
            (loaded ∙ ap done e))
        answered
