-- ===== src/RegistryHandlers/Oidf/Statement.antt =====
-- src/services/registry-handlers/oidf-handler.ts: on what ground an issuer is found, and for how long a statement is kept.
use verifier_core.Shared.{
  ℕ, ◌+◌, ◌≤◌, ◌<◌, String, Bool, true, false, Option, none, some, [], ◌∷◌, ◌≡◌, ◌≢◌, ◌⊎◌, inl, inr,
  ap, ◌∙◌, eq_iff, refl, ◌<>◌, arith, nat_eq, if◌then◌else◌,
}
use verifier_core.Json.{Json, null, bool, num, arr, obj, str, Fields, lookup_field}
use verifier_core.Types.{done, Action, pure, >>=-answer, Headers, HttpGetResult, RegistryEntity}
use verifier_core.Registry.{HandlerResult, found, not_found, unchecked, RegistryHandlerContext}
use verifier_core.RegistryHandlers.CacheTtl.{
  resolve_ttl-positive, resolve_ttl-allowance, allowance, parse_cache_control_max_age,
}
use verifier_core.RegistryHandlers.Answer.{is_refused, fetch}
use verifier_core.RegistryHandlers.Jws.{JwsRuntime, JwsResult, valid, invalid, verify_jws}
use verifier_core.RegistryHandlers.Jws.Signed.{IsSigned, verify_jws-IsSigned}
use verifier_core.RegistryHandlers.Oidf.Origin.{
  Origin, Keeps, IsFetched, fetch-IsFetched, cached_text-kept,
}
use verifier_core.RegistryHandlers.Oidf.Configuration.{unexpired_numeric_date-later}
use verifier_core.RegistryHandlers.Oidf.{
  is_string, fetch_statement, entity_statement_typ, VerifiedEntityConfiguration, body_to_jwt,
  instant, unexpired, numeric_date, unexpired_numeric_date, ttl_bounded_by_exp, names,
  judge_statement, verify_subordinate_statement, store_statement, judge_fetched_statement,
  found_or_fetch, statement_from, look_up_at, cached_text,
}

-- A statement whose `exp`, a whole number of seconds since 1970, is still to come is kept for at least a millisecond,
-- never past that `exp`, and no longer than the answer's `max-age` (an hour, where that is absent, zero or beyond the
-- range of a double).
pub ttl_bounded_by_exp-within :
    (headers : Headers) (date : Option Json) (now exp : ℕ)
    → unexpired_numeric_date date now ≡ some exp
    → (1 ≤ ttl_bounded_by_exp headers exp now)
      × (now + ttl_bounded_by_exp headers exp now ≤ instant exp)
      × (ttl_bounded_by_exp headers exp now ≤ allowance (parse_cache_control_max_age headers))
unfolding ttl_bounded_by_exp
ttl_bounded_by_exp-within headers date now exp h =
    let (dated, later) = unexpired_numeric_date-later date now exp h in
    let positive = resolve_ttl-positive (parse_cache_control_max_age headers ∷ []) in
    let kept = resolve_ttl-allowance (parse_cache_control_max_age headers) in
    (ground arith, ground arith, ground arith)

guard-some :
    {A : Type 0} (passed : Bool) (o : Option A) (a : A)
    → (if passed then o else none) ≡ some a
    → (passed ≡ true) × (o ≡ some a)
guard-some true o a h = (refl, h)
guard-some false o a h = absurd (cc)

-- A text that a field must have.
is_string-field :
    (wanted : String) (v : Option Json) → is_string wanted v ≡ true → v ≡ some (str wanted)
is_string-field wanted none h = absurd (cc)
is_string-field wanted (some (str s)) h = ap (λ t. some (str t)) ((eq_iff s wanted).0 h)
is_string-field wanted (some null) h = absurd (cc)
is_string-field wanted (some (bool b)) h = absurd (cc)
is_string-field wanted (some (num n)) h = absurd (cc)
is_string-field wanted (some (arr vs)) h = absurd (cc)
is_string-field wanted (some (obj fields)) h = absurd (cc)

module _ {W : Type 0} (runtime : JwsRuntime W) where
  -- The JWT is signed, with the type of an entity statement, by a key of the configuration; its `iss` is the
  -- configuration's entity, its `sub` the issuer, and its `exp` lies ahead.
  pub record IsStatement (jwt : String) (ec : VerifiedEntityConfiguration) (did : String) (now : ℕ)
      : Type 0 where
    pub statement : Fields
    pub signed : IsSigned runtime jwt ec.jwks (some "entity-statement+jwt") statement
    pub issuer : lookup_field "iss" statement ≡ some (str ec.entity_id)
    pub subject : lookup_field "sub" statement ≡ some (str did)
    pub exp : ℕ
    pub dated : numeric_date (lookup_field "exp" statement) ≡ some exp
    pub current : now < instant exp

  judge_statement-IsStatement :
      (ec : VerifiedEntityConfiguration) (did : String) (now exp : ℕ) (jwt : String)
      (result : JwsResult) (w : W)
      → (verify_jws runtime jwt ec.jwks (some entity_statement_typ) w).0 ≡ result
      → judge_statement ec did now result ≡ some exp
      → IsStatement jwt ec did now
  unfolding judge_statement
  judge_statement-IsStatement ec did now exp jwt (invalid reason) w e h = absurd (cc)
  judge_statement-IsStatement ec did now exp jwt (valid statement) w e h =
      let (about, unexpired) =
        guard-some (names ec did statement)
          (unexpired_numeric_date (lookup_field "exp" statement) now) exp h in
      let (dated, current) =
        unexpired_numeric_date-later (lookup_field "exp" statement) now exp unexpired in
      record {
        statement = statement;
        signed = verify_jws-IsSigned runtime jwt ec.jwks (some entity_statement_typ) statement w e;
        issuer = is_string-field ec.entity_id (lookup_field "iss" statement) (ground arith);
        subject = is_string-field did (lookup_field "sub" statement) (ground arith);
        exp = exp;
        dated = dated;
        current = current;
      }

module _ {W V : Type 0} (runtime : JwsRuntime W)
    (lookup_url : (endpoint did : String) → Option String)
    (context : RegistryHandlerContext W V) where
  -- The world after a JWT was checked as a statement about the issuer.
  abbrev after_statement : VerifiedEntityConfiguration → String → ℕ → String → W → W
  after_statement ec did now jwt w =
      (verify_subordinate_statement runtime lookup_url context jwt ec did now w).1

  -- The cache, read in the world, or the lookup's URL gave a JWT that is a statement about the issuer.
  pub record IsVouched (ec : VerifiedEntityConfiguration) (did : String) (now : ℕ) (w : W)
      : Type 0 where
    pub url : String
    pub asked : lookup_url ec.fetch_endpoint did ≡ some url
    pub jwt : String
    pub origin : Origin context (after_statement ec did now) ("oidf:lookup:" <> url) url jwt w
    pub says : IsStatement runtime jwt ec did now

  -- The URL, asked in the world, served a statement about the issuer.
  record IsServed (ec : VerifiedEntityConfiguration) (did url : String) (now : ℕ) (w : W)
      : Type 0 where
    jwt : String
    fetched : IsFetched context url jwt w
    says : IsStatement runtime jwt ec did now

  verify_subordinate_statement-IsStatement :
      (jwt : String) (ec : VerifiedEntityConfiguration) (did : String) (now exp : ℕ) (w : W)
      → (verify_subordinate_statement runtime lookup_url context jwt ec did now w).0 ≡ some exp
      → IsStatement runtime jwt ec did now
  unfolding verify_subordinate_statement
  verify_subordinate_statement-IsStatement jwt ec did now exp w h =
      judge_statement-IsStatement runtime ec did now exp jwt _ w refl h

  guard-found :
      (refused : Bool) (answer : HandlerResult) (m : Action W HandlerResult)
      (entity : Option RegistryEntity) (w : W)
      → (found entity ≢ answer)
      → ((if refused then pure answer else m) w).0 ≡ done (found entity)
      → (refused ≡ false) × ((m w).0 ≡ done (found entity))
  guard-found true answer m entity w differs h = absurd (differs (cc))
  guard-found false answer m entity w differs h = (refl, h)

  store_statement-IsStatement :
      (key jwt : String) (result : HttpGetResult) (ec : VerifiedEntityConfiguration) (did : String)
      (now : ℕ) (exp : Option ℕ) (entity : Option RegistryEntity) (u w : W)
      → (verify_subordinate_statement runtime lookup_url context jwt ec did now u).0 ≡ exp
      → (store_statement runtime lookup_url context key jwt result now exp w).0
        ≡ done (found entity)
      → IsStatement runtime jwt ec did now
  store_statement-IsStatement key jwt result ec did now none entity u w e h = absurd (cc)
  store_statement-IsStatement key jwt result ec did now (some exp) entity u w e h =
      verify_subordinate_statement-IsStatement jwt ec did now exp u e

  judge_fetched_statement-IsServed :
      (ec : VerifiedEntityConfiguration) (did key url : String) (now : ℕ)
      (fetched : Option HttpGetResult) (entity : Option RegistryEntity) (u w : W)
      → (fetch context.http_get_service url u).0 ≡ fetched
      → (judge_fetched_statement runtime lookup_url context ec did key now fetched w).0
        ≡ done (found entity)
      → IsServed ec did url now u
  judge_fetched_statement-IsServed ec did key url now none entity u w e h = absurd (cc)
  judge_fetched_statement-IsServed ec did key url now (some result) entity u w e h =
      let jwt = body_to_jwt result.body in
      let (_, answered) = guard-found (nat_eq result.status 404) not_found _ entity w (λ e. cc) h in
      let (accepted, stored) =
        guard-found (is_refused result) unchecked _ entity w (λ e. cc) answered in
      record {
        jwt = jwt;
        fetched = fetch-IsFetched context url jwt result u e accepted refl;
        says = store_statement-IsStatement key jwt result ec did now _ entity w _ refl stored;
      }

  fetch_statement-IsServed :
      (ec : VerifiedEntityConfiguration) (did url : String) (now : ℕ)
      (entity : Option RegistryEntity) (w : W)
      → (fetch_statement runtime lookup_url context ec did url now w).0 ≡ done (found entity)
      → IsServed ec did url now w
  fetch_statement-IsServed ec did url now entity w h =
      let (fetched, w') = fetch context.http_get_service url w in
      judge_fetched_statement-IsServed ec did ("oidf:lookup:" <> url) url now fetched entity w w'
        refl h

  found_or_fetch-cases :
      (ec : VerifiedEntityConfiguration) (did url jwt : String) (now : ℕ) (exp : Option ℕ)
      (entity : Option RegistryEntity) (u w : W)
      → (verify_subordinate_statement runtime lookup_url context jwt ec did now u).0 ≡ exp
      → (found_or_fetch runtime lookup_url context ec did url now exp w).0 ≡ done (found entity)
      → IsStatement runtime jwt ec did now ⊎ IsServed ec did url now w
  found_or_fetch-cases ec did url jwt now (some exp) entity u w e h =
      inl (verify_subordinate_statement-IsStatement jwt ec did now exp u e)
  found_or_fetch-cases ec did url jwt now none entity u w e h =
      inr (fetch_statement-IsServed ec did url now entity w h)

  statement_from-IsVouched :
      (ec : VerifiedEntityConfiguration) (did url : String) (now : ℕ) (cached : Option String)
      (entity : Option RegistryEntity) (w : W)
      → lookup_url ec.fetch_endpoint did ≡ some url
      → ((jwt : String) → cached ≡ some jwt → Keeps context ("oidf:lookup:" <> url) jwt w)
      → (statement_from runtime lookup_url context ec did url now cached
          (context.cache_service.get ("oidf:lookup:" <> url) w).1).0
        ≡ done (found entity)
      → IsVouched ec did now w
  statement_from-IsVouched ec did url now none entity w asked keeps h =
      let served = fetch_statement-IsServed ec did url now entity _ h in
      record {
        url = url;
        asked = asked;
        jwt = served.jwt;
        origin = inr (inl served.fetched);
        says = served.says;
      }
  statement_from-IsVouched ec did url now (some jwt) entity w asked keeps h =
      let read = (context.cache_service.get ("oidf:lookup:" <> url) w).1 in
      elim (found_or_fetch-cases ec did url jwt now _ entity read
        (after_statement ec did now jwt read) refl h) [
          | inl says ↦ record {
            url = url;
            asked = asked;
            jwt = jwt;
            origin = inl (keeps jwt refl);
            says = says;
          }
          | inr served ↦ record {
            url = url;
            asked = asked;
            jwt = served.jwt;
            origin = inr (inr (jwt, keeps jwt refl, served.fetched));
            says = served.says;
          }
        ]

  pub look_up_at-found :
      (ec : VerifiedEntityConfiguration) (did : String) (now : ℕ) (url : Option String)
      (entity : Option RegistryEntity) (w : W)
      → lookup_url ec.fetch_endpoint did ≡ url
      → (look_up_at runtime lookup_url context ec did now url w).0 ≡ done (found entity)
      → IsVouched ec did now w
  look_up_at-found ec did now none entity w asked h = absurd (cc)
  look_up_at-found ec did now (some url) entity w asked h =
      let (cached, held, answered) =
        >>=-answer (context.cache_service.get ("oidf:lookup:" <> url))
          (λ cached. statement_from runtime lookup_url context ec did url now (cached_text cached))
          w h in
      statement_from-IsVouched ec did url now (cached_text cached) entity w asked
        (λ jwt e. held ∙ ap done (cached_text-kept cached jwt e)) answered
