-- ===== src/Registry/IssuerCheck/Verdict.antt =====
-- src/suites/registry/issuer-registry-check.ts: which problems it reports.
use verifier_core.Shared.{
  ℕ, String, Bool, true, false, not, ◌&&◌, Option, none, some, List, [], ◌∷◌, ◌++◌, ◌==◌, ◌≡◌, refl,
  ◌∙◌, ap, sym, arith, if◌then◌else◌, nat_eq, ltb, length, map, any, or_else,
}
use verifier_core.Json.{Json, null, is_truthy}
use verifier_core.Types.{
  is_success, Attempt, done, thrown, VerificationSubject, VerificationContext,
  EntityIdentityRegistry, RegistryLookupResult, LookupIssuers, CheckOutcome, failure, skipped,
}
use verifier_core.Types.ProblemTypes
use verifier_core.Registry.IssuerCheck.{
  credential_issuer_id, judge_lookup, judge_attempt, look_up, issuer_registry_check, not_registered,
  unchecked_problem,
}

-- The types of the problems that an outcome reports.
abbrev pub problem_types : CheckOutcome → List String
problem_types (failure problems payload) = map (λ p. p.type) problems
problem_types _ = []

-- Which problems a lookup ends in: none if the issuer is found; otherwise "not registered" if some registry could be
-- checked, and "unchecked" if some could not.
abbrev pub expected_types : (found some_checked some_unchecked : Bool) → List String
expected_types true some_checked some_unchecked = []
expected_types false some_checked some_unchecked =
    (if some_checked then ProblemTypes.issuer_not_registered ∷ [] else [])
    ++ (if some_unchecked then ProblemTypes.registry_unchecked ∷ [] else [])

judge_lookup-problem_types :
    (issuer_did : String) (total : ℕ) (result : RegistryLookupResult)
    → nat_eq total 0 ≡ false
    → problem_types (judge_lookup issuer_did total result)
      ≡ expected_types result.found
          (ltb (length result.unchecked_registries) total)
          (ltb 0 (length result.unchecked_registries))
unfolding judge_lookup not_registered unchecked_problem
judge_lookup-problem_types issuer_did total result h = ground arith

judge_lookup-is_success :
    (issuer_did : String) (total : ℕ) (result : RegistryLookupResult)
    → is_success (judge_lookup issuer_did total result) ≡ result.found
unfolding judge_lookup
judge_lookup-is_success issuer_did total result = ground arith

module _ {W : Type 0} where
  -- Over a credential with an issuer and at least one registry, a lookup that returns decides the outcome: the
  -- check succeeds exactly when the issuer is found; if it is not, "not registered" is reported exactly when some
  -- registry could be checked, followed by "unchecked" exactly when some could not.
  pub issuer_registry_check-problem_types :
      (subject : VerificationSubject) (context : VerificationContext W) (w : W) (credential : Json)
      (issuer_did : String) (registries : List EntityIdentityRegistry)
      (lookup_issuers : LookupIssuers W) (result : RegistryLookupResult)
      → subject.verifiable_credential ≡ some credential
      → is_truthy (some credential) ≡ true
      → credential_issuer_id credential ≡ some issuer_did
      → context.registries ≡ some registries
      → nat_eq (length registries) 0 ≡ false
      → context.lookup_issuers ≡ some lookup_issuers
      → (lookup_issuers issuer_did registries none w).0 ≡ done result
      → (is_success (issuer_registry_check subject context w).0 ≡ result.found)
        × (problem_types (issuer_registry_check subject context w).0
            ≡ expected_types result.found
                (ltb (length result.unchecked_registries) (length registries))
                (ltb 0 (length result.unchecked_registries)))
  unfolding issuer_registry_check look_up judge_attempt
  issuer_registry_check-problem_types subject context w credential issuer_did registries
        lookup_issuers result c t i r n l e =
      rw (c, t, r, n, i, l, e)
        (
          judge_lookup-is_success issuer_did (length registries) result,
          judge_lookup-problem_types issuer_did (length registries) result n,
        )

  -- What it takes for the issuer to be reported as not registered.
  pub record IsRefuted (subject : VerificationSubject) (context : VerificationContext W) (w : W)
      : Type 0 where
    pub issuer_did : String
    pub lookup_issuers : LookupIssuers W
    pub result : RegistryLookupResult
    pub issuer : credential_issuer_id (or_else subject.verifiable_credential null) ≡ some issuer_did
    pub asked : (lookup_issuers issuer_did (or_else context.registries []) none w).0 ≡ done result
    pub provided : context.lookup_issuers ≡ some lookup_issuers
    pub absent : result.found ≡ false
    pub checked :
        ltb (length result.unchecked_registries) (length (or_else context.registries [])) ≡ true

abbrev reports_not_registered : CheckOutcome → Bool
reports_not_registered outcome =
    any (λ t. t == ProblemTypes.issuer_not_registered) (problem_types outcome)

expected_types-not_registered :
    (found checked unchecked : Bool)
    → any (λ t. t == ProblemTypes.issuer_not_registered) (expected_types found checked unchecked)
      ≡ (not found && checked)
expected_types-not_registered true checked unchecked = refl
expected_types-not_registered false true true = refl
expected_types-not_registered false true false = refl
expected_types-not_registered false false true = refl
expected_types-not_registered false false false = refl

and_true :
    (found checked : Bool) → (not found && checked) ≡ true → (found ≡ false) × (checked ≡ true)
and_true found checked h = ground arith

judge_attempt-not_registered :
    (issuer_did : String) (total : ℕ) (attempt : Attempt RegistryLookupResult)
    → nat_eq total 0 ≡ false
    → reports_not_registered (judge_attempt issuer_did total attempt) ≡ true
    → (result : RegistryLookupResult) × (attempt ≡ done result)
      × (result.found ≡ false)
      × (ltb (length result.unchecked_registries) total ≡ true)
unfolding judge_attempt
judge_attempt-not_registered issuer_did total (thrown e) n h = absurd (cc)
judge_attempt-not_registered issuer_did total (done result) n h =
    let (absent, checked) = and_true _ _ (
      sym (expected_types-not_registered result.found _ _)
      ∙ ap (any (λ t. t == ProblemTypes.issuer_not_registered))
          (sym (judge_lookup-problem_types issuer_did total result n))
      ∙ h) in
    (result, refl, absent, checked)

module _ {W : Type 0} where
  past_skips :
      (has_credential no_registry : Bool) (a b : String) (rest : CheckOutcome × W) (w : W)
      → reports_not_registered
          (if not has_credential
            then (skipped a none none, w)
            else if no_registry
            then (skipped b none none, w)
            else rest).0
        ≡ true
      → (no_registry ≡ false) × (reports_not_registered rest.0 ≡ true)
  past_skips false no_registry a b rest w h = absurd (cc)
  past_skips true true a b rest w h = absurd (cc)
  past_skips true false a b rest w h = (refl, h)

  look_up-IsRefuted :
      (subject : VerificationSubject) (context : VerificationContext W) (w : W)
      (issuer : Option String) (lookup : Option (LookupIssuers W))
      → credential_issuer_id (or_else subject.verifiable_credential null) ≡ issuer
      → context.lookup_issuers ≡ lookup
      → nat_eq (length (or_else context.registries [])) 0 ≡ false
      → reports_not_registered (look_up issuer lookup (or_else context.registries []) w).0 ≡ true
      → IsRefuted subject context w
  unfolding look_up
  look_up-IsRefuted subject context w none lookup i l n h = absurd (cc)
  look_up-IsRefuted subject context w (some did) none i l n h = absurd (cc)
  look_up-IsRefuted subject context w (some did) (some f) i l n h =
      let (result, asked, absent, checked) = judge_attempt-not_registered did _ _ n h in
      record {
        issuer_did = did;
        lookup_issuers = f;
        result = result;
        issuer = i;
        asked = asked;
        provided = l;
        absent = absent;
        checked = checked;
      }

  -- The check reports an issuer as not registered only if the credential names the issuer, the lookup was
  -- asked for it and returned, it found no match, and some registry could be checked: a lookup that throws, or
  -- registries none of which could be checked, never lead to that report.
  pub issuer_registry_check-IsRefuted :
      (subject : VerificationSubject) (context : VerificationContext W) (w : W)
      → reports_not_registered (issuer_registry_check subject context w).0 ≡ true
      → IsRefuted subject context w
  unfolding issuer_registry_check
  issuer_registry_check-IsRefuted subject context w h =
      let (some_registry, reported) =
        past_skips (is_truthy subject.verifiable_credential)
          (nat_eq (length (or_else context.registries [])) 0) _ _ _ w h in
      look_up-IsRefuted subject context w _ _ refl refl some_registry reported
