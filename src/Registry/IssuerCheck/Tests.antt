-- ===== src/Registry/IssuerCheck/Tests.antt =====
-- Concrete runs of the issuer registry check.
use verifier_core.Shared.{ℕ, ◌+◌, false, some, List, [], ◌∷◌, ◌≡◌, refl, ltb}
use verifier_core.Types.{
  is_success, done, VerificationContext, EntityIdentityRegistry, registry_reference,
  RegistryLookupResult, LookupIssuers,
}
use verifier_core.Registry.IssuerCheck.{
  issuer_registry_check, look_up, judge_attempt, judge_lookup, credential_issuer_id, issuer_id,
  not_registered,
}
use verifier_core.Registry.IssuerCheck.Verdict.{
  problem_types, expected_types, IsRefuted, issuer_registry_check-problem_types,
  issuer_registry_check-IsRefuted,
}
use verifier_core.Samples.{context, subject, credential}

abbrev registries : List EntityIdentityRegistry
registries = EntityIdentityRegistry.dcc_legacy "A" "a" ∷ EntityIdentityRegistry.oidf "B" "b" ∷ []

-- One registry answers no, the other could not be checked.
abbrev half_answer : RegistryLookupResult
half_answer = record {
  found = false;
  payload = record {
    matches = [];
    unchecked_registries = registry_reference (EntityIdentityRegistry.oidf "B" "b") ∷ [];
  };
}

abbrev lookup_issuers : LookupIssuers ℕ
lookup_issuers did rs options w = (done half_answer, w + 1)

abbrev asking : VerificationContext ℕ
asking = record context { registries = some registries; lookup_issuers = some lookup_issuers }

issuer_registry_check-problem_types_example :
    (is_success (issuer_registry_check subject asking 0).0 ≡ false)
    × (problem_types (issuer_registry_check subject asking 0).0
        ≡ expected_types false (ltb 1 2) (ltb 0 1))
unfolding credential_issuer_id issuer_id
issuer_registry_check-problem_types_example =
    issuer_registry_check-problem_types subject asking 0 credential "did:example:issuer" registries
      lookup_issuers half_answer refl refl refl refl refl refl refl

issuer_registry_check-IsRefuted_example : IsRefuted subject asking 0
unfolding issuer_registry_check look_up judge_attempt judge_lookup credential_issuer_id issuer_id
    not_registered
issuer_registry_check-IsRefuted_example = issuer_registry_check-IsRefuted subject asking 0 refl
