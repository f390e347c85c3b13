-- ===== src/Fold/Verdict.antt =====
-- src/fold-results.ts: what the summaries say of the subject as a whole.
use verifier_core.Shared.{
  String, not, Option, List, [], ◌∷◌, ◌≡◌, refl, ap, ◌∙◌, arith, any, all, map, is_some,
  is_some-find?,
}
use verifier_core.Shared.Dict.{lookup}
use verifier_core.Types.{CheckResult, VerificationSuite, SuitePhase, is_fatal_failure}
use verifier_core.Fold.{
  Groups, group_checks_by_suite, index_suites_by_id, summarize_suite, summarize_group,
  fold_check_results, derive_phase,
}
use verifier_core.Fold.Grouping.{any_in, any_in-group_checks_by_suite}

summarize_suite-verified :
    (id : String) (phase : Option SuitePhase) (checks : List CheckResult)
    → (summarize_suite id phase checks).verified ≡ not (any is_fatal_failure checks)
unfolding summarize_suite
summarize_suite-verified id phase checks = rw (is_some-find? is_fatal_failure checks)

summarize_suite-fatal_failure_at :
    (id : String) (phase : Option SuitePhase) (checks : List CheckResult)
    → is_some (summarize_suite id phase checks).fatal_failure_at ≡ any is_fatal_failure checks
unfolding summarize_suite
summarize_suite-fatal_failure_at id phase checks =
    ground (arith, is_some-find? is_fatal_failure checks)

module _ {W : Type 0} where
  fold_check_results_lem :
      (checks : List CheckResult) (suites : List (VerificationSuite W))
      → fold_check_results checks suites
        ≡ (checks, map (summarize_group (index_suites_by_id suites)) (group_checks_by_suite checks))
  unfolding fold_check_results group_checks_by_suite
  fold_check_results_lem [] [] = refl
  fold_check_results_lem [] (s ∷ suites) = refl
  fold_check_results_lem (c ∷ checks) suites = refl

  all-verified :
      (index : List (String × VerificationSuite W)) (groups : Groups)
      → all (λ s. s.verified) (map (summarize_group index) groups)
        ≡ not (any_in is_fatal_failure groups)
  unfolding summarize_group
  all-verified index [] = refl
  all-verified index ((id, checks) ∷ groups) = ground (
    arith,
    summarize_suite-verified id (derive_phase (lookup id index)) checks,
    all-verified index groups,
  )

  any-fatal_failure_at :
      (index : List (String × VerificationSuite W)) (groups : Groups)
      → any (λ s. is_some s.fatal_failure_at) (map (summarize_group index) groups)
        ≡ any_in is_fatal_failure groups
  unfolding summarize_group
  any-fatal_failure_at index [] = refl
  any-fatal_failure_at index ((id, checks) ∷ groups) = ground (
    arith,
    summarize_suite-fatal_failure_at id (derive_phase (lookup id index)) checks,
    any-fatal_failure_at index groups,
  )

  -- Folding keeps the rows, and the summaries agree with them: all are verified exactly when no row is
  -- a fatal failure, and some summary names a fatal failure exactly when some row is one.
  pub fold_check_results-verdict :
      (checks : List CheckResult) (suites : List (VerificationSuite W))
      → let folded = fold_check_results checks suites in
        (folded.0 ≡ checks)
        × (all (λ s. s.verified) folded.1 ≡ not (any is_fatal_failure checks))
        × (any (λ s. is_some s.fatal_failure_at) folded.1 ≡ any is_fatal_failure checks)
  fold_check_results-verdict checks suites =
      let index = index_suites_by_id suites in
      let groups = group_checks_by_suite checks in
      rw (fold_check_results_lem checks suites) (
        refl,
        all-verified index groups ∙ ap not (any_in-group_checks_by_suite is_fatal_failure checks),
        any-fatal_failure_at index groups ∙ any_in-group_checks_by_suite is_fatal_failure checks,
      )
