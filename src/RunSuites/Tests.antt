-- ===== src/RunSuites/Tests.antt =====
-- Concrete runs of the orchestrator.
use verifier_core.Shared.{
  String, true, none, some, List, [], ◌∷◌, ◌++◌, ◌≡◌, refl, any, flat_map, inr, filter,
}
use mathlib.Core.List.{Memᴰ}
use verifier_core.Types.{success, CheckResult, is_fatal_failure, SuitePhase}
use verifier_core.Fold.Id.{compute_id}
use verifier_core.RunSuites.{
  RunSuitesOptions, run_suites, run_loop, run_suite, run_applied, run_checks, run_check,
  run_admitted, execute_check, execute_timed, contain, emit, synthetic_result, build_result,
  halts_on_failure, evaluate_applies, applies_to_subject, check_applies_to, has_fatal_check,
  suite_runs_in_phases, not_run,
}
use verifier_core.RunSuites.Rows.{run_suites-ids, ids, listed}
use verifier_core.RunSuites.Halted.{run_suites-HaltsAt, run_suites-halted_world, HaltsAt}
use verifier_core.RunSuites.FailClosed.{run_suites-fails_closed, run_suites-predicate_throws}
use verifier_core.RunSuites.Phases.{run_suites-filter, all_phases}
use verifier_core.Samples.{
  platform, context, subject, rejecting, bad, failing_suite, passing_suite, throwing_suite,
}

abbrev options : RunSuitesOptions
options = record { explicit_suite_ids = none; phases = none }

abbrev good_row : CheckResult
good_row = record {
  id = "cryptographic.first.good";
  suite = "first";
  outcome = success "ok" none;
  fatal = none;
  halts = none;
  timing = none;
}

abbrev bad_row : CheckResult
bad_row = record {
  id = "cryptographic.first.bad";
  suite = "first";
  outcome = rejecting;
  fatal = some true;
  halts = none;
  timing = none;
}

abbrev barred_row : String → String → CheckResult
barred_row suite id = record {
  id = id;
  suite = suite;
  outcome = not_run "bad";
  fatal = none;
  halts = none;
  timing = none;
}

abbrev barred : List CheckResult
barred =
    barred_row "first" "cryptographic.first.good"
    ∷ barred_row "second" "cryptographic.second.good"
    ∷ []

-- A fatal check fails in the middle of the first suite: the rest of the report is "not run".
sample_rows :
    run_suites platform subject context options (failing_suite ∷ passing_suite ∷ []) 0
    ≡ ((good_row ∷ []) ++ bad_row ∷ barred, 2)
unfolding run_suites run_loop run_suite suite_runs_in_phases run_applied evaluate_applies run_checks
    run_check run_admitted execute_check execute_timed contain emit synthetic_result build_result
    halts_on_failure compute_id
sample_rows = refl

run_suites-HaltsAt_example : HaltsAt (good_row ∷ []) bad_row barred
unfolding run_suites run_loop run_suite suite_runs_in_phases run_applied evaluate_applies run_checks
    run_check run_admitted execute_check execute_timed contain emit synthetic_result build_result
    halts_on_failure compute_id
run_suites-HaltsAt_example =
    run_suites-HaltsAt platform subject context options (failing_suite ∷ passing_suite ∷ []) 0
      (good_row ∷ []) bad_row barred refl refl

run_suites-halted_world_example :
    (run_suites platform subject context options (failing_suite ∷ [] ++ passing_suite ∷ []) 0).1
    ≡ (run_suites platform subject context options (failing_suite ∷ []) 0).1
unfolding run_suites run_loop run_suite suite_runs_in_phases run_applied evaluate_applies run_checks
    run_check run_admitted execute_check execute_timed contain emit synthetic_result build_result
    halts_on_failure compute_id
run_suites-halted_world_example =
    run_suites-halted_world platform subject context options (failing_suite ∷ [])
      (passing_suite ∷ []) 0 refl refl

run_suites-fails_closed_example :
    any is_fatal_failure
      (run_suites platform subject context options (passing_suite ∷ failing_suite ∷ []) 0).0
    ≡ true
unfolding suite_runs_in_phases evaluate_applies applies_to_subject check_applies_to has_fatal_check
run_suites-fails_closed_example =
    run_suites-fails_closed platform subject context options (passing_suite ∷ failing_suite ∷ [])
      failing_suite bad 0 (Memᴰ.tail (Memᴰ.head refl)) refl refl (Memᴰ.tail (Memᴰ.head refl)) refl
      refl (λ w. inr (_, none, refl))

run_suites-predicate_throws_example :
    any is_fatal_failure
      (run_suites platform subject context options (passing_suite ∷ throwing_suite ∷ []) 0).0
    ≡ true
unfolding suite_runs_in_phases evaluate_applies applies_to_subject check_applies_to has_fatal_check
run_suites-predicate_throws_example =
    run_suites-predicate_throws platform subject context options
      (passing_suite ∷ throwing_suite ∷ []) throwing_suite _ 0 (Memᴰ.tail (Memᴰ.head refl)) refl
      refl refl

run_suites-ids_example :
    ids (run_suites platform subject context options (failing_suite ∷ passing_suite ∷ []) 0).0
    ≡ flat_map (listed subject context options) (failing_suite ∷ passing_suite ∷ [])
unfolding evaluate_applies
run_suites-ids_example =
    run_suites-ids platform subject context options (failing_suite ∷ passing_suite ∷ []) 0
      ((true, refl), ((true, refl), tt))

run_suites-filter_example :
    run_suites platform subject context
      (record { explicit_suite_ids = none; phases = some (SuitePhase.trust ∷ []) })
      (failing_suite ∷ [])
      0
    ≡ run_suites platform subject context
        (all_phases none)
        (filter (λ s. suite_runs_in_phases s (some (SuitePhase.trust ∷ []))) (failing_suite ∷ []))
        0
run_suites-filter_example =
    run_suites-filter platform subject context none (some (SuitePhase.trust ∷ []))
      (failing_suite ∷ []) 0
