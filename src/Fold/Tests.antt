-- ===== src/Fold/Tests.antt =====
-- Concrete reports, folded.
use verifier_core.Shared.{
  ◌+◌, String, Bool, true, not, Option, none, some, List, [], ◌∷◌, ◌≡◌, any, all, map, length,
  count_where, is_some,
}
use verifier_core.Types.{
  is_success, CheckOutcome, success, skipped, is_failure, not_run_after_fatal, CheckResult,
  is_fatal_failure,
}
use verifier_core.Fold.{
  empty_tally, tally_suite, group_checks_by_suite, summarize_suite, fold_check_results,
}
use verifier_core.Fold.Grouping.{group_checks_by_suite_lem, new_ids, of_suite}
use verifier_core.Fold.Counting.{tally_suite-IsTally, IsTally, summarize_suite-counts, Means}
use verifier_core.Fold.Verdict.{fold_check_results-verdict}
use verifier_core.Samples.{rejecting, failing_suite, passing_suite}

abbrev row : String → Option Bool → CheckOutcome → CheckResult
row suite fatal outcome = record {
  id = suite;
  suite = suite;
  outcome = outcome;
  fatal = fatal;
  halts = none;
  timing = none;
}

abbrev rows : List CheckResult
rows =
    row "second" none (success "ok" none)
    ∷ row "first" (some true) rejecting
    ∷ row "second" none (skipped "Not run" (some not_run_after_fatal) (some "bad"))
    ∷ []

group_checks_by_suite_lem_example :
    group_checks_by_suite rows ≡ map (λ k. (k, of_suite k rows)) (new_ids [] rows)
group_checks_by_suite_lem_example = group_checks_by_suite_lem rows

tally_suite-IsTally_example : IsTally empty_tally rows (tally_suite rows)
tally_suite-IsTally_example = tally_suite-IsTally rows

summarize_suite-counts_example :
    let s = summarize_suite "second" none rows in
    (s.counts.passed ≡ count_where (λ c. is_success c.outcome) rows)
    × (s.counts.failed ≡ count_where (λ c. is_failure c.outcome) rows)
    × (s.counts.passed + s.counts.failed + s.counts.skipped ≡ length rows)
    × Means s.status rows
summarize_suite-counts_example = summarize_suite-counts "second" none rows

fold_check_results-verdict_example :
    let folded = fold_check_results rows (failing_suite ∷ passing_suite ∷ []) in
    (folded.0 ≡ rows)
    × (all (λ s. s.verified) folded.1 ≡ not (any is_fatal_failure rows))
    × (any (λ s. is_some s.fatal_failure_at) folded.1 ≡ any is_fatal_failure rows)
fold_check_results-verdict_example =
    fold_check_results-verdict rows (failing_suite ∷ passing_suite ∷ [])
