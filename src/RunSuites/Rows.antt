-- ===== src/RunSuites/Rows.antt =====
-- src/run-suites.ts: what the rows are, whatever the checks answer.
use verifier_core.Shared.{
  String, Bool, true, false, ◌&&◌, not, Option, none, some, List, [], ◌∷◌, ◌≡◌, refl, ap, arith,
  map, filter, flat_map, All, if◌then◌else◌, is_some, is_true, Bool-cases, inl, inr,
}
use mathlib.Core.List.{map-append}
use verifier_core.Types.{
  Attempt, done, thrown, TimeService, Platform, VerificationSubject, VerificationContext,
  CheckOutcome, CheckResult, VerificationCheck, VerificationSuite,
}
use verifier_core.Fold.Id.{compute_id}
use verifier_core.RunSuites.{
  RunSuitesOptions, has_id, Flags, flags_of, not_run, build_result, synthetic_result, emit,
  execute_check, applies_to_subject, run_check, run_admitted, run_checks, suite_runs_in_phases,
  evaluate_applies, applies_id, declined, no_flags, run_applied, run_suite, run_loop, run_suites,
}

-- The row that `build_result` makes, with any timing.
pub record IsRow {W : Type 0} (suite : VerificationSuite W) (check_id : String)
    (outcome : CheckOutcome) (flags : Flags) (r : CheckResult) : Type 0 where
  pub id : r.id ≡ compute_id suite.phase suite.id check_id
  pub suite_id : r.suite ≡ suite.id
  pub outcome_is : r.outcome ≡ outcome
  pub fatal : r.fatal ≡ flags.fatal
  pub halts : r.halts ≡ flags.halts

module _ {W : Type 0} (platform : Platform W) where
  pub synthetic_result-IsRow :
      (suite : VerificationSuite W) (check_id : String) (outcome : CheckOutcome) (flags : Flags)
      (timing : Bool) (time_service : Option (TimeService W)) (w : W)
      → IsRow suite check_id outcome flags
          (synthetic_result platform suite check_id outcome flags timing time_service w).0
  unfolding synthetic_result build_result
  synthetic_result-IsRow suite check_id outcome flags false time_service w = record {
    id = refl;
    suite_id = refl;
    outcome_is = refl;
    fatal = refl;
    halts = refl;
  }
  synthetic_result-IsRow suite check_id outcome flags true time_service w = record {
    id = refl;
    suite_id = refl;
    outcome_is = refl;
    fatal = refl;
    halts = refl;
  }

-- A check whose `appliesTo` is unset applies to every subject.
skips_nothing :
    {W : Type 0} (check : VerificationCheck W) (subject : VerificationSubject)
    → (is_some check.applies_to && not (applies_to_subject check subject))
      ≡ not (applies_to_subject check subject)
unfolding applies_to_subject
skips_nothing check subject = ground arith

abbrev pub ids : List CheckResult → List String
ids rows = map (λ r. r.id) rows

module _ {W : Type 0} (subject : VerificationSubject) (context : VerificationContext W) where
  -- The id of a check's row.
  abbrev row_id : VerificationSuite W → VerificationCheck W → String
  row_id suite check = compute_id suite.phase suite.id check.id

  -- The rows of a suite that applies: one for each check that applies, in order.
  abbrev listed_checks : VerificationSuite W → List (VerificationCheck W) → List String
  listed_checks suite checks =
      map (row_id suite) (filter (λ c. applies_to_subject c subject) checks)

  abbrev listed_applied : Option (List String) → VerificationSuite W → Attempt Bool → List String
  listed_applied explicit suite (done true) = listed_checks suite suite.checks
  listed_applied explicit suite (done false) =
      if has_id explicit suite.id
      then compute_id suite.phase suite.id (applies_id suite) ∷ []
      else []
  listed_applied explicit suite (thrown e) = []

  -- The ids that a run must list, said without running anything.
  abbrev pub listed : RunSuitesOptions → VerificationSuite W → List String
  listed options suite =
      if suite_runs_in_phases suite options.phases
      then listed_applied options.explicit_suite_ids suite (evaluate_applies suite subject context)
      else []

  -- The predicate answers.
  abbrev Answers : VerificationSuite W → Type 0
  Answers suite = (b : Bool) × (evaluate_applies suite subject context ≡ done b)

module _ {W : Type 0} (platform : Platform W) (subject : VerificationSubject)
    (context : VerificationContext W) where
  emit-ids :
      (suite : VerificationSuite W) (check_id : String) (outcome : CheckOutcome) (flags : Flags)
      (halted_by : Option String) (w : W)
      → ids (emit platform subject context suite check_id outcome flags halted_by w).rows
        ≡ compute_id suite.phase suite.id check_id ∷ []
  unfolding emit
  emit-ids suite check_id outcome flags halted_by w =
      let row =
        synthetic_result-IsRow platform suite check_id outcome flags (is_true context.timing)
          context.time_service w in
      ap (λ i. i ∷ []) row.id

  run_check-ids :
      (suite : VerificationSuite W) (check : VerificationCheck W) (halted_by : Option String)
      (w : W)
      → ids (run_check platform subject context suite check halted_by w).rows
        ≡ (if applies_to_subject check subject then row_id subject context suite check ∷ [] else [])
  unfolding run_check run_admitted execute_check build_result
  run_check-ids suite check none w = rw (skips_nothing check subject) (ground arith)
  run_check-ids suite check (some h) w =
      rw (skips_nothing check subject)
        (ground (arith, emit-ids suite check.id (not_run h) (flags_of check) (some h) w))

  run_checks-ids :
      (suite : VerificationSuite W) (checks : List (VerificationCheck W))
      (halted_by : Option String) (w : W)
      → ids (run_checks platform subject context suite checks halted_by w).rows
        ≡ listed_checks subject context suite checks
  unfolding run_checks
  run_checks-ids suite [] halted_by w = refl
  run_checks-ids suite (check ∷ checks) halted_by w =
      let first = run_check platform subject context suite check halted_by w in
      rw
        (
          map-append,
          run_check-ids suite check halted_by w,
          run_checks-ids suite checks first.halted_by first.world,
        )
        (ground arith)

  module _ (options : RunSuitesOptions) where
    run_suite-ids :
        (suite : VerificationSuite W) (halted_by : Option String) (w : W)
        → Answers subject context suite
        → ids (run_suite platform subject context options suite halted_by w).rows
          ≡ listed subject context options suite
    unfolding run_suite run_applied
    run_suite-ids suite halted_by w (true, e) =
        elim (Bool-cases (suite_runs_in_phases suite options.phases)) [
          | inl runs ↦ rw (runs, e) (run_checks-ids suite suite.checks halted_by w)
          | inr no_run ↦ rw no_run
        ]
    run_suite-ids suite halted_by w (false, e) =
        ground (arith, emit-ids suite (applies_id suite) declined no_flags halted_by w)

    run_loop-ids :
        (suites : List (VerificationSuite W)) (halted_by : Option String) (w : W)
        → All (Answers subject context) suites
        → ids (run_loop platform subject context options suites halted_by w).rows
          ≡ flat_map (listed subject context options) suites
    unfolding run_loop
    run_loop-ids [] halted_by w h = refl
    run_loop-ids (suite ∷ suites) halted_by w (a, h) =
        let first = run_suite platform subject context options suite halted_by w in
        rw (
          map-append,
          run_suite-ids suite halted_by w a,
          run_loop-ids suites first.halted_by first.world h,
        )

-- If no predicate throws, the report lists exactly the checks that apply to the subject, of the
-- suites that the phases admit and whose predicate holds, in order, and one `.applies` row for each
-- suite that the caller queued and whose predicate declines: whatever the checks answer, throw, or
-- halt.
pub run_suites-ids :
    {W : Type 0} (platform : Platform W) (subject : VerificationSubject)
    (context : VerificationContext W) (options : RunSuitesOptions)
    (suites : List (VerificationSuite W)) (w : W)
    → All (Answers subject context) suites
    → ids (run_suites platform subject context options suites w).0
      ≡ flat_map (listed subject context options) suites
unfolding run_suites
run_suites-ids platform subject context options suites w h =
    run_loop-ids platform subject context options suites none w h
