-- ===== src/RunSuites.antt =====
-- src/run-suites.ts, src/util/check-applies.ts. Each loop returns the rows that it pushes, the
-- halting check's id if there is one by then, and the world: `results` is only pushed to.
pub mod Rows
pub mod Halting
pub mod Halted
pub mod FailClosed
pub mod Phases
mod Tests
use verifier_core.Shared.{
  ℕ, String, Bool, true, false, not, ◌&&◌, Option, none, some, List, [], ◌∷◌, ◌++◌, ◌==◌, ◌<>◌,
  if◌then◌else◌, is_some, is_true, any, filter, sub_ℕ,
}
use verifier_core.Json.{Json, error_message}
use verifier_core.Types.{
  Attempt, done, thrown, TimeService, Platform, VerificationSubject, VerificationSubjectType,
  verifiable_credential, verifiable_presentation, TaskTiming, problem, VerificationContext,
  CheckOutcome, failure, skipped, not_run_after_fatal, SuitePhase, CheckResult, is_failure,
  VerificationCheck, VerificationSuite,
}
use verifier_core.Types.ProblemTypes
use verifier_core.Fold.Id.{compute_id}

pub record RunSuitesOptions : Type 0 where
  pub explicit_suite_ids : Option (List String)
  pub phases : Option (List SuitePhase)

abbrev pub phase_eq : SuitePhase → SuitePhase → Bool
phase_eq SuitePhase.cryptographic SuitePhase.cryptographic = true
phase_eq SuitePhase.trust SuitePhase.trust = true
phase_eq SuitePhase.recognition SuitePhase.recognition = true
phase_eq SuitePhase.semantic SuitePhase.semantic = true
phase_eq _ _ = false

abbrev subject_type_eq : VerificationSubjectType → VerificationSubjectType → Bool
subject_type_eq verifiable_credential verifiable_credential = true
subject_type_eq verifiable_presentation verifiable_presentation = true
subject_type_eq _ _ = false

-- `subject[type]`
abbrev subject_value : VerificationSubject → VerificationSubjectType → Option Json
subject_value s verifiable_credential = s.verifiable_credential
subject_value s verifiable_presentation = s.verifiable_presentation

abbrev subject_types : List VerificationSubjectType
subject_types = verifiable_credential ∷ verifiable_presentation ∷ []

runs_in : Option SuitePhase → Option (List SuitePhase) → Bool
runs_in phase none = true
runs_in none (some phases) = true
runs_in (some phase) (some phases) = any (phase_eq phase) phases

applies_to_types : Option (List VerificationSubjectType) → List VerificationSubjectType → Bool
applies_to_types none types = true
applies_to_types (some []) types = true
applies_to_types (some ts) types = any (λ t. any (subject_type_eq t) types) ts

pub has_id : Option (List String) → String → Bool
has_id none id = false
has_id (some ids) id = any (λ i. i == id) ids

-- `halts !== false`
abbrev pub not_opted_out : Option Bool → Bool
not_opted_out (some false) = false
not_opted_out _ = true

pub record InProgressTiming : Type 0 where
  pub started_at : String
  pub started_mono_ms : ℕ

-- The flags that a row copies from its check.
pub record Flags : Type 0 where
  pub fatal : Option Bool
  pub halts : Option Bool

abbrev pub no_flags : Flags
no_flags = record { fatal = none; halts = none }

-- What a stretch of the run leaves behind.
pub record Run (W : Type 0) : Type 0 where
  pub rows : List CheckResult
  pub halted_by : Option String
  pub world : W

pub build_check_error_outcome : String → Json → CheckOutcome
build_check_error_outcome id error =
    let message = error_message error "non-Error value thrown" in
    failure
      (problem ProblemTypes.check_error "Check Error" ("Check \"" <> id <> "\" threw: " <> message)
        ∷ [])
      none

-- The `catch` around `check.execute`.
unfoldable pub contain : String → Attempt CheckOutcome → CheckOutcome
contain id (done outcome) = outcome
contain id (thrown error) = build_check_error_outcome id error

abbrev pub not_run : String → CheckOutcome
not_run halted_by =
    skipped ("Not run: " <> halted_by <> " failed") (some not_run_after_fatal) (some halted_by)

abbrev pub declined : CheckOutcome
declined = skipped "suite predicate returned false" none none

module _ {W : Type 0} where
  unfoldable pub suite_runs_in_phases : VerificationSuite W → Option (List SuitePhase) → Bool
  unfolding runs_in
  suite_runs_in_phases suite phases = runs_in suite.phase phases

  pub check_applies_to : VerificationCheck W → List VerificationSubjectType → Bool
  unfolding applies_to_types
  check_applies_to check types = applies_to_types check.applies_to types

  unfoldable pub applies_to_subject : VerificationCheck W → VerificationSubject → Bool
  unfolding check_applies_to
  applies_to_subject check subject =
      check_applies_to check (filter (λ type. is_some (subject_value subject type)) subject_types)

  unfoldable pub halts_on_failure : VerificationCheck W → Bool
  halts_on_failure check = is_true check.fatal && not_opted_out check.halts

  unfoldable pub evaluate_applies :
      VerificationSuite W → VerificationSubject → VerificationContext W → Attempt Bool
  evaluate_applies suite subject context = elim (suite.applies) [
    | none ↦ done true
    | some applies ↦ applies subject context
  ]

  unfoldable pub build_result : VerificationSuite W → String → CheckOutcome → Flags → CheckResult
  build_result suite check_id outcome flags = record {
    id = compute_id suite.phase suite.id check_id;
    suite = suite.id;
    outcome = outcome;
    fatal = flags.fatal;
    halts = flags.halts;
    timing = none;
  }

  abbrev pub flags_of : VerificationCheck W → Flags
  flags_of check = record { fatal = check.fatal; halts = check.halts }

  abbrev pub applies_id : VerificationSuite W → String
  applies_id suite = suite.id <> ".applies"

  abbrev pub nothing : Option String → W → Run W
  nothing halted_by w = record { rows = []; halted_by = halted_by; world = w }

  abbrev then_rows : List CheckResult → Run W → Run W
  then_rows rows run = record run { rows = rows ++ run.rows }

  -- Whether the suite could have failed the subject.
  pub has_fatal_check : VerificationSubject → VerificationSuite W → Bool
  has_fatal_check subject suite =
      any (λ c. is_true c.fatal && applies_to_subject c subject) suite.checks

module _ {W : Type 0} (platform : Platform W) where
  -- `timeService ? timeService.dateNowMs() : Date.now()`, and so for the monotonic clock
  pub clock : Option (TimeService W) → TimeService W
  clock none = platform.clock
  clock (some time_service) = time_service

  pub start_task_timing : Option (TimeService W) → W → InProgressTiming × W
  unfolding clock
  start_task_timing time_service w =
      let (date_now_ms, w₁) = (clock time_service).date_now_ms w in
      let (started_mono_ms, w₂) = (clock time_service).performance_now_ms w₁ in
      (
        record {
          started_at = platform.to_iso_string date_now_ms;
          started_mono_ms = started_mono_ms;
        },
        w₂,
      )

  pub finish_task_timing : InProgressTiming → Option (TimeService W) → W → TaskTiming × W
  unfolding clock
  finish_task_timing started time_service w =
      let (end_date_ms, w₁) = (clock time_service).date_now_ms w in
      let (end_mono_ms, w₂) = (clock time_service).performance_now_ms w₁ in
      (
        record {
          started_at = started.started_at;
          ended_at = platform.to_iso_string end_date_ms;
          duration_ms = sub_ℕ end_mono_ms started.started_mono_ms;
        },
        w₂,
      )

  -- A row of the orchestrator's own: with `timing` on, its window is one sample of each clock.
  pub synthetic_result :
      VerificationSuite W
      → String
      → CheckOutcome
      → Flags
      → Bool
      → Option (TimeService W)
      → W
      → CheckResult × W
  synthetic_result suite check_id outcome flags false time_service w =
      (build_result suite check_id outcome flags, w)
  synthetic_result suite check_id outcome flags true time_service w =
      let (started, w₁) = start_task_timing time_service w in
      let (timing, w₂) = finish_task_timing started time_service w₁ in
      (record (build_result suite check_id outcome flags) { timing = some timing }, w₂)

module _ {W : Type 0} (platform : Platform W) (subject : VerificationSubject)
    (context : VerificationContext W) where
  -- `check.execute` between its two clock readings.
  unfoldable pub execute_timed :
      Bool → VerificationCheck W → W → (Attempt CheckOutcome × Option TaskTiming) × W
  execute_timed false check w =
      let (outcome, w₁) = check.execute subject context w in ((outcome, none), w₁)
  execute_timed true check w =
      let (started, w₁) = start_task_timing platform context.time_service w in
      let (outcome, w₂) = check.execute subject context w₁ in
      let (timing, w₃) = finish_task_timing platform started context.time_service w₂ in
      ((outcome, some timing), w₃)

  -- The body of the check loop for a check that executes.
  unfoldable pub execute_check : VerificationSuite W → VerificationCheck W → W → Run W
  execute_check suite check w =
      let (ran, w') = execute_timed (is_true context.timing) check w in
      let outcome = contain check.id ran.0 in
      record {
        rows =
            record (build_result suite check.id outcome (flags_of check)) { timing = ran.1 } ∷ [];
        halted_by = if halts_on_failure check && is_failure outcome then some check.id else none;
        world = w';
      }

  -- A row of the orchestrator's own, and the halt that holds after it.
  pub emit : VerificationSuite W → String → CheckOutcome → Flags → Option String → W → Run W
  emit suite check_id outcome flags halted_by w =
      let (row, w') =
        synthetic_result platform suite check_id outcome flags (is_true context.timing)
          context.time_service w in
      record { rows = row ∷ []; halted_by = halted_by; world = w' }

  -- A check that applies: it executes, unless the subject is halted.
  unfoldable pub run_admitted :
      VerificationSuite W → VerificationCheck W → Option String → W → Run W
  run_admitted suite check none w = execute_check suite check w
  run_admitted suite check (some h) w = emit suite check.id (not_run h) (flags_of check) (some h) w

  -- One round of the check loop.
  unfoldable pub run_check : VerificationSuite W → VerificationCheck W → Option String → W → Run W
  run_check suite check halted_by w =
      if is_some check.applies_to && not (applies_to_subject check subject)
      then nothing halted_by w
      else run_admitted suite check halted_by w

  unfoldable pub run_checks :
      VerificationSuite W → List (VerificationCheck W) → Option String → W → Run W
  run_checks suite [] halted_by w = nothing halted_by w
  run_checks suite (check ∷ checks) halted_by w =
      let first = run_check suite check halted_by w in
      then_rows first.rows (run_checks suite checks first.halted_by first.world)

  module _ (options : RunSuitesOptions) where
    -- A round of the suite loop past the phase filter, given what the predicate did.
    unfoldable pub run_applied : VerificationSuite W → Attempt Bool → Option String → W → Run W
    run_applied suite (thrown error) none w =
        let fatal = has_fatal_check subject suite in
        emit suite (applies_id suite) (build_check_error_outcome (applies_id suite) error)
          (record { fatal = some fatal; halts = none })
          (if fatal then some (applies_id suite) else none) w
    run_applied suite (thrown error) (some h) w = run_checks suite suite.checks (some h) w
    run_applied suite (done false) halted_by w =
        if has_id options.explicit_suite_ids suite.id
        then emit suite (applies_id suite) declined no_flags halted_by w
        else nothing halted_by w
    run_applied suite (done true) halted_by w = run_checks suite suite.checks halted_by w

    unfoldable pub run_suite : VerificationSuite W → Option String → W → Run W
    run_suite suite halted_by w =
        if not (suite_runs_in_phases suite options.phases)
        then nothing halted_by w
        else run_applied suite (evaluate_applies suite subject context) halted_by w

    unfoldable pub run_loop : List (VerificationSuite W) → Option String → W → Run W
    run_loop [] halted_by w = nothing halted_by w
    run_loop (suite ∷ suites) halted_by w =
        let first = run_suite suite halted_by w in
        then_rows first.rows (run_loop suites first.halted_by first.world)

    -- It returns rows on every path: a throw is contained.
    unfoldable pub run_suites : List (VerificationSuite W) → W → List CheckResult × W
    run_suites suites w = let run = run_loop suites none w in (run.rows, run.world)
