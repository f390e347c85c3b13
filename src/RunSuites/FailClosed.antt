-- ===== src/RunSuites/FailClosed.antt =====
-- src/run-suites.ts: a suite that could have failed the subject does not pass silently.
use verifier_core.Shared.{
  String, Bool, true, false, Option, none, some, List, [], ◌∷◌, ◌++◌, ◌≡◌, ◌⊎◌, inl, inr, arith,
  any, any-append, if◌then◌else◌, is_true, Option-cases,
}
use mathlib.Core.Bool.{or-true}
use mathlib.Core.List.{Memᴰ}
use mathlib.Core.Path.{subst}
use verifier_core.Json.{Json}
use verifier_core.Types.{
  is_fatal_failure, is_failure, done, thrown, Platform, VerificationSubject, VerificationContext,
  ProblemDetail, Payload, failure, VerificationCheck, VerificationSuite,
}
use verifier_core.RunSuites.{
  RunSuitesOptions, Run, Flags, contain, build_check_error_outcome, execute_timed, execute_check,
  build_result, applies_to_subject, has_fatal_check, run_admitted, run_check, run_checks,
  run_applied, run_suite, run_loop, run_suites, suite_runs_in_phases, evaluate_applies, applies_id,
  start_task_timing,
}
use verifier_core.RunSuites.Halting.{Traced, run_check-HaltTrace, run_suite-HaltTrace, emit-IsRow}
use verifier_core.RunSuites.Halted.{HaltTrace-fatal}

-- The check, whatever the world, throws or answers with a failure.
abbrev pub NeverPasses :
    {W : Type 0} → VerificationSubject → VerificationContext W → VerificationCheck W → Type 0
NeverPasses {W} subject context check =
    (w : W)
    → ((error : Json) × ((check.execute subject context w).0 ≡ thrown error))
      ⊎ ((problems : List ProblemDetail) × (payload : Option Payload) × ((check.execute subject
              context w).0
            ≡ done (failure problems payload)))

-- The run shows a fatal failure.
abbrev Shows : {W : Type 0} → Run W → Type 0
Shows run = any is_fatal_failure run.rows ≡ true

-- A stretch of the run that starts unhalted shows a fatal failure, if it halts or if what follows does.
Shows-then :
    {W : Type 0} (first : Run W) (rest : Option String → W → Run W)
    → Traced none first
    → ((w : W) → Shows (rest none w))
    → any is_fatal_failure (first.rows ++ (rest first.halted_by first.world).rows) ≡ true
Shows-then first rest t h = elim (Option-cases first.halted_by) [
  | inl running ↦ rw (any-append, running, h first.world) (or-true _)
  | inr (id, halted) ↦ rw (any-append, HaltTrace-fatal id t halted)
]

module _ {W : Type 0} (platform : Platform W) (subject : VerificationSubject)
    (context : VerificationContext W) where
  contain-is_failure :
      (check : VerificationCheck W)
      → NeverPasses subject context check
      → (timing : Bool) (w : W)
      → is_failure (contain check.id (execute_timed platform subject context timing check w).0.0)
        ≡ true
  unfolding contain build_check_error_outcome execute_timed
  contain-is_failure check never false w = elim (never w) [
    | inl (error, e) ↦ rw e
    | inr (problems, payload, e) ↦ rw e
  ]
  contain-is_failure check never true w =
      elim (never (start_task_timing platform context.time_service w).1) [
        | inl (error, e) ↦ rw e
        | inr (problems, payload, e) ↦ rw e
      ]

  run_check-Shows :
      (suite : VerificationSuite W) (check : VerificationCheck W)
      → applies_to_subject check subject ≡ true
      → check.fatal ≡ some true
      → NeverPasses subject context check
      → (w : W) → Shows (run_check platform subject context suite check none w)
  unfolding run_check run_admitted execute_check build_result
  run_check-Shows suite check applies fatal never w =
      ground (arith, contain-is_failure check never (is_true context.timing) w)

  run_checks-Shows :
      (suite : VerificationSuite W) (check : VerificationCheck W)
      (checks : List (VerificationCheck W))
      → ((w : W) → Shows (run_check platform subject context suite check none w))
      → Memᴰ check checks
      → (w : W) → Shows (run_checks platform subject context suite checks none w)
  unfolding run_checks
  run_checks-Shows suite check [] shows m w = elim m [ ]
  run_checks-Shows suite check (c ∷ checks) shows (Memᴰ.head e) w =
      let here =
        subst (λ k. Shows (run_check platform subject context suite k none w)) e (shows w) in
      rw (any-append, here)
  run_checks-Shows suite check (c ∷ checks) shows (Memᴰ.tail m) w =
      Shows-then (run_check platform subject context suite c none w)
        (run_checks platform subject context suite checks)
        (run_check-HaltTrace platform subject context suite c none w)
        (run_checks-Shows suite check checks shows m)

  module _ (options : RunSuitesOptions) where
    run_loop-Shows :
        (suite : VerificationSuite W) (suites : List (VerificationSuite W))
        → ((w : W) → Shows (run_suite platform subject context options suite none w))
        → Memᴰ suite suites
        → (w : W) → Shows (run_loop platform subject context options suites none w)
    unfolding run_loop
    run_loop-Shows suite [] shows m w = elim m [ ]
    run_loop-Shows suite (s ∷ suites) shows (Memᴰ.head e) w =
        let here =
          subst (λ k. Shows (run_suite platform subject context options k none w)) e (shows w) in
        rw (any-append, here)
    run_loop-Shows suite (s ∷ suites) shows (Memᴰ.tail m) w =
        Shows-then (run_suite platform subject context options s none w)
          (run_loop platform subject context options suites)
          (run_suite-HaltTrace platform subject context options s none w)
          (run_loop-Shows suite suites shows m)

    run_suite-Shows_check :
        (suite : VerificationSuite W) (check : VerificationCheck W)
        → suite_runs_in_phases suite options.phases ≡ true
        → evaluate_applies suite subject context ≡ done true
        → Memᴰ check suite.checks
        → applies_to_subject check subject ≡ true
        → check.fatal ≡ some true
        → NeverPasses subject context check
        → (w : W) → Shows (run_suite platform subject context options suite none w)
    unfolding run_suite run_applied
    run_suite-Shows_check suite check runs holds m applies fatal never w =
        rw (runs, holds)
          (run_checks-Shows suite check suite.checks
            (run_check-Shows suite check applies fatal never) m w)

    run_suite-Shows_throw :
        (suite : VerificationSuite W) (error : Json)
        → suite_runs_in_phases suite options.phases ≡ true
        → evaluate_applies suite subject context ≡ thrown error
        → has_fatal_check subject suite ≡ true
        → (w : W) → Shows (run_suite platform subject context options suite none w)
    unfolding run_suite run_applied build_check_error_outcome
    run_suite-Shows_throw suite error runs throws fatal w =
        let flags : Flags = record { fatal = some (has_fatal_check subject suite); halts = none } in
        let (r, rows, row) =
          emit-IsRow platform subject context suite (applies_id suite)
            (build_check_error_outcome (applies_id suite) error) flags
            (if has_fatal_check subject suite then some (applies_id suite) else none) w in
        rw (runs, throws, rows, row.fatal, row.outcome_is, fatal)

-- A run reports a fatal failure if one of its suites, which the phases admit and whose predicate holds, has a
-- fatal check that applies to the subject and that, in every world, fails or throws: the failure is that
-- check's, or the one of an earlier check that halted the run.
pub run_suites-fails_closed :
    {W : Type 0} (platform : Platform W) (subject : VerificationSubject)
    (context : VerificationContext W) (options : RunSuitesOptions)
    (suites : List (VerificationSuite W)) (suite : VerificationSuite W)
    (check : VerificationCheck W) (w : W)
    → Memᴰ suite suites
    → suite_runs_in_phases suite options.phases ≡ true
    → evaluate_applies suite subject context ≡ done true
    → Memᴰ check suite.checks
    → applies_to_subject check subject ≡ true
    → check.fatal ≡ some true
    → NeverPasses subject context check
    → any is_fatal_failure (run_suites platform subject context options suites w).0 ≡ true
unfolding run_suites
run_suites-fails_closed platform subject context options suites suite check w member runs holds m
      applies fatal never =
    run_loop-Shows platform subject context options suite suites
      (run_suite-Shows_check platform subject context options suite check runs holds m applies fatal
        never)
      member w

-- A run reports a fatal failure if one of its suites, which the phases admit, throws in its predicate and has
-- a fatal check that applies to the subject.
pub run_suites-predicate_throws :
    {W : Type 0} (platform : Platform W) (subject : VerificationSubject)
    (context : VerificationContext W) (options : RunSuitesOptions)
    (suites : List (VerificationSuite W)) (suite : VerificationSuite W) (error : Json) (w : W)
    → Memᴰ suite suites
    → suite_runs_in_phases suite options.phases ≡ true
    → evaluate_applies suite subject context ≡ thrown error
    → has_fatal_check subject suite ≡ true
    → any is_fatal_failure (run_suites platform subject context options suites w).0 ≡ true
unfolding run_suites
run_suites-predicate_throws platform subject context options suites suite error w member runs throws
      fatal =
    run_loop-Shows platform subject context options suite suites
      (run_suite-Shows_throw platform subject context options suite error runs throws fatal) member
      w
