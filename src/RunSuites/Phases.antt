-- ===== src/RunSuites/Phases.antt =====
-- src/run-suites.ts: the phase filter.
use verifier_core.Shared.{
  Bool, true, false, Option, none, some, List, [], ◌∷◌, ◌≡◌, refl, ap, filter, Bool-cases, inl, inr,
  String,
}
use verifier_core.Types.{
  Attempt, done, thrown, Platform, VerificationSubject, VerificationContext, SuitePhase,
  VerificationSuite,
}
use verifier_core.RunSuites.{
  RunSuitesOptions, suite_runs_in_phases, run_applied, run_suite, run_loop, run_suites, nothing,
  evaluate_applies,
}

abbrev pub all_phases : Option (List String) → RunSuitesOptions
all_phases explicit = record { explicit_suite_ids = explicit; phases = none }

module _ {W : Type 0} (platform : Platform W) (subject : VerificationSubject)
    (context : VerificationContext W) (explicit : Option (List String))
    (phases : Option (List SuitePhase)) where
  abbrev options : RunSuitesOptions
  options = record { explicit_suite_ids = explicit; phases = phases }

  run_applied-all_phases :
      (suite : VerificationSuite W) (applies : Attempt Bool) (h : Option String) (w : W)
      → run_applied platform subject context options suite applies h w
        ≡ run_applied platform subject context (all_phases explicit) suite applies h w
  unfolding run_applied
  run_applied-all_phases suite (thrown e) none w = refl
  run_applied-all_phases suite (thrown e) (some id) w = refl
  run_applied-all_phases suite (done false) h w = refl
  run_applied-all_phases suite (done true) h w = refl

  run_suite-all_phases :
      (suite : VerificationSuite W) (h : Option String) (w : W)
      → suite_runs_in_phases suite phases ≡ true
      → run_suite platform subject context options suite h w
        ≡ run_suite platform subject context (all_phases explicit) suite h w
  unfolding run_suite suite_runs_in_phases
  run_suite-all_phases suite h w runs =
      rw runs (run_applied-all_phases suite (evaluate_applies suite subject context) h w)

  run_suite-nothing :
      (suite : VerificationSuite W) (h : Option String) (w : W)
      → suite_runs_in_phases suite phases ≡ false
      → run_suite platform subject context options suite h w ≡ nothing h w
  unfolding run_suite
  run_suite-nothing suite h w no_run = rw no_run

  run_loop-filter :
      (suites : List (VerificationSuite W)) (h : Option String) (w : W)
      → run_loop platform subject context options suites h w
        ≡ run_loop platform subject context
            (all_phases explicit)
            (filter (λ s. suite_runs_in_phases s phases) suites)
            h
            w
  unfolding run_loop
  run_loop-filter [] h w = refl
  run_loop-filter (suite ∷ suites) h w = elim (Bool-cases (suite_runs_in_phases suite phases)) [
    | inl runs ↦
        let first = run_suite platform subject context (all_phases explicit) suite h w in
        rw (
          runs,
          run_suite-all_phases suite h w runs,
          run_loop-filter suites first.halted_by first.world,
        )
    | inr no_run ↦ rw (no_run, run_suite-nothing suite h w no_run, run_loop-filter suites h w)
  ]

-- A phase filter is a choice of suites: the run under `phases` is, row for row and effect for effect,
-- the run without a filter over the suites that the filter admits.
pub run_suites-filter :
    {W : Type 0} (platform : Platform W) (subject : VerificationSubject)
    (context : VerificationContext W) (explicit : Option (List String))
    (phases : Option (List SuitePhase)) (suites : List (VerificationSuite W)) (w : W)
    → run_suites platform subject context
        (record { explicit_suite_ids = explicit; phases = phases })
        suites
        w
      ≡ run_suites platform subject context
          (all_phases explicit)
          (filter (λ s. suite_runs_in_phases s phases) suites)
          w
unfolding run_suites
run_suites-filter platform subject context explicit phases suites w =
    ap (λ run. (run.rows, run.world))
      (run_loop-filter platform subject context explicit phases suites none w)
