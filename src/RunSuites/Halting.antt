-- ===== src/RunSuites/Halting.antt =====
-- src/run-suites.ts: what holds after the first failure of a halting check.
use verifier_core.Shared.{
  String, Bool, true, false, ◌&&◌, Option, none, some, List, [], ◌∷◌, ◌++◌, ◌≡◌, refl, ap, sym, ◌∙◌,
  ◌⊎◌, inl, inr, arith, if◌then◌else◌, is_true,
}
use verifier_core.Json.{Json}
use verifier_core.Types.{
  is_fatal_failure, is_failure, Attempt, done, thrown, Platform, VerificationSubject,
  VerificationContext, CheckOutcome, SuitePhase, CheckResult, VerificationCheck, VerificationSuite,
}
use verifier_core.Fold.Id.{compute_id}
use verifier_core.RunSuites.{
  RunSuitesOptions, Flags, flags_of, no_flags, not_run, declined, not_opted_out, Run, build_result,
  emit, build_check_error_outcome, execute_check, halts_on_failure, has_fatal_check, run_check,
  run_admitted, run_checks, evaluate_applies, applies_id, run_applied, run_suite, run_loop,
}
use verifier_core.RunSuites.Rows.{IsRow, synthetic_result-IsRow}

-- A row that stops the run.
abbrev pub is_halting : CheckResult → Bool
is_halting r = is_fatal_failure r && not_opted_out r.halts

-- A row that stands for a check that did not execute because of `id`, or a suite that declined.
abbrev pub IsBarred : String → CheckResult → Type 0
IsBarred id r = (r.outcome ≡ not_run id) ⊎ (r.outcome ≡ declined)

-- The row of the check, or of the predicate, with the local id `id`.
abbrev pub IsNamed : String → CheckResult → Type 0
IsNamed id r = (phase : Option SuitePhase) × (r.id ≡ compute_id phase r.suite id)

-- The run as a machine with two kinds of state: running, and halted by `id`.
pub data HaltTrace : Option String → List CheckResult → Option String → Type 0 where
  stop : {h : Option String} → HaltTrace h [] h
  pass :
      {r : CheckResult} {rs : List CheckResult} {h : Option String}
      → is_halting r ≡ false
      → HaltTrace none rs h
      → HaltTrace none (r ∷ rs) h
  halt :
      {r : CheckResult} {rs : List CheckResult} {h : Option String} {id : String}
      → is_halting r ≡ true
      → IsNamed id r
      → HaltTrace (some id) rs h
      → HaltTrace none (r ∷ rs) h
  barred :
      {r : CheckResult} {rs : List CheckResult} {h : Option String} {id : String}
      → IsBarred id r
      → HaltTrace (some id) rs h
      → HaltTrace (some id) (r ∷ rs) h

HaltTrace-append :
    {a b c : Option String} {xs ys : List CheckResult}
    → HaltTrace a xs b
    → HaltTrace b ys c
    → HaltTrace a (xs ++ ys) c
HaltTrace-append stop u = u
HaltTrace-append (pass p t) u = pass p (HaltTrace-append t u)
HaltTrace-append (halt p n t) u = halt p n (HaltTrace-append t u)
HaltTrace-append (barred p t) u = barred p (HaltTrace-append t u)

row-HaltTrace :
    (r : CheckResult) (id : String) (test : Bool)
    → IsNamed id r
    → is_halting r ≡ test
    → HaltTrace none (r ∷ []) (if test then some id else none)
row-HaltTrace r id true n e = halt e n stop
row-HaltTrace r id false n e = pass e stop

abbrev pub Traced : {W : Type 0} → Option String → Run W → Type 0
Traced h run = HaltTrace h run.rows run.halted_by

if-Traced :
    {W : Type 0} {h : Option String} (test : Bool) (x y : Run W)
    → Traced h x
    → Traced h y
    → Traced h (if test then x else y)
if-Traced true x y p q = p
if-Traced false x y p q = q

module _ {W : Type 0} (platform : Platform W) (subject : VerificationSubject)
    (context : VerificationContext W) where
  pub emit-IsRow :
      (suite : VerificationSuite W) (check_id : String) (outcome : CheckOutcome) (flags : Flags)
      (halted_by : Option String) (w : W)
      → (r : CheckResult) × ((emit platform subject context suite check_id outcome flags halted_by
            w).rows
          ≡ r ∷ [])
        × IsRow suite check_id outcome flags r
  unfolding emit
  emit-IsRow suite check_id outcome flags halted_by w = (
    _,
    refl,
    synthetic_result-IsRow platform suite check_id outcome flags (is_true context.timing)
        context.time_service w,
  )

  emit-halted_by :
      (suite : VerificationSuite W) (check_id : String) (outcome : CheckOutcome) (flags : Flags)
      (halted_by : Option String) (w : W)
      → (emit platform subject context suite check_id outcome flags halted_by w).halted_by
        ≡ halted_by
  unfolding emit
  emit-halted_by suite check_id outcome flags halted_by w = refl

  -- From a halted state, in which only barred rows are emitted.
  emit-HaltTrace :
      (suite : VerificationSuite W) (check_id : String) (outcome : CheckOutcome) (flags : Flags)
      (h : Option String) (w : W)
      → (is_failure outcome ≡ false)
      → ((id : String) → h ≡ some id → (outcome ≡ not_run id) ⊎ (outcome ≡ declined))
      → Traced h (emit platform subject context suite check_id outcome flags h w)
  emit-HaltTrace suite check_id outcome flags none w soft b =
      let (r, rows, row) = emit-IsRow suite check_id outcome flags none w in
      rw (rows, emit-halted_by suite check_id outcome flags none w)
        (pass (rw row.outcome_is (ground arith)) stop)
  emit-HaltTrace suite check_id outcome flags (some id) w soft b =
      let (r, rows, row) = emit-IsRow suite check_id outcome flags (some id) w in
      rw (rows, emit-halted_by suite check_id outcome flags (some id) w)
        (barred (rw row.outcome_is (b id refl)) stop)

  apply_error_halting :
      (r : CheckResult) (suite : VerificationSuite W) (error : Json) (fatal : Bool)
      → IsRow suite
          (applies_id suite)
          (build_check_error_outcome (applies_id suite) error)
          (record { fatal = some fatal; halts = none })
          r
      → is_halting r ≡ fatal
  unfolding build_check_error_outcome
  apply_error_halting r suite error fatal row =
      rw (row.outcome_is, row.fatal, row.halts) (ground arith)

  execute_check-HaltTrace :
      (suite : VerificationSuite W) (check : VerificationCheck W) (w : W)
      → Traced none (execute_check platform subject context suite check w)
  unfolding execute_check build_result halts_on_failure
  execute_check-HaltTrace suite check w =
      row-HaltTrace _ check.id _ (suite.phase, refl) (ground arith)

  run_admitted-HaltTrace :
      (suite : VerificationSuite W) (check : VerificationCheck W) (h : Option String) (w : W)
      → Traced h (run_admitted platform subject context suite check h w)
  unfolding run_admitted
  run_admitted-HaltTrace suite check none w = execute_check-HaltTrace suite check w
  run_admitted-HaltTrace suite check (some id) w =
      emit-HaltTrace suite check.id (not_run id) (flags_of check) (some id) w refl (λ j e. inl (cc))

  pub run_check-HaltTrace :
      (suite : VerificationSuite W) (check : VerificationCheck W) (h : Option String) (w : W)
      → Traced h (run_check platform subject context suite check h w)
  unfolding run_check
  run_check-HaltTrace suite check h w =
      if-Traced _ _ _ stop (run_admitted-HaltTrace suite check h w)

  run_checks-HaltTrace :
      (suite : VerificationSuite W) (checks : List (VerificationCheck W)) (h : Option String)
      (w : W)
      → Traced h (run_checks platform subject context suite checks h w)
  unfolding run_checks
  run_checks-HaltTrace suite [] h w = stop
  run_checks-HaltTrace suite (check ∷ checks) h w =
      let first = run_check platform subject context suite check h w in
      HaltTrace-append (run_check-HaltTrace suite check h w)
        (run_checks-HaltTrace suite checks first.halted_by first.world)

  module _ (options : RunSuitesOptions) where
    run_applied-HaltTrace :
        (suite : VerificationSuite W) (applies : Attempt Bool) (h : Option String) (w : W)
        → Traced h (run_applied platform subject context options suite applies h w)
    unfolding run_applied
    run_applied-HaltTrace suite (thrown error) none w =
        let fatal = has_fatal_check subject suite in
        let id = applies_id suite in
        let outcome = build_check_error_outcome id error in
        let flags : Flags = record { fatal = some fatal; halts = none } in
        let h = if fatal then some id else none in
        let (r, rows, row) = emit-IsRow suite id outcome flags h w in
        rw (rows, emit-halted_by suite id outcome flags h w)
          (row-HaltTrace r id fatal
            (suite.phase, row.id ∙ ap (λ s. compute_id suite.phase s id) (sym row.suite_id))
            (apply_error_halting r suite error fatal row))
    run_applied-HaltTrace suite (thrown error) (some h) w =
        run_checks-HaltTrace suite suite.checks (some h) w
    run_applied-HaltTrace suite (done false) h w =
        if-Traced _ _ _
          (emit-HaltTrace suite (applies_id suite) declined no_flags h w refl (λ id e. inr refl))
          stop
    run_applied-HaltTrace suite (done true) h w = run_checks-HaltTrace suite suite.checks h w

    pub run_suite-HaltTrace :
        (suite : VerificationSuite W) (h : Option String) (w : W)
        → Traced h (run_suite platform subject context options suite h w)
    unfolding run_suite
    run_suite-HaltTrace suite h w =
        if-Traced _ _ _ stop
          (run_applied-HaltTrace suite (evaluate_applies suite subject context) h w)

    pub run_loop-HaltTrace :
        (suites : List (VerificationSuite W)) (h : Option String) (w : W)
        → Traced h (run_loop platform subject context options suites h w)
    unfolding run_loop
    run_loop-HaltTrace [] h w = stop
    run_loop-HaltTrace (suite ∷ suites) h w =
        let first = run_suite platform subject context options suite h w in
        HaltTrace-append (run_suite-HaltTrace suite h w)
          (run_loop-HaltTrace suites first.halted_by first.world)
