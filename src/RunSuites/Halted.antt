-- ===== src/RunSuites/Halted.antt =====
-- src/run-suites.ts: the report and the world after the first failure of a halting check.
use verifier_core.Shared.{
  String, Bool, true, false, Option, none, some, List, [], ◌∷◌, ◌++◌, ◌≡◌, refl, ap, sym, inl, inr,
  arith, any, All, All-middle, ◌≢◌, is_true,
}
use mathlib.Core.Option.{some-injective}
use mathlib.Core.Path.{subst}
use mathlib.Core.List.{head-eq_of_cons-eq, tail-eq_of_cons-eq}
use verifier_core.Types.{
  is_fatal_failure, is_failure, Attempt, done, thrown, Platform, VerificationSubject,
  VerificationContext, CheckOutcome, CheckResult, VerificationCheck, VerificationSuite,
}
use verifier_core.RunSuites.{
  RunSuitesOptions, Flags, flags_of, no_flags, declined, applies_id, evaluate_applies, not_run,
  emit, synthetic_result, run_admitted, run_check, run_checks, run_applied, run_suite, run_loop,
  run_suites,
}
use verifier_core.RunSuites.Halting.{
  is_halting, IsBarred, IsNamed, HaltTrace, stop, pass, halt, barred, run_loop-HaltTrace,
  run_check-HaltTrace, run_suite-HaltTrace,
}

-- A halted run emits barred rows alone, and stays halted.
HaltTrace-halted :
    {a b : Option String} {xs : List CheckResult} (id : String)
    → HaltTrace a xs b
    → a ≡ some id
    → All (IsBarred id) xs × (b ≡ some id)
HaltTrace-halted id stop e = (tt, e)
HaltTrace-halted id (pass p t) e = cc
HaltTrace-halted id (halt p n t) e = cc
HaltTrace-halted id (barred {r} p t) e =
    let (rest, end) = HaltTrace-halted id t e in
    ((subst (λ k. IsBarred k r) (some-injective _ _ e) p, rest), end)

-- A run that halts has a fatal failure to show for it.
pub HaltTrace-fatal :
    {b : Option String} {xs : List CheckResult} (id : String)
    → HaltTrace none xs b
    → b ≡ some id
    → any is_fatal_failure xs ≡ true
HaltTrace-fatal id stop e = cc
HaltTrace-fatal id (pass p t) e = ground (arith, HaltTrace-fatal id t e)
HaltTrace-fatal id (halt p n t) e = ground arith

-- What stands before and after a halting row.
abbrev pub HaltsAt : List CheckResult → CheckResult → List CheckResult → Type 0
HaltsAt before r after =
    All (λ x. is_halting x ≡ false) before
    × ((id : String) × IsNamed id r × All (IsBarred id) after)

IsBarred-halting : (id : String) (r : CheckResult) → IsBarred id r → is_halting r ≢ true
IsBarred-halting id r (inl e) h = ground (arith, ap is_failure e)
IsBarred-halting id r (inr e) h = ground (arith, ap is_failure e)

HaltTrace-HaltsAt :
    {b : Option String} {xs : List CheckResult} (before : List CheckResult) (r : CheckResult)
    (after : List CheckResult)
    → HaltTrace none xs b
    → xs ≡ before ++ r ∷ after
    → is_halting r ≡ true
    → HaltsAt before r after
HaltTrace-HaltsAt [] r after stop e h = absurd (cc)
HaltTrace-HaltsAt (x ∷ before) r after stop e h = absurd (cc)
HaltTrace-HaltsAt [] r after (pass p t) e h = cc (sym p, ap is_halting (head-eq_of_cons-eq e), h)
HaltTrace-HaltsAt [] r after (halt {id} p n t) e h =
    let bars = (HaltTrace-halted id t refl).0 in
    (
      tt,
      (
        id,
        subst (IsNamed id) (head-eq_of_cons-eq e) n,
        subst (All (IsBarred id)) (tail-eq_of_cons-eq e) bars,
      ),
    )
HaltTrace-HaltsAt (x ∷ before) r after (pass p t) e h =
    let (soft, at) = HaltTrace-HaltsAt before r after t (tail-eq_of_cons-eq e) h in
    ((subst (λ y. is_halting y ≡ false) (head-eq_of_cons-eq e) p, soft), at)
HaltTrace-HaltsAt (x ∷ before) r after (halt {id} p n t) e h =
    let bars = subst (All (IsBarred id)) (tail-eq_of_cons-eq e) (HaltTrace-halted id t refl).0 in
    absurd (IsBarred-halting id r (All-middle (IsBarred id) before r after bars) h)

-- The first row that reports the failure of a halting check splits the report: no row before it
-- is of that kind, and every row after it is a "not run" row that names the failed check, or the row of
-- a queued suite whose predicate declined.
pub run_suites-HaltsAt :
    {W : Type 0} (platform : Platform W) (subject : VerificationSubject)
    (context : VerificationContext W) (options : RunSuitesOptions)
    (suites : List (VerificationSuite W)) (w : W) (before : List CheckResult) (r : CheckResult)
    (after : List CheckResult)
    → (run_suites platform subject context options suites w).0 ≡ before ++ r ∷ after
    → is_halting r ≡ true
    → HaltsAt before r after
unfolding run_suites
run_suites-HaltsAt platform subject context options suites w before r after e h =
    HaltTrace-HaltsAt before r after
      (run_loop-HaltTrace platform subject context options suites none w) e h

HaltTrace-halts :
    {b : Option String} {xs : List CheckResult}
    → HaltTrace none xs b
    → any is_halting xs ≡ true
    → (id : String) × (b ≡ some id)
HaltTrace-halts stop h = absurd (cc)
HaltTrace-halts (pass p t) h = HaltTrace-halts t (ground arith)
HaltTrace-halts (halt {id} p n t) h = (id, (HaltTrace-halted id t refl).1)

module _ {W : Type 0} (platform : Platform W) (subject : VerificationSubject)
    (context : VerificationContext W) (silent : is_true context.timing ≡ false) where
  emit-world :
      (suite : VerificationSuite W) (check_id : String) (outcome : CheckOutcome) (flags : Flags)
      (h : Option String) (w : W)
      → (emit platform subject context suite check_id outcome flags h w).world ≡ w
  unfolding emit synthetic_result
  emit-world suite check_id outcome flags h w = rw silent

  run_check-world :
      (suite : VerificationSuite W) (check : VerificationCheck W) (id : String) (w : W)
      → (run_check platform subject context suite check (some id) w).world ≡ w
  unfolding run_check run_admitted
  run_check-world suite check id w =
      ground (arith, emit-world suite check.id (not_run id) (flags_of check) (some id) w)

  run_check-halted_by :
      (suite : VerificationSuite W) (check : VerificationCheck W) (id : String) (w : W)
      → (run_check platform subject context suite check (some id) w).halted_by ≡ some id
  run_check-halted_by suite check id w =
      (HaltTrace-halted id (run_check-HaltTrace platform subject context suite check (some id) w)
        refl).1

  run_checks-world :
      (suite : VerificationSuite W) (checks : List (VerificationCheck W)) (id : String) (w : W)
      → (run_checks platform subject context suite checks (some id) w).world ≡ w
  unfolding run_checks
  run_checks-world suite [] id w = refl
  run_checks-world suite (check ∷ checks) id w = rw (
    run_check-halted_by suite check id w,
    run_check-world suite check id w,
    run_checks-world suite checks id w,
  )

  module _ (options : RunSuitesOptions) where
    run_applied-world :
        (suite : VerificationSuite W) (applies : Attempt Bool) (id : String) (w : W)
        → (run_applied platform subject context options suite applies (some id) w).world ≡ w
    unfolding run_applied
    run_applied-world suite (thrown error) id w = run_checks-world suite suite.checks id w
    run_applied-world suite (done false) id w =
        ground (arith, emit-world suite (applies_id suite) declined no_flags (some id) w)
    run_applied-world suite (done true) id w = run_checks-world suite suite.checks id w

    run_suite-world :
        (suite : VerificationSuite W) (id : String) (w : W)
        → (run_suite platform subject context options suite (some id) w).world ≡ w
    unfolding run_suite
    run_suite-world suite id w =
        ground (arith, run_applied-world suite (evaluate_applies suite subject context) id w)

    run_suite-halted_by :
        (suite : VerificationSuite W) (id : String) (w : W)
        → (run_suite platform subject context options suite (some id) w).halted_by ≡ some id
    run_suite-halted_by suite id w =
        (HaltTrace-halted id
          (run_suite-HaltTrace platform subject context options suite (some id) w) refl).1

    run_loop-world :
        (suites : List (VerificationSuite W)) (id : String) (w : W)
        → (run_loop platform subject context options suites (some id) w).world ≡ w
    unfolding run_loop
    run_loop-world [] id w = refl
    run_loop-world (suite ∷ suites) id w =
        rw (run_suite-halted_by suite id w, run_suite-world suite id w, run_loop-world suites id w)

    run_loop-append :
        (xs ys : List (VerificationSuite W)) (h : Option String) (w : W)
        → (run_loop platform subject context options (xs ++ ys) h w).world ≡ (
            let first = run_loop platform subject context options xs h w in
            (run_loop platform subject context options ys first.halted_by first.world).world)
    unfolding run_loop
    run_loop-append [] ys h w = refl
    run_loop-append (x ∷ xs) ys h w =
        let first = run_suite platform subject context options x h w in
        run_loop-append xs ys first.halted_by first.world

-- With timing off, once some row reports the failure of a halting check no later suite does anything:
-- the world is left as the suites up to then left it.
pub run_suites-halted_world :
    {W : Type 0} (platform : Platform W) (subject : VerificationSubject)
    (context : VerificationContext W) (options : RunSuitesOptions)
    (first later : List (VerificationSuite W)) (w : W)
    → is_true context.timing ≡ false
    → any is_halting (run_suites platform subject context options first w).0 ≡ true
    → (run_suites platform subject context options (first ++ later) w).1
      ≡ (run_suites platform subject context options first w).1
unfolding run_suites
run_suites-halted_world platform subject context options first later w silent h =
    let trace = run_loop-HaltTrace platform subject context options first none w in
    let (id, halted) = HaltTrace-halts trace h in
    let run = run_loop platform subject context options first none w in
    rw (run_loop-append platform subject context silent options first later none w, halted)
      (run_loop-world platform subject context silent options later id run.world)
