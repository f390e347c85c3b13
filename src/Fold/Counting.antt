-- ===== src/Fold/Counting.antt =====
-- src/fold-results.ts: what a tally counts.
use verifier_core.Shared.{
  ◌+◌, String, Bool, true, false, not, ◌&&◌, Option, none, some, List, [], ◌∷◌, ◌≡◌, refl, ap, ◌∙◌,
  arith, any, count_where, ltb-count_where, length, if◌then◌else◌,
}
use verifier_core.Types.{
  is_success, CheckResult, CheckOutcome, success, failure, skipped, not_run_after_fatal,
  SuiteStatus, SuitePhase, is_failure,
}
use verifier_core.Fold.{
  SuiteTally, empty_tally, first_defined, is_code, tally_outcome, tally_from, tally_suite,
  derive_status, summarize_suite,
}

abbrev is_not_run : CheckOutcome → Bool
is_not_run (skipped _ code _) = is_code not_run_after_fatal code
is_not_run _ = false

abbrev is_plain_skip : CheckOutcome → Bool
is_plain_skip (skipped _ code _) = not (is_code not_run_after_fatal code)
is_plain_skip _ = false

abbrev halt_of : CheckOutcome → Option String
halt_of (skipped _ code halted_by) = if is_code not_run_after_fatal code then halted_by else none
halt_of _ = none

-- The halting check that the first "not run" row with a name in it names.
abbrev named_halt : List CheckResult → Option String
named_halt [] = none
named_halt (c ∷ checks) = first_defined (halt_of c.outcome) (named_halt checks)

-- A tally carried over the rows is the tally so far and, for each kind of row, their number.
pub record IsTally (start : SuiteTally) (checks : List CheckResult) (t : SuiteTally) : Type 0 where
  pub passed : t.passed ≡ start.passed + count_where (λ c. is_success c.outcome) checks
  pub failed : t.failed ≡ start.failed + count_where (λ c. is_failure c.outcome) checks
  pub skipped : t.skipped ≡ start.skipped + count_where (λ c. is_plain_skip c.outcome) checks
  pub not_run : t.not_run ≡ start.not_run + count_where (λ c. is_not_run c.outcome) checks
  pub halted_by : t.halted_by ≡ first_defined start.halted_by (named_halt checks)

first_defined_assoc :
    (a b c : Option String)
    → first_defined (first_defined a b) c ≡ first_defined a (first_defined b c)
first_defined_assoc none b c = refl
first_defined_assoc (some a) b c = refl

record IsStep (t : SuiteTally) (o : CheckOutcome) (t' : SuiteTally) : Type 0 where
  passed : t'.passed ≡ t.passed + (if is_success o then 1 else 0)
  failed : t'.failed ≡ t.failed + (if is_failure o then 1 else 0)
  skipped : t'.skipped ≡ t.skipped + (if is_plain_skip o then 1 else 0)
  not_run : t'.not_run ≡ t.not_run + (if is_not_run o then 1 else 0)
  halted_by : t'.halted_by ≡ first_defined t.halted_by (halt_of o)

tally_outcome-IsStep : (t : SuiteTally) (o : CheckOutcome) → IsStep t o (tally_outcome t o)
unfolding tally_outcome
tally_outcome-IsStep t (success m p) = ground arith
tally_outcome-IsStep t (failure ps p) = ground arith
tally_outcome-IsStep t (skipped reason code h) = ground arith

tally_from-IsTally :
    (t : SuiteTally) (checks : List CheckResult) → IsTally t checks (tally_from t checks)
unfolding tally_from
tally_from-IsTally t [] = record {
  passed = omega arith;
  failed = omega arith;
  skipped = omega arith;
  not_run = omega arith;
  halted_by = ground arith;
}
tally_from-IsTally t (c ∷ checks) =
    let ih = tally_from-IsTally (tally_outcome t c.outcome) checks in
    let step = tally_outcome-IsStep t c.outcome in
    record {
      passed = ground (arith, ih.passed, step.passed);
      failed = ground (arith, ih.failed, step.failed);
      skipped = ground (arith, ih.skipped, step.skipped);
      not_run = ground (arith, ih.not_run, step.not_run);
      halted_by =
          ih.halted_by
          ∙ ap (λ h. first_defined h (named_halt checks)) step.halted_by
          ∙ first_defined_assoc t.halted_by (halt_of c.outcome) (named_halt checks);
    }

-- The tally of a suite counts its rows by kind, and names the check that its first "not run" row with
-- a name in it names.
pub tally_suite-IsTally :
    (checks : List CheckResult) → IsTally empty_tally checks (tally_suite checks)
unfolding tally_suite
tally_suite-IsTally checks = tally_from-IsTally empty_tally checks

counts_total :
    (checks : List CheckResult)
    → count_where (λ c. is_success c.outcome) checks
        + count_where (λ c. is_failure c.outcome) checks
        + count_where (λ c. is_plain_skip c.outcome) checks
        + count_where (λ c. is_not_run c.outcome) checks
      ≡ length checks
counts_total [] = omega arith
counts_total (c ∷ checks) = ground (arith, counts_total checks)

-- The meaning of a suite's status in terms of its rows.
abbrev pub Means : SuiteStatus → List CheckResult → Type 0
Means SuiteStatus.success checks =
    (any (λ c. is_failure c.outcome) checks ≡ false)
    × (any (λ c. is_success c.outcome) checks ≡ true)
Means SuiteStatus.failure checks =
    (any (λ c. is_failure c.outcome) checks ≡ true)
    × (any (λ c. is_success c.outcome) checks ≡ false)
Means SuiteStatus.mixed checks =
    (any (λ c. is_failure c.outcome) checks ≡ true)
    × (any (λ c. is_success c.outcome) checks ≡ true)
Means SuiteStatus.skipped checks =
    (any (λ c. is_failure c.outcome) checks ≡ false)
    × (any (λ c. is_success c.outcome) checks ≡ false)

Means-cases :
    (checks : List CheckResult) (fails passes : Bool)
    → any (λ c. is_failure c.outcome) checks ≡ fails
    → any (λ c. is_success c.outcome) checks ≡ passes
    → Means
        (if fails && passes
          then SuiteStatus.mixed
          else if fails
          then SuiteStatus.failure
          else if passes
          then SuiteStatus.success
          else SuiteStatus.skipped)
        checks
Means-cases checks true true f p = (f, p)
Means-cases checks true false f p = (f, p)
Means-cases checks false true f p = (f, p)
Means-cases checks false false f p = (f, p)

-- A summary's counts add up to the number of the suite's rows, each is the number of the rows of its
-- kind ("not run" rows count as skipped), and the status says which kinds occur.
pub summarize_suite-counts :
    (id : String) (phase : Option SuitePhase) (checks : List CheckResult)
    → let s = summarize_suite id phase checks in
      (s.counts.passed ≡ count_where (λ c. is_success c.outcome) checks)
      × (s.counts.failed ≡ count_where (λ c. is_failure c.outcome) checks)
      × (s.counts.passed + s.counts.failed + s.counts.skipped ≡ length checks)
      × Means s.status checks
unfolding summarize_suite derive_status
summarize_suite-counts id phase checks =
    let t = tally_suite-IsTally checks in
    let passed : (tally_suite checks).passed ≡ count_where (λ c. is_success c.outcome) checks =
      omega (arith, t.passed) in
    let failed : (tally_suite checks).failed ≡ count_where (λ c. is_failure c.outcome) checks =
      omega (arith, t.failed) in
    (
      passed,
      failed,
      omega (arith, t.passed, t.failed, t.skipped, t.not_run, counts_total checks),
      rw
          (
            passed,
            failed,
            ltb-count_where (λ c. is_failure c.outcome) checks,
            ltb-count_where (λ c. is_success c.outcome) checks,
          )
          (Means-cases checks _ _ refl refl),
    )
