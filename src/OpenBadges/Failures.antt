-- ===== src/OpenBadges/Failures.antt =====
-- src/openbadges: which results make result-ref-check.ts, missing-result-status-check.ts and
-- achieved-level-check.ts fail.
use verifier_core.Shared.{
  Bool, true, false, not, ◌&&◌, String, none, some, List, [], ◌∷◌, ◌≡◌, refl, sym, ap, Bool-cases,
  inl, inr, ◌∙◌, length, nat_eq, has_some, any, arith, if◌then◌else◌,
}
use verifier_core.Json.{is_truthy}
use verifier_core.Types.{ProblemDetail, CheckOutcome, success, VerificationSubject, is_failure}
use verifier_core.OpenBadges.Described.{
  dangles, lacks_status, overclaims, is_set, any-same, elim-same, reference_problems-any,
  status_problems-any, level_problems-any, declares, declares-last_levels, includes-ids_of,
  includes-status_typed_ids,
}
use verifier_core.OpenBadges.Shapes.{ResultDescription, Result}
use verifier_core.OpenBadges.Checks.{
  no_credential, no_results, no_descriptions, verdict, parsed, results_of, descriptions_of,
  result_ref_check, refers_to, status_typed_ids, status_problems, missing_result_status_check,
  add_levels, achieved_level_check,
}

verdict-is_failure :
    (problems : List ProblemDetail) (message : String)
    → is_failure (verdict problems message) ≡ has_some problems
verdict-is_failure [] message = refl
verdict-is_failure (p ∷ ps) message = ground arith

guarded-is_failure :
    (present : Bool) (rs : List Result) (p : Result → Bool) (outcome : CheckOutcome)
    → is_failure outcome ≡ any p rs
    → is_failure (
        if not present then no_credential else if nat_eq (length rs) 0 then no_results else outcome)
      ≡ (present && any p rs)
guarded-is_failure false rs p outcome h = refl
guarded-is_failure true [] p outcome h = refl
guarded-is_failure true (r ∷ rs) p outcome h = ground (arith, h)

any-false : (rs : List Result) → any (λ r. false) rs ≡ false
any-false [] = refl
any-false (r ∷ rs) = any-false rs

described-is_failure :
    (ds : List ResultDescription) (p : Result → Bool) (rs : List Result) (outcome : CheckOutcome)
    → is_failure outcome ≡ any p rs
    → is_failure (if nat_eq (length ds) 0 then no_descriptions else outcome)
      ≡ any (λ r. has_some ds && p r) rs
described-is_failure [] p rs outcome h = sym (any-false rs)
described-is_failure (d ∷ ds) p rs outcome h = ground (arith, h)

result_ref_check-is_failure :
    (subject : VerificationSubject)
    → is_failure (result_ref_check subject) ≡ (
        is_truthy subject.verifiable_credential
        && any (dangles (descriptions_of (parsed subject))) (results_of (parsed subject)))
unfolding result_ref_check dangles
result_ref_check-is_failure subject =
    let ds = descriptions_of (parsed subject) in
    let rs = results_of (parsed subject) in
    guarded-is_failure _ rs (dangles ds) _ (
      verdict-is_failure _ _
      ∙ reference_problems-any _ 0 rs
      ∙ any-same rs (λ r. elim-same r.result_description (λ ref. ap not (includes-ids_of ds ref))))

any-no_status_typed :
    (ids : List String) (rs : List Result)
    → nat_eq (length ids) 0 ≡ true
    → any (λ r. refers_to ids r && not (is_set r.status)) rs ≡ false
unfolding refers_to
any-no_status_typed [] [] h = refl
any-no_status_typed [] (r ∷ rs) h = ground (arith, any-no_status_typed [] rs h)
any-no_status_typed (id ∷ ids) rs h = absurd (ground arith)

judged-is_failure :
    (ids : List String) (rs : List Result) (m n : String)
    → is_failure
        (if nat_eq (length ids) 0 then success n none else verdict (status_problems ids 0 rs).0 m)
      ≡ any (λ r. refers_to ids r && not (is_set r.status)) rs
judged-is_failure ids rs m n = elim (Bool-cases (nat_eq (length ids) 0)) [
  | inl e ↦ rw e (sym (any-no_status_typed ids rs e))
  | inr e ↦ rw e (verdict-is_failure _ _ ∙ status_problems-any ids 0 rs)
]

lacks_status-described :
    (ds : List ResultDescription) (r : Result)
    → (has_some ds && (refers_to (status_typed_ids ds) r && not (is_set r.status)))
      ≡ lacks_status ds r
unfolding lacks_status refers_to
lacks_status-described [] r = ground arith
lacks_status-described (d ∷ ds) r =
    ap (λ b. b && not (is_set r.status))
      (elim-same r.result_description (includes-status_typed_ids (d ∷ ds)))

missing_result_status_check-is_failure :
    (subject : VerificationSubject)
    → is_failure (missing_result_status_check subject) ≡ (
        is_truthy subject.verifiable_credential
        && any (lacks_status (descriptions_of (parsed subject))) (results_of (parsed subject)))
unfolding missing_result_status_check
missing_result_status_check-is_failure subject =
    let ds = descriptions_of (parsed subject) in
    let rs = results_of (parsed subject) in
    guarded-is_failure _ rs (lacks_status ds) _ (
      described-is_failure ds _ rs _ (judged-is_failure (status_typed_ids ds) rs _ _)
      ∙ any-same rs (lacks_status-described ds))

overclaims-described :
    (ds : List ResultDescription) (r : Result)
    → elim r.achieved_level [
      | none ↦ false
      | some level ↦ elim r.result_description [
        | none ↦ false
        | some ref ↦ not (declares (add_levels [] ds) level ref)
      ]
    ]
      ≡ overclaims ds r
unfolding overclaims
overclaims-described ds r =
    elim-same r.achieved_level
      (λ level. elim-same r.result_description (λ ref. ap not (declares-last_levels ds level ref)))

achieved_level_check-is_failure :
    (subject : VerificationSubject)
    → is_failure (achieved_level_check subject) ≡ (
        is_truthy subject.verifiable_credential
        && any
            (λ r.
              has_some (descriptions_of (parsed subject))
              && overclaims (descriptions_of (parsed subject)) r)
            (results_of (parsed subject)))
unfolding achieved_level_check
achieved_level_check-is_failure subject =
    let ds = descriptions_of (parsed subject) in
    let rs = results_of (parsed subject) in
    guarded-is_failure _ rs (λ r. has_some ds && overclaims ds r) _
      (described-is_failure ds (overclaims ds) rs _ (
        verdict-is_failure _ _
        ∙ level_problems-any (add_levels [] ds) 0 rs
        ∙ any-same rs (overclaims-described ds)))

-- Over the results and descriptions that the subject's shape reads (none, where the subject does not have that
-- shape), three of the semantic checks on a credential that is there fail exactly so: the one on references, when a
-- result names an id that no description has; the one on statuses, when a result names the id of a description of
-- type `Status` and its own status is absent or empty; the one on levels, when there are descriptions and a result
-- claims a level and names an id, and the last description of that id that declares levels does not declare it, or
-- there is no such description. Without a credential none of them fails.
pub semantic_checks-is_failure :
    (subject : VerificationSubject)
    → let ds = descriptions_of (parsed subject) in
      let rs = results_of (parsed subject) in
      let present = is_truthy subject.verifiable_credential in
      (is_failure (result_ref_check subject) ≡ (present && any (dangles ds) rs))
      × (is_failure (missing_result_status_check subject) ≡ (present && any (lacks_status ds) rs))
      × (is_failure (achieved_level_check subject)
          ≡ (present && any (λ r. has_some ds && overclaims ds r) rs))
semantic_checks-is_failure subject = (
  result_ref_check-is_failure subject,
  missing_result_status_check-is_failure subject,
  achieved_level_check-is_failure subject,
)
