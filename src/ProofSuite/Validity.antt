-- ===== src/ProofSuite/Validity.antt =====
-- src/suites/proof/validity-period-check.ts: the window that the dates state, its ends included.
use verifier_core.Shared.{
  ℕ, ◌≤◌, Bool, true, false, ◌&&◌, ◌||◌, some, [], ◌∷◌, ◌++◌, ◌≡◌, refl, ◌↔◌, arith, if◌then◌else◌,
}
use verifier_core.Json.{Json, property, is_truthy}
use verifier_core.Types.{
  Platform, VerificationSubject, VerificationContext, is_failure, ProblemDetail,
}
use verifier_core.VcContexts.{VcVersion, vc_version_of}
use verifier_core.ProofSuite.{
  DateOf, absent, unparseable, at, start_property, end_property, date_of, has_ended,
  has_not_started, judge_dates, judge_problems, validity_period_check,
}

abbrev is_date : DateOf → Bool
is_date unparseable = false
is_date _ = true

module _ {W : Type 0} (platform : Platform W) where
  judge_problems-is_failure :
      (a b : Bool) (p q : ProblemDetail)
      → is_failure
          (judge_problems platform ((if a then p ∷ [] else []) ++ (if b then q ∷ [] else [])))
        ≡ (a || b)
  judge_problems-is_failure a b p q = ground arith

  -- With a known version, the check fails exactly when both dates can be read and the instant lies after the end
  -- or before the start; a missing date sets no bound.
  judge_dates-is_failure :
      (credential : Json) (version : VcVersion) (start end : DateOf) (now : ℕ)
      → is_failure (judge_dates platform credential version start end now)
        ≡ ((is_date start && is_date end) && (has_ended end now || has_not_started start now))
  unfolding judge_dates
  judge_dates-is_failure credential version unparseable end now = refl
  judge_dates-is_failure credential version absent unparseable now = refl
  judge_dates-is_failure credential version (at s) unparseable now = refl
  judge_dates-is_failure credential version absent absent now = refl
  judge_dates-is_failure credential version absent (at e) now = ground arith
  judge_dates-is_failure credential version (at s) absent now = ground arith
  judge_dates-is_failure credential version (at s) (at e) now = ground arith

  -- A credential of a known version, whose two dates can be read, does not fail exactly when the verifier's
  -- clock reads an instant from the start to the end, both included.
  pub validity_period_check-window :
      (subject : VerificationSubject) (context : VerificationContext W) (credential : Json)
      (version : VcVersion) (start end : ℕ)
      → subject.verifiable_credential ≡ some credential
      → is_truthy (some credential) ≡ true
      → vc_version_of (property "@context" credential) ≡ some version
      → date_of platform (property (start_property version) credential) ≡ at start
      → date_of platform (property (end_property version) credential) ≡ at end
      → (is_failure (validity_period_check platform subject context) ≡ false)
        ↔ ((start ≤ context.now) × (context.now ≤ end))
  unfolding validity_period_check
  validity_period_check-window subject context credential version start end c t v s e =
      rw (c, t, v, s, e)
        (rw (judge_dates-is_failure credential version (at start) (at end) context.now)
          (ground arith))
