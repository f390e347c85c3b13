-- ===== src/Status/ListIssuer/Verdict.antt =====
-- src/suites/status/list-issuer-check.ts: what its outcome says.
use verifier_core.Shared.{
  String, Bool, false, not, ◌&&◌, Option, none, some, List, [], ◌∷◌, ◌≡◌, refl, arith, any, all,
  length, nat_eq, ltb, or_else, ◌==◌,
}
use verifier_core.Shared.Dict.{lookup}
use verifier_core.Json.{Json, null, is_truthy}
use verifier_core.Types.{VerificationSubject, is_success, is_failure}
use verifier_core.Registry.IssuerCheck.{credential_issuer_id}
use verifier_core.Status.Lists.{
  ListsByUrl, StatusStore, checked_status_list_urls, take_verified_status_lists,
}
use verifier_core.Status.ListIssuer.{differs, list_problems, judge_lists, status_list_issuer_check}

-- Both issuers are there and are the same text.
abbrev is_same : Option String → Option String → Bool
is_same (some issuer) (some credential_issuer) = issuer == credential_issuer
is_same _ _ = false

not-differs : (a b : Option String) → not (differs a b) ≡ is_same a b
not-differs none none = refl
not-differs none (some b) = refl
not-differs (some a) none = refl
not-differs (some a) (some b) = ground arith

abbrev list_agrees : Option String → Option Json → Bool
list_agrees issuer none = false
list_agrees issuer (some list) = is_same (credential_issuer_id list) issuer

abbrev list_differs : Option String → Option Json → Bool
list_differs issuer none = false
list_differs issuer (some list) = not (is_same (credential_issuer_id list) issuer)

-- A list is recorded under the URL, and its issuer is the given one.
abbrev pub agrees : Option String → ListsByUrl → String → Bool
agrees issuer lists url = list_agrees issuer (lookup url lists)

-- A list is recorded under the URL, and its issuer is missing or another.
abbrev pub mismatches : Option String → ListsByUrl → String → Bool
mismatches issuer lists url = list_differs issuer (lookup url lists)

list_problems-nonempty :
    (issuer : Option String) (lists : ListsByUrl) (urls : List String)
    → ltb 0 (length (list_problems issuer lists urls).0) ≡ any (mismatches issuer lists) urls
unfolding list_problems
list_problems-nonempty issuer lists [] = refl
list_problems-nonempty issuer lists (url ∷ urls) =
    let here = λ (list : Json). not-differs (credential_issuer_id list) issuer in
    ground (arith, list_problems-nonempty issuer lists urls, here)

list_problems-unestablished :
    (issuer : Option String) (lists : ListsByUrl) (urls : List String)
    → (not (any (mismatches issuer lists) urls) && not (list_problems issuer lists urls).1)
      ≡ all (agrees issuer lists) urls
unfolding list_problems
list_problems-unestablished issuer lists [] = refl
list_problems-unestablished issuer lists (url ∷ urls) =
    let here = λ (list : Json). not-differs (credential_issuer_id list) issuer in
    ground (arith, list_problems-unestablished issuer lists urls, here)

any-empty :
    (p : String → Bool) (urls : List String) → (any p urls && nat_eq (length urls) 0) ≡ false
any-empty p [] = refl
any-empty p (url ∷ urls) = ground arith

module _ {W : Type 0} (store : StatusStore W) where
  -- The check of the lists' issuers fails exactly when there is a credential and a list that is recorded for one of its
  -- checked URLs names no issuer or another issuer than the credential's. It succeeds exactly when there is a credential with a
  -- checked URL, and for each of them a list is recorded that names the credential's issuer.
  pub status_list_issuer_check-verdict :
      (subject : VerificationSubject) (w : W)
      → let outcome = (status_list_issuer_check store subject w).0 in
        let credential = or_else subject.verifiable_credential null in
        let urls = checked_status_list_urls credential in
        let issuer = credential_issuer_id credential in
        let lists = or_else (store.lists w) [] in
        (is_failure outcome
          ≡ (is_truthy subject.verifiable_credential && any (mismatches issuer lists) urls))
        × (is_success outcome ≡ (
            is_truthy subject.verifiable_credential
            && (ltb 0 (length urls) && all (agrees issuer lists) urls)))
  unfolding status_list_issuer_check judge_lists take_verified_status_lists
  status_list_issuer_check-verdict subject w =
      let credential = or_else subject.verifiable_credential null in
      let urls = checked_status_list_urls credential in
      let issuer = credential_issuer_id credential in
      let lists = or_else (store.lists w) [] in
      let problems = list_problems-nonempty issuer lists urls in
      let unestablished = list_problems-unestablished issuer lists urls in
      let empty = any-empty (mismatches issuer lists) urls in (ground arith, ground arith)
