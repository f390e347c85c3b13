-- ===== src/CryptoDispatch.antt =====
-- src/crypto-dispatch.ts, src/util/document-has-proof.ts. A dispatch never rejects: what is thrown
-- becomes its result. The proofs of a set are dispatched one after the other; the source starts them
-- together and awaits them all, so the order of their effects is one of those that may occur.
pub mod Combine
pub mod Unsupported
mod Tests
use verifier_core.Shared.{
  ℕ, ◌+◌, String, Bool, true, false, not, ◌&&◌, ◌||◌, Option, none, some, List, [], ◌∷◌, ◌<>◌, ◌==◌,
  if◌then◌else◌, is_true, map, filter, flat_map, find?, any, all, length, ltb, decimal, or_else,
}
use verifier_core.Json.{
  Json, null, arr, obj, str, items, property, is_truthy, is_object, with_property, error_message,
}
use verifier_core.Types.{
  Attempt, done, thrown, Action, ProblemDetail, problem, VerificationSubject, CryptoResult,
  accepted, refused, CryptoVerifyOptions, CryptoService,
}
use verifier_core.Types.ProblemTypes

pub data CryptoDispatchResult : Type 0 where
  verified : (message : Option String) → CryptoDispatchResult
  rejected : (problems : List ProblemDetail) (proof_verified : Bool) → CryptoDispatchResult
  no_service : CryptoDispatchResult
  threw : (error : Json) (message : String) → CryptoDispatchResult

pub record ProofOutcome : Type 0 where
  pub position : ℕ
  pub total : ℕ
  pub label : String
  pub result : CryptoDispatchResult

pub record ProofSetDispatchResult : Type 0 where
  pub combined : CryptoDispatchResult
  pub proofs : List ProofOutcome

abbrev pub proof_entries_of : Option Json → List Json
proof_entries_of none = []
proof_entries_of (some (arr vs)) = filter is_object (items vs)
proof_entries_of (some proof) = filter is_object (proof ∷ [])

-- `proofEntries` of src/util/document-has-proof.ts
abbrev pub proof_entries : Option Json → List Json
proof_entries none = []
proof_entries (some doc) = proof_entries_of (property "proof" doc)

pub document_has_proof : Option Json → Bool
document_has_proof doc = ltb 0 (length (proof_entries doc))

-- `subject[proofDocumentKey(subject)]`
unfoldable pub proof_document : VerificationSubject → Option Json
proof_document subject =
    if is_truthy subject.verifiable_presentation
    then subject.verifiable_presentation
    else subject.verifiable_credential

-- `{ ...subject, [key]: document }`
pub with_document : VerificationSubject → Json → VerificationSubject
with_document subject document =
    if is_truthy subject.verifiable_presentation
    then record subject { verifiable_presentation = some document }
    else record subject { verifiable_credential = some document }

abbrev no_service_for_proof : ProblemDetail
no_service_for_proof =
    problem ProblemTypes.proof_unsupported "Unsupported Proof"
      "No registered crypto service can verify this proof."

pub is_unsupported_proof : CryptoDispatchResult → Bool
is_unsupported_proof no_service = true
is_unsupported_proof (rejected problems _) =
    ltb 0 (length problems) && all (λ p. p.type == ProblemTypes.proof_unsupported) problems
is_unsupported_proof _ = false

proof_problems : CryptoDispatchResult → List ProblemDetail
proof_problems (rejected problems _) = problems
proof_problems no_service = no_service_for_proof ∷ []
proof_problems _ = []

pub problems_of_proof : ProofOutcome → List ProblemDetail
unfolding proof_problems
problems_of_proof outcome =
    let prefix =
      "Proof "
      <> decimal outcome.position
      <> " of "
      <> decimal outcome.total
      <> " ("
      <> outcome.label
      <> "): " in
    map (λ (p : ProblemDetail). record p { detail = prefix <> p.detail })
      (proof_problems outcome.result)

abbrev pub rejected_with : CryptoDispatchResult → Bool → Bool
rejected_with (rejected _ true) proof_verified = proof_verified
rejected_with (rejected _ false) proof_verified = not proof_verified
rejected_with _ proof_verified = false

-- The lists that the loop of `combineProofOutcomes` fills, as the tests that fill them.
abbrev pub is_verified_but_rejected : ProofOutcome → Bool
is_verified_but_rejected o = not (is_unsupported_proof o.result) && rejected_with o.result true

abbrev pub is_failing : ProofOutcome → Bool
is_failing o = not (is_unsupported_proof o.result) && rejected_with o.result false

abbrev pub is_threw : CryptoDispatchResult → Bool
is_threw (threw _ _) = true
is_threw _ = false

abbrev pub is_verified : CryptoDispatchResult → Bool
is_verified (verified _) = true
is_verified _ = false

abbrev pub is_no_service : CryptoDispatchResult → Bool
is_no_service no_service = true
is_no_service _ = false

-- `if (found) return found.result`
abbrev result_or : Option ProofOutcome → CryptoDispatchResult → CryptoDispatchResult
result_or none otherwise = otherwise
result_or (some o) otherwise = o.result

-- What is left when no proof fails, throws, is verified, or is rejected after it verified.
combine_unchecked : List ProofOutcome → CryptoDispatchResult
combine_unchecked unchecked =
    if all (λ o. is_no_service o.result) unchecked
    then no_service
    else rejected (flat_map problems_of_proof unchecked) false

pub combine_proof_outcomes : List ProofOutcome → CryptoDispatchResult
unfolding combine_unchecked
combine_proof_outcomes proofs =
    let failing = filter is_failing proofs in
    if ltb 0 (length failing)
    then rejected (flat_map problems_of_proof failing) false
    else result_or (find? (λ o. is_threw o.result) proofs) (
        result_or (find? is_verified_but_rejected proofs) (
          result_or (find? (λ o. is_verified o.result) proofs)
            (combine_unchecked (filter (λ o. is_unsupported_proof o.result) proofs))))

type_name : Option Json → String
type_name (some (str s)) = s
type_name _ = "unknown proof type"

label_with : String → Option Json → String
label_with name (some (str cryptosuite)) = name <> ", " <> cryptosuite
label_with name _ = name

pub proof_label : Json → String
unfolding type_name label_with
proof_label proof = label_with (type_name (property "type" proof)) (property "cryptosuite" proof)

-- What the service answers, or the `catch` of the dispatch.
pub crypto_result : Attempt CryptoResult → CryptoDispatchResult
crypto_result (done (accepted message)) = verified message
crypto_result (done (refused problems proof_verified)) = rejected problems (is_true proof_verified)
crypto_result (thrown error) =
    threw error (error_message error "An unexpected error occurred during signature verification.")

-- The entries with their positions from `i`, less those that are no objects.
abbrev positioned : ℕ → List Json → List (Json × ℕ)
positioned i [] = []
positioned i (proof ∷ proofs) =
    let rest = positioned (i + 1) proofs in if is_object proof then (proof, i) ∷ rest else rest

unfoldable pub proof_set_of : Option Json → List Json
proof_set_of (some (arr vs)) = items vs
proof_set_of _ = []

module _ {W : Type 0} where
  -- `services.find(s => s.canVerify(subject))`, where the test may throw.
  unfoldable pub find_service :
      List (CryptoService W) → VerificationSubject → Attempt (Option (CryptoService W))
  find_service [] subject = done none
  find_service (s ∷ services) subject =
      let rest = find_service services subject in
      elim (s.can_verify subject) [
        | done true ↦ done (some s)
        | done false ↦ rest
        | thrown error ↦ thrown error
      ]

  -- The service verifies the presentation if there is one, and else the credential.
  unfoldable pub ask_service :
      CryptoService W → VerificationSubject → CryptoVerifyOptions W → Action W CryptoResult
  ask_service service subject options =
      if is_truthy subject.verifiable_presentation
      then service.verify_presentation (or_else subject.verifiable_presentation null) options
      else service.verify_credential (or_else subject.verifiable_credential null) options

  unfoldable pub dispatch_to :
      Attempt (Option (CryptoService W))
      → VerificationSubject
      → CryptoVerifyOptions W
      → W
      → CryptoDispatchResult × W
  dispatch_to (thrown error) subject options w = (crypto_result (thrown error), w)
  dispatch_to (done none) subject options w = (no_service, w)
  dispatch_to (done (some service)) subject options w =
      let (answer, w') = ask_service service subject options w in (crypto_result answer, w')

  unfoldable pub dispatch_proof_verification :
      List (CryptoService W)
      → VerificationSubject
      → CryptoVerifyOptions W
      → W
      → CryptoDispatchResult × W
  unfolding find_service dispatch_to ask_service crypto_result
  dispatch_proof_verification services subject options w =
      if not (is_truthy subject.verifiable_presentation)
        && not (is_truthy subject.verifiable_credential)
      then (no_service, w)
      else dispatch_to (find_service services subject) subject options w

  module _ (services : List (CryptoService W)) (subject : VerificationSubject)
      (options : CryptoVerifyOptions W) (document : Json) (total : ℕ) where
    dispatch_each : List (Json × ℕ) → W → List ProofOutcome × W
    dispatch_each [] w = ([], w)
    dispatch_each ((proof, position) ∷ rest) w =
        let (result, w₁) =
          dispatch_proof_verification services
            (with_document subject (with_property "proof" proof document)) options w in
        let (outcomes, w₂) = dispatch_each rest w₁ in
        (
          record { position = position; total = total; label = proof_label proof; result = result }
              ∷ outcomes,
          w₂,
        )

  unfoldable pub dispatch_proof_set_verification :
      List (CryptoService W)
      → VerificationSubject
      → CryptoVerifyOptions W
      → W
      → ProofSetDispatchResult × W
  unfolding dispatch_each proof_set_of proof_document
  dispatch_proof_set_verification services subject options w =
      let document = or_else (proof_document subject) null in
      let proof_set = proof_set_of (property "proof" document) in
      let entries = positioned 1 proof_set in
      if not (is_truthy (proof_document subject)) || ltb (length entries) 2
      then (let (combined, w') = dispatch_proof_verification services subject options w in
          (record { combined = combined; proofs = [] }, w'))
      else let (proofs, w') =
          dispatch_each services subject options document (length proof_set) entries w in
        (record { combined = combine_proof_outcomes proofs; proofs = proofs }, w')
