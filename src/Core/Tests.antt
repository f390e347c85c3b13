-- ===== src/Core/Tests.antt =====
-- Concrete documents for the core suite.
use verifier_core.Shared.{◌≡◌, none, some, [], ◌∷◌, map}
use verifier_core.Types.{is_success}
use verifier_core.Samples.{subject, text_tests, presentation}
use verifier_core.Core.Pointer.{name, index, segment_text, format_json_pointer}
use verifier_core.Core.Pointer.RoundTrip.{
  parse_json_pointer, parse_json_pointer-format_json_pointer,
}
use verifier_core.Core.Structure.{vc_structure_check, vp_structure_check}
use verifier_core.Core.Conforms.{conforming, credential_conforms, presentation_conforms}
use verifier_core.Core.Structure.Conformance.{
  vc_structure_check-is_success, vp_structure_check-is_success,
}

vc_structure_check-is_success_example :
    is_success (vc_structure_check text_tests subject)
    ≡ conforming (credential_conforms text_tests) subject.verifiable_credential
vc_structure_check-is_success_example = vc_structure_check-is_success text_tests subject

vp_structure_check-is_success_example :
    is_success (
      vp_structure_check text_tests
        (record { verifiable_credential = none; verifiable_presentation = some presentation }))
    ≡ conforming (presentation_conforms text_tests) (some presentation)
vp_structure_check-is_success_example =
    vp_structure_check-is_success text_tests
      (record { verifiable_credential = none; verifiable_presentation = some presentation })

parse_json_pointer-format_json_pointer_example :
    parse_json_pointer (format_json_pointer (name "a/b~c" ∷ index 12 ∷ []))
    ≡ map segment_text (name "a/b~c" ∷ index 12 ∷ [])
parse_json_pointer-format_json_pointer_example =
    parse_json_pointer-format_json_pointer (name "a/b~c" ∷ index 12 ∷ [])
