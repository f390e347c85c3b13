-- ===== src/Fold/Id.antt =====
-- src/fold-results.ts: the namespaced id of a row or a summary.
use verifier_core.Shared.{
  String, Option, none, some, [], ◌∷◌, ◌==◌, ◌<>◌, if◌then◌else◌, filter, join, is_nonempty,
  strip_prefix,
}
use verifier_core.Types.{SuitePhase}

abbrev phase_text : Option SuitePhase → String
phase_text none = "unknown"
phase_text (some SuitePhase.cryptographic) = "cryptographic"
phase_text (some SuitePhase.trust) = "trust"
phase_text (some SuitePhase.recognition) = "recognition"
phase_text (some SuitePhase.semantic) = "semantic"

unfoldable pub compute_id : Option SuitePhase → String → String → String
compute_id phase suite local_check_id =
    let phase_seg = phase_text phase in
    let local_part = strip_prefix (suite <> ".") local_check_id in
    let segments =
      if phase_seg == suite
      then phase_seg ∷ local_part ∷ []
      else phase_seg ∷ suite ∷ local_part ∷ [] in
    join "." (filter is_nonempty segments)
