-- ===== src/VcContexts.antt =====
-- src/util/vc-contexts.ts
use verifier_core.Shared.{
  String, Bool, false, ◌||◌, Option, none, some, [], ◌∷◌, ◌==◌, if◌then◌else◌, any,
}
use verifier_core.Json.{Json, arr, str, items, string_values}

abbrev pub vc_context_v1 : String
vc_context_v1 = "https://www.w3.org/2018/credentials/v1"

abbrev pub vc_context_v2 : String
vc_context_v2 = "https://www.w3.org/ns/credentials/v2"

abbrev is_vc_context_text : String → Bool
is_vc_context_text s = s == vc_context_v1 || s == vc_context_v2

abbrev pub is_vc_context : Option Json → Bool
is_vc_context (some (str s)) = is_vc_context_text s
is_vc_context _ = false

pub data VcVersion : Type 0 where
  v1 v2 : VcVersion

unfoldable pub first_context_entry : Option Json → Option Json
first_context_entry (some (arr vs)) = elim (items vs) [ [] ↦ none | v ∷ vs' ↦ some v ]
first_context_entry context = context

version_of : Option Json → Option VcVersion
version_of (some (str s)) =
    if s == vc_context_v1 then some v1 else if s == vc_context_v2 then some v2 else none
version_of _ = none

unfoldable pub vc_version_of : Option Json → Option VcVersion
unfolding first_context_entry version_of
vc_version_of context = version_of (first_context_entry context)

abbrev pub includes_vc_context : Option Json → Bool
includes_vc_context context = any is_vc_context_text (string_values context)
