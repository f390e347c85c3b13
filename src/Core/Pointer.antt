-- ===== src/Core/Pointer.antt =====
-- src/util/json-pointer.ts, and `displayPath` of src/suites/core/structure-helpers.ts
pub mod RoundTrip
use Prim.Native.Char.{code}
use verifier_core.Shared.{ℕ, String, List, [], ◌∷◌, map, nat_eq, if◌then◌else◌, ◌<>◌, decimal, join}

pub data Segment : Type 0 where
  name : String → Segment
  index : ℕ → Segment

-- `String(s)`
abbrev pub segment_text : Segment → String
segment_text (name s) = s
segment_text (index n) = decimal n

-- `s.replaceAll(c, by)` for a text `c` of one character
pub replace_all : ℕ → String → String → String
replace_all c by String.[] = String.[]
replace_all c by (String.◌∷◌ d s) =
    let rest = replace_all c by s in if nat_eq (code d) c then by <> rest else String.◌∷◌ d rest

pub escape : String → String
unfolding replace_all
escape s = replace_all b'/' "~1" (replace_all b'~' "~0" s)

pub format_json_pointer : List Segment → String
unfolding escape
format_json_pointer [] = ""
format_json_pointer (s ∷ segments) =
    "/" <> join "/" (map (λ t. escape (segment_text t)) (s ∷ segments))

display_rest : List Segment → String
display_rest [] = ""
display_rest (name s ∷ segments) = "." <> s <> display_rest segments
display_rest (index n ∷ segments) = "[" <> decimal n <> "]" <> display_rest segments

pub display_path : List Segment → String
unfolding display_rest
display_path (name s ∷ segments) = s <> display_rest segments
display_path segments = display_rest segments
