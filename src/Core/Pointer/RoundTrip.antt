-- ===== src/Core/Pointer/RoundTrip.antt =====
-- src/util/json-pointer.ts: a pointer is read back by the rules of RFC 6901.
use Prim.Native.Char.{Char, code}
use text.Mathlib.TextEquality.{Char-path}
use text.Mathlib.TextLemmas.{cons-append, nil-append, append-nil, append_assoc}
use verifier_core.Shared.{
  String, Bool, false, List, [], ◌∷◌, ◌≡◌, refl, sym, ap, ◌∙◌, arith, map, nat_eq, if◌then◌else◌,
  ◌<>◌, join, Bool-cases, inl, inr,
}
use verifier_core.Core.Pointer.{Segment, segment_text, replace_all, escape, format_json_pointer}

abbrev is_tilde : Char → Bool
is_tilde c = nat_eq (code c) b'~'

abbrev is_slash : Char → Bool
is_slash c = nat_eq (code c) b'/'

-- The pieces between the slashes of a text.
put_first : Char → List String → List String
put_first c [] = []
put_first c (piece ∷ pieces) = (String.◌∷◌ c piece) ∷ pieces

split : String → List String
unfolding put_first
split String.[] = "" ∷ []
split (String.◌∷◌ c s) = let rest = split s in if is_slash c then "" ∷ rest else put_first c rest

-- `~1` stands for `/`, and `~` with anything else after it for `~`.
unescaped : Char → String → String
unescaped d rest = if nat_eq (code d) b'1' then "/" <> rest else "~" <> rest

unescape : String → String
unfolding unescaped
unescape String.[] = ""
unescape (String.◌∷◌ c String.[]) = String.◌∷◌ c ""
unescape (String.◌∷◌ c (String.◌∷◌ d s)) =
    let after = unescaped d (unescape s) in
    let on = String.◌∷◌ c (unescape (String.◌∷◌ d s)) in if is_tilde c then after else on

-- A pointer is empty, or each of its parts follows a slash.
pub parse_json_pointer : String → List String
unfolding split unescape
parse_json_pointer String.[] = []
parse_json_pointer (String.◌∷◌ c s) = map unescape (split s)

-- What a character becomes.
piece : Char → String
piece c = if is_tilde c then "~0" else if is_slash c then "~1" else String.◌∷◌ c ""

two_cons :
    (a b : Char) (s : String)
    → (String.◌∷◌ a (String.◌∷◌ b String.[])) <> s ≡ String.◌∷◌ a (String.◌∷◌ b s)
two_cons a b s =
    cons-append a (String.◌∷◌ b String.[]) s
    ∙ ap (String.◌∷◌ a) (cons-append b String.[] s ∙ ap (String.◌∷◌ b) (nil-append s))

one_cons : (a : Char) (s : String) → (String.◌∷◌ a String.[]) <> s ≡ String.◌∷◌ a s
one_cons a s = cons-append a String.[] s ∙ ap (String.◌∷◌ a) (nil-append s)

tilde_zero : (s : String) → "~0" <> s ≡ String.◌∷◌ "~" (String.◌∷◌ "0" s)
tilde_zero s = two_cons "~" "0" s

slash_one : (s : String) → "~1" <> s ≡ String.◌∷◌ "~" (String.◌∷◌ "1" s)
slash_one s = two_cons "~" "1" s

escape_cons : (c : Char) (s : String) → escape (String.◌∷◌ c s) ≡ piece c <> escape s
unfolding escape piece replace_all
escape_cons c s = elim (Bool-cases (is_tilde c)) [
  | inl t ↦ rw (t, tilde_zero, tilde_zero)
  | inr f ↦ elim (Bool-cases (is_slash c)) [ inl t ↦ rw (f, t) | inr g ↦ rw (f, g, one_cons) ]
]

unescape_plain :
    (c : Char) (r : String)
    → is_tilde c ≡ false
    → unescape (String.◌∷◌ c r) ≡ String.◌∷◌ c (unescape r)
unfolding unescape
unescape_plain c String.[] h = refl
unescape_plain c (String.◌∷◌ d r) h = rw h

unescape-piece : (c : Char) (r : String) → unescape (piece c <> r) ≡ String.◌∷◌ c (unescape r)
unfolding piece unescape unescaped
unescape-piece c r = elim (Bool-cases (is_tilde c)) [
  | inl t ↦
      let e : c ≡ "~" = Char-path c "~" (ground arith) in
      rw (e, tilde_zero) (one_cons "~" (unescape r))
  | inr f ↦ elim (Bool-cases (is_slash c)) [
    | inl t ↦
        let e : c ≡ "/" = Char-path c "/" (ground arith) in
        rw (e, slash_one) (one_cons "/" (unescape r))
    | inr g ↦ rw (f, g, one_cons) (unescape_plain c r f)
  ]
]

escape_nil : escape "" ≡ ""
unfolding escape replace_all
escape_nil = refl

unescape_nil : unescape (escape "") ≡ ""
unfolding unescape escape replace_all
unescape_nil = refl

unescape-escape : (s : String) → unescape (escape s) ≡ s
unescape-escape String.[] = unescape_nil
unescape-escape (String.◌∷◌ c s) =
    rw (escape_cons, unescape-piece) (ap (String.◌∷◌ c) (unescape-escape s))

prepend : String → List String → List String
prepend p [] = []
prepend p (x ∷ xs) = (p <> x) ∷ xs

prepend_nil : (l : List String) → prepend "" l ≡ l
unfolding prepend
prepend_nil [] = refl
prepend_nil (x ∷ l) = ap (λ y. y ∷ l) (nil-append x)

prepend_append : (p q : String) (l : List String) → prepend (p <> q) l ≡ prepend p (prepend q l)
unfolding prepend
prepend_append p q [] = refl
prepend_append p q (x ∷ l) = ap (λ y. y ∷ l) (append_assoc p q x)

put_two :
    (a b : Char) (l : List String)
    → put_first a (put_first b l) ≡ prepend (String.◌∷◌ a (String.◌∷◌ b String.[])) l
unfolding put_first prepend
put_two a b [] = refl
put_two a b (x ∷ l) = ap (λ y. y ∷ l) (sym (two_cons a b x))

put_one : (a : Char) (l : List String) → put_first a l ≡ prepend (String.◌∷◌ a String.[]) l
unfolding put_first prepend
put_one a [] = refl
put_one a (x ∷ l) = ap (λ y. y ∷ l) (sym (one_cons a x))

-- What a character becomes holds no slash.
split-piece : (c : Char) (r : String) → split (piece c <> r) ≡ prepend (piece c) (split r)
unfolding split piece
split-piece c r = elim (Bool-cases (is_tilde c)) [
  | inl t ↦ rw (t, tilde_zero) (put_two "~" "0" (split r))
  | inr f ↦ elim (Bool-cases (is_slash c)) [
    | inl t ↦ rw (f, t, slash_one) (put_two "~" "1" (split r))
    | inr g ↦ rw (f, g, one_cons, split) (rw g (put_one c (split r)))
  ]
]

split-escape : (s r : String) → split (escape s <> r) ≡ prepend (escape s) (split r)
split-escape String.[] r = rw (escape_nil, nil-append, prepend_nil)
split-escape (String.◌∷◌ c s) r =
    rw (escape_cons, append_assoc, split-piece, prepend_append)
      (ap (prepend (piece c)) (split-escape s r))

split_slash : (r : String) → split ("/" <> r) ≡ "" ∷ split r
unfolding split
split_slash r = rw (one_cons, split)

split_end : split "" ≡ "" ∷ []
unfolding split
split_end = refl

-- An escaped text before a slash is a piece of its own.
split_first : (s r : String) → split (escape s <> ("/" <> r)) ≡ escape s ∷ split r
unfolding prepend
split_first s r = rw (split-escape, split_slash, prepend, append-nil)

split_last : (s : String) → split (escape s) ≡ escape s ∷ []
unfolding prepend
split_last s =
    sym (ap split (append-nil (escape s))) ∙ split-escape s "" ∙ rw (split_end, prepend, append-nil)

abbrev escaped : List Segment → List String
escaped segments = map (λ t. escape (segment_text t)) segments

split-join :
    (s : Segment) (segments : List Segment)
    → split (join "/" (escaped (s ∷ segments))) ≡ escaped (s ∷ segments)
split-join s [] = split_last (segment_text s)
split-join s (t ∷ segments) =
    split_first (segment_text s) (join "/" (escaped (t ∷ segments)))
    ∙ ap (λ l. escape (segment_text s) ∷ l) (split-join t segments)

unescape_all :
    (segments : List Segment) → map unescape (escaped segments) ≡ map segment_text segments
unescape_all [] = refl
unescape_all (s ∷ segments) = rw (unescape-escape, unescape_all segments)

parse_slash : (s : String) → parse_json_pointer ("/" <> s) ≡ map unescape (split s)
unfolding parse_json_pointer
parse_slash s = rw (one_cons, parse_json_pointer)

-- The pointer of a list of segments, read back by the rules of RFC 6901 (split at the slashes, `~1` for a
-- slash, `~0` for a tilde), gives the texts of the segments, whatever slashes and tildes they hold.
pub parse_json_pointer-format_json_pointer :
    (segments : List Segment)
    → parse_json_pointer (format_json_pointer segments) ≡ map segment_text segments
unfolding format_json_pointer parse_json_pointer
parse_json_pointer-format_json_pointer [] = refl
parse_json_pointer-format_json_pointer (s ∷ segments) =
    parse_slash (join "/" (escaped (s ∷ segments)))
    ∙ ap (map unescape) (split-join s segments)
    ∙ unescape_all (s ∷ segments)
