-- ===== src/Core/Structure/Violations.antt =====
-- src/suites/core/vc-structure-check.ts and vp-structure-check.ts: when the rules report nothing.
use verifier_core.Shared.{
  ℕ, ◌+◌, String, Bool, true, false, not, ◌&&◌, Option, none, some, List, [], ◌∷◌, ◌++◌, ◌≡◌, refl,
  arith, flat_map, all,
}
use verifier_core.Json.{
  Json, Fields, end, field, null, bool, num, arr, obj, str, nil, cons, items, lookup_field,
  is_plain_object,
}
use verifier_core.Types.{TextTests}
use verifier_core.VcContexts.{VcVersion, v1, v2}
use verifier_core.Core.Pointer.{Segment, name}
use verifier_core.Core.Rules.{
  Violation, report_if, check_first_context_entry, check_type_includes, as_entries, entries_from,
  check_typed_entry, check_url_or_id_object,
}
use verifier_core.Core.Conforms.{
  entry_rules, is_nil, values_of, first_context_fits, has_type, type_fits, optional_fits,
  optional_url, url_or_id, subject_entry_fits, subjects_fit, issuer_fits, date_fits, dates_fit,
  id_fits, entry_fits, property_fits, credential_conforms, presentation_conforms,
}
use verifier_core.Core.Structure.{
  IdRule, optional, required, check_optional_url, check_subject_entry, check_credential_subject,
  check_issuer, check_date_time, check_dates_of, check_dates, check_entry_id,
  check_typed_property_entry, check_property_value, check_typed_property, check_typed_properties,
  vc_violations, check_holder, check_proofs, check_embedded, vp_violations,
}

is_nil-append {ℓ} : {A : Type ℓ} (xs ys : List A) → is_nil (xs ++ ys) ≡ (is_nil xs && is_nil ys)
is_nil-append [] ys = refl
is_nil-append (x ∷ xs) ys = refl

is_nil-report_if : (b : Bool) (p : List Segment) (d : String) → is_nil (report_if b p d) ≡ not b
is_nil-report_if true p d = refl
is_nil-report_if false p d = refl

double_negation : (b : Bool) → not (not b) ≡ b
double_negation true = refl
double_negation false = refl

-- A rule that is applied to each entry reports nothing if each value fits.
is_nil-entries_from :
    (f : Json × List Segment → List Violation) (fits : Json → Bool)
    → ((v : Json) (p : List Segment) → is_nil (f (v, p)) ≡ fits v)
    → (i : ℕ) (pointer : List Segment) (vs : List Json)
    → is_nil (flat_map f (entries_from i pointer vs)) ≡ all fits vs
unfolding entries_from
is_nil-entries_from f fits h i pointer [] = refl
is_nil-entries_from f fits h i pointer (v ∷ vs) =
    rw (is_nil-append, h v _, is_nil-entries_from f fits h (i + 1) pointer vs)

is_nil-as_entries :
    (f : Json × List Segment → List Violation) (fits : Json → Bool)
    → ((v : Json) (p : List Segment) → is_nil (f (v, p)) ≡ fits v)
    → (value : Json) (pointer : List Segment)
    → is_nil (flat_map f (as_entries value pointer)) ≡ all fits (values_of value)
unfolding as_entries
is_nil-as_entries f fits h (arr vs) pointer = is_nil-entries_from f fits h 0 pointer (items vs)
is_nil-as_entries f fits h null pointer = rw (is_nil-append, h null pointer)
is_nil-as_entries f fits h (bool b) pointer = rw (is_nil-append, h (bool b) pointer)
is_nil-as_entries f fits h (num n) pointer = rw (is_nil-append, h (num n) pointer)
is_nil-as_entries f fits h (str s) pointer = rw (is_nil-append, h (str s) pointer)
is_nil-as_entries f fits h (obj fs) pointer = rw (is_nil-append, h (obj fs) pointer)

is_nil-check_first_context_entry :
    (context : Option Json)
    → is_nil (check_first_context_entry context) ≡ first_context_fits context
unfolding check_first_context_entry
is_nil-check_first_context_entry context = ground arith

is_nil-check_type_includes :
    (type : Option Json) (wanted : String)
    → is_nil (check_type_includes type wanted) ≡ type_fits wanted type
unfolding check_type_includes
is_nil-check_type_includes none wanted = refl
is_nil-check_type_includes (some type) wanted = ground arith

is_nil-check_typed_entry :
    (v : Json) (p : List Segment) → is_nil (check_typed_entry v p) ≡ has_type v
unfolding check_typed_entry
is_nil-check_typed_entry (obj fields) p = ground arith
is_nil-check_typed_entry null p = refl
is_nil-check_typed_entry (bool b) p = refl
is_nil-check_typed_entry (num n) p = refl
is_nil-check_typed_entry (str s) p = refl
is_nil-check_typed_entry (arr vs) p = refl

module _ (tests : TextTests) where
  is_nil-check_url_or_id_object :
      (v : Json) (p : List Segment) → is_nil (check_url_or_id_object tests v p) ≡ url_or_id tests v
  unfolding check_url_or_id_object
  is_nil-check_url_or_id_object (str s) p = ground arith
  is_nil-check_url_or_id_object (obj fields) p = ground arith
  is_nil-check_url_or_id_object null p = refl
  is_nil-check_url_or_id_object (bool b) p = refl
  is_nil-check_url_or_id_object (num n) p = refl
  is_nil-check_url_or_id_object (arr vs) p = refl

  is_nil-check_optional_url :
      (id : Option Json) (p : List Segment) (d : String)
      → is_nil (check_optional_url tests id p d) ≡ optional_url tests id
  unfolding check_optional_url
  is_nil-check_optional_url none p d = refl
  is_nil-check_optional_url (some id) p d = ground arith

  is_nil-check_subject_entry :
      (v : Json) (p : List Segment)
      → is_nil (check_subject_entry tests (v, p)) ≡ subject_entry_fits tests v
  unfolding check_subject_entry
  is_nil-check_subject_entry (obj end) p = refl
  is_nil-check_subject_entry (obj (field k v fs)) p = is_nil-check_optional_url _ _ _
  is_nil-check_subject_entry null p = refl
  is_nil-check_subject_entry (bool b) p = refl
  is_nil-check_subject_entry (num n) p = refl
  is_nil-check_subject_entry (str s) p = refl
  is_nil-check_subject_entry (arr vs) p = refl

  is_nil-check_issuer :
      (issuer : Option Json) → is_nil (check_issuer tests issuer) ≡ issuer_fits tests issuer
  unfolding check_issuer
  is_nil-check_issuer none = refl
  is_nil-check_issuer (some issuer) = is_nil-check_url_or_id_object issuer _

  is_nil-check_date_time :
      (fields : Fields) (prop : String)
      → is_nil (check_date_time tests fields prop) ≡ date_fits tests (lookup_field prop fields)
  unfolding check_date_time
  is_nil-check_date_time fields prop = ground arith

  is_nil-check_dates_of :
      (version : Option VcVersion) (fields : Fields)
      → is_nil (check_dates_of tests version fields) ≡ dates_fit tests version fields
  unfolding check_dates_of
  is_nil-check_dates_of none fields = refl
  is_nil-check_dates_of (some v1) fields =
      rw (is_nil-append, is_nil-append, is_nil-check_date_time, is_nil-check_date_time)
        (ground arith)
  is_nil-check_dates_of (some v2) fields =
      rw (is_nil-append, is_nil-check_date_time, is_nil-check_date_time)

  is_nil-check_entry_id :
      (fields : Fields) (p : List Segment) (rule : IdRule)
      → is_nil (check_entry_id tests fields p rule) ≡ id_fits tests rule (lookup_field "id" fields)
  unfolding check_entry_id
  is_nil-check_entry_id fields p optional = ground arith
  is_nil-check_entry_id fields p required = ground arith

  is_nil-check_typed_property_entry :
      (rule : Option IdRule) (v : Json) (p : List Segment)
      → is_nil (check_typed_property_entry tests rule (v, p)) ≡ entry_fits tests rule v
  unfolding check_typed_property_entry
  is_nil-check_typed_property_entry (some rule) (obj fields) p =
      rw (
        is_nil-append,
        is_nil-check_typed_entry (obj fields) p,
        is_nil-check_entry_id fields p rule,
      )
  is_nil-check_typed_property_entry (some rule) null p = is_nil-check_typed_entry _ p
  is_nil-check_typed_property_entry (some rule) (bool b) p = is_nil-check_typed_entry _ p
  is_nil-check_typed_property_entry (some rule) (num n) p = is_nil-check_typed_entry _ p
  is_nil-check_typed_property_entry (some rule) (str s) p = is_nil-check_typed_entry _ p
  is_nil-check_typed_property_entry (some rule) (arr vs) p = is_nil-check_typed_entry _ p
  is_nil-check_typed_property_entry none v p = is_nil-check_typed_entry v p

  is_nil-check_property_value :
      (prop : String) (rule : Option IdRule) (value : Option Json)
      → is_nil (check_property_value tests prop rule value)
        ≡ optional_fits (λ v. all (entry_fits tests rule) (values_of v)) value
  unfolding check_property_value
  is_nil-check_property_value prop rule none = refl
  is_nil-check_property_value prop rule (some value) =
      is_nil-as_entries _ (entry_fits tests rule) (is_nil-check_typed_property_entry rule) value _

  is_nil-check_properties :
      (fields : Fields) (props : List (String × Option IdRule))
      → is_nil (flat_map (check_typed_property tests fields) props)
        ≡ all (property_fits tests fields) props
  unfolding check_typed_property
  is_nil-check_properties fields [] = refl
  is_nil-check_properties fields ((prop, rule) ∷ props) = rw (
    is_nil-append,
    is_nil-check_property_value prop rule (lookup_field prop fields),
    is_nil-check_properties fields props,
  )

  is_nil-check_typed_properties :
      (fields : Fields)
      → is_nil (check_typed_properties tests fields) ≡ all (property_fits tests fields) entry_rules
  unfolding check_typed_properties
  is_nil-check_typed_properties fields = is_nil-check_properties fields entry_rules

  is_nil-check_subject_entries :
      (value : Json) (pointer : List Segment)
      → is_nil (flat_map (check_subject_entry tests) (as_entries value pointer))
        ≡ all (subject_entry_fits tests) (values_of value)
  is_nil-check_subject_entries =
      is_nil-as_entries (check_subject_entry tests) (subject_entry_fits tests)
        is_nil-check_subject_entry

  is_nil-check_credential_subject :
      (value : Option Json)
      → is_nil (check_credential_subject tests value) ≡ subjects_fit tests value
  unfolding check_credential_subject as_entries entries_from
  is_nil-check_credential_subject none = refl
  is_nil-check_credential_subject (some null) = refl
  is_nil-check_credential_subject (some (bool b)) = refl
  is_nil-check_credential_subject (some (num n)) = refl
  is_nil-check_credential_subject (some (str s)) = refl
  is_nil-check_credential_subject (some (arr nil)) = refl
  is_nil-check_credential_subject (some (arr (cons v vs))) =
      is_nil-check_subject_entries (arr (cons v vs)) (name "credentialSubject" ∷ [])
  is_nil-check_credential_subject (some (obj fs)) =
      is_nil-check_subject_entries (obj fs) (name "credentialSubject" ∷ [])

  pub is_nil-vc_violations :
      (fields : Fields) → is_nil (vc_violations tests fields) ≡ credential_conforms tests fields
  unfolding vc_violations check_dates
  is_nil-vc_violations fields = simp (
    is_nil-append, is_nil-check_first_context_entry, is_nil-check_type_includes,
    is_nil-check_credential_subject, is_nil-check_issuer, is_nil-check_dates_of,
    is_nil-check_typed_properties,
  )

  is_nil-check_holder :
      (holder : Option Json)
      → is_nil (check_holder tests holder) ≡ optional_fits (url_or_id tests) holder
  unfolding check_holder
  is_nil-check_holder none = refl
  is_nil-check_holder (some holder) = is_nil-check_url_or_id_object holder _

  is_nil-check_proofs :
      (proof : Option Json)
      → is_nil (check_proofs tests proof) ≡ optional_fits (λ v. all has_type (values_of v)) proof
  unfolding check_proofs
  is_nil-check_proofs none = refl
  is_nil-check_proofs (some proof) =
      is_nil-as_entries _ has_type (λ v p. is_nil-check_typed_entry v p) proof _

  is_nil-check_embedded :
      (credentials : Option Json)
      → is_nil (check_embedded tests credentials)
        ≡ optional_fits (λ v. all is_plain_object (values_of v)) credentials
  unfolding check_embedded
  is_nil-check_embedded none = refl
  is_nil-check_embedded (some credentials) =
      is_nil-as_entries _ is_plain_object (λ v p. ground arith) credentials _

  pub is_nil-vp_violations :
      (fields : Fields) → is_nil (vp_violations tests fields) ≡ presentation_conforms tests fields
  unfolding vp_violations
  is_nil-vp_violations fields = simp (
    is_nil-append, is_nil-report_if, double_negation, is_nil-check_first_context_entry,
    is_nil-check_type_includes, is_nil-check_optional_url, is_nil-check_holder, is_nil-check_proofs,
    is_nil-check_embedded,
  )
