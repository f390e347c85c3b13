-- ===== src/Core/Structure.antt =====
-- src/suites/core/vc-structure-check.ts and vp-structure-check.ts
mod Violations
pub mod Conformance
use verifier_core.Shared.{
  ℕ, String, Bool, true, false, not, ◌&&◌, ◌||◌, Option, none, some, List, [], ◌∷◌, ◌++◌, flat_map,
  length, nat_eq, ◌<>◌,
}
use verifier_core.Json.{
  Json, Fields, end, field, null, arr, obj, items, lookup_field, is_plain_object,
}
use verifier_core.Types.{TextTests, VerificationSubject, CheckOutcome}
use verifier_core.VcContexts.{
  VcVersion, v1, v2, vc_version_of, vc_context_v1, vc_context_v2, includes_vc_context,
}
use verifier_core.Core.Pointer.{Segment, name, display_path}
use verifier_core.Core.Rules.{
  Violation, report_if, missing_subject_failure, run_structure_rules, is_url, is_date_time,
  check_first_context_entry, check_type_includes, as_entries, check_typed_entry,
  check_url_or_id_object,
}

pub data IdRule : Type 0 where
  optional required : IdRule

-- `TYPED_PROPERTIES`
abbrev typed_properties : List (String × Option IdRule)
typed_properties =
    ("credentialStatus", some optional)
    ∷ ("proof", none)
    ∷ ("termsOfUse", none)
    ∷ ("evidence", some optional)
    ∷ ("credentialSchema", some required)
    ∷ []

module _ (tests : TextTests) where
  -- The `id` of an entry: absent, or a URL.
  unfoldable pub check_optional_url : Option Json → List Segment → String → List Violation
  check_optional_url none pointer detail = []
  check_optional_url id pointer detail = report_if (not (is_url tests id)) pointer detail

  -- One round of the loop over the subjects.
  unfoldable pub check_subject_entry : Json × List Segment → List Violation
  unfolding check_optional_url
  check_subject_entry (obj (field k v fs), pointer) =
      check_optional_url (lookup_field "id" (field k v fs)) (pointer ++ name "id" ∷ [])
        ("\"" <> display_path pointer <> ".id\" must be a URL.")
  check_subject_entry (entry, pointer) =
      report_if true pointer ("\"" <> display_path pointer <> "\" must be a non-empty object.")

  -- The loop over the subjects, of which there must be one.
  unfoldable pub check_subjects : List (Json × List Segment) → List Violation
  unfolding check_subject_entry
  check_subjects [] =
      report_if true (name "credentialSubject" ∷ [])
        "\"credentialSubject\" must have at least one entry."
  check_subjects (e ∷ es) = flat_map check_subject_entry (e ∷ es)

  -- `checkCredentialSubject`
  unfoldable pub check_credential_subject : Option Json → List Violation
  unfolding check_subjects
  check_credential_subject none =
      report_if true (name "credentialSubject" ∷ []) "\"credentialSubject\" is required."
  check_credential_subject (some null) =
      report_if true (name "credentialSubject" ∷ []) "\"credentialSubject\" is required."
  check_credential_subject (some value) =
      check_subjects (as_entries value (name "credentialSubject" ∷ []))

  unfoldable pub check_issuer : Option Json → List Violation
  check_issuer none = report_if true (name "issuer" ∷ []) "\"issuer\" is required."
  check_issuer (some issuer) = check_url_or_id_object tests issuer (name "issuer" ∷ [])

  -- `checkDateTime`
  unfoldable pub check_date_time : Fields → String → List Violation
  check_date_time fields prop = elim (lookup_field prop fields) [
    | none ↦ []
    | some value ↦
        report_if (not (is_date_time tests value)) (name prop ∷ [])
          ("\"" <> prop <> "\" must be a valid dateTime.")
  ]

  unfoldable pub check_dates_of : Option VcVersion → Fields → List Violation
  unfolding check_date_time
  check_dates_of none fields = []
  check_dates_of (some v1) fields =
      (elim (lookup_field "issuanceDate" fields) [
        | none ↦ report_if true (name "issuanceDate" ∷ []) "\"issuanceDate\" is required."
        | some date ↦ []
      ])
      ++ (check_date_time fields "issuanceDate" ++ check_date_time fields "expirationDate")
  check_dates_of (some v2) fields =
      check_date_time fields "validFrom" ++ check_date_time fields "validUntil"

  -- `checkDates`
  unfoldable pub check_dates : Fields → List Violation
  unfolding check_dates_of
  check_dates fields = check_dates_of (vc_version_of (lookup_field "@context" fields)) fields

  -- `checkEntryId`
  unfoldable pub check_entry_id : Fields → List Segment → IdRule → List Violation
  unfolding check_optional_url
  check_entry_id fields pointer rule = elim (lookup_field "id" fields) [
    | none ↦ elim rule [
      | optional ↦ []
      | required ↦
          report_if true (pointer ++ name "id" ∷ [])
            ("\"" <> display_path pointer <> "\" must have a URL \"id\".")
    ]
    | some id ↦
        report_if (not (is_url tests (some id))) (pointer ++ name "id" ∷ [])
          ("\"" <> display_path pointer <> ".id\" must be a URL.")
  ]

  -- One round of the inner loop of `checkTypedProperties`.
  unfoldable pub check_typed_property_entry : Option IdRule → Json × List Segment → List Violation
  unfolding check_entry_id
  check_typed_property_entry (some rule) (obj fields, pointer) =
      check_typed_entry (obj fields) pointer ++ check_entry_id fields pointer rule
  check_typed_property_entry rule (entry, pointer) = check_typed_entry entry pointer

  unfoldable pub check_property_value : String → Option IdRule → Option Json → List Violation
  unfolding check_typed_property_entry
  check_property_value prop rule none = []
  check_property_value prop rule (some value) =
      flat_map (check_typed_property_entry rule) (as_entries value (name prop ∷ []))

  unfoldable pub check_typed_property : Fields → String × Option IdRule → List Violation
  unfolding check_property_value
  check_typed_property fields (prop, rule) =
      check_property_value prop rule (lookup_field prop fields)

  -- `checkTypedProperties`
  unfoldable pub check_typed_properties : Fields → List Violation
  unfolding check_typed_property
  check_typed_properties fields = flat_map (check_typed_property fields) typed_properties

  -- The violations of a credential, in the order of the rules.
  unfoldable pub vc_violations : Fields → List Violation
  unfolding check_issuer
  vc_violations fields =
      check_first_context_entry (lookup_field "@context" fields)
      ++ (check_type_includes (lookup_field "type" fields) "VerifiableCredential"
          ++ (check_credential_subject (lookup_field "credentialSubject" fields)
              ++ (check_issuer (lookup_field "issuer" fields)
                  ++ (check_dates fields ++ check_typed_properties fields))))

  unfoldable pub judge_credential : Option Json → CheckOutcome
  judge_credential (some (obj fields)) =
      run_structure_rules "Invalid Credential Structure"
        "Credential structure conforms to the VC Data Model." (vc_violations fields)
  judge_credential _ =
      missing_subject_failure "Invalid Credential Structure"
        "No verifiable credential found in subject."

  -- `vcStructureCheck`
  unfoldable pub vc_structure_check : VerificationSubject → CheckOutcome
  unfolding judge_credential
  vc_structure_check subject = judge_credential subject.verifiable_credential

  pub check_holder : Option Json → List Violation
  check_holder none = []
  check_holder (some holder) = check_url_or_id_object tests holder (name "holder" ∷ [])

  pub check_proofs : Option Json → List Violation
  check_proofs none = []
  check_proofs (some proof) =
      flat_map (λ (e : Json × List Segment). check_typed_entry e.0 e.1)
        (as_entries proof (name "proof" ∷ []))

  abbrev check_embedded_entry : Json × List Segment → List Violation
  check_embedded_entry e =
      report_if (not (is_plain_object e.0)) e.1
        ("\"" <> display_path e.1 <> "\" must be an object.")

  pub check_embedded : Option Json → List Violation
  check_embedded none = []
  check_embedded (some credentials) =
      flat_map check_embedded_entry (as_entries credentials (name "verifiableCredential" ∷ []))

  -- The violations of a presentation, in the order of the rules.
  pub vp_violations : Fields → List Violation
  unfolding check_optional_url check_holder check_proofs check_embedded
  vp_violations fields =
      report_if (not (includes_vc_context (lookup_field "@context" fields))) (name "@context" ∷ [])
        ("\"@context\" must include \"" <> vc_context_v1 <> "\" or \"" <> vc_context_v2 <> "\".")
      ++ (check_first_context_entry (lookup_field "@context" fields)
          ++ (check_type_includes (lookup_field "type" fields) "VerifiablePresentation"
              ++ (check_optional_url (lookup_field "id" fields) (name "id" ∷ [])
                    "\"id\" must be a URL."
                  ++ (check_holder (lookup_field "holder" fields)
                      ++ (check_proofs (lookup_field "proof" fields)
                          ++ check_embedded (lookup_field "verifiableCredential" fields))))))

  pub judge_presentation : Option Json → CheckOutcome
  judge_presentation (some (obj fields)) =
      run_structure_rules "Invalid Presentation Structure"
        "Presentation structure conforms to the VC Data Model." (vp_violations fields)
  judge_presentation _ =
      missing_subject_failure "Invalid Presentation Structure"
        "No verifiable presentation found in subject."

  -- `vpStructureCheck`
  pub vp_structure_check : VerificationSubject → CheckOutcome
  unfolding judge_presentation
  vp_structure_check subject = judge_presentation subject.verifiable_presentation
