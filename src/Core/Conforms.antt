-- ===== src/Core/Conforms.antt =====
-- The structural requirements of the data model on credentials and presentations, said without pointers
-- and messages.
use verifier_core.Shared.{
  String, Bool, true, false, not, ◌&&◌, ◌||◌, Option, none, some, List, [], ◌∷◌, length, nat_eq,
  all, is_some,
}
use verifier_core.Json.{
  Json, Fields, field, null, arr, obj, str, items, lookup_field, is_plain_object, string_values,
}
use verifier_core.Types.{TextTests}
use verifier_core.VcContexts.{
  VcVersion, v1, v2, vc_version_of, is_vc_context, first_context_entry, includes_vc_context,
}
use verifier_core.Core.Rules.{is_url, is_date_time, includes}
use verifier_core.Core.Structure.{IdRule, optional, required}

-- The properties whose entries need a `type`: with an `id` that may be there, that must be, or that is not looked at.
abbrev pub entry_rules : List (String × Option IdRule)
entry_rules =
    ("credentialStatus", some optional)
    ∷ ("proof", none)
    ∷ ("termsOfUse", none)
    ∷ ("evidence", some optional)
    ∷ ("credentialSchema", some required)
    ∷ []

abbrev pub is_nil {ℓ} : {A : Type ℓ} → List A → Bool
is_nil [] = true
is_nil (x ∷ xs) = false

-- One value, or the values of an array.
abbrev pub values_of : Json → List Json
values_of (arr vs) = items vs
values_of value = value ∷ []

-- A VC context stands first, if one stands anywhere.
abbrev pub first_context_fits : Option Json → Bool
first_context_fits context =
    not (includes_vc_context context) || is_vc_context (first_context_entry context)

abbrev pub has_type : Json → Bool
has_type (obj fields) = not (nat_eq (length (string_values (lookup_field "type" fields))) 0)
has_type value = false

abbrev pub type_fits : String → Option Json → Bool
type_fits wanted none = false
type_fits wanted (some type) = includes (string_values (some type)) wanted

abbrev pub optional_fits : (Json → Bool) → Option Json → Bool
optional_fits p none = true
optional_fits p (some value) = p value

module _ (tests : TextTests) where
  abbrev pub optional_url : Option Json → Bool
  optional_url none = true
  optional_url id = is_url tests id

  abbrev pub url_or_id : Json → Bool
  url_or_id (str s) = tests.accepts_url s
  url_or_id (obj fields) = is_url tests (lookup_field "id" fields)
  url_or_id value = false

  abbrev pub subject_entry_fits : Json → Bool
  subject_entry_fits (obj (field k v fields)) = optional_url (lookup_field "id" (field k v fields))
  subject_entry_fits value = false

  abbrev pub subjects_fit : Option Json → Bool
  subjects_fit none = false
  subjects_fit (some null) = false
  subjects_fit (some value) =
      not (is_nil (values_of value)) && all subject_entry_fits (values_of value)

  abbrev pub issuer_fits : Option Json → Bool
  issuer_fits none = false
  issuer_fits (some issuer) = url_or_id issuer

  abbrev pub date_fits : Option Json → Bool
  date_fits none = true
  date_fits (some date) = is_date_time tests date

  abbrev pub dates_fit : Option VcVersion → Fields → Bool
  dates_fit none fields = true
  dates_fit (some v1) fields =
      is_some (lookup_field "issuanceDate" fields)
      && (date_fits (lookup_field "issuanceDate" fields)
          && date_fits (lookup_field "expirationDate" fields))
  dates_fit (some v2) fields =
      date_fits (lookup_field "validFrom" fields) && date_fits (lookup_field "validUntil" fields)

  abbrev pub id_fits : IdRule → Option Json → Bool
  id_fits optional id = optional_url id
  id_fits required id = is_url tests id

  abbrev pub entry_fits : Option IdRule → Json → Bool
  entry_fits (some rule) (obj fields) =
      has_type (obj fields) && id_fits rule (lookup_field "id" fields)
  entry_fits rule value = has_type value

  abbrev pub property_fits : Fields → String × Option IdRule → Bool
  property_fits fields (prop, rule) =
      optional_fits (λ v. all (entry_fits rule) (values_of v)) (lookup_field prop fields)

  -- What a credential needs.
  abbrev pub credential_conforms : Fields → Bool
  credential_conforms fields =
      first_context_fits (lookup_field "@context" fields)
      && (type_fits "VerifiableCredential" (lookup_field "type" fields)
          && (subjects_fit (lookup_field "credentialSubject" fields)
              && (issuer_fits (lookup_field "issuer" fields)
                  && (dates_fit (vc_version_of (lookup_field "@context" fields)) fields
                      && all (property_fits fields) entry_rules))))

  -- What a presentation needs.
  abbrev pub presentation_conforms : Fields → Bool
  presentation_conforms fields =
      includes_vc_context (lookup_field "@context" fields)
      && (first_context_fits (lookup_field "@context" fields)
          && (type_fits "VerifiablePresentation" (lookup_field "type" fields)
              && (optional_url (lookup_field "id" fields)
                  && (optional_fits url_or_id (lookup_field "holder" fields)
                      && (optional_fits (λ v. all has_type (values_of v))
                            (lookup_field "proof" fields)
                          && optional_fits (λ v. all is_plain_object (values_of v))
                              (lookup_field "verifiableCredential" fields))))))

-- What an object of a subject must satisfy for a structure check to succeed.
abbrev pub conforming : (Fields → Bool) → Option Json → Bool
conforming conforms (some (obj fields)) = conforms fields
conforming conforms _ = false
