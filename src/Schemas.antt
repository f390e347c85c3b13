-- ===== src/Schemas.antt =====
-- src/schemas: the envelope gate, as the Zod schemas there describe it. A schema accepts or gives
-- the message that it carries; an object schema parses its keys in order and keeps every message.
use verifier_core.Shared.{
  String, Bool, true, false, ◌&&◌, ◌||◌, Option, none, some, List, [], ◌∷◌, ◌++◌, ◌==◌,
  if◌then◌else◌, any, all, is_some,
}
use verifier_core.Json.{
  Json, str, arr, obj, items, lookup_field, property, as_string, is_plain_object, string_values,
}

-- The result of `safeParse`: the issues' messages on failure.
pub data SafeParse : Type 0 where
  success : SafeParse
  errors : List String → SafeParse

abbrev is_string : Json → Bool
is_string (str s) = true
is_string _ = false

is_context_entry : Json → Bool
is_context_entry v = is_string v || is_plain_object v

-- `ContextSchema`
accepts_context : Option Json → Bool
unfolding is_context_entry
accepts_context none = false
accepts_context (some (arr vs)) = all is_context_entry (items vs)
accepts_context (some v) = is_context_entry v

-- `TypeSchema`
accepts_type : Option Json → Bool
accepts_type (some (str s)) = true
accepts_type (some (arr vs)) = all is_string (items vs)
accepts_type _ = false

-- `IssuerSchema` and `HolderSchema`: a string, or an object with a string `id`
accepts_party : Option Json → Bool
accepts_party (some (str s)) = true
accepts_party (some (obj fs)) = is_some (as_string (lookup_field "id" fs))
accepts_party _ = false

-- the schema of `credentialSubject`
accepts_subject : Option Json → Bool
accepts_subject (some (obj fs)) = true
accepts_subject (some (arr vs)) = all is_plain_object (items vs)
accepts_subject _ = false

-- `HolderSchema.optional()`
accepts_holder : Option Json → Bool
unfolding accepts_party
accepts_holder none = true
accepts_holder holder = accepts_party holder

abbrev message_unless : Bool → String → List String
message_unless true message = []
message_unless false message = message ∷ []

abbrev safe_parse : List String → SafeParse
safe_parse [] = success
safe_parse (m ∷ ms) = errors (m ∷ ms)

abbrev context_message : String
context_message =
    "\"@context\" is required and must be a string, a context object, or an array of them."

abbrev type_message : String
type_message = "\"type\" is required and must be a string or an array of strings."

-- `CredentialSchema.safeParse`
credential_schema : Json → SafeParse
unfolding accepts_context accepts_type accepts_party accepts_subject
credential_schema (obj fs) = safe_parse (
    message_unless (accepts_context (lookup_field "@context" fs)) context_message
    ++ (message_unless (accepts_type (lookup_field "type" fs)) type_message
        ++ (message_unless (accepts_party (lookup_field "issuer" fs))
              "\"issuer\" is required and must be a string or an object with a string \"id\"."
            ++ message_unless (accepts_subject (lookup_field "credentialSubject" fs))
                "\"credentialSubject\" is required and must be an object or an array of objects.")))
credential_schema _ = errors ("The credential must be a JSON object." ∷ [])

-- `PresentationSchema.safeParse`
presentation_schema : Json → SafeParse
unfolding accepts_context accepts_type accepts_holder
presentation_schema (obj fs) = safe_parse (
    message_unless (accepts_context (lookup_field "@context" fs)) context_message
    ++ (message_unless (accepts_type (lookup_field "type" fs)) type_message
        ++ message_unless (accepts_holder (lookup_field "holder" fs))
            "\"holder\" must be a string or an object with a string \"id\"."))
presentation_schema _ = errors ("The presentation must be a JSON object." ∷ [])

reject_enveloped : Json → String → String → Option SafeParse
reject_enveloped input enveloped_type message =
    if is_plain_object input
      && any (λ t. t == enveloped_type) (string_values (property "type" input))
    then some (errors (message ∷ []))
    else none

-- `a ?? b`
abbrev or_parse : Option SafeParse → SafeParse → SafeParse
or_parse none parsed = parsed
or_parse (some rejected) parsed = rejected

unfoldable pub parse_credential : Json → SafeParse
unfolding credential_schema reject_enveloped
parse_credential input =
    or_parse
      (reject_enveloped input "EnvelopedVerifiableCredential"
        "Enveloped credentials (VC-JOSE-COSE) are not supported by this verifier.")
      (credential_schema input)

unfoldable pub parse_presentation : Json → SafeParse
unfolding presentation_schema reject_enveloped
parse_presentation input =
    or_parse
      (reject_enveloped input "EnvelopedVerifiablePresentation"
        "Enveloped presentations (VC-JOSE-COSE) are not supported by this verifier.")
      (presentation_schema input)
