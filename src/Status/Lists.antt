-- ===== src/Status/Lists.antt =====
-- src/suites/status/status-lists.ts
use verifier_core.Shared.{
  String, not, Option, none, some, List, [], ◌∷◌, ◌≡◌, ◌==◌, filter, is_nonempty, if◌then◌else◌,
  or_else,
}
use verifier_core.Shared.Dict.{insert}
use verifier_core.Json.{Json, Fields, obj, str, lookup_field, property, is_truthy, string_values}
use verifier_core.Core.Pointer.{Segment, name}
use verifier_core.Core.Rules.{as_entries, includes}

abbrev pub bitstring_entry_type : String
bitstring_entry_type = "BitstringStatusListEntry"

abbrev pub checked_status_purposes : List String
checked_status_purposes = "revocation" ∷ "suspension" ∷ []

-- `credentialStatusEntries`
pub credential_status_entries : Json → List (Json × List Segment)
unfolding as_entries
credential_status_entries credential =
    let status = property "credentialStatus" credential in
    if not (is_truthy status)
    then []
    else as_entries (or_else status Json.null) (name "credentialStatus" ∷ [])

pub data StatusEntryClass : Type 0 where
  checked : (entry : Fields) → StatusEntryClass
  other_type : (type : String) → StatusEntryClass
  other_purpose : (purpose : String) → StatusEntryClass
  malformed : (field : Option String) (detail : String) → StatusEntryClass

classify_purpose : Fields → Option Json → StatusEntryClass
classify_purpose entry (some (str purpose)) =
    if not (includes checked_status_purposes purpose) then other_purpose purpose else checked entry
classify_purpose entry _ =
    malformed (some "statusPurpose") "A BitstringStatusListEntry must have a string statusPurpose."

classify_types : Fields → List String → StatusEntryClass
unfolding classify_purpose
classify_types entry [] =
    malformed (some "type") "A credentialStatus entry must have a string type."
classify_types entry (type ∷ types) =
    if not (includes (type ∷ types) bitstring_entry_type)
    then other_type type
    else classify_purpose entry (lookup_field "statusPurpose" entry)

-- `classifyStatusEntry`
pub classify_status_entry : Json → StatusEntryClass
unfolding classify_types
classify_status_entry (obj entry) = classify_types entry (string_values (lookup_field "type" entry))
classify_status_entry _ = malformed none "A credentialStatus entry must be an object."

-- `[...new Set(values)]`: the distinct values in first-seen order
unfoldable pub distinct : List String → List String
distinct [] = []
distinct (x ∷ xs) = x ∷ filter (λ y. not (y == x)) (distinct xs)

list_url : StatusEntryClass → Option Json
list_url (checked entry) = lookup_field "statusListCredential" entry
list_url _ = none

urls_of : List (Json × List Segment) → List String
unfolding list_url
urls_of [] = []
urls_of ((entry, pointer) ∷ entries) =
    let rest = urls_of entries in
    elim (list_url (classify_status_entry entry)) [
      | some (str url) ↦ if is_nonempty url then url ∷ rest else rest
      | _ ↦ rest
    ]

-- `checkedStatusListUrls`
pub checked_status_list_urls : Json → List String
unfolding urls_of distinct
checked_status_list_urls credential = distinct (urls_of (credential_status_entries credential))

-- Status list credentials by URL.
abbrev pub ListsByUrl : Type 0
ListsByUrl = List (String × Json)

-- The entry of the `verifiedLists` map for the context of the run, where the world keeps it.
pub record StatusStore (W : Type 0) : Type 0 where
  pub lists : W → Option ListsByUrl
  pub put : Option ListsByUrl → W → W
  pub lists-put : (entry : Option ListsByUrl) (w : W) → lists (put entry w) ≡ entry

module _ {W : Type 0} (store : StatusStore W) where
  pub begin_status_list_run : W → W
  begin_status_list_run w = store.put (some []) w

  record_list : Option ListsByUrl → String → Json → W → W
  record_list none url list w = w
  record_list (some by_url) url list w = store.put (some (insert url list by_url)) w

  pub record_verified_status_list : String → Json → W → W
  unfolding record_list
  record_verified_status_list url list w = record_list (store.lists w) url list w

  pub record_verified_status_list-lists :
      (before : ListsByUrl) (url : String) (list : Json) (w : W)
      → store.lists w ≡ some before
      → store.lists (record_verified_status_list url list w) ≡ some (insert url list before)
  unfolding record_verified_status_list record_list
  record_verified_status_list-lists before url list w h = rw (h, store.lists-put)

  unfoldable pub take_verified_status_lists : W → ListsByUrl × W
  take_verified_status_lists w = (or_else (store.lists w) [], store.put none w)
