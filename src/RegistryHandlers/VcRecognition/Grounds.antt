-- ===== src/RegistryHandlers/VcRecognition/Grounds.antt =====
-- src/services/registry-handlers/vc-recognition-handler.ts: what an entry, an accepted issuer, a loaded response and a cached credential are.
use verifier_core.Shared.{
  String, Bool, true, false, Option, none, some, List, [], ◌∷◌, find?, Bool-cases, eq_iff, ◌==◌,
  ◌≤◌, ◌<◌, ◌≡◌, refl, sym, ap, ◌∙◌, ◌⊎◌, inl, inr,
}
use mathlib.Core.List.{Memᴰ}
use verifier_core.Json.{Json, Items, null, bool, num, arr, obj, str, items, property, lookup_field}
use verifier_core.Types.{Attempt, done, thrown, HttpGetResult, RegistryEntity}
use verifier_core.Registry.{found}
use verifier_core.Core.Rules.{includes}
use verifier_core.Registry.IssuerCheck.{credential_issuer_id}
use verifier_core.RegistryHandlers.Answer.{is_refused-succeeded, caught, is_refused}
use verifier_core.RegistryHandlers.VcRecognition.{
  load, as_object, is_entry_of, subject_entries, find_subject_entry, judge_entry, judge_credential,
}

-- An entry of the credential's `credentialSubject`, an object or a list of them, has the DID as its `id`.
pub record IsListed (did : String) (credential : Json) : Type 0 where
  pub entry : Json
  pub stands :
      (property "credentialSubject" credential ≡ some entry)
      ⊎ ((vs : Items) × (property "credentialSubject" credential ≡ some (arr vs))
          × Memᴰ entry (items vs))
  pub id : property "id" entry ≡ some (str did)

is_did-id :
    (did : String) (id : Option Json)
    → elim id [ some (str text) ↦ text == did | _ ↦ false ] ≡ true
    → id ≡ some (str did)
is_did-id did none h = absurd (cc)
is_did-id did (some (str text)) h = ap (λ t. some (str t)) ((eq_iff text did).0 h)
is_did-id did (some null) h = absurd (cc)
is_did-id did (some (bool b)) h = absurd (cc)
is_did-id did (some (num n)) h = absurd (cc)
is_did-id did (some (arr vs)) h = absurd (cc)
is_did-id did (some (obj fields)) h = absurd (cc)

is_entry_of-id :
    (did : String) (entry : Json)
    → is_entry_of did entry ≡ true
    → property "id" entry ≡ some (str did)
is_entry_of-id did (obj fields) h = is_did-id did (lookup_field "id" fields) h
is_entry_of-id did null h = absurd (cc)
is_entry_of-id did (str s) h = absurd (cc)
is_entry_of-id did (bool b) h = absurd (cc)
is_entry_of-id did (num n) h = absurd (cc)
is_entry_of-id did (arr vs) h = absurd (cc)

find?-found :
    {A : Type 0} (p : A → Bool) (xs : List A) (x : A)
    → find? p xs ≡ some x
    → (p x ≡ true) × Memᴰ x xs
find?-found p [] x h = absurd (cc)
find?-found p (y ∷ ys) x h = elim (Bool-cases (p y)) [
  | inl e ↦
      let here : some y ≡ some x = rw e at h in
      let same : y ≡ x = cc in (ap p (sym same) ∙ e, Memᴰ.head (sym same))
  | inr e ↦
      let later : find? p ys ≡ some x = rw e at h in
      let (holds, there) = find?-found p ys x later in (holds, Memᴰ.tail there)
]

Mem-singleton : {A : Type 0} {x y : A} → Memᴰ x (y ∷ []) → y ≡ x
Mem-singleton (Memᴰ.head e) = sym e
Mem-singleton (Memᴰ.tail m) = elim m [ ]

subject_entries-stands :
    (subject : Option Json) (entry : Json)
    → Memᴰ entry (subject_entries subject)
    → (subject ≡ some entry) ⊎ ((vs : Items) × (subject ≡ some (arr vs)) × Memᴰ entry (items vs))
subject_entries-stands none entry m = elim m [ ]
subject_entries-stands (some (arr vs)) entry m = inr (vs, refl, m)
subject_entries-stands (some (obj fields)) entry m = inl (ap some (Mem-singleton m))
subject_entries-stands (some (str s)) entry m = inl (ap some (Mem-singleton m))
subject_entries-stands (some (bool b)) entry m = inl (ap some (Mem-singleton m))
subject_entries-stands (some (num n)) entry m = inl (ap some (Mem-singleton m))
subject_entries-stands (some null) entry m = inl (ap some (Mem-singleton m))

judge_entry-found :
    (entry : Option Json) (entity : Option RegistryEntity)
    → judge_entry entry ≡ found entity
    → (e : Json) × (entry ≡ some e)
unfolding judge_entry
judge_entry-found none entity h = absurd (cc)
judge_entry-found (some e) entity h = (e, refl)

pub judge_credential-IsListed :
    (did : String) (credential : Json) (entity : Option RegistryEntity)
    → judge_credential did credential ≡ found entity
    → IsListed did credential
unfolding judge_credential find_subject_entry
judge_credential-IsListed did credential entity h =
    let entries = subject_entries (property "credentialSubject" credential) in
    let (entry, at_entry) = judge_entry-found (find? (is_entry_of did) entries) entity h in
    let (is_entry, among) = find?-found (is_entry_of did) entries entry at_entry in
    record {
      entry = entry;
      stands = subject_entries-stands (property "credentialSubject" credential) entry among;
      id = is_entry_of-id did entry is_entry;
    }

-- The credential names an issuer that is among the accepted ones.
pub record IsAccepted (accepted_issuers : List String) (credential : Json) : Type 0 where
  pub issuer : String
  pub named : credential_issuer_id credential ≡ some issuer
  pub among : Memᴰ issuer accepted_issuers

includes-Mem : (ss : List String) (s : String) → includes ss s ≡ true → Memᴰ s ss
includes-Mem [] s h = absurd (cc)
includes-Mem (t ∷ ts) s h = elim (Bool-cases (t == s)) [
  | inl e ↦ Memᴰ.head (sym ((eq_iff t s).0 e))
  | inr e ↦ Memᴰ.tail (includes-Mem ts s (rw e at h))
]

pub named-IsAccepted :
    (accepted_issuers : List String) (credential : Json) (issuer : Option String)
    → credential_issuer_id credential ≡ issuer
    → elim issuer [ none ↦ false | some i ↦ includes accepted_issuers i ] ≡ true
    → IsAccepted accepted_issuers credential
named-IsAccepted accepted_issuers credential none e h = absurd (cc)
named-IsAccepted accepted_issuers credential (some issuer) e h = record {
  issuer = issuer;
  named = e;
  among = includes-Mem accepted_issuers issuer h;
}

as_object-same : (body credential : Json) → as_object body ≡ some credential → body ≡ credential
as_object-same (obj fields) credential h = cc
as_object-same null credential h = absurd (cc)
as_object-same (str s) credential h = absurd (cc)
as_object-same (bool b) credential h = absurd (cc)
as_object-same (num n) credential h = absurd (cc)
as_object-same (arr vs) credential h = absurd (cc)

-- A response that was loaded: a success whose body is an object.
pub load-result :
    (fetched : Attempt HttpGetResult) (credential : Json)
    → load (caught fetched) ≡ some credential
    → (result : HttpGetResult) × (fetched ≡ done result)
      × (200 ≤ result.status)
      × (result.status < 300)
      × (result.body ≡ credential)
unfolding load
load-result (thrown error) credential h = absurd (cc)
load-result (done result) credential h = elim (Bool-cases (is_refused result)) [
  | inl e ↦ let none_is : none ≡ some credential = rw e at h in absurd (cc)
  | inr e ↦
      let loaded : as_object result.body ≡ some credential = rw e at h in
      (
        result,
        refl,
        (is_refused-succeeded result e).0,
        (is_refused-succeeded result e).1,
        as_object-same result.body credential loaded,
      )
]
