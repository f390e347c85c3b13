-- ===== src/OpenBadges/Described.antt =====
-- src/openbadges: what the descriptions declare, apart from the tables that the checks build.
use verifier_core.Shared.{
  ℕ, ◌+◌, Bool, false, not, ◌&&◌, String, Option, none, some, List, [], ◌∷◌, ◌≡◌, refl, ◌||◌,
  filter, ltb, eq_iff, Bool-cases, inl, inr, ◌∙◌, length, has_some, any, is_some, ◌==◌, is_nonempty,
  or_else, arith, if◌then◌else◌,
}
use mathlib.Core.Path.{ap₂}
use verifier_core.Shared.Dict.{lookup, insert, lookup-insert}
use verifier_core.Core.Rules.{includes}
use verifier_core.Status.Lists.{distinct}
use verifier_core.OpenBadges.Shapes.{ResultDescription, Result}
use verifier_core.OpenBadges.Checks.{
  texts, ids_of, reference_problems, refers_to, status_typed_ids, status_problems, add_levels,
  judge_level, level_problems,
}

pub has_id : String → ResultDescription → Bool
has_id ref d = elim d.id [ none ↦ false | some id ↦ id == ref ]

-- A result names a description that is not declared.
unfoldable pub dangles : List ResultDescription → Result → Bool
unfolding has_id
dangles ds r = elim r.result_description [ none ↦ false | some ref ↦ not (any (has_id ref) ds) ]

is_status : Option String → Bool
is_status none = false
is_status (some type) = type == "Status"

is_status-or_else : (type : Option String) → (or_else type "" == "Status") ≡ is_status type
unfolding is_status
is_status-or_else none = refl
is_status-or_else (some type) = refl

pub is_status_typed : String → ResultDescription → Bool
unfolding has_id is_status
is_status_typed ref d = has_id ref d && is_status d.result_type

pub is_set : Option String → Bool
is_set none = false
is_set (some status) = not (status == "")

-- A result names a description of type `Status`, and its own status is absent or empty.
unfoldable pub lacks_status : List ResultDescription → Result → Bool
unfolding is_status_typed is_set
lacks_status ds r =
    elim r.result_description [ none ↦ false | some ref ↦ any (is_status_typed ref) ds ]
    && not (is_set r.status)

pub is_level : String → Option String → Bool
is_level level none = false
is_level level (some id) = id == level

levels_of : ResultDescription → List (Option String)
levels_of d = or_else d.rubric_criterion_level []

-- The levels of the last description with the id that has a level with an id.
pub last_levels : String → List ResultDescription → List (Option String)
unfolding has_id levels_of
last_levels ref [] = []
last_levels ref (d ∷ ds) =
    let later = last_levels ref ds in
    if any is_some later then later else if has_id ref d then levels_of d else []

-- A result claims a level and names a description, and the last description of that id that has levels does not
-- declare it.
unfoldable pub overclaims : List ResultDescription → Result → Bool
unfolding is_level last_levels
overclaims ds r = elim r.achieved_level [
  | none ↦ false
  | some level ↦ elim r.result_description [
    | none ↦ false
    | some ref ↦ not (any (is_level level) (last_levels ref ds))
  ]
]

includes-texts :
    (ids : List (Option String)) (ref : String) → includes (texts ids) ref ≡ any (is_level ref) ids
unfolding texts is_level
includes-texts [] ref = refl
includes-texts (none ∷ ids) ref = ground (arith, includes-texts ids ref)
includes-texts (some id ∷ ids) ref = ground (arith, includes-texts ids ref)

pub includes-ids_of :
    (ds : List ResultDescription) (ref : String)
    → includes (texts (ids_of ds)) ref ≡ any (has_id ref) ds
unfolding texts ids_of has_id
includes-ids_of [] ref = refl
includes-ids_of (d ∷ ds) ref = ground (arith, includes-ids_of ds ref)

pub includes-status_typed_ids :
    (ds : List ResultDescription) (ref : String)
    → includes (status_typed_ids ds) ref ≡ any (is_status_typed ref) ds
unfolding status_typed_ids is_status_typed has_id is_status
includes-status_typed_ids [] ref = refl
includes-status_typed_ids (d ∷ ds) ref =
    ground (arith, includes-status_typed_ids ds ref, is_status-or_else d.result_type)

is_nonempty-status : (status : Option String) → is_nonempty (or_else status "") ≡ is_set status
unfolding is_set
is_nonempty-status none = refl
is_nonempty-status (some status) = refl

pub any-same :
    {A : Type 0} {p q : A → Bool} (xs : List A) → ((x : A) → p x ≡ q x) → any p xs ≡ any q xs
any-same [] h = refl
any-same (x ∷ xs) h = ap₂ ◌||◌ (h x) (any-same xs h)

-- Two tests of a text that agree, agree where the text may be absent.
pub elim-same :
    (o : Option String) {p q : String → Bool}
    → ((s : String) → p s ≡ q s)
    → elim o [ none ↦ false | some s ↦ p s ] ≡ elim o [ none ↦ false | some s ↦ q s ]
elim-same none h = refl
elim-same (some s) h = h s

pub reference_problems-any :
    (known : List String) (i : ℕ) (rs : List Result)
    → has_some (reference_problems known i rs)
      ≡ any
          (λ r. elim r.result_description [ none ↦ false | some ref ↦ not (includes known ref) ])
          rs
unfolding reference_problems
reference_problems-any known i [] = refl
reference_problems-any known i (r ∷ rs) = ground (arith, reference_problems-any known (i + 1) rs)

pub status_problems-any :
    (ids : List String) (i : ℕ) (rs : List Result)
    → has_some (status_problems ids i rs).0 ≡ any (λ r. refers_to ids r && not (is_set r.status)) rs
unfolding status_problems
status_problems-any ids i [] = refl
status_problems-any ids i (r ∷ rs) =
    ground (arith, status_problems-any ids (i + 1) rs, is_nonempty-status r.status)

pub declares : List (String × List String) → String → String → Bool
declares by_id level ref = elim (lookup ref by_id) [
  | none ↦ false
  | some levels ↦ includes levels level
]

pub level_problems-any :
    (by_id : List (String × List String)) (i : ℕ) (rs : List Result)
    → has_some (level_problems by_id i rs).0
      ≡ any
          (λ r. elim r.achieved_level [
            | none ↦ false
            | some level ↦ elim r.result_description [
              | none ↦ false
              | some ref ↦ not (declares by_id level ref)
            ]
          ])
          rs
unfolding level_problems judge_level declares
level_problems-any by_id i [] = refl
level_problems-any by_id i (r ∷ rs) = ground (arith, level_problems-any by_id (i + 1) rs)

includes-other :
    (ys : List String) (y x : String)
    → (y == x) ≡ false
    → includes (filter (λ z. not (z == y)) ys) x ≡ includes ys x
includes-other [] y x h = refl
includes-other (z ∷ zs) y x h =
    ground (arith, includes-other zs y x h, eq_iff z y, eq_iff z x, eq_iff y x)

includes-distinct : (xs : List String) (x : String) → includes (distinct xs) x ≡ includes xs x
unfolding distinct
includes-distinct [] x = refl
includes-distinct (y ∷ ys) x = elim (Bool-cases (y == x)) [
  | inl same ↦ rw same refl
  | inr other ↦ rw (other, includes-other (distinct ys) y x other) (includes-distinct ys x)
]

has_some-texts :
    (ids : List (Option String)) → ltb 0 (length (distinct (texts ids))) ≡ any is_some ids
unfolding texts distinct
has_some-texts [] = refl
has_some-texts (none ∷ ids) = has_some-texts ids
has_some-texts (some id ∷ ids) = ground arith

-- What the table holds for a description, over what it held before.
held_levels : String → List ResultDescription → Option (List String) → Option (List String)
unfolding last_levels
held_levels ref ds before =
    if any is_some (last_levels ref ds)
    then some (distinct (texts (last_levels ref ds)))
    else before

any-is_level :
    (level : String) (ids : List (Option String))
    → any is_some ids ≡ false
    → any (is_level level) ids ≡ false
unfolding is_level
any-is_level level [] h = refl
any-is_level level (none ∷ ids) h = any-is_level level ids h
any-is_level level (some id ∷ ids) h = absurd (ground arith)

declares-held :
    (level : String) (ids : List (Option String))
    → elim (if any is_some ids then some (distinct (texts ids)) else none) [
      | none ↦ false
      | some levels ↦ includes levels level
    ]
      ≡ any (is_level level) ids
declares-held level ids = elim (Bool-cases (any is_some ids)) [
  | inl e ↦ rw e (includes-distinct (texts ids) level ∙ includes-texts ids level)
  | inr e ↦ rw (e, any-is_level level ids e) refl
]

-- The table after one description.
abbrev entered :
    Option String → List (Option String) → List (String × List String) → List (String × List String)
entered id ids by_id = elim id [
  | none ↦ by_id
  | some key ↦
      if ltb 0 (length (distinct (texts ids)))
      then insert key (distinct (texts ids)) by_id
      else by_id
]

lookup-entered :
    (id : Option String) (ids : List (Option String)) (by_id : List (String × List String))
    (ref : String)
    → lookup ref (entered id ids by_id) ≡ (
        if elim id [ none ↦ false | some key ↦ key == ref ] && any is_some ids
        then some (distinct (texts ids))
        else lookup ref by_id)
lookup-entered none ids by_id ref = refl
lookup-entered (some key) ids by_id ref =
    rw (has_some-texts ids) (elim (Bool-cases (any is_some ids)) [
      | inl e ↦ rw (e, lookup-insert) (ground arith)
      | inr e ↦ rw e (ground arith)
    ])

lookup-add_levels :
    (by_id : List (String × List String)) (ds : List ResultDescription) (ref : String)
    → lookup ref (add_levels by_id ds) ≡ held_levels ref ds (lookup ref by_id)
unfolding add_levels held_levels last_levels has_id levels_of
lookup-add_levels by_id [] ref = refl
lookup-add_levels by_id (d ∷ ds) ref =
    let levels = or_else d.rubric_criterion_level [] in
    lookup-add_levels (entered d.id levels by_id) ds ref
    ∙ rw (lookup-entered d.id levels by_id ref) (ground arith)

pub declares-last_levels :
    (ds : List ResultDescription) (level ref : String)
    → declares (add_levels [] ds) level ref ≡ any (is_level level) (last_levels ref ds)
unfolding declares held_levels lookup
declares-last_levels ds level ref =
    rw (declares, lookup-add_levels [] ds ref) (declares-held level (last_levels ref ds))
