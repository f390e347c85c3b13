-- ===== src/OpenBadges/Shapes.antt =====
-- src/openbadges/openbadges-zod.ts: what the tolerant shapes read, as far as the checks use it. `none` is a parse
-- that fails; a field that is absent is no failure.
use verifier_core.Shared.{String, Option, none, some, List, [], ◌∷◌}
use verifier_core.Json.{Json, obj, arr, str, items, lookup_field}

abbrev and_then : {A B : Type 0} → Option A → (A → Option B) → Option B
and_then none f = none
and_then (some a) f = f a

-- `z.string().optional()`
abbrev text_shape : Option Json → Option (Option String)
text_shape none = some none
text_shape (some (str s)) = some (some s)
text_shape (some _) = none

each_shape : {A : Type 0} → (Json → Option A) → List Json → Option (List A)
each_shape shape [] = some []
each_shape shape (v ∷ vs) =
    and_then (shape v) (λ a. and_then (each_shape shape vs) (λ rest. some (a ∷ rest)))

-- `z.array(shape).optional()`
array_shape : {A : Type 0} → (Json → Option A) → Option Json → Option (Option (List A))
unfolding each_shape
array_shape shape none = some none
array_shape shape (some (arr vs)) =
    and_then (each_shape shape (items vs)) (λ list. some (some list))
array_shape shape (some _) = none

-- The `id` of a level.
level_shape : Json → Option (Option String)
level_shape (obj fields) = text_shape (lookup_field "id" fields)
level_shape _ = none

pub record ResultDescription : Type 0 where
  pub id : Option String
  pub result_type : Option String
  pub rubric_criterion_level : Option (List (Option String))

pub record Result : Type 0 where
  pub result_description : Option String
  pub achieved_level : Option String
  pub status : Option String

pub record Achievement : Type 0 where
  pub achievement_type : Option Json
  pub result_descriptions : Option (List ResultDescription)

pub record AchievementSubject : Type 0 where
  pub achievement : Option Achievement
  pub result : Option (List Result)

result_description_shape : Json → Option ResultDescription
unfolding array_shape level_shape
result_description_shape (obj fields) = and_then (text_shape (lookup_field "id" fields)) (λ id.
    and_then (text_shape (lookup_field "resultType" fields)) (λ type.
      and_then (array_shape level_shape (lookup_field "rubricCriterionLevel" fields))
        (λ levels. some (record { id = id; result_type = type; rubric_criterion_level = levels }))))
result_description_shape _ = none

result_shape : Json → Option Result
result_shape (obj fields) =
    and_then (text_shape (lookup_field "resultDescription" fields)) (λ description.
      and_then (text_shape (lookup_field "achievedLevel" fields)) (λ level.
        and_then (text_shape (lookup_field "status" fields)) (λ status.
          some (record {
            result_description = description;
            achieved_level = level;
            status = status;
          }))))
result_shape _ = none

achievement_shape : Option Json → Option (Option Achievement)
unfolding result_description_shape
achievement_shape none = some none
achievement_shape (some (obj fields)) =
    and_then (array_shape result_description_shape (lookup_field "resultDescription" fields))
      (λ descriptions. some (
        some (record {
          achievement_type = lookup_field "achievementType" fields;
          result_descriptions = descriptions;
        })))
achievement_shape (some _) = none

-- `Obv3CredentialSubjectShape.safeParse`
pub parse_subject : Option Json → Option AchievementSubject
unfolding achievement_shape result_shape
parse_subject (some (obj fields)) =
    and_then (achievement_shape (lookup_field "achievement" fields)) (λ achievement.
      and_then (array_shape result_shape (lookup_field "result" fields))
        (λ result. some (record { achievement = achievement; result = result })))
parse_subject _ = none
