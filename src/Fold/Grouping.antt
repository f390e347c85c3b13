-- ===== src/Fold/Grouping.antt =====
-- src/fold-results.ts: the rows of a suite are grouped, in the order of the report.
use verifier_core.Shared.{
  String, Bool, true, false, ◌||◌, List, [], ◌∷◌, ◌++◌, ◌≡◌, refl, ap, sym, ◌∙◌, arith, ◌==◌,
  eq_iff, eq_refl, Bool-cases, inl, inr, if◌then◌else◌, any, any-append, filter, map,
}
use mathlib.Core.List.{append-nil, append_assoc}
use verifier_core.Types.{CheckResult}
use verifier_core.Fold.{Groups, push_check, group_from, group_checks_by_suite}

-- The rows under a key.
abbrev rows_of : String → Groups → List CheckResult
rows_of k [] = []
rows_of k ((j, cs) ∷ groups) = if j == k then cs else rows_of k groups

abbrev pub of_suite : String → List CheckResult → List CheckResult
of_suite k checks = filter (λ c. c.suite == k) checks

if-append :
    (test : Bool) (c : CheckResult) (xs : List CheckResult)
    → (if test then c ∷ [] else []) ++ xs ≡ (if test then c ∷ xs else xs)
if-append true c xs = refl
if-append false c xs = refl

abbrev pub any_in : (CheckResult → Bool) → Groups → Bool
any_in p groups = any (λ g. any p g.1) groups

rows_of-push_check :
    (k : String) (c : CheckResult) (groups : Groups)
    → rows_of k (push_check c groups) ≡ rows_of k groups ++ (if c.suite == k then c ∷ [] else [])
unfolding push_check
rows_of-push_check k c [] = ground arith
rows_of-push_check k c ((j, cs) ∷ groups) = ground (
  arith,
  rows_of-push_check k c groups,
  append-nil cs,
  append-nil (rows_of k groups),
  eq_iff j c.suite,
  eq_iff j k,
  eq_iff c.suite k,
)

rows_of-group_from :
    (k : String) (groups : Groups) (checks : List CheckResult)
    → rows_of k (group_from groups checks) ≡ rows_of k groups ++ of_suite k checks
unfolding group_from
rows_of-group_from k groups [] = sym (append-nil _)
rows_of-group_from k groups (c ∷ checks) =
    rows_of-group_from k (push_check c groups) checks
    ∙ ap (λ xs. xs ++ of_suite k checks) (rows_of-push_check k c groups)
    ∙ append_assoc (rows_of k groups) _ _
    ∙ ap (λ xs. rows_of k groups ++ xs) (if-append (c.suite == k) c (of_suite k checks))

-- Under each suite id stand the rows of that suite, in the order of the report.
rows_of-group_checks_by_suite :
    (k : String) (checks : List CheckResult)
    → rows_of k (group_checks_by_suite checks) ≡ of_suite k checks
unfolding group_checks_by_suite
rows_of-group_checks_by_suite k checks = rows_of-group_from k [] checks

-- The ids under which there are rows.
abbrev keys : Groups → List String
keys groups = map (λ g. g.0) groups

-- The ids of a report in the order in which they are first seen, after those of `seen`.
abbrev pub new_ids : List String → List CheckResult → List String
new_ids seen [] = []
new_ids seen (c ∷ checks) =
    let old = new_ids seen checks in
    let new = c.suite ∷ new_ids (seen ++ c.suite ∷ []) checks in
    if any (λ k. k == c.suite) seen then old else new

keys-push_check :
    (c : CheckResult) (groups : Groups)
    → keys (push_check c groups)
      ≡ (if any (λ k. k == c.suite) (keys groups) then keys groups else keys groups ++ c.suite ∷ [])
unfolding push_check
keys-push_check c [] = refl
keys-push_check c ((j, cs) ∷ groups) = ground (arith, keys-push_check c groups)

keys-group_from :
    (groups : Groups) (checks : List CheckResult)
    → keys (group_from groups checks) ≡ keys groups ++ new_ids (keys groups) checks
unfolding group_from
keys-group_from groups [] = sym (append-nil _)
keys-group_from groups (c ∷ checks) = elim (Bool-cases (any (λ k. k == c.suite) (keys groups))) [
  | inl old ↦ rw (keys-group_from (push_check c groups) checks, keys-push_check c groups, old)
  | inr new ↦
      rw (keys-group_from (push_check c groups) checks, keys-push_check c groups, new)
        (append_assoc (keys groups) _ _)
]

-- No text occurs twice.
abbrev IsDistinct : List String → Type 0
IsDistinct [] = Unit
IsDistinct (k ∷ ks) = (any (λ j. j == k) ks ≡ false) × IsDistinct ks

IsDistinct-append :
    (ks : List String) (k : String)
    → IsDistinct ks
    → any (λ j. j == k) ks ≡ false
    → IsDistinct (ks ++ k ∷ [])
IsDistinct-append [] k d h = (refl, tt)
IsDistinct-append (j ∷ ks) k (new, d) h = (
  any-append (λ i. i == j) ks (k ∷ []) ∙ ground (arith, eq_iff j k, eq_iff k j),
  IsDistinct-append ks k d (ground arith),
)

IsDistinct-push_check :
    (c : CheckResult) (groups : Groups)
    → IsDistinct (keys groups)
    → IsDistinct (keys (push_check c groups))
IsDistinct-push_check c groups d = elim (Bool-cases (any (λ k. k == c.suite) (keys groups))) [
  | inl old ↦ rw (keys-push_check c groups, old) d
  | inr new ↦ rw (keys-push_check c groups, new) (IsDistinct-append (keys groups) c.suite d new)
]

IsDistinct-group_from :
    (groups : Groups) (checks : List CheckResult)
    → IsDistinct (keys groups)
    → IsDistinct (keys (group_from groups checks))
unfolding group_from
IsDistinct-group_from groups [] d = d
IsDistinct-group_from groups (c ∷ checks) d =
    IsDistinct-group_from (push_check c groups) checks (IsDistinct-push_check c groups d)

-- A table with distinct keys is its keys with what is found under them.
module _ (f : String → List CheckResult) where
  tabulate_keys :
      (groups : Groups)
      → IsDistinct (keys groups)
      → ((k : String) → any (λ j. j == k) (keys groups) ≡ true → f k ≡ rows_of k groups)
      → map (λ k. (k, f k)) (keys groups) ≡ groups
  tabulate_keys [] d h = refl
  tabulate_keys ((j, cs) ∷ groups) (new, d) h =
      let here : f j ≡ cs = ground (arith, h j, eq_refl j) in
      let later = tabulate_keys groups d (λ k m. ground (arith, h k, eq_iff j k)) in
      rw (here, later)

-- Grouping is the table of the report's suite ids, in the order in which they are first seen, each
-- with the rows of that suite in the order of the report.
pub group_checks_by_suite_lem :
    (checks : List CheckResult)
    → group_checks_by_suite checks ≡ map (λ k. (k, of_suite k checks)) (new_ids [] checks)
unfolding group_checks_by_suite
group_checks_by_suite_lem checks = sym (
    rw (← keys-group_from [] checks) (
      tabulate_keys (λ k. of_suite k checks) (group_from [] checks)
        (IsDistinct-group_from [] checks tt) (λ k m. sym (rows_of-group_from k [] checks))))

any_in-push_check :
    (p : CheckResult → Bool) (c : CheckResult) (groups : Groups)
    → any_in p (push_check c groups) ≡ (any_in p groups || p c)
unfolding push_check
any_in-push_check p c [] = ground arith
any_in-push_check p c ((j, cs) ∷ groups) =
    ground (arith, any-append p cs (c ∷ []), any_in-push_check p c groups)

any_in-group_from :
    (p : CheckResult → Bool) (groups : Groups) (checks : List CheckResult)
    → any_in p (group_from groups checks) ≡ (any_in p groups || any p checks)
unfolding group_from
any_in-group_from p groups [] = ground arith
any_in-group_from p groups (c ∷ checks) =
    ground (arith, any_in-group_from p (push_check c groups) checks, any_in-push_check p c groups)

-- Grouping loses no row and adds none, as far as a test can see.
pub any_in-group_checks_by_suite :
    (p : CheckResult → Bool) (checks : List CheckResult)
    → any_in p (group_checks_by_suite checks) ≡ any p checks
unfolding group_checks_by_suite
any_in-group_checks_by_suite p checks = any_in-group_from p [] checks
