-- ===== src/Registry/Walk.antt =====
-- src/services/registry-lookup.ts: what the walk over the registries finds.
use verifier_core.Shared.{
  ℕ, ◌+◌, ◌≤◌, Bool, true, false, not, ◌&&◌, List, [], ◌∷◌, if◌then◌else◌, ltb, length, any, filter,
  map, ◌≡◌, refl, arith, flat_map,
}
use verifier_core.Types.{
  done, Action, EntityIdentityRegistry, RegistryMatch, RegistryLookupResult, registry_reference,
}
use verifier_core.Registry.{
  HandlerResult, found, not_found, unchecked, Pushed, walk_on, walk, finish,
}

abbrev is_found : HandlerResult → Bool
is_found (found _) = true
is_found _ = false

abbrev is_unchecked : HandlerResult → Bool
is_unchecked unchecked = true
is_unchecked _ = false

abbrev match_of : EntityIdentityRegistry → HandlerResult → List RegistryMatch
match_of r (found entity) = record { registry = registry_reference r; entity = entity } ∷ []
match_of r _ = []

module _ (answer : EntityIdentityRegistry → HandlerResult) where
  -- The registries that are asked: all of them, or those up to the first that finds the issuer.
  abbrev asked : Bool → List EntityIdentityRegistry → List EntityIdentityRegistry
  asked exhaustive [] = []
  asked exhaustive (r ∷ rs) =
      if is_found (answer r) && not exhaustive then r ∷ [] else r ∷ asked exhaustive rs

  -- What a walk must report: the matches, and the registries that could not be checked, among
  -- those that are asked.
  abbrev pub reported : Bool → List EntityIdentityRegistry → Pushed
  reported exhaustive rs = record {
    matches = flat_map (λ r. match_of r (answer r)) (asked exhaustive rs);
    unchecked_registries =
        map registry_reference (filter (λ r. is_unchecked (answer r)) (asked exhaustive rs));
  }

  abbrev reported_size : Bool → List EntityIdentityRegistry → ℕ
  reported_size exhaustive rs =
      length (reported exhaustive rs).matches + length (reported exhaustive rs).unchecked_registries

  any-asked_cons :
      (exhaustive : Bool) (r : EntityIdentityRegistry) (rs : List EntityIdentityRegistry)
      (o : HandlerResult)
      → answer r ≡ o
      → ltb 0 (length (flat_map (λ r. match_of r (answer r)) (asked exhaustive rs)))
        ≡ any (λ r. is_found (answer r)) rs
      → ltb 0 (length (flat_map (λ r. match_of r (answer r)) (asked exhaustive (r ∷ rs))))
        ≡ any (λ r. is_found (answer r)) (r ∷ rs)
  any-asked_cons true r rs (found entity) e ih = rw e (rw e (ground arith))
  any-asked_cons false r rs (found entity) e ih = rw e (rw e (ground arith))
  any-asked_cons exhaustive r rs not_found e ih = rw e (rw e ih)
  any-asked_cons exhaustive r rs unchecked e ih = rw e (rw e ih)

  module _ {W : Type 0} (ask : EntityIdentityRegistry → Action W HandlerResult)
      (answers : (r : EntityIdentityRegistry) (w : W) → (ask r w).0 ≡ done (answer r)) where
    reported-step :
        (exhaustive : Bool) (r : EntityIdentityRegistry) (rs : List EntityIdentityRegistry)
        (o : HandlerResult) (w : W)
        → answer r ≡ o
        → (walk exhaustive ask rs w).0 ≡ done (reported exhaustive rs)
        → (walk_on exhaustive r o (walk exhaustive ask rs) w).0
          ≡ done (reported exhaustive (r ∷ rs))
    unfolding walk_on
    reported-step true r rs (found entity) w e ih = rw (e, ih) (rw e)
    reported-step false r rs (found entity) w e ih = rw e (rw e)
    reported-step exhaustive r rs not_found w e ih = rw e (rw e ih)
    reported-step exhaustive r rs unchecked w e ih = rw (e, ih) (rw e)

    pub walk-reported :
        (exhaustive : Bool) (rs : List EntityIdentityRegistry) (w : W)
        → (walk exhaustive ask rs w).0 ≡ done (reported exhaustive rs)
    unfolding walk
    walk-reported exhaustive [] w = refl
    walk-reported exhaustive (r ∷ rs) w =
        let w' = (ask r w).1 in
        rw (answers r w)
          (reported-step exhaustive r rs (answer r) w' refl (walk-reported exhaustive rs w'))

  any-asked :
      (exhaustive : Bool) (rs : List EntityIdentityRegistry)
      → ltb 0 (length (flat_map (λ r. match_of r (answer r)) (asked exhaustive rs)))
        ≡ any (λ r. is_found (answer r)) rs
  any-asked exhaustive [] = refl
  any-asked exhaustive (r ∷ rs) =
      any-asked_cons exhaustive r rs (answer r) refl (any-asked exhaustive rs)

  length-asked_cons :
      (exhaustive : Bool) (r : EntityIdentityRegistry) (rs : List EntityIdentityRegistry)
      (o : HandlerResult)
      → answer r ≡ o
      → reported_size exhaustive rs ≤ length rs
      → reported_size exhaustive (r ∷ rs) ≤ length (r ∷ rs)
  length-asked_cons true r rs (found entity) e ih = rw e (rw e (omega arith))
  length-asked_cons false r rs (found entity) e ih = rw e (rw e (omega arith))
  length-asked_cons exhaustive r rs not_found e ih = rw e (rw e (omega arith))
  length-asked_cons exhaustive r rs unchecked e ih = rw e (rw e (omega arith))

  -- No registry is both matched and unchecked, and none is reported twice.
  length-asked :
      (exhaustive : Bool) (rs : List EntityIdentityRegistry)
      → reported_size exhaustive rs ≤ length rs
  length-asked exhaustive [] = omega arith
  length-asked exhaustive (r ∷ rs) =
      length-asked_cons exhaustive r rs (answer r) refl (length-asked exhaustive rs)

  one_match_cons :
      (r : EntityIdentityRegistry) (rs : List EntityIdentityRegistry) (o : HandlerResult)
      → answer r ≡ o
      → length (reported false rs).matches ≤ 1
      → length (reported false (r ∷ rs)).matches ≤ 1
  one_match_cons r rs (found entity) e ih = rw e (rw e (omega arith))
  one_match_cons r rs not_found e ih = rw e (rw e ih)
  one_match_cons r rs unchecked e ih = rw e (rw e ih)

  one_match : (rs : List EntityIdentityRegistry) → length (reported false rs).matches ≤ 1
  one_match [] = omega arith
  one_match (r ∷ rs) = one_match_cons r rs (answer r) refl (one_match rs)

-- What a lookup of registries that answer by `answer` says: the matches and the unchecked registries among
-- those asked, found exactly when some registry finds the issuer, whether or not the lookup stops
-- at the first match, and never more entries than registries.
pub record IsAnswer (answer : EntityIdentityRegistry → HandlerResult) (exhaustive : Bool)
    (rs : List EntityIdentityRegistry) (result : RegistryLookupResult) : Type 0 where
  pub payload : result.payload ≡ reported answer exhaustive rs
  pub found_iff : result.found ≡ any (λ r. is_found (answer r)) rs
  pub entries : length result.matches + length result.unchecked_registries ≤ length rs
  pub single : exhaustive ≡ false → length result.matches ≤ 1

pub finish-IsAnswer :
    (answer : EntityIdentityRegistry → HandlerResult) (exhaustive : Bool)
    (rs : List EntityIdentityRegistry)
    → IsAnswer answer exhaustive rs (finish (reported answer exhaustive rs))
unfolding finish
finish-IsAnswer answer exhaustive rs = record {
  payload = refl;
  found_iff = any-asked answer exhaustive rs;
  entries = length-asked answer exhaustive rs;
  single = λ e. rw e (one_match answer rs);
}
