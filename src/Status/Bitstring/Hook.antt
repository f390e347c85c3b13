-- ===== src/Status/Bitstring/Hook.antt =====
-- src/suites/status/bitstring-status-check.ts: which lists the hook records for the issuer check.
use verifier_core.Shared.{
  String, Bool, true, false, ◌&&◌, ◌||◌, Option, some, [], ◌≡◌, refl, ◌==◌, if◌then◌else◌, or_else,
}
use verifier_core.Shared.Dict.{lookup, lookup-insert}
use verifier_core.Json.{Json}
use verifier_core.Types.{DocumentLoader, VerificationContext}
use verifier_core.CryptoDispatch.{
  CryptoDispatchResult, verified, rejected, no_service, threw, is_verified, rejected_with,
}
use verifier_core.Status.Lists.{
  ListsByUrl, StatusStore, record_verified_status_list, record_verified_status_list-lists,
}
use verifier_core.Status.Bitstring.{
  HookAnswer, list_verified, list_refused, dispatch_list, judge_list, verify_status_list_via,
}

abbrev pub is_list_verified : HookAnswer → Bool
is_list_verified list_verified = true
is_list_verified (list_refused problems) = false

-- Every proof of the list verified, whatever else the service rejected the list for.
abbrev pub proves : CryptoDispatchResult → Bool
proves dispatched = is_verified dispatched || rejected_with dispatched true

-- What is recorded under a URL after a list with that URL was or was not recorded.
abbrev pub recorded : Bool → String → Json → ListsByUrl → String → Option Json
recorded proved url list before other =
    if proved && url == other then some list else lookup other before

module _ {W : Type 0} (store : StatusStore W) (context : VerificationContext W) where
  judge_list-answer :
      (dispatched : CryptoDispatchResult) (list : Json) (url : String) (w : W)
      → is_list_verified (judge_list store context dispatched list url w).0 ≡ is_verified dispatched
  unfolding judge_list
  judge_list-answer (verified message) list url w = refl
  judge_list-answer (rejected problems true) list url w = refl
  judge_list-answer (rejected problems false) list url w = refl
  judge_list-answer no_service list url w = refl
  judge_list-answer (threw error message) list url w = refl

  record-lookup :
      (before : ListsByUrl) (url other : String) (list : Json) (w : W)
      → store.lists w ≡ some before
      → lookup other (or_else (store.lists (record_verified_status_list store url list w)) [])
        ≡ recorded true url list before other
  record-lookup before url other list w h =
      rw (record_verified_status_list-lists store before url list w h)
        (lookup-insert url other list before)

  judge_list-recorded :
      (dispatched : CryptoDispatchResult) (before : ListsByUrl) (list : Json) (url other : String)
      (w : W)
      → store.lists w ≡ some before
      → lookup other (or_else (store.lists (judge_list store context dispatched list url w).1) [])
        ≡ recorded (proves dispatched) url list before other
  unfolding judge_list
  judge_list-recorded (verified message) before list url other w h =
      record-lookup before url other list w h
  judge_list-recorded (rejected problems true) before list url other w h =
      record-lookup before url other list w h
  judge_list-recorded (rejected problems false) before list url other w h = rw h
  judge_list-recorded no_service before list url other w h = rw h
  judge_list-recorded (threw error message) before list url other w h = rw h

  -- In a run that was begun, so that the store holds a map after the dispatch, the hook accepts a status list exactly when
  -- its dispatch is verified, and the map afterwards holds the list under its URL if the dispatch is verified or rejected
  -- with its proof verified; all else in the map stays as it was.
  pub verify_status_list_via-recorded :
      (list : Json) (document_loader : DocumentLoader W) (url other : String) (before : ListsByUrl)
      (w : W)
      → store.lists (dispatch_list store context list document_loader w).1 ≡ some before
      → let dispatched = (dispatch_list store context list document_loader w).0 in
        let (answer, w') = verify_status_list_via store context list document_loader url w in
        (is_list_verified answer ≡ is_verified dispatched)
        × (lookup other (or_else (store.lists w') [])
            ≡ recorded (proves dispatched) url list before other)
  unfolding verify_status_list_via
  verify_status_list_via-recorded list document_loader url other before w h =
      (judge_list-answer _ list url _, judge_list-recorded _ before list url other _ h)
