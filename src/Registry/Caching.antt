-- ===== src/Registry/Caching.antt =====
-- src/services/registry-lookup.ts: a lookup over answering handlers, and the cache in front of it.
use verifier_core.Shared.{ℕ, String, true, false, Option, some, List, ◌≡◌, ◌<◌, ap, sym, ◌∙◌, arith}
use verifier_core.Types.{
  Attempt, done, >>=-done, TimeService, HttpGetService, CacheService, CacheValue, lookup_result,
  EntityIdentityRegistry, RegistryLookupResult, LookupIssuersOptions,
}
use verifier_core.Registry.{
  HandlerResult, RegistryHandlerMap, wants_fresh, wants_exhaustive, walk, finish, result_ttl,
  result_key, ask_handler, lookup_fresh, store_result, Pushed, create_registry_lookup,
}
use verifier_core.Registry.Key.{JsonRuntime}
use verifier_core.Registry.Walk.{reported, walk-reported, IsAnswer, finish-IsAnswer}

module _ {W V : Type 0} (runtime : JsonRuntime) (http : HttpGetService W) (cache : CacheService W)
    (get_verifier : Option (Attempt V)) (time_service : TimeService W) where
  -- Every write to the cache succeeds.
  abbrev pub Stores : Type 0
  Stores =
      (k : String) (v : CacheValue) (ttl : Option ℕ) (w : W) → (cache.set k v ttl w).0 ≡ done tt

  -- A read right after a write of the same key gives what was written, if the time to live is positive.
  abbrev pub Remembers : Type 0
  Remembers =
      (k : String) (v : CacheValue) (ttl : ℕ) (w : W)
      → 0 < ttl
      → (cache.get k (cache.set k v (some ttl) w).1).0 ≡ done (some v)

  module _ (handlers : RegistryHandlerMap W V) (did : String)
      (answer : EntityIdentityRegistry → HandlerResult)
      (answers : (r : EntityIdentityRegistry) (w : W)
        → (ask_handler runtime http cache handlers get_verifier time_service did r w).0
          ≡ done (answer r))
      (stores : Stores) where
    lookup_fresh-reported :
        (rs : List EntityIdentityRegistry) (options : Option LookupIssuersOptions) (w : W)
        → (lookup_fresh runtime http cache handlers get_verifier time_service did rs options w).0
          ≡ done (finish (reported answer (wants_exhaustive options) rs))
    unfolding lookup_fresh store_result
    lookup_fresh-reported rs options w =
        let ask = ask_handler runtime http cache handlers get_verifier time_service did in
        let result = finish (reported answer (wants_exhaustive options) rs) in
        rw (
          walk-reported answer ask answers (wants_exhaustive options) rs w,
          stores (result_key runtime did rs) (lookup_result result) (some (result_ttl result))
              (walk (wants_exhaustive options) ask rs w).1,
        )

  store_result-world :
      (handlers : RegistryHandlerMap W V) (did : String) (rs : List EntityIdentityRegistry)
      (pushed : Pushed) (w : W) (r : RegistryLookupResult)
      → Stores
      → (store_result runtime http cache handlers get_verifier time_service did rs pushed w).0
        ≡ done r
      → (store_result runtime http cache handlers get_verifier time_service did rs pushed w).1
        ≡ (cache.set (result_key runtime did rs) (lookup_result r) (some (result_ttl r)) w).1
  unfolding store_result
  store_result-world handlers did rs pushed w r stores e =
      let put = λ (x : RegistryLookupResult).
        cache.set (result_key runtime did rs) (lookup_result x) (some (result_ttl x)) w in
      let stored =
        stores (result_key runtime did rs) (lookup_result (finish pushed))
          (some (result_ttl (finish pushed))) w in
      let returned : done (finish pushed) ≡ done r = rw stored at e in
      let same : finish pushed ≡ r = cc returned in rw stored (ap (λ x. (put x).1) same)

  result_ttl-pos : (r : RegistryLookupResult) → 0 < result_ttl r
  unfolding result_ttl
  result_ttl-pos r = ground arith

  lookup_fresh-hit :
      (handlers : RegistryHandlerMap W V) (did : String) (rs : List EntityIdentityRegistry)
      (options : Option LookupIssuersOptions) (w : W) (r : RegistryLookupResult)
      → Stores
      → Remembers
      → (lookup_fresh runtime http cache handlers get_verifier time_service did rs options w).0
        ≡ done r
      → (cache.get
          (result_key runtime did rs)
          (lookup_fresh runtime http cache handlers get_verifier time_service did rs options w).1).0
        ≡ done (some (lookup_result r))
  unfolding lookup_fresh
  lookup_fresh-hit handlers did rs options w r stores remembers e =
      let ask = ask_handler runtime http cache handlers get_verifier time_service did in
      let store = store_result runtime http cache handlers get_verifier time_service did rs in
      let loop = walk (wants_exhaustive options) ask rs in
      let (pushed, _, same) = >>=-done loop store w e in
      let stored =
        store_result-world handlers did rs pushed (loop w).1 r stores
          (ap (λ x. x.0) (sym same) ∙ e) in
      rw (same, stored)
        (remembers (result_key runtime did rs) (lookup_result r) (result_ttl r) (loop w).1
          (result_ttl-pos r))

-- Over handlers that answer, and a cache whose writes succeed, a fresh lookup returns, and reports what
-- the registries answer.
pub create_registry_lookup-IsAnswer :
    {W V : Type 0} (runtime : JsonRuntime) (http : HttpGetService W) (cache : CacheService W)
    (get_verifier : Option (Attempt V)) (time_service : TimeService W)
    (handlers : RegistryHandlerMap W V) (did : String)
    (answer : EntityIdentityRegistry → HandlerResult) (rs : List EntityIdentityRegistry)
    (options : Option LookupIssuersOptions) (w : W)
    → ((r : EntityIdentityRegistry) (w : W)
        → (ask_handler runtime http cache handlers get_verifier time_service did r w).0
          ≡ done (answer r))
    → Stores runtime http cache get_verifier time_service
    → wants_fresh options ≡ true
    → (result : RegistryLookupResult) × ((create_registry_lookup runtime http cache handlers
          get_verifier time_service did rs options w).0
        ≡ done result)
      × IsAnswer answer (wants_exhaustive options) rs result
unfolding create_registry_lookup
create_registry_lookup-IsAnswer runtime http cache get_verifier time_service handlers did answer rs
      options w answers stores fresh =
    (
      finish (reported answer (wants_exhaustive options) rs),
      rw fresh (
          lookup_fresh-reported runtime http cache get_verifier time_service handlers did answer
            answers stores rs options w),
      finish-IsAnswer answer (wants_exhaustive options) rs,
    )

-- Over a cache that stores and remembers, what a fresh lookup returns is what a lookup of the same DID and
-- registries right after it, which is not fresh, returns, whatever the handlers would say by then, and even where the later lookup is
-- exhaustive and the first was not: what is kept is under the DID and the registries alone.
pub create_registry_lookup-remembers :
    {W V : Type 0} (runtime : JsonRuntime) (http : HttpGetService W) (cache : CacheService W)
    (get_verifier : Option (Attempt V)) (time_service : TimeService W)
    (handlers later : RegistryHandlerMap W V) (did : String) (rs : List EntityIdentityRegistry)
    (options later_options : Option LookupIssuersOptions) (w : W) (r : RegistryLookupResult)
    → Stores runtime http cache get_verifier time_service
    → Remembers runtime http cache get_verifier time_service
    → wants_fresh options ≡ true
    → wants_fresh later_options ≡ false
    → (create_registry_lookup runtime http cache handlers get_verifier time_service did rs options
        w).0
      ≡ done r
    → (create_registry_lookup runtime http cache later get_verifier time_service did rs
        later_options
        (create_registry_lookup runtime http cache handlers get_verifier time_service did rs options
          w).1).0
      ≡ done r
unfolding create_registry_lookup
create_registry_lookup-remembers runtime http cache get_verifier time_service handlers later did rs
      options later_options w r stores remembers fresh plain e =
    let first : (lookup_fresh runtime http cache handlers get_verifier time_service did rs options
          w).0
        ≡ done r =
      rw fresh at e in
    rw (
      fresh,
      plain,
      lookup_fresh-hit runtime http cache get_verifier time_service handlers did rs options w r
          stores remembers first,
    )
