-- ===== src/Registry/Tests.antt =====
-- Concrete registry lookups, over the in-memory cache read at the time 0.
use verifier_core.Shared.{
  true, false, Option, none, some, List, [], ◌∷◌, eq_iff, ◌==◌, ◌≡◌, refl, arith, ap, ◌∙◌,
}
use verifier_core.Json.{null}
use verifier_core.Types.{
  Attempt, registry_reference, pure, done, CacheValue, CacheService, HttpGetService,
  EntityIdentityRegistry, TimeService, LookupIssuersOptions, RegistryLookupResult,
}
use verifier_core.Cache
use verifier_core.Cache.{Cache}
use verifier_core.Cache.View.{cache-Refines}
use verifier_core.Registry.{
  HandlerResult, RegistryHandlerMap, found, not_found, unchecked, create_registry_lookup,
  lookup_fresh, store_result, walk, walk_on, finish,
}
use verifier_core.Registry.Key.{JsonRuntime}
use verifier_core.Registry.Walk.{IsAnswer}
use verifier_core.Registry.Caching.{
  Stores, Remembers, create_registry_lookup-IsAnswer, create_registry_lookup-remembers,
}

abbrev runtime : JsonRuntime
runtime = record { stringify = λ v. "key"; sort = λ texts. texts }

abbrev World : Type 0
World = Cache CacheValue

abbrev http : HttpGetService World
http = record { get = λ url. pure (record { body = null; headers = λ name. none; status = 200 }) }

abbrev stopped_clock : TimeService World
stopped_clock = record { date_now_ms = λ w. (0, w); performance_now_ms = λ w. (0, w) }

abbrev cache : CacheService World
cache = record {
  get = λ key w. (done (Cache.get 0 key w).0, (Cache.get 0 key w).1);
  set = λ key value ttl w. (done tt, Cache.set 0 key value ttl w);
}

abbrev registries : List EntityIdentityRegistry
registries = EntityIdentityRegistry.dcc_legacy "A" "a" ∷ EntityIdentityRegistry.oidf "B" "b" ∷ []

abbrev answer : EntityIdentityRegistry → HandlerResult
answer (EntityIdentityRegistry.oidf _ _) = found none
answer _ = unchecked

abbrev handlers : RegistryHandlerMap World (Unit {0})
handlers type did registry context = pure (answer registry)

abbrev silent : RegistryHandlerMap World (Unit {0})
silent type did registry context = pure not_found

abbrev no_verifier : Option (Attempt (Unit {0}))
no_verifier = none

abbrev fresh : Option LookupIssuersOptions
fresh = some (record { fresh = true; exhaustive = false })

abbrev sample_result : RegistryLookupResult
sample_result = record {
  found = true;
  payload = record {
    matches =
        record {
          registry = registry_reference (EntityIdentityRegistry.oidf "B" "b");
          entity = none;
        }
        ∷ [];
    unchecked_registries = registry_reference (EntityIdentityRegistry.dcc_legacy "A" "a") ∷ [];
  };
}

stores : Stores runtime http cache no_verifier stopped_clock
stores k v ttl w = refl

-- What the in-memory cache is written, it gives back: by the laws of its view.
remembers : Remembers runtime http cache no_verifier stopped_clock
remembers k v ttl w positive =
    let same : (k == k) ≡ true = (eq_iff k k).1 refl in
    ap done (
      (cache-Refines _).reads 0 k
      ∙ (cache-Refines w).writes 0 0 k k v (some ttl)
      ∙ rw same (ground arith))

create_registry_lookup-IsAnswer_example :
    (result : RegistryLookupResult) × ((create_registry_lookup runtime http cache handlers
        no_verifier stopped_clock "did" registries fresh []).0
      ≡ done result)
    × IsAnswer answer false registries result
create_registry_lookup-IsAnswer_example =
    create_registry_lookup-IsAnswer runtime http cache no_verifier stopped_clock handlers "did"
      answer registries fresh [] (λ r w. refl) stores refl

create_registry_lookup-remembers_example :
    (create_registry_lookup runtime http cache silent no_verifier stopped_clock "did" registries
      none
      (create_registry_lookup runtime http cache handlers no_verifier stopped_clock "did" registries
        fresh []).1).0
    ≡ done sample_result
unfolding create_registry_lookup lookup_fresh walk walk_on store_result finish
create_registry_lookup-remembers_example =
    create_registry_lookup-remembers runtime http cache no_verifier stopped_clock handlers silent
      "did" registries fresh none [] sample_result stores remembers refl refl refl
