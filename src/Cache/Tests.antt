-- ===== src/Cache/Tests.antt =====
-- A concrete cache.
use verifier_core.Shared.{ℕ, none, some, []}
use verifier_core.Cache.{Cache, set}
use verifier_core.Cache.View.{Refines, cache-Refines}

-- One entry that expires at 15, and one that does not.
abbrev two_entries : Cache ℕ
two_entries = set 5 "a" 1 (some 10) (set 5 "b" 2 none [])

cache-Refines_example : Refines two_entries
cache-Refines_example = cache-Refines two_entries
