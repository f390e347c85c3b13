-- ===== src/RegistryHandlers/Answer.antt =====
-- What the registry handlers share: the `get` of a handler, whose rejection is caught, and the cached payload.
use verifier_core.Shared.{
  ◌≡◌, ap, ◌≤◌, ◌<◌, arith, Bool-cases, inl, inr, false, Bool, ◌||◌, Option, none, some, String,
  leb, ltb, if◌then◌else◌,
}
use verifier_core.Json.{Json, is_truthy}
use verifier_core.Types.{
  Attempt, done, thrown, HttpGetResult, HttpGetService, CacheValue, payload, lookup_result,
}

-- The result of a `get`, `none` if it rejects.
abbrev pub caught : Attempt HttpGetResult → Option HttpGetResult
caught (done result) = some result
caught (thrown error) = none

abbrev pub fetch : {W : Type 0} → HttpGetService W → String → W → Option HttpGetResult × W
fetch http url w = let (r, w') = http.get url w in (caught r, w')

-- `result.status < 200 || result.status >= 300`
abbrev pub is_refused : HttpGetResult → Bool
is_refused result = ltb result.status 200 || leb 300 result.status

-- The cached value, less a falsy one. What the handlers store under their keys is a payload.
abbrev keep_truthy : Json → Option Json
keep_truthy v = if is_truthy (some v) then some v else none

abbrev pub cached_payload : Option CacheValue → Option Json
cached_payload (some (payload v)) = keep_truthy v
cached_payload _ = none

pub caught-done :
    (fetched : Attempt HttpGetResult) (result : HttpGetResult)
    → caught fetched ≡ some result
    → fetched ≡ done result
caught-done (done r) result h = let same : r ≡ result = cc in ap done same
caught-done (thrown error) result h = absurd (cc)

-- What is not refused has a status from 200 to 299.
pub is_refused-succeeded :
    (result : HttpGetResult)
    → is_refused result ≡ false
    → (200 ≤ result.status) × (result.status < 300)
is_refused-succeeded result h = (ground arith, ground arith)

pub payload-kept :
    (cached : Option CacheValue) (credential : Json)
    → cached_payload cached ≡ some credential
    → cached ≡ some (payload credential)
payload-kept none credential h = absurd (cc)
payload-kept (some (lookup_result r)) credential h = absurd (cc)
payload-kept (some (payload v)) credential h = elim (Bool-cases (is_truthy (some v))) [
  | inl e ↦
      let kept : some v ≡ some credential = rw e at h in
      let same : v ≡ credential = cc in ap (λ x. some (payload x)) same
  | inr e ↦ let none_is : none ≡ some credential = rw e at h in absurd (cc)
]
