-- ===== src/RegistryHandlers/Oidf/Origin.antt =====
-- src/services/registry-handlers/oidf-handler.ts: where a JWT that the handler verifies comes from.
use verifier_core.Shared.{String, Option, none, some, ◌≡◌, ap, ◌≤◌, ◌<◌, ◌⊎◌, false}
use verifier_core.Json.{Json, null, bool, num, arr, obj, str}
use verifier_core.Types.{done, HttpGetResult, CacheValue, payload}
use verifier_core.Registry.{RegistryHandlerContext}
use verifier_core.RegistryHandlers.Answer.{
  fetch, caught-done, is_refused, is_refused-succeeded, cached_payload, payload-kept,
}
use verifier_core.RegistryHandlers.Oidf.{cached_text, body_to_jwt}

text-str :
    (kept : Option Json) (jwt : String)
    → elim kept [ some (str s) ↦ some s | _ ↦ none ] ≡ some jwt
    → kept ≡ some (str jwt)
text-str none jwt h = absurd (cc)
text-str (some (str s)) jwt h = let same : s ≡ jwt = cc in ap (λ t. some (str t)) same
text-str (some null) jwt h = absurd (cc)
text-str (some (bool b)) jwt h = absurd (cc)
text-str (some (num n)) jwt h = absurd (cc)
text-str (some (arr vs)) jwt h = absurd (cc)
text-str (some (obj fields)) jwt h = absurd (cc)

pub cached_text-kept :
    (cached : Option CacheValue) (jwt : String)
    → cached_text cached ≡ some jwt
    → cached ≡ some (payload (str jwt))
cached_text-kept cached jwt h =
    payload-kept cached (str jwt) (text-str (cached_payload cached) jwt h)

module _ {W V : Type 0} (context : RegistryHandlerContext W V) where
  -- The URL, asked in the world, served the JWT with a status from 200 to 299.
  pub record IsFetched (url jwt : String) (w : W) : Type 0 where
    pub result : HttpGetResult
    pub served : (context.http_get_service.get url w).0 ≡ done result
    pub succeeded : (200 ≤ result.status) × (result.status < 300)
    pub text : body_to_jwt result.body ≡ jwt

  -- The cache, read in the world, held the JWT under the key.
  abbrev pub Keeps : (key jwt : String) (w : W) → Type 0
  Keeps key jwt w = (context.cache_service.get key w).0 ≡ done (some (payload (str jwt)))

  -- Where a JWT comes from: the cache, read in the world, held it; or the URL, asked right after the cache, or after
  -- another JWT that the cache held was checked, served it.
  abbrev pub Origin : (check : String → W → W) (key url jwt : String) (w : W) → Type 0
  Origin check key url jwt w =
      let read = (context.cache_service.get key w).1 in
      Keeps key jwt w
      ⊎ (IsFetched url jwt read
          ⊎ ((old : String) × Keeps key old w × IsFetched url jwt (check old read)))

  pub fetch-IsFetched :
      (url jwt : String) (result : HttpGetResult) (w : W)
      → (fetch context.http_get_service url w).0 ≡ some result
      → is_refused result ≡ false
      → body_to_jwt result.body ≡ jwt
      → IsFetched url jwt w
  fetch-IsFetched url jwt result w h accepted text = record {
    result = result;
    served = caught-done (context.http_get_service.get url w).0 result h;
    succeeded = is_refused-succeeded result accepted;
    text = text;
  }
