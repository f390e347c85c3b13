-- ===== src/HttpGet/Builtin/Requests.antt =====
-- src/services/http-get-service/builtin-http-get-service.ts: for which URLs a `get` calls `fetch`, and how often.
use verifier_core.Shared.{ℕ, suc, ◌+◌, ◌≤◌, String, Bool, true, false, ◌||◌, Option, ◌≡◌, refl}
use verifier_core.Types.{Action}
use verifier_core.HttpGet.UrlPolicy.{ParsedUrl, accepts, check_url}
use verifier_core.HttpGet.UrlPolicy.Ranges.{is_public, check_url-is_public}
use verifier_core.HttpGet.Builtin.{RedirectMode, Response, HttpRuntime}

-- The service is insecure by its options, or the URL is `https:` and its host public.
abbrev pub is_permitted : (String → Option ParsedUrl) → Bool → String → Bool
is_permitted parse_url allow_insecure url = allow_insecure || is_public (parse_url url)

pub accepts-is_permitted :
    (parse_url : String → Option ParsedUrl) (allow_insecure : Bool) (url : String)
    → accepts (check_url parse_url url allow_insecure) ≡ true
    → is_permitted parse_url allow_insecure url ≡ true
accepts-is_permitted parse_url true url h = refl
accepts-is_permitted parse_url false url h = check_url-is_public parse_url url h

module _ {W : Type 0} (runtime : HttpRuntime W) (max_bytes : ℕ) (allow_insecure : Bool)
    (P : ℕ → W → Type 0)
    -- A call of `fetch` for a permitted URL counts one, and leaving a body unread none. The hops that the runtime
    -- follows within a call in `follow` mode are part of that call.
    (asked : (n : ℕ) (url : String) (mode : RedirectMode) (w : W)
      → is_permitted runtime.parse_url allow_insecure url ≡ true
      → P n w
      → P (suc n) (runtime.fetch url mode w).1)
    (cancelled : (n : ℕ) (response : Response) (w : W)
      → P n w
      → P n (runtime.cancel response w)) where
  -- A block makes at most so many requests, all of them allowed.
  abbrev Costs : {A : Type 0} → ℕ → Action (Bool × W) A → Type 0
  Costs k m = (n : ℕ) (w : Bool × W) → P n w.1 → (after : ℕ) × (after ≤ n + k) × P after (m w).1.1
