-- ===== src/HttpGet/Builtin/Answers.antt =====
-- src/services/http-get-service/builtin-http-get-service.ts: which response an answer is read from.
use verifier_core.Shared.{
  ℕ, zero, suc, String, Bool, true, false, Option, none, some, ◌≡◌, refl, sym, ap, ◌∙◌, ◌==◌,
  eq_iff, Bool-cases, inl, inr, if◌then◌else◌,
}
use mathlib.Core.Path.{subst}
use verifier_core.Types.{Attempt, done, thrown, Action, ◌>>◌, pure, >>=-answer, HttpGetResult}
use verifier_core.HttpGet.UrlPolicy.{UrlCheck, allowed, refused, accepts, check_url}
use verifier_core.HttpGet.Builtin.Requests.{is_permitted, accepts-is_permitted}
use verifier_core.HttpGet.Builtin.{
  RedirectMode, follow, Response, HttpRuntime, max_redirects, Reached, is_allowed, refusal,
  assert_allowed, failed_request, fetch_or_fail, discard, set_follows, see_through, mode_of,
  request, go_on, after_response, round, redirect_to, too_many, follow_redirects,
  discard_on_refusal, assert_reached, reached_url, read_capped, parse_once, read_result, finish,
  fetch_within_policy,
}

module _ {W : Type 0} (runtime : HttpRuntime W) (max_bytes : ℕ) (allow_insecure : Bool) where
  -- The runtime's `fetch`, called for the URL, answered with the response.
  pub record IsResponse (url : String) (response : Response) : Type 0 where
    pub mode : RedirectMode
    pub world : W
    pub answered : (runtime.fetch url mode world).0 ≡ done response

  -- A response to a call for a URL that the policy allows.
  record IsAsked (reached : Reached runtime max_bytes allow_insecure) : Type 0 where
    allowed : is_allowed runtime max_bytes allow_insecure reached.1 ≡ true
    response : IsResponse reached.1 reached.0

  failed_request-done :
      (url : String) (answer : Attempt Response) (response : Response)
      → failed_request runtime max_bytes allow_insecure url answer ≡ done response
      → answer ≡ done response
  unfolding failed_request
  failed_request-done url (done r) response h = h
  failed_request-done url (thrown e) response h = absurd (cc)

  fetch_or_fail-IsResponse :
      (url : String) (mode : RedirectMode) (response : Response) (w : Bool × W)
      → (fetch_or_fail runtime max_bytes allow_insecure url mode w).0 ≡ done response
      → IsResponse url response
  unfolding fetch_or_fail
  fetch_or_fail-IsResponse url mode response w h = record {
    mode = mode;
    world = w.1;
    answered = failed_request-done url (runtime.fetch url mode w.1).0 response h;
  }

  seen-IsResponse :
      (url : String) (opaque : Bool) (first response : Response) (w : Bool × W)
      → IsResponse url first
      → ((if opaque
            then set_follows runtime max_bytes allow_insecure
              >> fetch_or_fail runtime max_bytes allow_insecure url follow
            else pure first)
          w).0
        ≡ done response
      → IsResponse url response
  seen-IsResponse url true first response w given h =
      fetch_or_fail-IsResponse url follow response (true, w.1) h
  seen-IsResponse url false first response w given h =
      let same : first ≡ response = cc in
      record { mode = given.mode; world = given.world; answered = given.answered ∙ ap done same }

  request-IsResponse :
      (url : String) (response : Response) (w : Bool × W)
      → (request runtime max_bytes allow_insecure url w).0 ≡ done response
      → IsResponse url response
  unfolding request
  request-IsResponse url response w h =
      let mode = mode_of runtime max_bytes allow_insecure w.0 in
      let (first, answered, seen) =
        >>=-answer (fetch_or_fail runtime max_bytes allow_insecure url mode)
          (see_through runtime max_bytes allow_insecure url) w h in
      seen-IsResponse url first.is_opaque_redirect first response _
        (fetch_or_fail-IsResponse url mode first w answered) seen

  refusal-accepts :
      (url : String) (check : UrlCheck) (w : Bool × W)
      → (refusal runtime max_bytes allow_insecure url check w).0 ≡ done tt
      → accepts check ≡ true
  unfolding refusal
  refusal-accepts url allowed w h = refl
  refusal-accepts url (refused reason) w h = absurd (cc)

  assert_allowed-IsAsked :
      (current : String) (response : Response) (w : Bool × W)
      → ((assert_allowed runtime max_bytes allow_insecure current
            >> request runtime max_bytes allow_insecure current)
          w).0
        ≡ done response
      → IsAsked (response, current)
  unfolding assert_allowed
  assert_allowed-IsAsked current response w h =
      let (_, passed, answered) =
        >>=-answer (assert_allowed runtime max_bytes allow_insecure current)
          (λ _. request runtime max_bytes allow_insecure current) w h in
      record {
        allowed =
            refusal-accepts current (check_url runtime.parse_url current allow_insecure) w passed;
        response = request-IsResponse current response _ answered;
      }

  -- Every answer of the block is a response to an allowed call.
  abbrev Asks : Action (Bool × W) (Reached runtime max_bytes allow_insecure) → Type 0
  Asks m =
      (reached : Reached runtime max_bytes allow_insecure) (w : Bool × W)
      → (m w).0 ≡ done reached
      → IsAsked reached

  go_on-Asks :
      (continue : String → Action (Bool × W) (Reached runtime max_bytes allow_insecure))
      (current : String) (response : Response) (location : Option String)
      → IsAsked (response, current)
      → ((l : String) → Asks (continue l))
      → Asks (go_on runtime max_bytes allow_insecure continue current response location)
  unfolding go_on
  go_on-Asks continue current response none asked asks reached w h =
      let same : (response, current) ≡ reached = cc in subst (λ r. IsAsked r) same asked
  go_on-Asks continue current response (some location) asked asks reached w h =
      let (_, _, rest) =
        >>=-answer (discard runtime max_bytes allow_insecure response) (λ _. continue location) w
          h in
      asks location reached _ rest

  round-Asks :
      (continue : String → Action (Bool × W) (Reached runtime max_bytes allow_insecure))
      (current : String)
      → ((l : String) → Asks (continue l))
      → Asks (round runtime max_bytes allow_insecure continue current)
  unfolding round after_response
  round-Asks continue current asks reached w h =
      let (response, answered, rest) =
        >>=-answer
          (assert_allowed runtime max_bytes allow_insecure current
            >> request runtime max_bytes allow_insecure current)
          (after_response runtime max_bytes allow_insecure continue current) w h in
      go_on-Asks continue current response _ (assert_allowed-IsAsked current response w answered)
        asks reached _ rest

  redirect_to-Asks :
      (continue : String → Action (Bool × W) (Reached runtime max_bytes allow_insecure))
      (current : String) (next : Option String)
      → ((l : String) → Asks (continue l))
      → Asks (redirect_to runtime max_bytes allow_insecure continue current next)
  unfolding redirect_to
  redirect_to-Asks continue current none asks reached w h = absurd (cc)
  redirect_to-Asks continue current (some next) asks reached w h = asks next reached w h

  follow_redirects-Asks :
      (left : ℕ) (current : String)
      → Asks (follow_redirects runtime max_bytes allow_insecure left current)
  unfolding follow_redirects too_many
  follow_redirects-Asks zero current =
      round-Asks (too_many runtime max_bytes allow_insecure current) current
        (λ l reached w h. absurd (cc))
  follow_redirects-Asks (suc left) current = round-Asks _ current (λ l.
      redirect_to-Asks (follow_redirects runtime max_bytes allow_insecure left) current
        (runtime.resolve_url l current) (follow_redirects-Asks left))

  -- What the answer of a `get` is read from.
  pub record IsAnswer (result : HttpGetResult) : Type 0 where
    pub url : String
    pub response : Response
    pub asked : IsResponse url response
    pub permitted : is_permitted runtime.parse_url allow_insecure url ≡ true
    pub reached_permitted :
        is_permitted runtime.parse_url allow_insecure
          (reached_url runtime max_bytes allow_insecure (response, url))
        ≡ true
    pub status : result.status ≡ response.status
    pub headers : result.headers ≡ response.headers
    pub text : String
    pub read :
        (b : Bool × W) × ((read_capped runtime max_bytes allow_insecure response
            (reached_url runtime max_bytes allow_insecure (response, url))
            b).0
          ≡ done text)
    pub body : result.body ≡ parse_once runtime max_bytes allow_insecure text

  discard_on_refusal-accepts :
      (response : Response) (check : UrlCheck) (url : String) (w : Bool × W)
      → (discard_on_refusal runtime max_bytes allow_insecure response check url w).0 ≡ done tt
      → accepts check ≡ true
  unfolding discard_on_refusal refusal discard
  discard_on_refusal-accepts response allowed url w h = refl
  discard_on_refusal-accepts response (refused reason) url w h = absurd (cc)

  assert_reached-allowed :
      (reached : Reached runtime max_bytes allow_insecure) (w : Bool × W)
      → is_allowed runtime max_bytes allow_insecure reached.1 ≡ true
      → (assert_reached runtime max_bytes allow_insecure reached w).0 ≡ done tt
      → is_allowed runtime max_bytes allow_insecure
          (reached_url runtime max_bytes allow_insecure reached)
        ≡ true
  unfolding assert_reached
  assert_reached-allowed reached w h passed =
      let url = reached_url runtime max_bytes allow_insecure reached in
      elim (Bool-cases (url == reached.1)) [
        | inl e ↦ ap (is_allowed runtime max_bytes allow_insecure) ((eq_iff url reached.1).0 e) ∙ h
        | inr e ↦
            let checked : (discard_on_refusal runtime max_bytes allow_insecure reached.0
                  (check_url runtime.parse_url url allow_insecure) url w).0
                ≡ done tt =
              rw e at passed in
            discard_on_refusal-accepts reached.0 (check_url runtime.parse_url url allow_insecure)
              url w checked
      ]

  -- Where a `get` answers, its status, headers and body are those of a response that the runtime's `fetch` gave when it
  -- was called for a permitted URL, and the URL that the runtime reports for that response, if it reports one, is
  -- permitted too, whatever hops the runtime followed on its own. Permitted means, unless the service is insecure by its
  -- options: `https:`, and the host is neither `localhost` nor an IPv4 literal of a range that is not public.
  pub fetch_within_policy-IsAnswer :
      (url : String) (result : HttpGetResult) (w : Bool × W)
      → (fetch_within_policy runtime max_bytes allow_insecure url w).0 ≡ done result
      → IsAnswer result
  unfolding fetch_within_policy finish read_result
  fetch_within_policy-IsAnswer url result w h =
      let (reached, followed, finished) =
        >>=-answer (follow_redirects runtime max_bytes allow_insecure max_redirects url)
          (finish runtime max_bytes allow_insecure) w h in
      let asked = follow_redirects-Asks max_redirects url reached w followed in
      let after = (follow_redirects runtime max_bytes allow_insecure max_redirects url w).1 in
      let (_, passed, was_read) =
        >>=-answer (assert_reached runtime max_bytes allow_insecure reached)
          (λ _. read_result runtime max_bytes allow_insecure reached) after finished in
      let (text, read, made) =
        >>=-answer
          (read_capped runtime max_bytes allow_insecure reached.0
            (reached_url runtime max_bytes allow_insecure reached))
          _ (assert_reached runtime max_bytes allow_insecure reached after).1 was_read in
      let made_of : HttpGetResult = record {
        body = parse_once runtime max_bytes allow_insecure text;
        headers = reached.0.headers;
        status = reached.0.status;
      } in
      let same : made_of ≡ result = cc in
      record {
        url = reached.1;
        response = reached.0;
        asked = asked.response;
        permitted = accepts-is_permitted runtime.parse_url allow_insecure reached.1 asked.allowed;
        reached_permitted =
            accepts-is_permitted runtime.parse_url allow_insecure _
              (assert_reached-allowed reached after asked.allowed passed);
        status = ap (λ r. r.status) (sym same);
        headers = ap (λ r. r.headers) (sym same);
        text = text;
        read = (_, read);
        body = ap (λ r. r.body) (sym same);
      }
