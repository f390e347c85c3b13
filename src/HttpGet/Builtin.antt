-- ===== src/HttpGet/Builtin.antt =====
-- src/services/http-get-service/builtin-http-get-service.ts. The deadline, a race against a timer, is left out.
-- The flag `followsRedirects` of the service stands beside the world. The runtime's `fetch`, URL parser and
-- `JSON.parse` are parameters. A call of `fetch` in `follow` mode includes the hops that the runtime follows on its own, which
-- the service does not see.
pub mod Requests
pub mod Answers
use Prim.Native.Char.{Char, code}
use verifier_core.Shared.{
  ℕ, zero, suc, ◌+◌, ◌*◌, String, Bool, true, false, not, ◌&&◌, ◌||◌, Option, none, some, List, [],
  ◌∷◌, ◌==◌, ◌<>◌, any, nat_eq, leb, ltb, is_nonempty, is_some, or_else, decimal, if◌then◌else◌,
}
use verifier_core.Json.{Json, obj, str, field, end}
use verifier_core.Types.{Attempt, done, thrown, Action, ◌>>=◌, ◌>>◌, pure, Headers, HttpGetResult}
use verifier_core.HttpGet.UrlPolicy.{UrlCheck, allowed, refused, ParsedUrl, accepts, check_url}

pub data RedirectMode : Type 0 where
  manual follow : RedirectMode

-- What the reader of a body gives: chunks of so many bytes that the decoder turns into a text, then the decoder's last text or
-- an error.
pub data Reads : Type 0 where
  ended : (rest : String) → Reads
  failed : (error : Json) → Reads
  chunk : (byte_length : ℕ) (text : String) → Reads → Reads

-- A body with a reader, or the text of one without.
pub data Body : Type 0 where
  stream : Reads → Body
  whole : (text : String) → Body

pub record Response : Type 0 where
  pub is_opaque_redirect : Bool
  pub status : ℕ
  pub headers : Headers
  pub url : String
  pub body : Body

-- `content_length` is `Number` of a header that is there, `none` if that is not a finite number.
pub record HttpRuntime (W : Type 0) : Type 0 where
  pub fetch : String → RedirectMode → Action W Response
  pub cancel : Response → W → W
  pub parse_url : String → Option ParsedUrl
  pub resolve_url : (location base : String) → Option String
  pub content_length : String → Option ℕ
  pub parse_json : String → Option Json

abbrev pub max_redirects : ℕ
max_redirects = 5

abbrev redirect_statuses : List ℕ
redirect_statuses = 301 ∷ 302 ∷ 303 ∷ 307 ∷ 308 ∷ []

abbrev pub error : String → Json
error message = obj (field "message" (str message) end)

-- UTF-8 bytes of a character.
byte_size : Char → ℕ
byte_size c =
    if ltb (code c) 128
    then 1
    else if ltb (code c) 2048
    then 2
    else if ltb (code c) 65536
    then 3
    else 4

-- `byteLength(text)`
pub byte_length : String → ℕ
unfolding byte_size
byte_length String.[] = 0
byte_length (String.◌∷◌ c s) = byte_size c + byte_length s

-- `text.length`, in units of UTF-16
unfoldable pub unit_length : String → ℕ
unit_length String.[] = 0
unit_length (String.◌∷◌ c s) = (if ltb (code c) 65536 then 1 else 2) + unit_length s

pub too_large : String → ℕ → Json
too_large url max_bytes =
    error ("Request to " <> url <> " exceeded " <> decimal max_bytes <> " bytes")

-- The loop over the chunks.
read_chunks : String → ℕ → ℕ → String → Reads → Attempt String
read_chunks url max_bytes total text (ended rest) = done (text <> rest)
read_chunks url max_bytes total text (failed e) = thrown e
read_chunks url max_bytes total text (chunk size piece reads) =
    let rest = read_chunks url max_bytes (total + size) (text <> piece) reads in
    if ltb max_bytes (total + size) then thrown (too_large url max_bytes) else rest

unfoldable pub read_body : String → ℕ → Body → Attempt String
unfolding read_chunks
read_body url max_bytes (stream reads) = read_chunks url max_bytes 0 "" reads
read_body url max_bytes (whole text) =
    if ltb max_bytes (unit_length text)
    then thrown (too_large url max_bytes)
    else if ltb max_bytes (unit_length text * 3) && ltb max_bytes (byte_length text)
    then thrown (too_large url max_bytes)
    else done text

module _ {W : Type 0} (runtime : HttpRuntime W) (max_bytes : ℕ) (allow_insecure : Bool) where
  -- The world with the flag `followsRedirects`.
  abbrev Http : Type 0
  Http = Bool × W

  abbrev pub is_allowed : String → Bool
  is_allowed url = accepts (check_url runtime.parse_url url allow_insecure)

  abbrev throw : {A : Type 0} → String → Action Http A
  throw message w = (thrown (error message), w)

  unfoldable pub refusal : String → UrlCheck → Action Http (Unit {0})
  refusal url allowed = pure tt
  refusal url (refused reason) = throw ("Request to " <> url <> " refused: " <> reason)

  -- `assertAllowed`
  unfoldable pub assert_allowed : String → Action Http (Unit {0})
  unfolding refusal
  assert_allowed url = refusal url (check_url runtime.parse_url url allow_insecure)

  unfoldable pub failed_request : String → Attempt Response → Attempt Response
  failed_request url (done response) = done response
  failed_request url (thrown cause) = thrown (error ("Request to " <> url <> " failed"))

  -- `fetchOrFail`
  unfoldable pub fetch_or_fail : String → RedirectMode → Action Http Response
  unfolding failed_request
  fetch_or_fail url mode (follows, w) =
      let (answer, w') = runtime.fetch url mode w in (failed_request url answer, (follows, w'))

  -- `discard`
  unfoldable pub discard : Response → Action Http (Unit {0})
  discard response (follows, w) = (done tt, (follows, runtime.cancel response w))

  abbrev set_follows : Action Http (Unit {0})
  set_follows (follows, w) = (done tt, (true, w))

  -- An opaque response is asked for again, with redirects followed.
  abbrev see_through : String → Response → Action Http Response
  see_through url response =
      if response.is_opaque_redirect then set_follows >> fetch_or_fail url follow else pure response

  abbrev mode_of : Bool → RedirectMode
  mode_of true = follow
  mode_of false = manual

  unfoldable pub request : String → Action Http Response
  request url w = (fetch_or_fail url (mode_of w.0) >>= see_through url) w

  -- `reached` and the response, where the loop stops
  abbrev pub Reached : Type 0
  Reached = Response × String

  -- The location to go on with; `none` where the loop stops.
  unfoldable pub next_location : Response → Bool → Option String
  next_location response follows =
      if follows || not (any (λ s. nat_eq s response.status) redirect_statuses)
      then none
      else response.headers "location"

  unfoldable pub go_on :
      (String → Action Http Reached) → String → Response → Option String → Action Http Reached
  go_on continue current response none = pure (response, current)
  go_on continue current response (some location) = discard response >> continue location

  unfoldable pub after_response :
      (String → Action Http Reached) → String → Response → Action Http Reached
  unfolding go_on next_location
  after_response continue current response w =
      go_on continue current response (next_location response w.0) w

  -- One round of the loop, given how it goes on from a location.
  unfoldable pub round : (String → Action Http Reached) → String → Action Http Reached
  unfolding after_response
  round continue current =
      (assert_allowed current >> request current) >>= after_response continue current

  unfoldable pub redirect_to :
      (String → Action Http Reached) → String → Option String → Action Http Reached
  redirect_to continue current none =
      throw ("Request to " <> current <> " refused: not a valid URL")
  redirect_to continue current (some next) = continue next

  unfoldable pub too_many : String → String → Action Http Reached
  too_many current location = throw ("Request to " <> current <> " refused: too many redirects")

  -- The loop, with as many redirects left.
  unfoldable pub follow_redirects : ℕ → String → Action Http Reached
  unfolding round redirect_to too_many
  follow_redirects zero current = round (too_many current) current
  follow_redirects (suc left) current =
      round
        (λ location.
          redirect_to (follow_redirects left) current (runtime.resolve_url location current))
        current

  -- `response.url || current`
  abbrev reached_url : Reached → String
  reached_url (response, current) = if is_nonempty response.url then response.url else current

  pub discard_on_refusal : Response → UrlCheck → String → Action Http (Unit {0})
  discard_on_refusal response allowed url = pure tt
  discard_on_refusal response (refused reason) url =
      discard response >> refusal url (refused reason)

  unfoldable pub assert_reached : Reached → Action Http (Unit {0})
  unfolding discard_on_refusal refusal
  assert_reached (response, current) =
      let reached = reached_url (response, current) in
      if reached == current
      then pure tt
      else discard_on_refusal response (check_url runtime.parse_url reached allow_insecure) reached

  -- `Number(response.headers.get('content-length'))`, where `Number(null)` is 0
  unfoldable pub declared_length : Option String → ℕ
  declared_length none = 0
  declared_length (some text) = or_else (runtime.content_length text) 0

  -- `readCapped`
  unfoldable pub read_capped : Response → String → Action Http String
  unfolding read_body declared_length
  read_capped response url =
      if ltb max_bytes (declared_length (response.headers "content-length"))
      then discard response >> (λ w. (thrown (too_large url max_bytes), w))
      else (λ w. (read_body url max_bytes response.body, w))

  -- `parseOnce`
  unfoldable pub parse_once : String → Json
  parse_once text = or_else (runtime.parse_json text) (str text)

  unfoldable pub read_result : Reached → Action Http HttpGetResult
  unfolding parse_once
  read_result (response, current) =
      read_capped response (reached_url (response, current)) >>= (λ text.
        pure
          (record { body = parse_once text; headers = response.headers; status = response.status }))

  unfoldable pub finish : Reached → Action Http HttpGetResult
  unfolding assert_reached read_result
  finish reached = assert_reached reached >> read_result reached

  -- `fetchWithinPolicy`
  unfoldable pub fetch_within_policy : String → Action Http HttpGetResult
  unfolding finish
  fetch_within_policy url = follow_redirects max_redirects url >>= finish
