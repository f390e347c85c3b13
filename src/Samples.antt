-- ===== src/Samples.antt =====
-- Sample values for the tests. The world of the samples is a number: the clocks read it, and what
-- runs adds to it.
use verifier_core.Shared.{ℕ, ◌+◌, String, Bool, true, Option, none, some, List, [], ◌∷◌}
use verifier_core.Json.{Json, null, str, arr, obj, nil, cons, end, field}
use text.Mathlib.Text.{starts_with}
use verifier_core.Types.{
  TextTests, Attempt, done, thrown, TimeService, Platform, ProblemDetail, problem,
  VerificationSubject, accepted, CryptoService, HttpGetService, CacheService, VerificationContext,
  CheckOutcome, success, failure, SuitePhase, VerificationCheck, VerificationSuite,
}

abbrev pub time_service : TimeService ℕ
time_service = record { date_now_ms = λ w. (w, w + 1); performance_now_ms = λ w. (w, w + 1) }

abbrev pub platform : Platform ℕ
platform = record { clock = time_service; to_iso_string = λ n. "date"; parse_date = λ s. some 5 }

abbrev pub http : HttpGetService ℕ
http = record {
  get = λ url w. (done (record { body = null; headers = λ name. none; status = 200 }), w + 1);
}

-- A cache that stores nothing.
abbrev pub no_cache : CacheService ℕ
no_cache = record { get = λ key w. (done none, w); set = λ key v ttl w. (done tt, w) }

abbrev pub accepting : CryptoService ℕ
accepting = record {
  can_verify = λ s. done true;
  verify_credential = λ d o w. (done (accepted none), w + 1);
  verify_presentation = λ d o w. (done (accepted none), w + 1);
}

abbrev pub context : VerificationContext ℕ
context = record {
  document_loader = λ url w. (done null, w);
  http_get_service = none;
  cache_service = none;
  crypto_services = accepting ∷ [];
  registries = none;
  lookup_issuers = none;
  challenge = none;
  domain = none;
  unsigned_presentation = none;
  recognizers = none;
  time_service = none;
  now = 5;
  timing = none;
}

abbrev sample_problem : ProblemDetail
sample_problem = problem "t" "T" "d"

abbrev pub rejecting : CheckOutcome
rejecting = failure (sample_problem ∷ []) none

abbrev check_of : String → Option Bool → Attempt CheckOutcome → VerificationCheck ℕ
check_of id fatal outcome = record {
  id = id;
  name = id;
  description = none;
  applies_to = none;
  fatal = fatal;
  halts = none;
  execute = λ s c w. (outcome, w + 1);
}

abbrev pub good : VerificationCheck ℕ
good = check_of "good" none (done (success "ok" none))

abbrev pub bad : VerificationCheck ℕ
bad = check_of "bad" (some true) (done rejecting)

abbrev pub suite_of : String → List (VerificationCheck ℕ) → VerificationSuite ℕ
suite_of id checks = record {
  id = id;
  name = id;
  description = none;
  checks = checks;
  applies = none;
  phase = some SuitePhase.cryptographic;
}

abbrev pub failing_suite : VerificationSuite ℕ
failing_suite = suite_of "first" (good ∷ bad ∷ good ∷ [])

abbrev pub passing_suite : VerificationSuite ℕ
passing_suite = suite_of "second" (good ∷ [])

-- A suite whose predicate throws, with a fatal check.
abbrev pub throwing_suite : VerificationSuite ℕ
throwing_suite = record failing_suite { applies = some (λ s c. thrown (str "broken")) }

abbrev pub credential : Json
credential = obj (
    field "@context" (str "https://www.w3.org/ns/credentials/v2") (
      field "type" (str "VerifiableCredential") (
        field "issuer" (str "did:example:issuer") (
          field "credentialSubject" (obj end) (
            field "validFrom" (str "2020")
              (field "validUntil" (str "2030") (field "proof" (obj end) end)))))))

abbrev pub text_tests : TextTests
text_tests = record { accepts_url = λ s. starts_with s "https:"; is_date_time = λ s. true }

-- A credential that the core suite accepts.
abbrev pub well_formed : Json
well_formed = obj (
    field "@context" (str "https://www.w3.org/ns/credentials/v2") (
      field "type" (str "VerifiableCredential") (
        field "issuer" (str "https://a.example") (
          field "credentialSubject" (obj (field "name" (str "x") end))
            (field "proof" (obj (field "type" (str "DataIntegrityProof") end)) end)))))

abbrev pub presentation : Json
presentation = obj (
    field "@context" (str "https://www.w3.org/ns/credentials/v2") (
      field "type" (str "VerifiablePresentation")
        (field "verifiableCredential" (arr (cons credential nil)) end)))

abbrev pub subject : VerificationSubject
subject = record { verifiable_credential = some credential; verifiable_presentation = none }
