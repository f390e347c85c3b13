-- ===== src/Lib.antt =====
-- Verification of the core of verifier-core, a library that verifies W3C Verifiable Credentials and
-- Presentations.
--
-- The program. `createVerifier` (src/verifier.ts) returns an object with `verifyCredential` and
-- `verifyPresentation`. Each parses the envelope (src/schemas), builds a context, and gives a list of
-- suites to `runSuites` (src/run-suites.ts), which runs their checks in order and returns one row for
-- each. A fatal check that fails halts the rest of the subject. `foldCheckResults` (src/fold-results.ts)
-- groups the rows into one summary per suite. The checks themselves call services: the signature check
-- dispatches each proof to a crypto service (src/crypto-dispatch.ts), the registry check asks
-- `lookupIssuers` (src/services/registry-lookup.ts), which caches its results
-- (src/services/cache-service) and asks a handler for each registry (src/services/registry-handlers), and the
-- status check asks the bitstring status list library, handing it a hook that verifies each list.
--
-- Which file models which part.
--   Shared: Boolean tests, lists, text, integers and dictionaries over the native numbers.
--   Json: the JavaScript values that the code reads out of `unknown`; src/util/json-shape.ts and
--     src/util/error-message.ts.
--   Types: the records and unions of src/types.
--   Schemas: src/schemas, as the verdict and the messages of the gate.
--   RunSuites: src/run-suites.ts and src/util/check-applies.ts; `runSuites` is `run_suites`, its two loops
--     are `run_loop` and `run_checks`. Rows, Halting, Halted, FailClosed and Phases hold proofs.
--   Fold: src/fold-results.ts; Grouping, Counting and Verdict hold proofs.
--   Verifier: src/verifier.ts. Synthetic has the rows that the verifier builds itself, Verify the two
--     calls; its children Gate, Verdict, FailClosed and CoreChecks hold proofs. Flatten is
--     src/flatten-presentation-results.ts.
--   CryptoDispatch: src/crypto-dispatch.ts and src/util/document-has-proof.ts; Unsupported is
--     src/suites/proof/unsupported-proofs-check.ts, Combine holds proofs.
--   ProofSuite: src/suites/proof/signature-check.ts and validity-period-check.ts.
--   VcContexts: src/util/vc-contexts.ts.
--   Core: src/suites/core. Pointer is src/util/json-pointer.ts, Rules structure-helpers.ts, Checks the four
--     small checks, Structure the two structure checks, Suite index.ts. Conforms says the rules of the
--     structure checks again without pointers and messages; Pointer/RoundTrip, Checks/Verdicts and
--     Structure/Conformance hold proofs. Verifier/Verify/CoreChecks puts the suite into the verifier.
--   Status: src/suites/status. Lists is status-lists.ts, Bitstring bitstring-status-check.ts, ListIssuer
--     list-issuer-check.ts and index.ts, Sorting the part of bitstring-status-check.ts that sorts the
--     entries; their children hold proofs.
--   RegistryHandlers: src/services/registry-handlers. CacheTtl, DccLegacy, VcRecognition, Jws and Oidf are the
--     files of these names, Jws with jwt-payload-decode.ts; Answer has what the handlers share. Grounds,
--     Recognized, Signed, Origin, Configuration, Statement and Lookup hold proofs.
--   HttpGet: src/services/http-get-service. UrlPolicy is url-policy.ts, Builtin
--     builtin-http-get-service.ts; UrlPolicy/Ranges, Builtin/Requests and
--     Builtin/Answers hold proofs.
--   OpenBadges: the tolerant shapes, the four semantic checks and their suite of src/openbadges;
--     Described and Failures hold proofs.
--   Recognition: src/suites/recognition and src/suites/trust.
--   Cache: src/services/cache-service/in-memory-cache-service.ts; View has what readers see of it.
--   Registry: src/services/registry-lookup.ts; Key has the cache key, Walk and Caching hold proofs,
--     IssuerCheck is src/suites/registry/issuer-registry-check.ts with src/util/issuer-id.ts.
--   Samples has values for the modules named Tests, which hold runs on concrete input.
--
-- How the code is modelled. Names are the source's in snake case. An asynchronous function takes the
-- world, a type `W` that stays a parameter, and returns its result with the next world; a function
-- that may reject returns an `Attempt`, and a rejection keeps what was done to the world. A loop that
-- pushes to an array is a structural recursion that returns what it pushes, so no loop needs fuel; the
-- loop over redirects is a recursion on the redirects left. `Promise.all` over proofs is one dispatch
-- after the other. A `Map` is its list of entries in insertion order. `undefined` is `none`; where the
-- code treats `null` alike, so is `null`. An instant is a count of milliseconds from the earliest
-- instant of a `Date`, so it is a natural number; a duration is an integer.
--
-- Parameters. The suites that the verifier assembles, the crypto services, the document loader, the
-- HTTP service, the registry handlers and the cache behind its interface are arguments, since they are
-- chosen by the caller. `Platform` stands for the runtime's clocks and dates, `JsonRuntime` for
-- `JSON.stringify` and `sort`, `TextTests` for what `new URL` and the dateTime pattern of
-- `@interop/vc` accept, `CheckStatus` for `checkStatus` of `@interop/vc-bitstring-status-list`,
-- `JwsRuntime` for the base64url decoder and the key packages, `HttpRuntime` for `fetch`, the URL
-- parser and `JSON.parse`. `StatusStore` is the module's map of verified lists: a place of the world
-- that can be read and written.
--
-- Not modelled: the adapters over the signature and document loader libraries, and of the OpenBadges
-- module the strict schemas, the recognizers and the JSON schemas. The memo by which the proof checks
-- share one dispatch is left out: the signature check dispatches anew, and the check on unsupported
-- proofs takes the verdict as an argument. So is the deadline of the HTTP service, a race against a
-- timer. Of an entry of a registry's list only a name and a homepage that are texts are kept. Numbers
-- of a JSON document are natural numbers: an `exp` that is negative or has a fraction is left out, and
-- so is the rounding of numbers from 2^53 on. A call of `fetch` in `follow` mode is one step of the
-- runtime, whose own hops are not seen.
pub mod Shared
pub mod Json
pub mod Types
pub mod Fold
pub mod RunSuites
pub mod VcContexts
pub mod Core
pub mod Status
pub mod RegistryHandlers
pub mod HttpGet
pub mod Recognition
pub mod OpenBadges
pub mod Schemas
pub mod Verifier
pub mod Cache
pub mod Registry
pub mod CryptoDispatch
pub mod ProofSuite
pub mod Samples
