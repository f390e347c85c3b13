-- ===== src/RegistryHandlers/Tests.antt =====
-- Concrete lookups in a recognition registry and in a federation.
use verifier_core.Shared.{
  ℕ, ◌+◌, ◌≤◌, ◌==◌, true, false, none, some, [], ◌∷◌, refl, if◌then◌else◌, ◌⊎◌,
}
use verifier_core.Json.{Json, str, num, obj, arr, nil, cons, field, end}
use verifier_core.Types.{done, HttpGetService, Headers}
use verifier_core.Samples.{platform, time_service, no_cache}
use verifier_core.Registry.{RegistryHandlerContext}
use verifier_core.Registry.IssuerCheck.{credential_issuer_id, issuer_id}
use verifier_core.RegistryHandlers.CacheTtl.{skip_spaces, allowance, parse_cache_control_max_age}
use verifier_core.RegistryHandlers.Jws.{
  JwsRuntime, put_first, split_dots, same_value, objects, keys_of, jwk_set_keys, alg_of, candidates,
  as_fields, assemble, decode_segments, decode_jws, verify_with_jwk, try_keys, verify_keys,
  verify_parts, verify_jws, decode_second, jwt_decode_payload,
}
use verifier_core.RegistryHandlers.Oidf.{
  instant, trim_end, body_to_jwt, number_after, numeric_date, unexpired, unexpired_numeric_date,
  nonempty_text, get_federation_fetch_endpoint, configuration_of, judge_configuration,
  judge_statement, verify_decoded, verify_entity_configuration, verify_subordinate_statement,
  get_verified_entity_configuration, lookup_oidf, ttl_bounded_by_exp,
}
use verifier_core.RegistryHandlers.Oidf.Statement.{ttl_bounded_by_exp-within}
use verifier_core.RegistryHandlers.Oidf.Lookup.{IsMember, lookup_oidf-IsMember}
use verifier_core.RegistryHandlers.VcRecognition.{
  Verifies, load, find_subject_entry, entity_from_entry, judge_entry, judge_credential,
  load_recognition, answer_recognition, lookup_vc_recognition,
}
use verifier_core.RegistryHandlers.VcRecognition.Recognized.{
  IsCached, IsRecognized, lookup_vc_recognition-found,
}

abbrev recognition : Json
recognition = obj (
    field "issuer" (str "did:example:registrar") (
      field "credentialSubject"
        (obj (field "id" (str "did:example:school") (field "name" (str "School") end))) end))

abbrev serving : Json → HttpGetService ℕ
serving body = record {
  get = λ url w.
      (done (record { body = body; headers = λ name. some "public, max-age=60"; status = 200 }), w);
}

abbrev verifies : Verifies ℕ
verifies call w = (
  done (record {
    verified = true;
    verifiable_credential = call.credential;
    normalized_verifiable_credential = none;
    recognized_profile = none;
    results = [];
    summary = [];
    partial = none;
    timing = none;
  }),
  w,
)

abbrev recognition_context : RegistryHandlerContext ℕ (Verifies ℕ)
recognition_context = record {
  http_get_service = serving recognition;
  cache_service = no_cache;
  time_service = time_service;
  verifier = done verifies;
}

lookup_vc_recognition-found_example :
    IsCached platform recognition_context "did:example:school" "https://a.example/r"
      (some (record {
        name = some "School";
        url = none;
        raw = some (obj (field "id" (str "did:example:school") (field "name" (str "School") end)));
      }))
      0
    ⊎ IsRecognized platform recognition_context verifies "https://a.example/r"
        ("did:example:registrar" ∷ [])
        "did:example:school"
        (some (record {
          name = some "School";
          url = none;
          raw =
              some (obj (field "id" (str "did:example:school") (field "name" (str "School") end)));
        }))
        0
unfolding load find_subject_entry entity_from_entry judge_entry judge_credential load_recognition
    answer_recognition lookup_vc_recognition credential_issuer_id issuer_id
lookup_vc_recognition-found_example =
    lookup_vc_recognition-found platform recognition_context verifies "R" "https://a.example/r"
      ("did:example:registrar" ∷ []) "did:example:school" _ 0 refl refl

-- A federation of one member: the anchor itself.
abbrev statement : Json
statement = obj (
    field "iss" (str "did:example:anchor") (
      field "sub" (str "did:example:anchor") (
        field "exp" (num 2000000000) (
          field "jwks"
            (obj (
              field "keys"
                (arr (cons (obj (field "kty" (str "EC") (field "crv" (str "P-256") end))) nil))
                end))
            (field "metadata"
              (obj (
                field "federation_entity"
                  (obj (field "federation_fetch_endpoint" (str "https://a.example/fetch") end))
                  end))
              end)))))

abbrev header : Json
header = obj (field "alg" (str "ES256") (field "typ" (str "entity-statement+jwt") end))

abbrev runtime : JwsRuntime ℕ
runtime = record {
  decode_json = λ segment. some (if segment == "h" then header else statement);
  decode_bytes = λ segment. some [];
  verify_es256 = λ kty crv x y text signature w. (done true, w);
  verify_ed25519 = λ x text signature w. (done false, w);
}

abbrev federation_context : RegistryHandlerContext ℕ (Verifies ℕ)
federation_context = record recognition_context { http_get_service = serving (str "h.p.s") }

lookup_oidf-IsMember_example :
    IsMember runtime
      (λ endpoint did. some endpoint)
      federation_context
      "did:example:anchor"
      "https://a.example/ec"
      7
      8
unfolding put_first split_dots same_value objects keys_of jwk_set_keys alg_of candidates as_fields
    assemble decode_segments decode_jws verify_with_jwk try_keys verify_keys verify_parts verify_jws
    decode_second jwt_decode_payload trim_end body_to_jwt number_after numeric_date unexpired
    unexpired_numeric_date nonempty_text get_federation_fetch_endpoint configuration_of
    judge_configuration judge_statement verify_decoded verify_entity_configuration
    verify_subordinate_statement get_verified_entity_configuration lookup_oidf skip_spaces
lookup_oidf-IsMember_example =
    lookup_oidf-IsMember runtime (λ endpoint did. some endpoint) federation_context
      "did:example:anchor" "F" "https://a.example/ec" none 7 refl

abbrev headers : Headers
headers name = some "max-age=60"

ttl_bounded_by_exp-within_example :
    (1 ≤ ttl_bounded_by_exp headers 100 (instant 90))
    × (instant 90 + ttl_bounded_by_exp headers 100 (instant 90) ≤ instant 100)
    × (ttl_bounded_by_exp headers 100 (instant 90)
        ≤ allowance (parse_cache_control_max_age headers))
unfolding unexpired_numeric_date numeric_date unexpired
ttl_bounded_by_exp-within_example =
    ttl_bounded_by_exp-within headers (some (num 100)) (instant 90) 100 refl
