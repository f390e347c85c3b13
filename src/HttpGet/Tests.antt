-- ===== src/HttpGet/Tests.antt =====
-- A redirect that is followed, from one host to another.
use verifier_core.Shared.{
  ℕ, String, true, false, Option, none, some, List, [], ◌∷◌, ◌≡◌, refl, ◌==◌, length, all,
  if◌then◌else◌,
}
use verifier_core.Types.{done}
use verifier_core.HttpGet.UrlPolicy.{
  ParsedUrl, check_url, check_parsed, check_host, judged_host, lower_case, is_ipv4_literal,
  is_octet, split_on, is_decimal, put_first, ipv4_to_int, from_octets, number_after, check_ipv4,
  check_blocked, digit_value,
}
use verifier_core.Json.{str}
use verifier_core.HttpGet.Builtin.{
  unit_length, whole, HttpRuntime, fetch_within_policy, finish, read_result, assert_reached,
  refusal, assert_allowed, request, fetch_or_fail, failed_request, round, after_response, go_on,
  next_location, redirect_to, follow_redirects, too_many, read_capped, read_body, declared_length,
  parse_once, discard,
}
use verifier_core.HttpGet.Builtin.Answers.{IsAnswer, fetch_within_policy-IsAnswer}
use verifier_core.HttpGet.Builtin.Requests.{is_permitted}

-- The world is the list of the URLs asked for.
abbrev World : Type 0
World = List String

abbrev parse : String → Option ParsedUrl
parse url =
    some (record {
      protocol = "https:";
      hostname = if url == "a" then "a.example" else "93.184.216.34";
    })

abbrev runtime : HttpRuntime World
runtime = record {
  fetch = λ url mode w. (
    done (record {
      is_opaque_redirect = false;
      status = if url == "a" then 302 else 200;
      headers = λ name. if name == "location" then some "b" else none;
      url = url;
      body = whole "text";
    }),
    url ∷ w,
  );
  cancel = λ response w. w;
  parse_url = parse;
  resolve_url = λ location base. some location;
  content_length = λ text. none;
  parse_json = λ text. none;
}

-- So many calls were made, all of them for permitted URLs.
abbrev IsLog : ℕ → World → Type 0
IsLog n w = (length w ≡ n) × (all (is_permitted parse false) w ≡ true)

fetch_within_policy-IsAnswer_example : IsAnswer runtime 1000 false (record {
  body = str "text";
  headers = λ name. if name == "location" then some "b" else none;
  status = 200;
})
unfolding unit_length fetch_within_policy finish read_result assert_reached refusal assert_allowed
    request fetch_or_fail failed_request round after_response go_on next_location redirect_to
    follow_redirects too_many read_capped read_body declared_length parse_once discard check_url
    check_parsed check_host judged_host lower_case is_ipv4_literal is_octet split_on is_decimal
    put_first ipv4_to_int from_octets number_after check_ipv4 check_blocked digit_value
fetch_within_policy-IsAnswer_example =
    fetch_within_policy-IsAnswer runtime 1000 false "a" _ (false, []) refl
