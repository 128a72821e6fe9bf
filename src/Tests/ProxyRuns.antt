-- ===== src/Tests/ProxyRuns.antt =====
-- internal/imposter/proxy.go: the theorems on a proxy to a server that greets.
use go_tartuffe.Prelude.{
  Text, codes, text_eq, true, false, none, some, [], ◌∷◌, ◌++◌, map, lookup, pos, ◌≡◌, refl,
  to_lower, lower, equal_fold,
}
use go_tartuffe.Value.{number, text, object, no_fields, field, to_string}
use go_tartuffe.Models.Request.{Request}
use go_tartuffe.Models.Stub.{Stub, ProxyResponse, PredicateGen}
use go_tartuffe.Matcher.Env.{same_text, apply_except}
use go_tartuffe.Matcher.Fields.{request_field}
use go_tartuffe.Matcher.Compare.{compare_values}
use go_tartuffe.Matcher.Evaluate.{
  matches_all_predicates, evaluate_predicate, evaluate_operators, evaluate_equals,
}
use go_tartuffe.Matcher.Match.{find_stub}
use go_tartuffe.Serving.ProxyStubs.{mode_of, record_proxy_stub}
use go_tartuffe.Proxy.{Generation, Urls, Network, Reply, replied, ProxyResult, proxied}
use go_tartuffe.Proxy.Predicates.{generate_predicates, get_field_value, extract_with_pattern}
use go_tartuffe.Proxy.Recording.Partial.{generate_predicates-partial}
use go_tartuffe.Proxy.Recording.Matching.{ArePlain}
use go_tartuffe.Proxy.Recording.Answering.{execute_proxy-answers}
use go_tartuffe.Proxy.Forwarding.{
  execute_proxy, result_of, build_target_url, outcome_of, proxy_request,
}
use go_tartuffe.Proxy.Forwarding.HopByHop.{proxy_request-hop_by_hop}
use go_tartuffe.Tests.{test_env, test_engine, path_equals, request_to, stub_of}

-- A pattern finds the letter "a" only.
abbrev generation : Generation
generation = record {
  find_string = λ p. some (λ t. codes "a");
  execute_generator = λ script req. none;
  int_value = λ n. number 0;
}

-- A URL is its text, and a query the text of its keys and values.
abbrev urls : Urls Text Text
urls = record {
  parse = λ t. some t;
  resolve_path = λ path u. u ++ path;
  with_raw_query = λ q u. u ++ codes "?" ++ q;
  query = λ u. [];
  set = λ k v q. q ++ k ++ v;
  encode = λ q. q;
  url_text = λ u. u;
}

abbrev greeting : Reply
greeting = record { status_code = pos 200; headers = []; body = codes "hello" }

abbrev network : Network
network = record {
  canonical = to_lower;
  is_request = λ method url. true;
  exchange = λ r. replied greeting (pos 5);
  decode_base64 = λ t. none;
  encode_base64 = λ t. t;
  unmarshal = λ t. none;
  is_utf8 = λ t. true;
}

abbrev proxy : ProxyResponse
proxy = record {
  to = codes "http://localhost:8080";
  mode = [];
  predicate_generators = [];
  add_wait_behavior = false;
  add_decorate_behavior = [];
  inject_headers = (codes "Connection", codes "close") ∷ [];
  cert = [];
  key = [];
  ciphers = [];
  secure_protocol = [];
}

abbrev request : Request
request = request_to (codes "/a") []

abbrev home : Stub
home = stub_of (path_equals (codes "/home") ∷ []) [] false

abbrev forwarding : Stub
forwarding = stub_of [] [] false

abbrev outcome : ProxyResult
outcome = result_of network generation request proxy greeting (pos 5)

forwarded : execute_proxy network urls generation request proxy none ≡ proxied outcome
unfolding execute_proxy build_target_url outcome_of
forwarded = refl

execute_proxy-answers_example :
    (stub : Stub) × (outcome.generated_stub ≡ some stub)
    × (map (λ r. r.is) stub.responses ≡ some outcome.response ∷ [])
    × (find_stub test_env test_engine
          (record_proxy_stub (λ ps. none) (some proxy) (pos 1) stub (home ∷ forwarding ∷ []))
          request
          0
        ≡ (some (home ∷ [], record stub { is_proxy_generated = true }, forwarding ∷ []), 0))
unfolding mode_of matches_all_predicates evaluate_predicate evaluate_operators evaluate_equals
    compare_values to_string request_field text_eq to_lower lower same_text equal_fold apply_except
    ArePlain
execute_proxy-answers_example =
    execute_proxy-answers network urls generation request proxy none outcome forwarded test_env
      test_engine (λ ps. none) (home ∷ []) [] forwarding 0 0 refl (tt, tt) tt (refl, refl)

-- The path is expected to be a part of itself.
abbrev by_pattern : PredicateGen
by_pattern = record {
  matches = object (field (codes "path") (text (codes "a")) no_fields);
  inject = [];
  case_sensitive = false;
  xpath = none;
  jsonpath = none;
}

generate_predicates-partial_example :
    matches_all_predicates test_env test_engine
      (generate_predicates generation request (by_pattern ∷ []))
      request
      0
    ≡ (false, 0)
unfolding get_field_value extract_with_pattern text_eq to_lower lower same_text equal_fold
generate_predicates-partial_example =
    generate_predicates-partial generation request (codes "path") (codes "a") (codes "/a")
      (codes "a") refl refl test_env test_engine by_pattern 0 refl refl refl

proxy_request-hop_by_hop_example :
    lookup
      (to_lower (codes "connection"))
      (proxy_request network request proxy (codes "http://localhost:8080/a")).headers
    ≡ none
unfolding text_eq
proxy_request-hop_by_hop_example =
    proxy_request-hop_by_hop network request proxy (codes "http://localhost:8080/a")
      (codes "connection") refl
