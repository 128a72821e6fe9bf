-- ===== src/Tests.antt =====
-- Concrete stubs, imposters, requests and sessions, with runs of the definitions on them and the
-- theorems applied to them.
pub mod MatcherRuns
pub mod StoreRuns
pub mod ServerRuns
pub mod SelectorRuns
pub mod ConnectionRuns
pub mod FileRuns
pub mod ProxyRuns
pub mod ApiRuns
use go_tartuffe.Prelude.{
  ℕ, suc, Text, codes, text_eq, Bool, true, false, Option, none, some, List, [], ◌∷◌, ℤ, pos,
  negsuc,
}
use go_tartuffe.Value.{Value, nil, number, text, object, Fields, no_fields, field}
use go_tartuffe.Models.Request.{Request}
use go_tartuffe.Models.Predicate.{Operators, Predicate, predicate, unset, no_negation}
use go_tartuffe.Models.Stub.{Response, Stub}
use go_tartuffe.Models.Imposter.{Imposter}
use go_tartuffe.Matcher.Env.{Regex, Env, PredicateOptions}
use go_tartuffe.Matcher.Evaluate.{Engine}

-- Patterns without metacharacters, a body that is one known document, nothing else printable.
abbrev pub literal_regex : Text → Regex
literal_regex p = record { match_string = text_eq p; replace_all_string = λ s t. s }

abbrev pub document : Value
document = object (field (codes "name") (text (codes "Ann")) (field (codes "tags") nil no_fields))

abbrev pub parse_document : Text → Option Value
parse_document [] = none
parse_document (c ∷ s) = some document

abbrev pub test_env : Env
test_env = record {
  compile = λ p. some (literal_regex p);
  unmarshal = parse_document;
  sprint = λ v. codes "value";
  marshal_indent = λ v. none;
}

-- Every script accepts and counts its runs; no selector selects.
abbrev pub test_engine : Engine ℕ
test_engine = record {
  execute_predicate = λ script req n. (some true, suc n);
  apply_jsonpath = λ body selector sensitive. none;
  apply_xpath = λ body selector. none;
}

abbrev pub options : PredicateOptions
options = record { case_sensitive = false; key_case_sensitive = false; except = [] }

abbrev pub request_to : Text → Text → Request
request_to path body = record {
  request_from = [];
  method = codes "GET";
  path = path;
  query = none;
  raw_query = [];
  headers = none;
  body = body;
  form = none;
  ip = [];
  timestamp = [];
  mode = codes "text";
}

abbrev pub no_operators : Operators
no_operators = record {
  equals = none;
  deep_equals = none;
  contains = none;
  starts_with = none;
  ends_with = none;
  matches = none;
  exists = none;
  inject = [];
  case_sensitive = false;
  key_case_sensitive = false;
  except = [];
  xpath = none;
  jsonpath = none;
}

abbrev pub path_equals : Text → Predicate
path_equals path =
    predicate unset unset no_negation
      (record no_operators { equals = some (object (field (codes "path") (text path) no_fields)) })

abbrev pub response_with : Text → ℤ → Response
response_with script repeat = record {
  is = none;
  proxy = none;
  inject = script;
  fault = [];
  repeat = repeat;
  behaviors = [];
  is_shorthand = false;
}

abbrev pub stub_of : List Predicate → List Response → Bool → Stub
stub_of ps rs generated = record {
  predicates = ps;
  responses = rs;
  links = none;
  response_index = 0;
  repeat_count = 0;
  is_proxy_generated = generated;
}

abbrev pub imposter_on : ℤ → List Stub → Imposter
imposter_on port stubs = record {
  port = port;
  protocol = codes "http";
  name = [];
  host = [];
  mode = codes "text";
  record_requests = true;
  allow_cors = false;
  stubs = stubs;
  default_response = none;
  requests = [];
  tcp_requests = [];
  smtp_requests = [];
  grpc_requests = [];
  number_of_requests = some (pos 0);
}
