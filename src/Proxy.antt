-- ===== src/Proxy.antt =====
-- internal/imposter/proxy.go: the data of a proxied request, and the calls outside the repository.
pub mod Predicates
pub mod Recording
pub mod Binary
pub mod Forwarding
use go_tartuffe.Prelude.{ℕ, Text, Assoc, Bool, Option, List, ℤ}
use go_tartuffe.Value.{Value}
use go_tartuffe.Models.Request.{Request}
use go_tartuffe.Models.Stub.{IsResponse, Stub}

-- Regexp.FindString of a pattern (`none` if it does not compile), the JavaScript engine on a predicate
-- generator (`none` on an error), and an int as a dynamic value.
pub record Generation : Type 0 where
  pub find_string : Text → Option (Text → Text)
  pub execute_generator : Text → Request → Option Value
  pub int_value : ℤ → Value

-- Package net/url: a URL with its path resolved, its raw query, and the keys and values of a query.
pub record Urls (U Q : Type 0) : Type 0 where
  pub parse : Text → Option U
  pub resolve_path : Text → U → U
  pub with_raw_query : Text → U → U
  pub query : U → Q
  pub set : Text → Text → Q → Q
  pub encode : Q → Text
  pub url_text : U → Text

-- http.Header: the values under canonical keys.
abbrev pub Headers : Type 0
Headers = Assoc (List Text)

pub record ProxyRequest : Type 0 where
  pub method : Text
  pub url : Text
  pub body : Text
  pub headers : Headers
  pub host : Option Text

pub record Reply : Type 0 where
  pub status_code : ℤ
  pub headers : Headers
  pub body : Text

-- What the HTTP client gives, the reply with the milliseconds that it took.
pub data Exchange : Type 0 where
  replied : Reply → ℤ → Exchange
  unresolved : Exchange
  unreachable : Exchange
  request_failed : Exchange
  unread : Exchange

-- Package net/http, encoding/base64, encoding/json and unicode/utf8.
pub record Network : Type 0 where
  pub canonical : Text → Text
  pub is_request : Text → Text → Bool
  pub exchange : ProxyRequest → Exchange
  pub decode_base64 : Text → Option Text
  pub encode_base64 : Text → Text
  pub unmarshal : Text → Option Value
  pub is_utf8 : Text → Bool

-- ProxyResult
pub record ProxyResult : Type 0 where
  pub response : IsResponse
  pub generated_stub : Option Stub
  pub should_record : Bool

pub data ProxyOutcome : Type 0 where
  proxied : ProxyResult → ProxyOutcome
  bad_url : ProxyOutcome
  bad_request : ProxyOutcome
  cannot_resolve : Text → ProxyOutcome
  cannot_connect : Text → ProxyOutcome
  proxy_failed : ProxyOutcome
