-- ===== src/Protocols/Tcp.antt =====
-- internal/imposter/tcp_server.go: TCPMatcher.
pub mod Reading
pub mod Connection
use go_tartuffe.Prelude.{
  ℕ, Text, codes, is_blank, lookup, length, Bool, true, false, Option, none, some, List, [], ◌∷◌,
  ◌++◌, if◌then◌else◌, pos,
}
use go_tartuffe.Value.{Value, nil, text, object, entries, no_items}
use go_tartuffe.Models.Predicate.{Operators}
use go_tartuffe.Models.Stub.{
  Stub, Response, IsResponse, no_response, response, out_of_range, next_response,
}
use go_tartuffe.Matcher.Env.{Regex}
use go_tartuffe.Protocols.{equal_text, contains_text, starts_with_text, ends_with_text, first_stub}

-- The text that a value expects: that of its field `data`, "" for one that is no string, or its own.
unfoldable pub expected_data : Value → Option Text
expected_data (object fs) = elim (lookup (codes "data") (entries fs)) [
  | none ↦ none
  | some (text t) ↦ some t
  | some v ↦ some []
]
expected_data (text t) = some t
expected_data v = none

-- evaluateEquals, evaluateContains, evaluateStartsWith and evaluateEndsWith, by the test of two texts.
unfoldable pub evaluate_data : (Text → Text → Bool) → Value → Text → Bool
unfolding expected_data
evaluate_data test v bytes = elim (expected_data v) [ none ↦ false | some t ↦ test bytes t ]

-- &models.IsResponse{}
abbrev pub empty_response : IsResponse
empty_response = record {
  status_code = nil;
  status_message = [];
  headers = none;
  body = nil;
  payload = [];
  mode = [];
  proxy_response_time = pos 0;
  stream = no_items;
}

-- TCPMatchResult; `raw_response` is the whole response that `response` is a part of.
pub record TcpMatchResult : Type 0 where
  pub response : Option IsResponse
  pub raw_response : Option Response
  pub stub : Option Stub
  pub stub_index : ℕ

-- The regexp package, and the predicate scripts, which may fail.
module _ (compile : Text → Option Regex) (run_predicate : Text → Text → Option Bool) where
  -- evaluateMatches; an empty pattern does not match.
  unfoldable pub evaluate_matches : Value → Text → Bool
  unfolding expected_data
  evaluate_matches v bytes = elim (expected_data v) [
    | none ↦ false
    | some pattern ↦
        if is_blank pattern
        then false
        else elim (compile pattern) [ none ↦ false | some re ↦ re.match_string bytes ]
  ]

  -- The script comes before the logical operators; one that fails matches nothing.
  unfoldable pub evaluate_inject : Text → Operators → Option Bool
  evaluate_inject bytes ops =
      if is_blank ops.inject
      then none
      else elim (run_predicate ops.inject bytes) [ none ↦ some false | some b ↦ some b ]

  unfoldable pub evaluate_operators : Text → Operators → Bool
  unfolding evaluate_data evaluate_matches
  evaluate_operators bytes ops = elim ops.equals [
    | some v ↦ evaluate_data (equal_text ops.case_sensitive) v bytes
    | none ↦ elim ops.contains [
      | some v ↦ evaluate_data (contains_text ops.case_sensitive) v bytes
      | none ↦ elim ops.starts_with [
        | some v ↦ evaluate_data (starts_with_text ops.case_sensitive) v bytes
        | none ↦ elim ops.ends_with [
          | some v ↦ evaluate_data (ends_with_text ops.case_sensitive) v bytes
          | none ↦ elim ops.matches [ some v ↦ evaluate_matches v bytes | none ↦ true ]
        ]
      ]
    ]
  ]

  -- getMatchResult; `none` is the panic of NextResponse. The stub has its counters advanced.
  unfoldable pub get_match_result : Stub → ℕ → Option (TcpMatchResult × Stub)
  unfolding next_response
  get_match_result stub index =
      let (next, stub') = next_response stub in
      elim next [
        | out_of_range ↦ none
        | no_response ↦ some (
          record {
            response = some empty_response;
            raw_response = none;
            stub = some stub';
            stub_index = index;
          },
          stub',
        )
        | response r ↦ some (
          record { response = r.is; raw_response = some r; stub = some stub'; stub_index = index },
          stub',
        )
      ]

  abbrev default_is : Option Response → IsResponse
  default_is none = empty_response
  default_is (some r) = elim r.is [ some i ↦ i | none ↦ empty_response ]

  -- TCPMatcher.Match, with the default response of the imposter.
  unfoldable pub match_data :
      List Stub → Option Response → Text → Option (TcpMatchResult × List Stub)
  unfolding first_stub evaluate_inject evaluate_operators get_match_result
  match_data stubs default bytes =
      elim (first_stub (evaluate_inject bytes) (evaluate_operators bytes) stubs) [
        | none ↦ some (
          record {
            response = some (default_is default);
            raw_response = none;
            stub = none;
            stub_index = 0;
          },
          stubs,
        )
        | some (front, stub, after) ↦ elim (get_match_result stub (length front)) [
          | none ↦ none
          | some (result, stub') ↦ some (result, front ++ stub' ∷ after)
        ]
      ]
