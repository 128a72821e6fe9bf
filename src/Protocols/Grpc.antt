-- ===== src/Protocols/Grpc.antt =====
-- internal/imposter/grpc_matcher.go: GRPCMatcher.
pub mod Nested
use go_tartuffe.Prelude.{
  ℕ, Text, Assoc, codes, text_eq, is_blank, has_prefix, drop, split, lookup, length, Bool, true,
  false, not, ◌&&◌, Option, none, some, List, [], ◌∷◌, ◌++◌, if◌then◌else◌,
}
use go_tartuffe.Value.{
  Value, nil, boolean, number, text, array, object, text_map, Fields, entries, bool_eq, deep_equal,
}
use go_tartuffe.Models.Predicate.{Predicate, Operators}
use go_tartuffe.Models.Imposter.{GrpcRequest}
use go_tartuffe.Models.Stub.{
  Stub, Response, IsResponse, Behavior, Next, no_response, response, out_of_range, next_response,
}
use go_tartuffe.Matcher.Env.{Regex}
use go_tartuffe.Matcher.Evaluate.{all_fields}
use go_tartuffe.Protocols.{equal_text, contains_text, starts_with_text, ends_with_text, first_stub}
use go_tartuffe.Protocols.Tcp.{empty_response}

-- What getFieldValue gives: a value, several texts of one key of the metadata, or all metadata.
pub data Found : Type 0 where
  value : Value → Found
  texts : List Text → Found
  metadata : Assoc (List Text) → Found

-- encoding/json and the regexp package.
pub record Library : Type 0 where
  pub marshal : Value → Option Text
  pub marshal_texts : List Text → Text
  pub marshal_metadata : Assoc (List Text) → Text
  pub compile : Text → Option Regex

-- The loop of getNestedValue over the parts of a path.
unfoldable pub nested_from : Value → List Text → Value
nested_from v [] = v
nested_from (object fs) (part ∷ parts) = elim (lookup part (entries fs)) [
  | none ↦ nil
  | some v ↦ nested_from v parts
]
nested_from v (part ∷ parts) = nil

-- getNestedValue, of a map that is not nil.
unfoldable pub get_nested_value : Fields → Text → Value
unfolding nested_from
get_nested_value message path = nested_from (object message) (split path (codes "."))

-- The values of a key of the metadata: none, one as a text, or several.
unfoldable pub metadata_value : Text → Assoc (List Text) → Found
metadata_value key m = elim (lookup key m) [
  | none ↦ value nil
  | some [] ↦ value nil
  | some (t ∷ []) ↦ value (text t)
  | some (t ∷ u ∷ ts) ↦ texts (t ∷ u ∷ ts)
]

-- getFieldValue
unfoldable pub get_field_value : GrpcRequest → Text → Found
unfolding get_nested_value metadata_value
get_field_value req name =
    if text_eq name (codes "service")
    then value (text req.service)
    else if text_eq name (codes "method")
    then value (text req.method)
    else if text_eq name (codes "message")
    then value (object req.message)
    else if text_eq name (codes "metadata")
    then metadata req.metadata
    else if has_prefix name (codes "message.")
    then value (get_nested_value req.message (drop 8 name))
    else if has_prefix name (codes "metadata.")
    then metadata_value (drop 9 name) req.metadata
    else value (get_nested_value req.message name)

-- fieldExists: the value is not nil.
unfoldable pub field_exists : GrpcRequest → Text → Bool
unfolding get_field_value
field_exists req name = elim (get_field_value req name) [ value nil ↦ false | _ ↦ true ]

-- evaluateDeepEquals of one field: lists and maps of texts are of another type than parsed JSON.
unfoldable pub deep_equal_found : Found → Value → Bool
deep_equal_found (value v) expected = deep_equal v expected
deep_equal_found (texts ts) expected = false
deep_equal_found (metadata m) expected = false

unfoldable pub evaluate_deep_equals : Value → GrpcRequest → Bool
unfolding get_field_value deep_equal_found all_fields
evaluate_deep_equals (object fs) req =
    all_fields (λ name expected. deep_equal_found (get_field_value req name) expected) fs
evaluate_deep_equals v req = false

-- evaluateExists; a value that is no boolean expects the field to be missing.
unfoldable pub evaluate_exists : Value → GrpcRequest → Bool
unfolding field_exists all_fields bool_eq
evaluate_exists (object fs) req =
    all_fields
      (λ name expected.
        bool_eq (field_exists req name) (elim expected [ boolean b ↦ b | _ ↦ false ]))
      fs
evaluate_exists v req = false

module _ (lib : Library) where
  -- grpcToString; a value that cannot be printed gives "".
  unfoldable pub grpc_to_string : Value → Text
  grpc_to_string nil = []
  grpc_to_string (text t) = t
  grpc_to_string v = elim (lib.marshal v) [ none ↦ [] | some t ↦ t ]

  unfoldable pub found_text : Found → Text
  unfolding grpc_to_string
  found_text (value v) = grpc_to_string v
  found_text (texts ts) = lib.marshal_texts ts
  found_text (metadata m) = lib.marshal_metadata m

  -- evaluateEquals, evaluateContains, evaluateStartsWith, evaluateEndsWith and evaluateMatches, by the
  -- test of two texts.
  unfoldable pub evaluate_fields : (Text → Text → Bool) → Value → GrpcRequest → Bool
  unfolding found_text get_field_value all_fields
  evaluate_fields test (object fs) req =
      all_fields
        (λ name expected. test (found_text (get_field_value req name)) (grpc_to_string expected)) fs
  evaluate_fields test v req = false

  -- valueMatches of two texts; an empty pattern does not match.
  unfoldable pub value_matches : Text → Text → Bool
  value_matches actual pattern =
      if is_blank pattern
      then false
      else elim (lib.compile pattern) [ none ↦ false | some re ↦ re.match_string actual ]

  -- The operators of evaluatePredicate, the first that is set.
  unfoldable pub evaluate_operators : GrpcRequest → Operators → Bool
  unfolding evaluate_fields evaluate_deep_equals evaluate_exists value_matches
  evaluate_operators req ops = elim ops.equals [
    | some v ↦ evaluate_fields (equal_text ops.case_sensitive) v req
    | none ↦ elim ops.deep_equals [
      | some v ↦ evaluate_deep_equals v req
      | none ↦ elim ops.contains [
        | some v ↦ evaluate_fields (contains_text ops.case_sensitive) v req
        | none ↦ elim ops.starts_with [
          | some v ↦ evaluate_fields (starts_with_text ops.case_sensitive) v req
          | none ↦ elim ops.ends_with [
            | some v ↦ evaluate_fields (ends_with_text ops.case_sensitive) v req
            | none ↦ elim ops.matches [
              | some v ↦ evaluate_fields value_matches v req
              | none ↦ elim ops.exists [ some v ↦ evaluate_exists v req | none ↦ true ]
            ]
          ]
        ]
      ]
    ]
  ]

-- GRPCMatchResult
pub record GrpcMatchResult : Type 0 where
  pub response : Option IsResponse
  pub stub : Option Stub
  pub stub_index : ℕ
  pub behaviors : List Behavior

-- getMatchResult; `none` is the panic of NextResponse. The stub has its counters advanced.
unfoldable pub get_match_result : Stub → ℕ → Option (GrpcMatchResult × Stub)
unfolding next_response
get_match_result stub index =
    let (next, stub') = next_response stub in
    let base : GrpcMatchResult = record {
      response = some empty_response;
      stub = some stub';
      stub_index = index;
      behaviors = [];
    } in
    elim next [
      | out_of_range ↦ none
      | no_response ↦ some (base, stub')
      | response r ↦ some (record base { response = r.is; behaviors = r.behaviors }, stub')
    ]

abbrev default_is : Option Response → Option IsResponse
default_is none = none
default_is (some r) = r.is

-- GRPCMatcher.Match, with the default response of the imposter.
unfoldable pub match_call :
    Library → List Stub → Option Response → GrpcRequest → Option (GrpcMatchResult × List Stub)
unfolding first_stub evaluate_operators get_match_result
match_call lib stubs default req =
    elim (first_stub (λ ops. none) (evaluate_operators lib req) stubs) [
      | none ↦ some (
        record { response = default_is default; stub = none; stub_index = 0; behaviors = [] },
        stubs,
      )
      | some (front, stub, after) ↦ elim (get_match_result stub (length front)) [
        | none ↦ none
        | some (result, stub') ↦ some (result, front ++ stub' ∷ after)
      ]
    ]
