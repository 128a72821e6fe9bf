-- ===== src/Tests/MatcherRuns.antt =====
-- internal/imposter/matcher.go and internal/models/stub.go: the theorems on concrete predicates,
-- bodies and stubs.
use go_tartuffe.Prelude.{
  Text, codes, true, false, Option, none, some, List, [], ◌∷◌, map, pos, ◌≡◌, refl, arith, ◌↔◌,
  text_eq, lookup, find_key, lookup_fold, equal_fold, lower, to_lower, has_prefix, has_suffix,
}
use mathlib.Core.List.{cons-ne-nil}
use go_tartuffe.Value.{
  bool_eq, deep_equal, to_string, Value, nil, boolean, text, array, object, no_items, item,
  no_fields, field, entries, items,
}
use go_tartuffe.Models.Predicate.{Predicates, no_predicates, more}
use go_tartuffe.Models.Request.{Request}
use go_tartuffe.Models.Stub.{Stub, response}
use go_tartuffe.Models.Stub.Schedule.{HasSmallRepeats, times, calls, cycle, schedule}
use go_tartuffe.Models.Stub.Cycle.{calls-cycle}
use go_tartuffe.Matcher.Env.{PredicateOptions, apply_except, same_text}
use go_tartuffe.Matcher.Json.{claim, json_contains, deep_equal_json}
use go_tartuffe.Matcher.Json.Strict.{json_contains_of_deep_equal_json}
use go_tartuffe.Matcher.Json.Sound.{DeepMatch, deep_equal_json_sound}
use go_tartuffe.Matcher.Json.Reflexive.{IsJson}
use go_tartuffe.Matcher.Json.FoldedKeys.{deep_equal_json-folded_keys}
use go_tartuffe.Matcher.Cache.{IsFaithful, get_each, compile_each, get_each-transparent}
use go_tartuffe.Matcher.Compare.{compare_values}
use go_tartuffe.Matcher.Substring.{ends_with_value}
use go_tartuffe.Matcher.Exists.{split_json_path}
use go_tartuffe.Matcher.Exists.Paths.{
  AreSegments, Segment, key, index, path_text, segment_text, split_json_path-path_text,
}
use go_tartuffe.Matcher.Exists.Reaching.{Reaches, AreSteps}
use go_tartuffe.Matcher.Exists.Reaching.Followed.{json_body_path_exists_iff}
use go_tartuffe.Matcher.Exists.{json_body_path_exists}
use go_tartuffe.Matcher.Exists.Missing.{is_object}
use go_tartuffe.Matcher.Evaluate.{evaluate_predicate}
use go_tartuffe.Matcher.Evaluate.Duality.{
  conjunction, disjunction, negation, negate_each, de_morgan,
}
use go_tartuffe.Matcher.Match.{match_request}
use go_tartuffe.Matcher.Match.First.{IsFirst, Answers, match_request-IsFirst}
use go_tartuffe.Tests.{
  test_env, test_engine, options, request_to, no_operators, path_equals, response_with, stub_of,
  document,
}

-- A stub that hands its first response out twice and its second one once.
abbrev two_then_one : Stub
two_then_one =
    stub_of [] (response_with (codes "a") (pos 2) ∷ response_with (codes "b") (pos 0) ∷ []) false

small : HasSmallRepeats two_then_one.responses
unfolding times
small = (omega arith, (omega arith, tt))

calls-cycle_example :
    calls 5 two_then_one ≡ map response (cycle 5 (schedule two_then_one.responses) [])
calls-cycle_example = calls-cycle 5 two_then_one refl refl (cons-ne-nil _ _) small (omega arith)

abbrev stubs : List Stub
stubs =
    stub_of (path_equals (codes "/a") ∷ []) [] false
    ∷ stub_of (path_equals (codes "/b") ∷ []) (response_with (codes "b") (pos 0) ∷ []) false
    ∷ []

abbrev request : Request
request = request_to (codes "/B") []

match_request-IsFirst_example :
    (found : Option (List Stub × Stub × List Stub)) × IsFirst test_env test_engine request stubs 0
      found
      (match_request test_env test_engine stubs none request 0).1
    × Answers test_env none stubs found (match_request test_env test_engine stubs none request 0).0
match_request-IsFirst_example = match_request-IsFirst test_env test_engine stubs none request 0

abbrev both : Predicates
both = more (path_equals (codes "/b")) (more (path_equals (codes "/a")) no_predicates)

de_morgan_example :
    (evaluate_predicate test_env test_engine
        (negation (conjunction both no_operators) no_operators)
        request
        0
      ≡ evaluate_predicate test_env test_engine
          (disjunction (negate_each both no_operators) no_operators)
          request
          0)
    × (evaluate_predicate test_env test_engine
          (negation (disjunction both no_operators) no_operators)
          request
          0
        ≡ evaluate_predicate test_env test_engine
            (conjunction (negate_each both no_operators) no_operators)
            request
            0)
de_morgan_example = de_morgan test_env test_engine both no_operators request 0

-- An array whose elements are expected in another order.
abbrev actual : Value
actual =
    object
      (field (codes "k") (array (item (text (codes "a")) (item (boolean true) no_items))) no_fields)

abbrev expected : Value
expected =
    object
      (field (codes "K") (array (item (boolean true) (item (text (codes "A")) no_items))) no_fields)

accepted : deep_equal_json options actual expected ≡ true
unfolding deep_equal_json entries find_key lookup text_eq lookup_fold equal_fold to_lower lower
    items claim deep_equal bool_eq same_text
accepted = refl

deep_equal_json_sound_example : DeepMatch options actual expected
deep_equal_json_sound_example = deep_equal_json_sound options actual expected accepted

json_contains_of_deep_equal_json_example : json_contains test_env options actual expected ≡ true
json_contains_of_deep_equal_json_example =
    json_contains_of_deep_equal_json test_env options actual expected refl accepted

document-IsJson : IsJson document
unfolding entries lookup text_eq
document-IsJson = (refl, tt, (refl, tt, tt))

same_but_for_case : equal_fold (codes "a") (codes "A") ≡ true
unfolding equal_fold to_lower lower text_eq
same_but_for_case = refl

other_key : equal_fold (codes "x") (codes "A") ≡ false
unfolding equal_fold to_lower lower text_eq
other_key = refl

deep_equal_json-folded_keys_example :
    deep_equal_json options
      (object (field (codes "a") (boolean true) (field (codes "x") nil no_fields)))
      (object (field (codes "a") (boolean true) (field (codes "A") (boolean true) no_fields)))
    ≡ true
deep_equal_json-folded_keys_example =
    deep_equal_json-folded_keys options (codes "a") (codes "A") (codes "x") (boolean true) nil refl
      tt same_but_for_case other_key

same_field : compare_values test_env options (text (codes "Ann")) (text (codes "ANN")) ≡ true
unfolding compare_values to_string same_text equal_fold text_eq to_lower apply_except lower
same_field = refl

a_suffix : ends_with_value test_env options (text (codes "Joann")) (text (codes "ANN")) ≡ true
unfolding ends_with_value to_string has_suffix has_prefix to_lower apply_except lower
a_suffix = refl

abbrev path : List Segment
path = key (codes "a") ∷ index (codes "0") ∷ key (codes "b") ∷ []

path-AreSegments : AreSegments path
path-AreSegments = (
  (cons-ne-nil _ _, ((ground arith, ground arith), tt)),
  ((ground arith, tt), ((cons-ne-nil _ _, ((ground arith, ground arith), tt)), tt)),
)

split_json_path-path_text_example : split_json_path (path_text path) ≡ map segment_text path
split_json_path-path_text_example = split_json_path-path_text path path-AreSegments

-- k[-1]
abbrev last_of_k : List Segment
last_of_k = key (codes "k") ∷ index (codes "-1") ∷ []

last_of_k-AreSteps : AreSteps last_of_k
last_of_k-AreSteps = (
  (cons-ne-nil _ _, ((ground arith, ground arith), tt)),
  (((ground arith, ground arith), ((ground arith, ground arith), tt)), tt),
)

json_body_path_exists_iff_example :
    (json_body_path_exists actual (path_text last_of_k) false ≡ true)
    ↔ Reaches false actual last_of_k
json_body_path_exists_iff_example =
    json_body_path_exists_iff false actual last_of_k (cons-ne-nil _ _) last_of_k-AreSteps

no_document :
    (json : Value) → test_env.unmarshal (request_to [] []).body ≡ some json → is_object json ≡ false
no_document json e = absurd (ground arith)

abbrev sensitive : PredicateOptions
sensitive = record { case_sensitive = true; key_case_sensitive = true; except = [] }

abbrev patterns : List Text
patterns = codes "a" ∷ codes "b" ∷ codes "a" ∷ []

get_each-transparent_example :
    ((get_each test_env patterns []).0 ≡ compile_each test_env patterns)
    × IsFaithful test_env (get_each test_env patterns []).1
get_each-transparent_example = get_each-transparent test_env patterns [] tt
