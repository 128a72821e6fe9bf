-- ===== src/Proxy/Predicates.antt =====
-- internal/imposter/proxy.go: generatePredicates with all that it calls.
pub mod Hold
use go_tartuffe.Prelude.{
  Text, codes, text_eq, to_lower, Assoc, lookup, Bool, true, false, Option, none, some, List, [],
  ◌∷◌, ◌++◌, is_blank, if◌then◌else◌, not,
}
use go_tartuffe.Value.{
  Value, nil, boolean, number, text, array, object, text_map, Items, no_items, item, Fields,
  no_fields, field, entries,
}
use go_tartuffe.Models.Request.{Request}
use go_tartuffe.Models.Predicate.{Operators, Predicate, predicate, unset, no_negation}
use go_tartuffe.Models.Stub.{PredicateGen}
use go_tartuffe.Matcher.Fields.{named}
use go_tartuffe.Matcher.Json.{is_nil}
use go_tartuffe.Proxy.{Generation}

-- getFieldValue
unfoldable pub get_field_value : Request → Text → Value
get_field_value req name =
    if named "method" name
    then text req.method
    else if named "path" name
    then text req.path
    else if named "body" name
    then text req.body
    else if named "query" name
    then text_map req.query
    else if named "headers" name
    then text_map req.headers
    else nil

abbrev pub unset_operators : Operators
unset_operators = record {
  equals = none;
  deep_equals = none;
  contains = none;
  starts_with = none;
  ends_with = none;
  matches = none;
  exists = none;
  inject = [];
  case_sensitive = false;
  key_case_sensitive = false;
  except = [];
  xpath = none;
  jsonpath = none;
}

abbrev pub with_operators : Operators → Predicate
with_operators ops = predicate unset unset no_negation ops

-- The nested fields that the pattern names with true and the value has.
unfoldable pub nested_equals : Fields → Assoc Text → Fields
nested_equals no_fields m = no_fields
nested_equals (field k (boolean true) rest) m =
    let later = nested_equals rest m in
    elim (lookup k m) [ none ↦ later | some v ↦ field k (text v) later ]
nested_equals (field k pattern rest) m = nested_equals rest m

abbrev pub has_no_fields : Fields → Bool
has_no_fields no_fields = true
has_no_fields (field k v rest) = false

abbrev pub entries_of : Option (Assoc Text) → Assoc Text
entries_of none = []
entries_of (some m) = m

-- The predicate with this map of `equals`, unless it is empty.
abbrev pub predicate_of : Bool → Fields → Option Predicate
predicate_of case_sensitive no_fields = none
predicate_of case_sensitive (field k v rest) = some (
    with_operators (record unset_operators {
      equals = some (object (field k v rest));
      case_sensitive = case_sensitive;
    }))

module _ (generation : Generation) where
  -- extractWithPattern
  unfoldable pub extract_with_pattern : Value → Text → Option Text
  extract_with_pattern (text t) pattern = elim (generation.find_string pattern) [
    | none ↦ none
    | some find ↦ if is_blank (find t) then none else some (find t)
  ]
  extract_with_pattern _ pattern = none

  -- What the entry of `matches` puts into the map of `equals`, if anything.
  unfoldable pub expected_value : Value → Value → Option Value
  unfolding extract_with_pattern nested_equals
  expected_value value (boolean true) = some value
  expected_value value (text pattern) = elim (extract_with_pattern value pattern) [
    | none ↦ none
    | some t ↦ some (text t)
  ]
  expected_value (text_map m) (object patterns) =
      let nested = nested_equals patterns (entries_of m) in
      if has_no_fields nested then none else some (object nested)
  expected_value value _ = none

  -- The loop over the entries of `matches`.
  unfoldable pub equals_map : Request → Fields → Fields
  unfolding get_field_value expected_value
  equals_map req no_fields = no_fields
  equals_map req (field name pattern rest) =
      let later = equals_map req rest in
      let value = get_field_value req name in
      if is_nil value
      then later
      else elim (expected_value value pattern) [ none ↦ later | some v ↦ field name v later ]

  unfoldable pub generated_from : Request → Bool → Value → Option Predicate
  unfolding equals_map
  generated_from req case_sensitive (object patterns) =
      predicate_of case_sensitive (equals_map req patterns)
  generated_from req case_sensitive _ = none

  -- generatePredicate
  unfoldable pub generate_predicate : Request → PredicateGen → Option Predicate
  unfolding generated_from
  generate_predicate req gen = generated_from req gen.case_sensitive gen.matches

  -- if v, ok := itemMap[key]; ok { pred.X = v }: a null leaves the field nil.
  unfoldable pub operator_at : Text → Fields → Option Value
  operator_at key fs = elim (lookup key (entries fs)) [
    | none ↦ none
    | some v ↦ if is_nil v then none else some v
  ]

  unfoldable pub injected_predicate : Fields → Predicate
  unfolding operator_at
  injected_predicate fs = with_operators (record unset_operators {
    equals = operator_at (codes "equals") fs;
    deep_equals = operator_at (codes "deepEquals") fs;
    contains = operator_at (codes "contains") fs;
    starts_with = operator_at (codes "startsWith") fs;
    ends_with = operator_at (codes "endsWith") fs;
    matches = operator_at (codes "matches") fs;
    exists = operator_at (codes "exists") fs;
  })

  unfoldable pub injected_predicates : Items → List Predicate
  unfolding injected_predicate
  injected_predicates no_items = []
  injected_predicates (item (object fs) rest) = injected_predicate fs ∷ injected_predicates rest
  injected_predicates (item v rest) = injected_predicates rest

  -- executePredicateInjection: no predicates on an error too, which the caller passes over.
  unfoldable pub execute_predicate_injection : Request → Text → List Predicate
  unfolding injected_predicates
  execute_predicate_injection req script = elim (generation.execute_generator script req) [
    | some (array vs) ↦ injected_predicates vs
    | _ ↦ []
  ]

  -- generatePredicates
  unfoldable pub generate_predicates : Request → List PredicateGen → List Predicate
  unfolding execute_predicate_injection generate_predicate
  generate_predicates req [] = []
  generate_predicates req (gen ∷ gens) =
      let later = generate_predicates req gens in
      if not (is_blank gen.inject)
      then execute_predicate_injection req gen.inject ++ later
      else elim (generate_predicate req gen) [ none ↦ later | some p ↦ p ∷ later ]
