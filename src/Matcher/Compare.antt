-- ===== src/Matcher/Compare.antt =====
-- internal/imposter/matcher.go: the comparisons of one request field with one expected value, and
-- the loops over a predicate's fields that use them.
use go_tartuffe.Prelude.{
  Text, codes, Assoc, find_key, length, text_eq, Bool, true, false, ◌&&◌, Option, none, some, [],
  ◌∷◌, map, ◌==◌, if◌then◌else◌,
}
use go_tartuffe.Value.{
  Value, nil, boolean, number, text, array, object, text_map, Items, no_items, item, Fields,
  no_fields, field, entries, deep_equal, bool_eq, float_eq, to_string, string_of,
}
use go_tartuffe.Matcher.Env.{Env, PredicateOptions, apply_except, same_text}
use go_tartuffe.Matcher.Json.{is_nil, with_some, json_contains, deep_equal_json}

-- Reading a nil map is reading an empty one.
abbrev pub texts : Option (Assoc Text) → Assoc Text
texts none = []
texts (some m) = m

-- `actual == expected` on interfaces. Go panics on two maps or two slices of one type: `compareValues`
-- returns before that, since its actual value is nil, a string or a map[string]string.
unfoldable pub interface_eq : Value → Value → Bool
interface_eq nil nil = true
interface_eq (boolean a) (boolean b) = bool_eq a b
interface_eq (number a) (number b) = float_eq a b
interface_eq (text a) (text b) = text_eq a b
interface_eq _ _ = false

-- forceToString: every leaf becomes a string, nil the string "null".
module _ (env : Env) where
  unfoldable mutual
    pub force_to_string : Value → Value
    force_to_string nil = text (codes "null")
    force_to_string (text t) = text t
    force_to_string (object fs) = object (force_fields fs)
    force_to_string (text_map m) = text_map m
    force_to_string (array xs) = array (force_items xs)
    force_to_string (boolean b) = text (if b then codes "true" else codes "false")
    force_to_string (number n) = text (env.sprint (number n))

    pub force_items : Items → Items
    force_items no_items = no_items
    force_items (item v vs) = item (force_to_string v) (force_items vs)

    pub force_fields : Fields → Fields
    force_fields no_fields = no_fields
    force_fields (field k v fs) = field k (force_to_string v) (force_fields fs)

  -- toMapInterface
  unfoldable pub to_map_interface : Value → Option (Assoc Value)
  to_map_interface (object fs) = some (entries fs)
  to_map_interface (text_map m) = some (map (λ e. (e.0, text e.1)) (texts m))
  to_map_interface (text t) = elim (env.unmarshal t) [
    | some (object fs) ↦ some (entries fs)
    | _ ↦ none
  ]
  to_map_interface _ = none

module _ (env : Env) (opts : PredicateOptions) where
  abbrev stripped : Text → Text
  stripped t = apply_except env t opts.except opts.case_sensitive

  -- One actual text, with `except` stripped from it, against one expected text.
  unfoldable pub stripped_equals : Text → Text → Bool
  stripped_equals actual expected = same_text opts.case_sensitive (stripped actual) expected

  -- A map[string]string against the entries of an expected map.
  unfoldable pub map_equals_fields : Assoc Text → Fields → Bool
  unfolding stripped_equals
  map_equals_fields m no_fields = true
  map_equals_fields m (field k expected rest) =
      with_some (find_key opts.key_case_sensitive k m)
        (λ actual. stripped_equals actual (string_of expected))
      && map_equals_fields m rest

  unfoldable pub map_equals_texts : Assoc Text → Assoc Text → Bool
  map_equals_texts m [] = true
  map_equals_texts m ((k, expected) ∷ rest) =
      with_some (find_key opts.key_case_sensitive k m) (λ actual. stripped_equals actual expected)
      && map_equals_texts m rest

  unfoldable pub compare_maps : Value → Value → Bool
  unfolding map_equals_fields map_equals_texts interface_eq
  compare_maps (text_map m) (object fs) = map_equals_fields (texts m) fs
  compare_maps (text_map m) (text_map e) =
      (length (texts m) == length (texts e)) && map_equals_texts (texts m) (texts e)
  compare_maps actual expected = interface_eq actual expected

  -- Two texts are compared; a text against anything else is parsed as JSON first.
  unfoldable pub compare_present : Value → Value → Bool
  unfolding compare_maps stripped_equals
  compare_present actual expected = elim (to_string actual) [
    | none ↦ compare_maps actual expected
    | some a ↦ elim (to_string expected) [
      | some e ↦ stripped_equals a e
      | none ↦ elim (env.unmarshal a) [
        | some parsed ↦ json_contains env opts parsed expected
        | none ↦ compare_maps actual expected
      ]
    ]
  ]

  -- actual == nil || actual == ""
  unfoldable pub is_nil_or_empty : Value → Bool
  is_nil_or_empty nil = true
  is_nil_or_empty (text []) = true
  is_nil_or_empty _ = false

  unfoldable pub compare_values : Value → Value → Bool
  unfolding compare_present is_nil_or_empty
  compare_values actual expected =
      if is_nil expected then is_nil_or_empty actual else compare_present actual expected

  -- What `deepCompareValues` does with the forced values that are not two texts.
  unfoldable pub deep_compare_maps : Value → Value → Bool
  unfolding map_equals_fields
  deep_compare_maps (text_map m) (object fs) =
      (length (texts m) == length (entries fs)) && map_equals_fields (texts m) fs
  deep_compare_maps actual expected = deep_equal actual expected

  unfoldable pub deep_compare_forced : Value → Value → Value → Bool
  unfolding deep_compare_maps stripped_equals
  deep_compare_forced actual_forced expected_forced expected = elim (to_string actual_forced) [
    | none ↦ deep_compare_maps actual_forced expected_forced
    | some a ↦ elim (to_string expected_forced) [
      | some e ↦ stripped_equals a e
      | none ↦ elim (env.unmarshal a) [
        | some parsed ↦ deep_equal_json opts parsed expected
        | none ↦ deep_compare_maps actual_forced expected_forced
      ]
    ]
  ]

  unfoldable pub deep_compare_values : Value → Value → Bool
  unfolding deep_compare_forced is_nil_or_empty force_to_string
  deep_compare_values actual expected =
      if is_nil expected
      then is_nil_or_empty actual
      else deep_compare_forced (force_to_string env actual) (force_to_string env expected) expected
