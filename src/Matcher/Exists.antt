-- ===== src/Matcher/Exists.antt =====
-- internal/imposter/matcher.go: the exists predicate, JSON body paths and nested specifications.
pub mod Paths
pub mod Indices
pub mod Reaching
pub mod Missing
use go_tartuffe.Prelude.{
  ℕ, zero, suc, ◌+◌, ◌-◌, Text, codes, text_eq, to_lower, has_prefix, has_suffix, Assoc, find_key,
  length, drop, get_elem?, any, reverse, Bool, true, false, not, ◌&&◌, ◌||◌, Option, none, some,
  List, [], ◌∷◌, ◌++◌, ◌==◌, ltb, leb, if◌then◌else◌, is_some, ℤ, pos, negsuc, atoi,
}
use go_tartuffe.Value.{
  Value, nil, boolean, number, text, array, object, text_map, Items, no_items, item, Fields,
  no_fields, field, items, entries, bool_eq,
}
use go_tartuffe.Models.Request.{Request}
use go_tartuffe.Matcher.Env.{Env, is_empty}
use go_tartuffe.Matcher.Fields.{field_exists}
use go_tartuffe.Matcher.Json.{is_nil, with_object, with_array, with_some}

unfoldable pub flush : List Text → Text → List Text
flush parts [] = parts
flush parts (c ∷ current) = parts ++ (c ∷ current) ∷ []

unfoldable pub has_close : Text → Bool
has_close [] = false
has_close (c ∷ s) = c == b']' || has_close s

-- The loop of `splitJSONPath`. `some b` is the inner loop, which has copied `b` and goes on to the
-- closing bracket; it is entered only if there is one.
unfoldable pub split_loop : Text → List Text → Text → Option Text → List Text
unfolding flush has_close
split_loop [] parts current none = flush parts current
split_loop [] parts current (some b) = parts
split_loop (c ∷ s) parts current (some b) = elim (c == b']') [
  | true ↦ split_loop s (parts ++ (b ++ c ∷ []) ∷ []) [] none
  | false ↦ split_loop s parts current (some (b ++ c ∷ []))
]
split_loop (c ∷ s) parts current none = elim (c == b'.') [
  | true ↦ split_loop s (flush parts current) [] none
  | false ↦ elim (c == b'[') [
    | true ↦ split_loop s (flush parts current) [] (if has_close s then some (c ∷ []) else none)
    | false ↦ split_loop s parts (current ++ c ∷ []) none
  ]
]

-- splitJSONPath
unfoldable pub split_json_path : Text → List Text
unfolding split_loop
split_json_path path = split_loop path [] [] none

-- strings.HasPrefix(part, "[") && strings.HasSuffix(part, "]")
unfoldable pub is_bracketed : Text → Bool
is_bracketed part = has_prefix part (b'[' ∷ []) && has_suffix part (b']' ∷ [])

unfoldable pub trim_left : Text → Text
trim_left [] = []
trim_left (c ∷ s) = let rest = trim_left s in if c == b'[' || c == b']' then rest else c ∷ s

-- strings.Trim(part, "[]")
unfoldable pub trim_brackets : Text → Text
unfolding trim_left
trim_brackets s = reverse (trim_left (reverse (trim_left s)))

-- A negative index counts from the end; `none` is out of range.
unfoldable pub resolve_index : ℕ → ℤ → Option ℕ
resolve_index len (pos n) = if ltb n len then some n else none
resolve_index len (negsuc n) = if ltb n len then some (len - (n + 1)) else none

-- arr[index], where the text of the index is a number in range.
unfoldable pub element_at : List Value → Text → Option Value
unfolding resolve_index
element_at vs index = elim (atoi index) [
  | none ↦ none
  | some i ↦ elim (resolve_index (length vs) i) [ none ↦ none | some n ↦ get_elem? vs n ]
]

-- navigateAndCheck
unfoldable pub navigate_and_check : Value → List Text → Bool → Bool
navigate_and_check json [] key_case_sensitive = true
navigate_and_check json (part ∷ remaining) key_case_sensitive = elim (is_bracketed part) [
  | true ↦ with_array json λ vs. elim (text_eq (trim_brackets part) (codes "*")) [
    | true ↦ any (λ v. navigate_and_check v remaining key_case_sensitive) vs
    | false ↦
        with_some (element_at vs (trim_brackets part))
          (λ v. navigate_and_check v remaining key_case_sensitive)
  ]
  | false ↦ with_object json λ m.
      with_some (find_key key_case_sensitive part m)
        (λ v. navigate_and_check v remaining key_case_sensitive)
]

-- jsonBodyPathExists
unfoldable pub json_body_path_exists : Value → Text → Bool → Bool
json_body_path_exists json path key_case_sensitive =
    if is_empty path
    then not (is_nil json)
    else navigate_and_check json (split_json_path path) key_case_sensitive

-- keyExistsInJSON
unfoldable pub key_exists_in_json : Value → Text → Bool → Bool
key_exists_in_json json key key_case_sensitive =
    with_object json (λ m. is_some (find_key key_case_sensitive key m))

-- getJSONValue: a missing key and a null value both read as nil.
unfoldable pub json_value : Value → Text → Bool → Value
json_value (object fs) key key_case_sensitive =
    elim (find_key key_case_sensitive key (entries fs)) [ none ↦ nil | some v ↦ v ]
json_value _ key key_case_sensitive = nil

-- allNestedExpectFalse: what is neither a boolean nor a map is passed over.
unfoldable pub all_nested_expect_false : Fields → Bool
all_nested_expect_false no_fields = true
all_nested_expect_false (field k (boolean v) rest) = not v && all_nested_expect_false rest
all_nested_expect_false (field k (object fs) rest) =
    all_nested_expect_false fs && all_nested_expect_false rest
all_nested_expect_false (field k _ rest) = all_nested_expect_false rest

-- checkNestedExistence
unfoldable pub check_nested_existence : Value → Fields → Bool → Bool
check_nested_existence json no_fields key_case_sensitive = true
check_nested_existence json (field k (boolean v) rest) key_case_sensitive =
    bool_eq (key_exists_in_json json k key_case_sensitive) v
    && check_nested_existence json rest key_case_sensitive
check_nested_existence json (field k (object fs) rest) key_case_sensitive =
    (let child = json_value json k key_case_sensitive in
      let below = check_nested_existence child fs key_case_sensitive in
      if is_nil child then all_nested_expect_false fs else below)
    && check_nested_existence json rest key_case_sensitive
check_nested_existence json (field k _ rest) key_case_sensitive =
    check_nested_existence json rest key_case_sensitive

-- `expected, _ := v.(bool)`
unfoldable pub expected_bool : Value → Bool
expected_bool (boolean b) = b
expected_bool _ = false

module _ (env : Env) (req : Request) (key_case_sensitive : Bool) where
  -- {"headers": {"X-One": true}}: each key is read as "headers.X-One".
  unfoldable pub nested_fields_exist : Text → Fields → Bool
  unfolding expected_bool
  nested_fields_exist name no_fields = true
  nested_fields_exist name (field k v rest) =
      bool_eq (field_exists req (name ++ b'.' ∷ k) key_case_sensitive) (expected_bool v)
      && nested_fields_exist name rest

  -- {"body": {…}}; a body that is no JSON has no keys.
  unfoldable pub body_fields_exist : Fields → Bool
  body_fields_exist spec = elim (env.unmarshal req.body) [
    | some parsed ↦ check_nested_existence parsed spec key_case_sensitive
    | none ↦ all_nested_expect_false spec
  ]

  -- {"body.user.name": true}
  unfoldable pub body_path_exists : Text → Value → Bool
  unfolding expected_bool json_body_path_exists
  body_path_exists path should_exist = elim (env.unmarshal req.body) [
    | some parsed ↦
        bool_eq (json_body_path_exists parsed path key_case_sensitive) (expected_bool should_exist)
    | none ↦ not (expected_bool should_exist)
  ]

  -- One round of the loop in `evaluateExists`.
  unfoldable pub exists_holds : Text → Value → Bool
  unfolding nested_fields_exist body_fields_exist body_path_exists
  exists_holds name (object spec) =
      if text_eq (to_lower name) (codes "body")
      then body_fields_exist spec
      else nested_fields_exist name spec
  exists_holds name should_exist =
      if has_prefix (to_lower name) (codes "body.")
      then body_path_exists (drop 5 name) should_exist
      else bool_eq (field_exists req name key_case_sensitive) (expected_bool should_exist)
