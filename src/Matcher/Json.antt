-- ===== src/Matcher/Json.antt =====
-- internal/imposter/matcher.go: comparison of parsed JSON, `jsonContains` for the equals predicate
-- and `deepEqualJSON` for deepEquals.
pub mod Strict
pub mod Reflexive
pub mod FoldedKeys
pub mod Sound
use go_tartuffe.Prelude.{
  Text, Assoc, find_key, length, any, Bool, true, false, not, ◌&&◌, ◌||◌, Option, none, some, List,
  [], ◌∷◌, map, ◌==◌, if◌then◌else◌,
}
use go_tartuffe.Value.{
  Value, nil, boolean, number, text, array, object, text_map, Items, no_items, item, Fields,
  no_fields, field, items, entries, deep_equal,
}
use go_tartuffe.Matcher.Env.{Env, PredicateOptions, apply_except, same_text}

-- Type assertions with a continuation: `x, ok := v.(T); if !ok { return false }`.
abbrev pub is_nil : Value → Bool
is_nil nil = true
is_nil _ = false

abbrev pub with_object : Value → (Assoc Value → Bool) → Bool
with_object (object fs) k = k (entries fs)
with_object _ k = false

abbrev pub with_array : Value → (List Value → Bool) → Bool
with_array (array xs) k = k (items xs)
with_array _ k = false

abbrev pub with_text : Value → (Text → Bool) → Bool
with_text (text t) k = k t
with_text _ k = false

abbrev pub with_some {ℓ} : {A : Type ℓ} → Option A → (A → Bool) → Bool
with_some none k = false
with_some (some a) k = k a

-- An array passes if any of its elements does, at any depth; other values are tested.
unfoldable mutual
  pub descend : (Value → Bool) → Value → Bool
  descend test (array xs) = descend_any test xs
  descend test v = test v

  pub descend_any : (Value → Bool) → Items → Bool
  descend_any test no_items = false
  descend_any test (item v vs) = descend test v || descend_any test vs

module _ (env : Env) (opts : PredicateOptions) where
  -- The comparison of a value that is no array with a primitive expected value.
  unfoldable pub json_contains_leaf : Value → Value → Bool
  json_contains_leaf actual (text expected) = with_text actual λ t.
      same_text opts.case_sensitive (apply_except env t opts.except opts.case_sensitive)
        (apply_except env expected opts.except opts.case_sensitive)
  json_contains_leaf actual expected = deep_equal actual expected

  unfoldable mutual
    pub json_contains : Value → Value → Bool
    json_contains actual nil = is_nil actual
    json_contains actual (object fs) =
        descend (λ a. with_object a (λ m. json_contains_fields m fs)) actual
    json_contains actual (array xs) =
        with_array actual λ ys. (length ys == length (items xs)) && json_contains_items ys xs
    json_contains actual (boolean b) = descend (λ a. json_contains_leaf a (boolean b)) actual
    json_contains actual (number n) = descend (λ a. json_contains_leaf a (number n)) actual
    json_contains actual (text t) = descend (λ a. json_contains_leaf a (text t)) actual
    json_contains actual (text_map m) = descend (λ a. json_contains_leaf a (text_map m)) actual

    -- Every expected key is in the map, with a value that contains the expected one.
    pub json_contains_fields : Assoc Value → Fields → Bool
    json_contains_fields m no_fields = true
    json_contains_fields m (field k expected rest) =
        with_some (find_key opts.key_case_sensitive k m) (λ a. json_contains a expected)
        && json_contains_fields m rest

    -- Every expected element is somewhere in the array; one element may serve for several.
    pub json_contains_items : List Value → Items → Bool
    json_contains_items ys no_items = true
    json_contains_items ys (item expected rest) =
        any (λ a. json_contains a expected) ys && json_contains_items ys rest

-- The loop over the actual array in `deepEqualJSON`: the first element that is not yet matched and
-- passes the test is marked as matched.
unfoldable pub claim : (Value → Bool) → List (Value × Bool) → Option (List (Value × Bool))
claim test [] = none
claim test ((v, matched) ∷ rest) =
    let later = claim test rest in
    if not matched && test v
    then some ((v, true) ∷ rest)
    else elim later [ none ↦ none | some rest' ↦ some ((v, matched) ∷ rest') ]

abbrev pub unmatched : List Value → List (Value × Bool)
unmatched = map (λ v. (v, false))

module _ (opts : PredicateOptions) where
  unfoldable mutual
    pub deep_equal_json : Value → Value → Bool
    deep_equal_json actual nil = is_nil actual
    deep_equal_json actual (object fs) =
        with_object actual λ m. (length m == length (entries fs)) && deep_equal_json_fields m fs
    deep_equal_json actual (array xs) =
        with_array actual
          λ ys. (length ys == length (items xs)) && deep_equal_json_items (unmatched ys) xs
    deep_equal_json actual (text t) = with_text actual λ a. same_text opts.case_sensitive a t
    deep_equal_json actual (boolean b) = deep_equal actual (boolean b)
    deep_equal_json actual (number n) = deep_equal actual (number n)
    deep_equal_json actual (text_map m) = deep_equal actual (text_map m)

    pub deep_equal_json_fields : Assoc Value → Fields → Bool
    deep_equal_json_fields m no_fields = true
    deep_equal_json_fields m (field k expected rest) =
        with_some (find_key opts.key_case_sensitive k m) (λ a. deep_equal_json a expected)
        && deep_equal_json_fields m rest

    pub deep_equal_json_items : List (Value × Bool) → Items → Bool
    deep_equal_json_items ys no_items = true
    deep_equal_json_items ys (item expected rest) =
        with_some (claim (λ a. deep_equal_json a expected) ys)
          (λ ys'. deep_equal_json_items ys' rest)
