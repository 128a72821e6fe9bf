-- ===== src/Matcher/Substring.antt =====
-- internal/imposter/matcher.go: contains, startsWith, endsWith and matches on one request field.
pub mod Implications
pub mod Case
use go_tartuffe.Prelude.{
  Text, codes, Assoc, find_key, to_lower, has_prefix, has_suffix, contains, Bool, true, false, ◌&&◌,
  Option, none, some, ◌++◌, if◌then◌else◌,
}
use go_tartuffe.Value.{
  Value, nil, boolean, number, text, array, object, text_map, Fields, no_fields, field, to_string,
  string_of,
}
use go_tartuffe.Matcher.Env.{Env, PredicateOptions, Regex, apply_except}
use go_tartuffe.Matcher.Json.{with_object, with_some}
use go_tartuffe.Matcher.Compare.{to_map_interface}

-- if opts.caseSensitive { test(a, e) } else { test(ToLower(a), ToLower(e)) }
unfoldable pub folded : (Text → Text → Bool) → Bool → Text → Text → Bool
folded test case_sensitive actual expected =
    if case_sensitive then test actual expected else test (to_lower actual) (to_lower expected)

module _ (opts : PredicateOptions) where
  -- The loop that jsonContainsString, jsonStartsWith and jsonEndsWith share but for the test.
  unfoldable pub json_texts : (Text → Text → Bool) → Assoc Value → Fields → Bool
  unfolding folded
  json_texts test m no_fields = true
  json_texts test m (field k expected rest) =
      with_some (find_key opts.key_case_sensitive k m) (λ actual.
        with_some (to_string expected)
          (λ e. with_some (to_string actual) (λ a. folded test opts.case_sensitive a e)))
      && json_texts test m rest

  unfoldable pub json_contains_string : Assoc Value → Fields → Bool
  unfolding json_texts
  json_contains_string = json_texts contains

  unfoldable pub json_starts_with : Assoc Value → Fields → Bool
  unfolding json_texts
  json_starts_with = json_texts has_prefix

  unfoldable pub json_ends_with : Assoc Value → Fields → Bool
  unfolding json_texts
  json_ends_with = json_texts has_suffix

module _ (env : Env) (opts : PredicateOptions) where
  -- Both values as texts, `except` stripped from the actual one.
  unfoldable pub both_texts : (Text → Text → Bool) → Value → Value → Bool
  unfolding folded
  both_texts test actual expected = with_some (to_string actual) λ a.
      with_some (to_string expected)
        λ e. folded test opts.case_sensitive (apply_except env a opts.except opts.case_sensitive) e

  unfoldable pub contains_value : Value → Value → Bool
  unfolding json_contains_string both_texts
  contains_value actual (object fs) =
      with_some (to_map_interface env actual) (λ m. json_contains_string opts m fs)
  contains_value actual expected = both_texts contains actual expected

  unfoldable pub starts_with_value : Value → Value → Bool
  unfolding json_starts_with both_texts
  starts_with_value actual (object fs) =
      with_some (to_map_interface env actual) (λ m. json_starts_with opts m fs)
  starts_with_value actual expected = both_texts has_prefix actual expected

  unfoldable pub ends_with_value : Value → Value → Bool
  unfolding json_ends_with both_texts
  ends_with_value actual (object fs) =
      with_some (to_map_interface env actual) (λ m. json_ends_with opts m fs)
  ends_with_value actual expected = both_texts has_suffix actual expected

  -- A pattern that does not compile matches nothing.
  unfoldable pub matches_regex : Text → Text → Bool
  matches_regex pattern t = with_some (env.compile pattern) (λ re. re.match_string t)

  -- The text that a JSON value shows to a pattern.
  unfoldable pub value_text : Value → Text
  value_text (text t) = t
  value_text v = env.sprint v

  -- In a map, keys are patterns unless they hold a map again; here the pattern folds case.
  unfoldable pub json_matches_pattern : Assoc Value → Fields → Bool
  unfolding matches_regex value_text
  json_matches_pattern m no_fields = true
  json_matches_pattern m (field k (object fs) rest) =
      with_some (find_key opts.key_case_sensitive k m)
        (λ actual. with_object actual (λ m'. json_matches_pattern m' fs))
      && json_matches_pattern m rest
  json_matches_pattern m (field k pattern rest) =
      with_some (find_key opts.key_case_sensitive k m) (λ actual.
        matches_regex
          (if opts.case_sensitive then string_of pattern else codes "(?i)" ++ string_of pattern)
          (value_text actual))
      && json_matches_pattern m rest

  -- On a text the pattern is taken as it is written.
  unfoldable pub matches_pattern : Value → Value → Bool
  unfolding matches_regex json_matches_pattern
  matches_pattern actual (object fs) =
      with_some (to_map_interface env actual) (λ m. json_matches_pattern m fs)
  matches_pattern actual pattern = with_some (to_string actual) λ a.
      with_some (to_string pattern)
        λ p. matches_regex p (apply_except env a opts.except opts.case_sensitive)
