-- ===== src/Matcher/Env.antt =====
-- What the matcher calls outside this repository (package regexp, encoding/json and the `%v` verb of
-- fmt), the options of one predicate, and `applyExcept` of internal/imposter/matcher.go.
use go_tartuffe.Prelude.{
  Text, codes, text_eq, equal_fold, Bool, true, false, Option, none, some, [], ◌∷◌, ◌++◌,
  if◌then◌else◌,
}
use go_tartuffe.Value.{Value}

-- A compiled regular expression, by the two methods that the matcher calls.
pub record Regex : Type 0 where
  pub match_string : Text → Bool
  pub replace_all_string : Text → Text → Text

pub record Env : Type 0 where
  pub compile : Text → Option Regex
  pub unmarshal : Text → Option Value
  pub sprint : Value → Text
  -- json.MarshalIndent(v, "", "    ")
  pub marshal_indent : Value → Option Text

pub record PredicateOptions : Type 0 where
  pub case_sensitive : Bool
  pub key_case_sensitive : Bool
  pub except : Text

unfoldable pub is_empty : Text → Bool
is_empty [] = true
is_empty (c ∷ s) = false

-- The pattern is ignored where it does not compile.
unfoldable pub apply_except : Env → Text → Text → Bool → Text
unfolding is_empty
apply_except env value except case_sensitive =
    if is_empty except
    then value
    else let pattern = if case_sensitive then except else codes "(?i)" ++ except in
      elim (env.compile pattern) [ none ↦ value | some re ↦ re.replace_all_string value [] ]

-- if opts.caseSensitive { actual == expected } else { strings.EqualFold(actual, expected) }
unfoldable pub same_text : Bool → Text → Text → Bool
same_text case_sensitive actual expected =
    if case_sensitive then text_eq actual expected else equal_fold actual expected
