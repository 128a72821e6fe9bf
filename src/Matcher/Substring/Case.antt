-- ===== src/Matcher/Substring/Case.antt =====
-- internal/imposter/matcher.go: the case of the letters in a `matches` predicate.
use go_tartuffe.Prelude.{Text, [], ◌≡◌, refl}
use go_tartuffe.Value.{text, to_string}
use go_tartuffe.Matcher.Env.{Env, PredicateOptions, apply_except, is_empty}
use go_tartuffe.Matcher.Substring.{matches_pattern}

-- Whether a text field matches a pattern does not depend on the options, if they have no `except`
-- pattern: the pattern is used as it is written, with or without `caseSensitive`.
pub matches_pattern-text :
    (env : Env) (opts opts' : PredicateOptions) (actual pattern : Text)
    → opts.except ≡ []
    → opts'.except ≡ []
    → matches_pattern env opts (text actual) (text pattern)
      ≡ matches_pattern env opts' (text actual) (text pattern)
unfolding matches_pattern to_string apply_except is_empty
matches_pattern-text env opts opts' actual pattern e e' = rw (e, e') refl
