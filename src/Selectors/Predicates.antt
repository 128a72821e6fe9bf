-- ===== src/Selectors/Predicates.antt =====
-- internal/imposter/matcher.go with internal/imposter/selectors.go: the matcher's applySelector with
-- the selectors of this repository.
use go_tartuffe.Prelude.{
  Text, codes, join, text_eq, Bool, false, Option, some, List, ◌++◌, ◌≡◌, refl,
}
use go_tartuffe.Value.{Value}
use go_tartuffe.Models.Request.{Request}
use go_tartuffe.Models.Predicate.{Operators, Selector}
use go_tartuffe.Matcher.Env.{Env}
use go_tartuffe.Matcher.Evaluate.{Engine, apply_selector}
use go_tartuffe.Selectors.{Library, value_to_string}
use go_tartuffe.Selectors.Search.{Node, apply_jsonpath, apply_selector_with_options}
use go_tartuffe.Selectors.Descent.{Reads, evaluate_jsonpath-Reads}

module _ {S : Type 0} (lib : Library) (query : Text → Text → Option (List Node))
    (execute_predicate : Text → Request → S → Option Bool × S) where
  -- The engine of the matcher whose selectors are those of selectors.go.
  unfoldable pub selecting : Engine S
  unfolding apply_selector_with_options
  selecting = record {
    execute_predicate = execute_predicate;
    apply_jsonpath = λ body selector sensitive.
        apply_selector_with_options lib query body (some selector) (codes "jsonpath") sensitive;
    apply_xpath = λ body selector.
        apply_selector_with_options lib query body (some selector) (codes "xpath") false;
  }

  -- A predicate with the JSON path `$.a.b`, of names that lead from the parsed body to a value through
  -- nested objects, is evaluated on the request with the text of that value as its body, whether keys
  -- are case sensitive or not.
  pub apply_selector-Reads :
      (env : Env) (req : Request) (ops : Operators) (sel : Selector) (sensitive : Bool)
      {v w : Value} {keys : List Text}
      → ops.jsonpath ≡ some sel
      → sel.selector ≡ codes "$." ++ join (codes ".") keys
      → lib.unmarshal req.body ≡ some v
      → Reads v keys w
      → apply_selector env selecting req ops sensitive
        ≡ some (record req { body = value_to_string lib w })
  unfolding apply_selector selecting apply_selector_with_options apply_jsonpath text_eq
  apply_selector-Reads env req ops sel sensitive {v} {w} {keys} has path parsed reads =
      rw (apply_selector, has, path, parsed, evaluate_jsonpath-Reads lib sensitive reads) refl
