-- ===== src/Matcher/Evaluate.antt =====
-- internal/imposter/matcher.go: evaluation of a predicate. A script of an inject predicate may change
-- the imposter's state, so the state is passed on in the order in which predicates are evaluated.
pub mod Duality
use go_tartuffe.Prelude.{
  Text, Bool, true, false, not, ◌&&◌, ◌||◌, Option, none, some, List, [], ◌∷◌, if◌then◌else◌,
}
use go_tartuffe.Value.{Value, object, Fields, no_fields, field}
use go_tartuffe.Models.Request.{Request}
use go_tartuffe.Models.Predicate.{
  Selector, Operators, Predicate, predicate, Clauses, unset, clauses, Negation, no_negation,
  negated, Predicates, no_predicates, more,
}
use go_tartuffe.Matcher.Env.{Env, PredicateOptions, is_empty}
use go_tartuffe.Matcher.Fields.{request_field}
use go_tartuffe.Matcher.Compare.{compare_values, deep_compare_values}
use go_tartuffe.Matcher.Substring.{
  contains_value, starts_with_value, ends_with_value, matches_pattern,
}
use go_tartuffe.Matcher.Exists.{exists_holds}

-- The components that evaluation calls: the script engine, whose predicates yield `none` on an error,
-- and the selector evaluator, whose selections yield `none` on an error.
pub record Engine (S : Type 0) : Type 0 where
  pub execute_predicate : Text → Request → S → Option Bool × S
  pub apply_jsonpath : Text → Selector → Bool → Option Text
  pub apply_xpath : Text → Selector → Option Text

unfoldable pub all_fields : (Text → Value → Bool) → Fields → Bool
all_fields test no_fields = true
all_fields test (field k v rest) = test k v && all_fields test rest

-- predMap, ok := value.(map[string]interface{}); the loop over its entries.
unfoldable pub for_fields : (Text → Value → Bool) → Value → Bool
unfolding all_fields
for_fields test (object fs) = all_fields test fs
for_fields test _ = false

module _ (env : Env) (opts : PredicateOptions) (req : Request) where
  abbrev actual_of : Text → Value
  actual_of name = request_field req name opts.key_case_sensitive

  unfoldable pub evaluate_equals : Value → Bool
  unfolding for_fields
  evaluate_equals = for_fields (λ name v. compare_values env opts (actual_of name) v)

  unfoldable pub evaluate_deep_equals : Value → Bool
  unfolding for_fields
  evaluate_deep_equals = for_fields (λ name v. deep_compare_values env opts (actual_of name) v)

  unfoldable pub evaluate_contains : Value → Bool
  unfolding for_fields
  evaluate_contains = for_fields (λ name v. contains_value env opts (actual_of name) v)

  unfoldable pub evaluate_starts_with : Value → Bool
  unfolding for_fields
  evaluate_starts_with = for_fields (λ name v. starts_with_value env opts (actual_of name) v)

  unfoldable pub evaluate_ends_with : Value → Bool
  unfolding for_fields
  evaluate_ends_with = for_fields (λ name v. ends_with_value env opts (actual_of name) v)

  unfoldable pub evaluate_matches : Value → Bool
  unfolding for_fields
  evaluate_matches = for_fields (λ name v. matches_pattern env opts (actual_of name) v)

  unfoldable pub evaluate_exists : Value → Bool
  unfolding for_fields
  evaluate_exists = for_fields (λ name v. exists_holds env req opts.key_case_sensitive name v)

-- A result with the state after it: `if !x { return false }`, `if x { return true }` and `!x`.
module _ {S : Type 0} where
  abbrev pub and_then : Bool × S → (S → Bool × S) → Bool × S
  and_then (true, s) k = k s
  and_then (false, s) k = (false, s)

  abbrev pub or_else : Bool × S → (S → Bool × S) → Bool × S
  or_else (true, s) k = (true, s)
  or_else (false, s) k = k s

  abbrev pub flipped : Bool × S → Bool × S
  flipped (b, s) = (not b, s)

module _ {S : Type 0} (env : Env) (engine : Engine S) where
  -- applySelector: the request with the selected text as its body; `none` on an error.
  unfoldable pub apply_selector : Request → Operators → Bool → Option Request
  apply_selector req ops key_case_sensitive = elim ops.jsonpath [
    | some sel ↦ elim (engine.apply_jsonpath req.body sel key_case_sensitive) [
      | some t ↦ some (record req { body = t })
      | none ↦ none
    ]
    | none ↦ elim ops.xpath [
      | some sel ↦ elim (engine.apply_xpath req.body sel) [
        | some t ↦ some (record req { body = t })
        | none ↦ none
      ]
      | none ↦ some req
    ]
  ]

  -- evaluateInject: a script that fails matches nothing; what it did to the state stays.
  unfoldable pub evaluate_inject : Text → Request → S → Bool × S
  evaluate_inject script req s =
      let (result, s') = engine.execute_predicate script req s in
      (elim result [ some b ↦ b | none ↦ false ], s')

  abbrev pub options_of : Operators → PredicateOptions
  options_of ops = record {
    case_sensitive = ops.case_sensitive;
    key_case_sensitive = ops.key_case_sensitive || ops.case_sensitive;
    except = ops.except;
  }

  -- The first operator that is set decides; with none set the predicate holds.
  unfoldable pub compare_operators : Operators → Request → Request → S → Bool × S
  unfolding evaluate_inject
  compare_operators ops req effective s =
      let opts = options_of ops in
      elim ops.equals [
        | some v ↦ (evaluate_equals env opts effective v, s)
        | none ↦ elim ops.deep_equals [
          | some v ↦ (evaluate_deep_equals env opts effective v, s)
          | none ↦ elim ops.contains [
            | some v ↦ (evaluate_contains env opts effective v, s)
            | none ↦ elim ops.starts_with [
              | some v ↦ (evaluate_starts_with env opts effective v, s)
              | none ↦ elim ops.ends_with [
                | some v ↦ (evaluate_ends_with env opts effective v, s)
                | none ↦ elim ops.matches [
                  | some v ↦ (evaluate_matches env opts effective v, s)
                  | none ↦ elim ops.exists [
                    | some v ↦ (evaluate_exists env opts effective v, s)
                    | none ↦
                        if is_empty ops.inject then (true, s) else evaluate_inject ops.inject req s
                  ]
                ]
              ]
            ]
          ]
        ]
      ]

  unfoldable pub evaluate_operators : Operators → Request → S → Bool × S
  unfolding compare_operators apply_selector
  evaluate_operators ops req s = elim (apply_selector req ops (options_of ops).key_case_sensitive) [
    | none ↦ (false, s)
    | some effective ↦ compare_operators ops req effective s
  ]

  -- evaluatePredicate: `and`, then `or`, then `not`, then the operators.
  unfoldable mutual
    pub evaluate_predicate : Predicate → Request → S → Bool × S
    evaluate_predicate (predicate (clauses ps) o n ops) req s = evaluate_all ps req s
    evaluate_predicate (predicate unset (clauses ps) n ops) req s = evaluate_any ps req s
    evaluate_predicate (predicate unset unset (negated p) ops) req s =
        flipped (evaluate_predicate p req s)
    evaluate_predicate (predicate unset unset no_negation ops) req s = evaluate_operators ops req s

    pub evaluate_all : Predicates → Request → S → Bool × S
    evaluate_all no_predicates req s = (true, s)
    evaluate_all (more p ps) req s =
        and_then (evaluate_predicate p req s) (λ s'. evaluate_all ps req s')

    pub evaluate_any : Predicates → Request → S → Bool × S
    evaluate_any no_predicates req s = (false, s)
    evaluate_any (more p ps) req s =
        or_else (evaluate_predicate p req s) (λ s'. evaluate_any ps req s')

  -- matchesAllPredicates
  unfoldable pub matches_all_predicates : List Predicate → Request → S → Bool × S
  matches_all_predicates [] req s = (true, s)
  matches_all_predicates (p ∷ ps) req s =
      and_then (evaluate_predicate p req s) (λ s'. matches_all_predicates ps req s')
