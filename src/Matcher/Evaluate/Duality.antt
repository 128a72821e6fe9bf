-- ===== src/Matcher/Evaluate/Duality.antt =====
-- internal/imposter/matcher.go: the logical operators of `evaluatePredicate`, with the scripts that
-- short-circuiting runs.
use mathlib.Core.Path.{fun_ext}
use go_tartuffe.Prelude.{Bool, true, false, ◌≡◌, refl, ap, sym, ◌∙◌}
use go_tartuffe.Models.Request.{Request}
use go_tartuffe.Models.Predicate.{
  Operators, Predicate, predicate, unset, clauses, no_negation, negated, Predicates, no_predicates,
  more,
}
use go_tartuffe.Matcher.Env.{Env}
use go_tartuffe.Matcher.Evaluate.{
  Engine, evaluate_predicate, evaluate_all, evaluate_any, and_then, or_else, flipped,
}

-- {"and": ps}, {"or": ps} and {"not": p}, whatever else the predicate holds.
abbrev pub conjunction : Predicates → Operators → Predicate
conjunction ps ops = predicate (clauses ps) unset no_negation ops

abbrev pub disjunction : Predicates → Operators → Predicate
disjunction ps ops = predicate unset (clauses ps) no_negation ops

abbrev pub negation : Predicate → Operators → Predicate
negation p ops = predicate unset unset (negated p) ops

abbrev pub negate_each : Predicates → Operators → Predicates
negate_each no_predicates ops = no_predicates
negate_each (more p ps) ops = more (negation p ops) (negate_each ps ops)

module _ {S : Type 0} where
  or_else-flipped :
      (r : Bool × S) (k : S → Bool × S)
      → or_else (flipped r) (λ s. flipped (k s)) ≡ flipped (and_then r k)
  or_else-flipped (true, s) k = refl
  or_else-flipped (false, s) k = refl

  and_then-flipped :
      (r : Bool × S) (k : S → Bool × S)
      → and_then (flipped r) (λ s. flipped (k s)) ≡ flipped (or_else r k)
  and_then-flipped (true, s) k = refl
  and_then-flipped (false, s) k = refl

module _ {S : Type 0} (env : Env) (engine : Engine S) (ops : Operators) (req : Request) where
  any_of_negations :
      (ps : Predicates) (s : S)
      → evaluate_any env engine (negate_each ps ops) req s
        ≡ flipped (evaluate_all env engine ps req s)
  unfolding evaluate_predicate
  any_of_negations no_predicates s = refl
  any_of_negations (more p ps) s =
      let r = evaluate_predicate env engine p req s in
      ap (or_else (flipped r)) (fun_ext (λ t. any_of_negations ps t))
      ∙ or_else-flipped r (λ t. evaluate_all env engine ps req t)

  all_of_negations :
      (ps : Predicates) (s : S)
      → evaluate_all env engine (negate_each ps ops) req s
        ≡ flipped (evaluate_any env engine ps req s)
  unfolding evaluate_predicate
  all_of_negations no_predicates s = refl
  all_of_negations (more p ps) s =
      let r = evaluate_predicate env engine p req s in
      ap (and_then (flipped r)) (fun_ext (λ t. all_of_negations ps t))
      ∙ and_then-flipped r (λ t. evaluate_any env engine ps req t)

-- De Morgan's laws of the logical operators, for the result and for the state: the same scripts run.
pub de_morgan :
    {S : Type 0} (env : Env) (engine : Engine S) (ps : Predicates) (ops : Operators) (req : Request)
    (s : S)
    → (evaluate_predicate env engine (negation (conjunction ps ops) ops) req s
        ≡ evaluate_predicate env engine (disjunction (negate_each ps ops) ops) req s)
      × (evaluate_predicate env engine (negation (disjunction ps ops) ops) req s
          ≡ evaluate_predicate env engine (conjunction (negate_each ps ops) ops) req s)
unfolding evaluate_predicate
de_morgan env engine ps ops req s =
    (sym (any_of_negations env engine ops req ps s), sym (all_of_negations env engine ops req ps s))
