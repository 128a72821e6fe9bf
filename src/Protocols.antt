-- ===== src/Protocols.antt =====
-- The matchers of the other protocols: SMTPMatcher in internal/imposter/smtp_server.go, TCPMatcher in
-- internal/imposter/tcp_server.go and internal/imposter/grpc_matcher.go. They evaluate a tree of
-- predicates in the same way, which is here; the children have what is their own.
pub mod First
pub mod Holding
pub mod Chosen
pub mod Mail
pub mod Tcp
pub mod Grpc
use go_tartuffe.Prelude.{
  ℕ, Text, codes, text_eq, equal_fold, to_lower, contains, has_prefix, has_suffix, Bool, true,
  false, not, ◌&&◌, ◌||◌, Option, none, some, List, [], ◌∷◌, if◌then◌else◌,
}
use go_tartuffe.Models.Predicate.{
  Predicate, predicate, Clauses, unset, clauses, Negation, no_negation, negated, Predicates,
  no_predicates, more, Operators,
}
use go_tartuffe.Models.Stub.{Stub}

-- The texts `actual` and `expected`, compared with or without regard to case.
unfoldable pub equal_text : Bool → Text → Text → Bool
equal_text true actual expected = text_eq actual expected
equal_text false actual expected = equal_fold actual expected

unfoldable pub contains_text : Bool → Text → Text → Bool
contains_text true actual expected = contains actual expected
contains_text false actual expected = contains (to_lower actual) (to_lower expected)

unfoldable pub starts_with_text : Bool → Text → Text → Bool
starts_with_text true actual expected = has_prefix actual expected
starts_with_text false actual expected = has_prefix (to_lower actual) (to_lower expected)

unfoldable pub ends_with_text : Bool → Text → Text → Bool
ends_with_text true actual expected = has_suffix actual expected
ends_with_text false actual expected = has_suffix (to_lower actual) (to_lower expected)

-- What is tested before the logical operators, and what the operators say.
module _ (before : Operators → Option Bool) (compare : Operators → Bool) where
  -- evaluatePredicate
  unfoldable mutual
    pub evaluate : Predicate → Bool
    evaluate (predicate (clauses ps) o n ops) = elim (before ops) [
      | some b ↦ b
      | none ↦ evaluate_all ps
    ]
    evaluate (predicate unset (clauses ps) n ops) = elim (before ops) [
      | some b ↦ b
      | none ↦ evaluate_any ps
    ]
    evaluate (predicate unset unset (negated p) ops) = elim (before ops) [
      | some b ↦ b
      | none ↦ not (evaluate p)
    ]
    evaluate (predicate unset unset no_negation ops) = elim (before ops) [
      | some b ↦ b
      | none ↦ compare ops
    ]

    pub evaluate_all : Predicates → Bool
    evaluate_all no_predicates = true
    evaluate_all (more p ps) = evaluate p && evaluate_all ps

    pub evaluate_any : Predicates → Bool
    evaluate_any no_predicates = false
    evaluate_any (more p ps) = evaluate p || evaluate_any ps

  -- matchesAllPredicates
  unfoldable pub matches_all : List Predicate → Bool
  unfolding evaluate
  matches_all [] = true
  matches_all (p ∷ ps) = evaluate p && matches_all ps

  -- The loop of Match: the first stub that matches, with the stubs before it and after it.
  unfoldable pub first_stub : List Stub → Option (List Stub × Stub × List Stub)
  unfolding matches_all
  first_stub [] = none
  first_stub (stub ∷ stubs) =
      let later = first_stub stubs in
      if matches_all stub.predicates then some ([], stub, stubs) else elim later [
        | none ↦ none
        | some (before_it, found, after) ↦ some (stub ∷ before_it, found, after)
      ]
