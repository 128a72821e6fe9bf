-- ===== src/Models/Predicate.antt =====
-- internal/models/stub.go: a predicate, `Predicate` and `Selector`. The logical operators are fields
-- of a tree; the fields of the struct that hold no predicate are one record.
use go_tartuffe.Prelude.{Text, Assoc, Bool, Option}
use go_tartuffe.Value.{Value}

pub record Selector : Type 0 where
  pub selector : Text
  pub namespaces : Assoc Text

-- `none` is a field that is nil.
pub record Operators : Type 0 where
  pub equals : Option Value
  pub deep_equals : Option Value
  pub contains : Option Value
  pub starts_with : Option Value
  pub ends_with : Option Value
  pub matches : Option Value
  pub exists : Option Value
  pub inject : Text
  pub case_sensitive : Bool
  pub key_case_sensitive : Bool
  pub except : Text
  pub xpath : Option Selector
  pub jsonpath : Option Selector

-- `predicate and or not operators`. A list that is nil is `unset`, an empty one is not.
mutual
  pub data Predicate : Type 0 where
    predicate : Clauses → Clauses → Negation → Operators → Predicate

  pub data Clauses : Type 0 where
    unset : Clauses
    clauses : Predicates → Clauses

  pub data Negation : Type 0 where
    no_negation : Negation
    negated : Predicate → Negation

  pub data Predicates : Type 0 where
    no_predicates : Predicates
    more : Predicate → Predicates → Predicates
