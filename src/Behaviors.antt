-- ===== src/Behaviors.antt =====
-- internal/imposter/behaviors.go: the behaviors that are applied to a response. This file has the
-- outcomes and the calls outside the repository; the children have the functions.
pub mod Select
pub mod Extract
pub mod Replace
pub mod Decorate
pub mod Execute
use go_tartuffe.Prelude.{ℕ, Text, Option, List, ℤ}
use go_tartuffe.Value.{Value, Fields}
use go_tartuffe.Models.Request.{Request}
use go_tartuffe.Models.Stub.{IsResponse}

pub data BehaviorError : Type 0 where
  invalid_wait : BehaviorError
  negative_wait : ℤ → BehaviorError
  script_failed : BehaviorError
  invalid_regex : BehaviorError
  shell_not_supported : BehaviorError

-- A result, an error, or a panic: an index out of range, or a pattern that `MustCompile` refuses.
pub data Outcome {ℓ} (A : Type ℓ) : Type ℓ where
  done : A → Outcome A
  failed : BehaviorError → Outcome A
  panicked : Outcome A

abbrev pub and_then {ℓ κ} : {A : Type ℓ} {B : Type κ} → Outcome A → (A → Outcome B) → Outcome B
and_then (done a) k = k a
and_then (failed e) k = failed e
and_then panicked k = panicked

-- What the behaviors call: FindStringSubmatch of a pattern (`none` if it does not compile, the empty
-- list if it does not match), JSON, FormatFloat, int(v) of a dynamic value that holds a number, an int
-- as a dynamic value, the records of a CSV file up to the first that cannot be read, and the
-- JavaScript engine. A decorator gives an error, no map (the response stays), or the map of its
-- result.
pub record Tools : Type 0 where
  pub find_submatch : Text → Text → Option (List Text)
  pub unmarshal : Text → Option Value
  pub marshal : Value → Option Text
  pub format_float : ℕ → Text
  pub to_int : Value → Option ℤ
  pub int_value : ℤ → Value
  pub read_csv : Text → ℕ → Option (List (List Text))
  pub run_wait : Text → Request → Option ℤ
  pub run_decorate : Text → Request → IsResponse → Option (Option Fields)
