-- ===== src/Matcher/Exists/Missing.antt =====
-- internal/imposter/matcher.go: what the exists predicate asks of a part of the body that is missing.
use go_tartuffe.Prelude.{
  Text, Bool, true, false, not, some, ◌≡◌, refl, arith, Option-cases, inl, inr,
}
use go_tartuffe.Value.{Value, nil, boolean, object, Fields, no_fields, field, bool_eq}
use go_tartuffe.Matcher.Env.{Env}
use go_tartuffe.Models.Request.{Request}
use go_tartuffe.Matcher.Exists.{
  check_nested_existence, all_nested_expect_false, body_fields_exist, key_exists_in_json,
  json_value,
}

abbrev pub is_object : Value → Bool
is_object (object fs) = true
is_object _ = false

key_exists-no_object :
    (json : Value) (k : Text) (b : Bool)
    → is_object json ≡ false
    → key_exists_in_json json k b ≡ false
unfolding key_exists_in_json
key_exists-no_object json k b h = ground arith

json_value-no_object :
    (json : Value) (k : Text) (b : Bool) → is_object json ≡ false → json_value json k b ≡ nil
unfolding json_value
json_value-no_object json k b h = ground arith

missing_flag :
    (json : Value) (k : Text) (v b : Bool)
    → is_object json ≡ false
    → bool_eq (key_exists_in_json json k b) v ≡ not v
missing_flag json k v b h = rw (key_exists-no_object json k b h) (unfold bool_eq in refl)

-- In a value that is no map no key exists, so every key, at every depth, must be expected missing.
pub check_nested_existence-no_object :
    (json : Value) (spec : Fields) (key_case_sensitive : Bool)
    → is_object json ≡ false
    → check_nested_existence json spec key_case_sensitive ≡ all_nested_expect_false spec
unfolding check_nested_existence all_nested_expect_false
check_nested_existence-no_object json no_fields b h = refl
check_nested_existence-no_object json (field k (boolean v) rest) b h =
    rw (missing_flag json k v b h, check_nested_existence-no_object json rest b h) refl
check_nested_existence-no_object json (field k (object fs) rest) b h =
    rw (json_value-no_object json k b h, check_nested_existence-no_object json rest b h) refl
check_nested_existence-no_object json (field k _ rest) b h =
    check_nested_existence-no_object json rest b h

-- A body that is no JSON passes {"body": spec} exactly if every key of `spec` that has a boolean, at
-- every depth, is expected to be missing; so does a body that is JSON but no map.
pub body_fields_exist-no_object :
    (env : Env) (req : Request) (key_case_sensitive : Bool) (spec : Fields)
    → ((json : Value) → env.unmarshal req.body ≡ some json → is_object json ≡ false)
    → body_fields_exist env req key_case_sensitive spec ≡ all_nested_expect_false spec
unfolding body_fields_exist
body_fields_exist-no_object env req b spec h = elim (Option-cases (env.unmarshal req.body)) [
  | inl e ↦ rw (e, body_fields_exist) refl
  | inr (json, e) ↦
      rw (e, body_fields_exist) (check_nested_existence-no_object json spec b (h json e))
]
