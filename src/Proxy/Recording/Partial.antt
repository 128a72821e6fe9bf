-- ===== src/Proxy/Recording/Partial.antt =====
-- internal/imposter/proxy.go and matcher.go: a pattern that extracts a part of a field.
use go_tartuffe.Prelude.{Text, Bool, true, false, some, [], ◌∷◌, is_blank, ◌≡◌, refl, ◌∙◌}
use go_tartuffe.Value.{text, object, no_fields, field, to_string}
use go_tartuffe.Models.Request.{Request}
use go_tartuffe.Models.Stub.{PredicateGen}
use go_tartuffe.Matcher.Env.{Env, apply_except, same_text, is_empty}
use go_tartuffe.Matcher.Fields.{request_field}
use go_tartuffe.Matcher.Compare.{stripped_equals, compare_present, compare_values}
use go_tartuffe.Matcher.Evaluate.{
  Engine, all_fields, evaluate_equals, for_fields, compare_operators, evaluate_operators,
  apply_selector, evaluate_predicate, matches_all_predicates,
}
use go_tartuffe.Proxy.{Generation}
use go_tartuffe.Proxy.Predicates.{
  get_field_value, extract_with_pattern, expected_value, equals_map, generated_from,
  generate_predicate, generate_predicates,
}
use go_tartuffe.Proxy.Predicates.Hold.{request_field-get_field_value}

module _ (generation : Generation) (req : Request) (name pattern t u : Text)
    (value : get_field_value req name ≡ text t)
    (extracted : extract_with_pattern generation (text t) pattern ≡ some u) where
  one_field :
      equals_map generation req (field name (text pattern) no_fields)
      ≡ field name (text u) no_fields
  unfolding equals_map expected_value
  one_field = rw (equals_map, value, expected_value, extracted) refl

  field_value : (b : Bool) → request_field req name b ≡ text t
  field_value b = request_field-get_field_value req name b (rw value refl) ∙ value

  compare_part :
      (env : Env) (b : Bool)
      → same_text b t u ≡ false
      → compare_values env
          (record { case_sensitive = b; key_case_sensitive = b; except = [] })
          (text t)
          (text u)
        ≡ false
  unfolding compare_values compare_present to_string stripped_equals apply_except is_empty
  compare_part env b h = h

  -- The predicate that is generated with a pattern that extracts a part of a field fails on the request
  -- that it was generated from, so the stub that is recorded never answers that request again.
  pub generate_predicates-partial :
      {S : Type 0} (env : Env) (engine : Engine S) (gen : PredicateGen) (s : S)
      → is_blank gen.inject ≡ true
      → gen.matches ≡ object (field name (text pattern) no_fields)
      → same_text gen.case_sensitive t u ≡ false
      → matches_all_predicates env engine (generate_predicates generation req (gen ∷ [])) req s
        ≡ (false, s)
  unfolding generate_predicates generate_predicate generated_from matches_all_predicates
      evaluate_predicate evaluate_operators apply_selector compare_operators evaluate_equals
      for_fields all_fields
  generate_predicates-partial env engine gen s written patterns differs =
      rw
        (
          generate_predicates,
          written,
          generate_predicate,
          patterns,
          one_field,
          field_value gen.case_sensitive,
          compare_part env gen.case_sensitive differs,
        )
        refl
