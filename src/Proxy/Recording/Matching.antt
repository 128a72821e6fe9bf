-- ===== src/Proxy/Recording/Matching.antt =====
-- internal/imposter/proxy.go and matcher.go: the stub that a proxy records, on the request that it was
-- recorded from.
use go_tartuffe.Prelude.{
  Text, text_eq, Bool, true, false, some, List, [], ◌∷◌, is_blank, ◌≡◌, refl, subst, arith,
  Bool-cases, Option-cases, inl, inr, to_lower, lower, ℤ,
}
use go_tartuffe.Value.{Value, object, Fields, no_fields, field}
use go_tartuffe.Models.Request.{Request}
use go_tartuffe.Models.Predicate.{Predicate}
use go_tartuffe.Models.Stub.{PredicateGen, ProxyResponse, IsResponse}
use go_tartuffe.Matcher.Env.{Env, PredicateOptions}
use go_tartuffe.Matcher.Fields.{request_field}
use go_tartuffe.Matcher.Json.{is_nil}
use go_tartuffe.Matcher.Compare.{compare_values}
use go_tartuffe.Matcher.Evaluate.{
  Engine, all_fields, evaluate_equals, for_fields, compare_operators, evaluate_operators,
  apply_selector, evaluate_predicate, matches_all_predicates,
}
use go_tartuffe.Proxy.{Generation}
use go_tartuffe.Proxy.Predicates.{
  get_field_value, expected_value, equals_map, predicate_of, generated_from, generate_predicate,
  generate_predicates, unset_operators, with_operators,
}
use go_tartuffe.Proxy.Predicates.Hold.{
  HasMaps, ExtractsWhole, expected_value-holds, request_field-get_field_value,
  get_field_value-IsFieldValue, compare_texts,
}
use go_tartuffe.Proxy.Recording.{default_predicate, recorded_predicates, generate_stub}

module _ (generation : Generation) (req : Request) where
  unfoldable pub AllExtractWhole : Fields → Type 0
  AllExtractWhole no_fields = Unit
  AllExtractWhole (field name pattern rest) =
      ExtractsWhole generation (get_field_value req name) pattern × AllExtractWhole rest

  -- A generator without a script, the patterns of which extract the whole of a field or nothing.
  unfoldable pub IsPlain : PredicateGen → Type 0
  IsPlain gen =
      (is_blank gen.inject ≡ true)
      × ((patterns : Fields) → gen.matches ≡ object patterns → AllExtractWhole patterns)

  unfoldable pub ArePlain : List PredicateGen → Type 0
  ArePlain [] = Unit
  ArePlain (gen ∷ gens) = IsPlain gen × ArePlain gens

  module _ (env : Env) (maps : HasMaps req) where
    abbrev compares : PredicateOptions → Text → Value → Bool
    compares opts name v =
        compare_values env opts (request_field req name opts.key_case_sensitive) v

    equals_map-holds :
        (opts : PredicateOptions)
        → opts.except ≡ []
        → (patterns : Fields) → AllExtractWhole patterns
        → all_fields (compares opts) (equals_map generation req patterns) ≡ true
    unfolding equals_map all_fields AllExtractWhole
    equals_map-holds opts plain no_fields whole = refl
    equals_map-holds opts plain (field name pattern rest) (whole, wholes) =
        elim (Bool-cases (is_nil (get_field_value req name))) [
          | inl e ↦ rw (equals_map, e) (equals_map-holds opts plain rest wholes)
          | inr e ↦
              elim (Option-cases (expected_value generation (get_field_value req name) pattern)) [
                | inl x ↦ rw (equals_map, e, x) (equals_map-holds opts plain rest wholes)
                | inr (v, x) ↦
                    rw
                      (
                        equals_map,
                        e,
                        x,
                        all_fields,
                        request_field-get_field_value req name opts.key_case_sensitive e,
                        expected_value-holds generation env opts plain (get_field_value req name)
                            pattern v (get_field_value-IsFieldValue req name maps) e whole x,
                      )
                      (equals_map-holds opts plain rest wholes)
              ]
        ]

    module _ {S : Type 0} (engine : Engine S) where
      equals_predicate :
          (b : Bool) (equals : Fields) (s : S)
          → ((opts : PredicateOptions)
              → opts.except ≡ []
              → all_fields (compares opts) equals ≡ true)
          → evaluate_predicate env engine
              (with_operators
                (record unset_operators { equals = some (object equals); case_sensitive = b }))
              req
              s
            ≡ (true, s)
      unfolding evaluate_predicate evaluate_operators apply_selector compare_operators
          evaluate_equals for_fields
      equals_predicate b equals s h =
          rw (h (record { case_sensitive = b; key_case_sensitive = b; except = [] }) refl) refl

      predicate_of-holds :
          (b : Bool) (equals : Fields) (p : Predicate) (s : S)
          → ((opts : PredicateOptions)
              → opts.except ≡ []
              → all_fields (compares opts) equals ≡ true)
          → predicate_of b equals ≡ some p
          → evaluate_predicate env engine p req s ≡ (true, s)
      predicate_of-holds b no_fields p s h e = absurd (ground (arith, e))
      predicate_of-holds b (field k v rest) p s h e =
          subst (λ p. evaluate_predicate env engine p req s ≡ (true, s)) (ground (arith, e))
            (equals_predicate b (field k v rest) s h)

      generated_from-holds :
          (b : Bool) (matches : Value) (p : Predicate) (s : S)
          → ((patterns : Fields) → matches ≡ object patterns → AllExtractWhole patterns)
          → generated_from generation req b matches ≡ some p
          → evaluate_predicate env engine p req s ≡ (true, s)
      unfolding generated_from
      generated_from-holds b (object patterns) p s whole e =
          predicate_of-holds b (equals_map generation req patterns) p s
            (λ opts plain. equals_map-holds opts plain patterns (whole patterns refl)) e
      generated_from-holds b matches p s whole e = absurd (ground (arith, e))

      generate_predicate-holds :
          (gen : PredicateGen) (p : Predicate) (s : S)
          → IsPlain gen
          → generate_predicate generation req gen ≡ some p
          → evaluate_predicate env engine p req s ≡ (true, s)
      unfolding generate_predicate IsPlain
      generate_predicate-holds gen p s plain h =
          generated_from-holds gen.case_sensitive gen.matches p s plain.1 h

      generate_predicates-hold :
          (gens : List PredicateGen) (s : S)
          → ArePlain gens
          → matches_all_predicates env engine (generate_predicates generation req gens) req s
            ≡ (true, s)
      unfolding generate_predicates matches_all_predicates ArePlain IsPlain
      generate_predicates-hold [] s plain = refl
      generate_predicates-hold (gen ∷ gens) s (plain, plains) =
          elim (Option-cases (generate_predicate generation req gen)) [
            | inl e ↦ rw (generate_predicates, plain.0, e) (generate_predicates-hold gens s plains)
            | inr (p, e) ↦
                rw
                  (
                    generate_predicates,
                    plain.0,
                    e,
                    matches_all_predicates,
                    generate_predicate-holds gen p s plain e,
                  )
                  (generate_predicates-hold gens s plains)
          ]

      default_predicate-holds :
          (s : S) → evaluate_predicate env engine (default_predicate req) req s ≡ (true, s)
      unfolding default_predicate all_fields request_field text_eq to_lower lower
      default_predicate-holds s = equals_predicate false _ s (λ opts plain.
          rw (compare_texts env opts plain req.method, compare_texts env opts plain req.path) refl)

      recorded_predicates-hold :
          (gens : List PredicateGen) (s : S)
          → ArePlain gens
          → matches_all_predicates env engine (recorded_predicates generation req gens) req s
            ≡ (true, s)
      unfolding recorded_predicates matches_all_predicates
      recorded_predicates-hold [] s plain = rw (default_predicate-holds s) refl
      recorded_predicates-hold (gen ∷ gens) s plain = generate_predicates-hold (gen ∷ gens) s plain

      -- The stub that a proxy records matches the request that it was recorded from, with the scripts'
      -- state as it was: without predicate generators, and with generators that have no script and of
      -- which each pattern extracts the whole of a field or nothing. The keys of the query and of the
      -- headers stand once each.
      pub generate_stub-matches :
          (resp : IsResponse) (proxy : ProxyResponse) (elapsed : ℤ) (s : S)
          → ArePlain proxy.predicate_generators
          → matches_all_predicates env engine
              (generate_stub generation req resp proxy elapsed).0.predicates
              req
              s
            ≡ (true, s)
      unfolding generate_stub
      generate_stub-matches resp proxy elapsed s plain =
          recorded_predicates-hold proxy.predicate_generators s plain
