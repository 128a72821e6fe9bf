-- ===== src/Proxy/Predicates/Hold.antt =====
-- internal/imposter/proxy.go and matcher.go: the predicates that a proxy generates from a request,
-- evaluated on that request.
use go_tartuffe.Prelude.{
  Text, text_eq, text_eq→eq, lookup_cons_self, text_eq_refl, equal_fold_refl, Assoc, IsMap, lookup,
  find_key_of_lookup, length, Bool, true, false, Option, none, some, [], ◌∷◌, if◌then◌else◌,
  ==_refl, ◌≡◌, refl, sym, ◌∙◌, subst, arith, Bool-cases, Option-cases, inl, inr,
}
use go_tartuffe.Value.{
  Value, nil, boolean, number, text, array, object, text_map, Fields, no_fields, field, to_string,
  string_of, text_or_empty,
}
use go_tartuffe.Models.Request.{Request}
use go_tartuffe.Matcher.Env.{Env, PredicateOptions, apply_except, same_text, is_empty}
use go_tartuffe.Matcher.Fields.{named, request_field}
use go_tartuffe.Matcher.Json.{is_nil}
use go_tartuffe.Matcher.Compare.{
  texts, stripped_equals, map_equals_fields, map_equals_texts, compare_maps, compare_present,
  compare_values,
}
use go_tartuffe.Proxy.{Generation}
use go_tartuffe.Proxy.Predicates.{
  get_field_value, nested_equals, entries_of, extract_with_pattern, expected_value,
}

-- The keys of the maps of the request stand once each.
abbrev pub HasMaps : Request → Type 0
HasMaps req = IsMap (texts req.query) × IsMap (texts req.headers)

pub request_field-get_field_value :
    (req : Request) (name : Text) (b : Bool)
    → is_nil (get_field_value req name) ≡ false
    → request_field req name b ≡ get_field_value req name
unfolding request_field get_field_value
request_field-get_field_value req name b h = ground (arith, h)

string_of_text : (t : Text) → string_of (text t) ≡ t
unfolding string_of to_string text_or_empty
string_of_text t = refl

lookup_later :
    (k j : Text) (v w : Text) (m : Assoc Text)
    → lookup k m ≡ none
    → lookup j m ≡ some w
    → lookup j ((k, v) ∷ m) ≡ some w
unfolding lookup
lookup_later k j v w m new e = elim (Bool-cases (text_eq k j)) [
  | inl same ↦
      absurd (ground (arith, new, subst (λ i. lookup i m ≡ some w) (sym (text_eq→eq k j same)) e))
  | inr differs ↦ rw differs e
]

module _ (env : Env) (opts : PredicateOptions) (plain : opts.except ≡ []) where
  stripped_equals_refl : (t : Text) → stripped_equals env opts t t ≡ true
  unfolding stripped_equals apply_except same_text is_empty
  stripped_equals_refl t = rw plain (cases opts.case_sensitive)
    where
      cases : (b : Bool) → same_text b t t ≡ true
      cases true = text_eq_refl t
      cases false = equal_fold_refl t

  -- A map of texts, against the entries of itself.
  map_equals_texts-within :
      (m rest : Assoc Text)
      → ((k v : Text) → lookup k rest ≡ some v → lookup k m ≡ some v)
      → IsMap rest
      → map_equals_texts env opts m rest ≡ true
  unfolding map_equals_texts
  map_equals_texts-within m [] h u = refl
  map_equals_texts-within m ((k, v) ∷ rest) h (new, u) =
      rw
        (
          find_key_of_lookup opts.key_case_sensitive k m (h k v (lookup_cons_self k v rest)),
          stripped_equals_refl v,
        )
        (map_equals_texts-within m rest (λ k' v' e. h k' v' (lookup_later k k' v v' rest new e)) u)

  map_equals_fields-nested :
      (patterns : Fields) (m : Assoc Text)
      → map_equals_fields env opts m (nested_equals patterns m) ≡ true
  unfolding map_equals_fields nested_equals
  map_equals_fields-nested no_fields m = refl
  map_equals_fields-nested (field k (boolean true) rest) m = elim (Option-cases (lookup k m)) [
    | inl e ↦ rw (nested_equals, e) (map_equals_fields-nested rest m)
    | inr (v, e) ↦
        rw
          (
            nested_equals,
            e,
            map_equals_fields,
            find_key_of_lookup opts.key_case_sensitive k m e,
            string_of_text v,
            stripped_equals_refl v,
          )
          (map_equals_fields-nested rest m)
  ]
  map_equals_fields-nested (field k (boolean false) rest) m = map_equals_fields-nested rest m
  map_equals_fields-nested (field k nil rest) m = map_equals_fields-nested rest m
  map_equals_fields-nested (field k (number n) rest) m = map_equals_fields-nested rest m
  map_equals_fields-nested (field k (text t) rest) m = map_equals_fields-nested rest m
  map_equals_fields-nested (field k (array xs) rest) m = map_equals_fields-nested rest m
  map_equals_fields-nested (field k (object fs) rest) m = map_equals_fields-nested rest m
  map_equals_fields-nested (field k (text_map ts) rest) m = map_equals_fields-nested rest m

  pub compare_texts : (t : Text) → compare_values env opts (text t) (text t) ≡ true
  unfolding compare_values compare_present to_string
  compare_texts t = stripped_equals_refl t

  compare_whole_map :
      (m : Option (Assoc Text))
      → IsMap (texts m)
      → compare_values env opts (text_map m) (text_map m) ≡ true
  unfolding compare_values compare_present compare_maps to_string
  compare_whole_map m u =
      rw (==_refl (length (texts m)), map_equals_texts-within (texts m) (texts m) (λ k v e. e) u)
        refl

  compare_nested_map :
      (m : Option (Assoc Text)) (patterns : Fields)
      → compare_values env opts (text_map m) (object (nested_equals patterns (entries_of m))) ≡ true
  unfolding compare_values compare_present compare_maps to_string
  compare_nested_map none patterns = map_equals_fields-nested patterns []
  compare_nested_map (some m) patterns = map_equals_fields-nested patterns m

-- A pattern extracts the whole of the value, if it extracts anything.
abbrev pub ExtractsWhole : Generation → Value → Value → Type 0
ExtractsWhole generation value (text pattern) =
    (t : Text) → extract_with_pattern generation value pattern ≡ some t → value ≡ text t
ExtractsWhole generation value pattern = Unit

-- A value that a field of a request may have.
abbrev pub IsFieldValue : Value → Type 0
IsFieldValue nil = Unit
IsFieldValue (text t) = Unit
IsFieldValue (text_map m) = IsMap (texts m)
IsFieldValue value = ⊥

if-IsFieldValue :
    (b : Bool) (v w : Value) → IsFieldValue v → IsFieldValue w → IsFieldValue (if b then v else w)
if-IsFieldValue true v w i j = i
if-IsFieldValue false v w i j = j

pub get_field_value-IsFieldValue :
    (req : Request) (name : Text) → HasMaps req → IsFieldValue (get_field_value req name)
unfolding get_field_value
get_field_value-IsFieldValue req name (q, h) =
    if-IsFieldValue (named "method" name) (text req.method) _ tt (
      if-IsFieldValue (named "path" name) (text req.path) _ tt (
        if-IsFieldValue (named "body" name) (text req.body) _ tt (
          if-IsFieldValue (named "query" name) (text_map req.query) _ q
            (if-IsFieldValue (named "headers" name) (text_map req.headers) nil h tt))))

module _ (generation : Generation) (env : Env) (opts : PredicateOptions)
    (plain : opts.except ≡ []) where
  expected_of_text :
      (t pattern : Text) (v : Value)
      → ExtractsWhole generation (text t) (text pattern)
      → expected_value generation (text t) (text pattern) ≡ some v
      → compare_values env opts (text t) v ≡ true
  unfolding expected_value
  expected_of_text t pattern v whole h =
      elim (Option-cases (extract_with_pattern generation (text t) pattern)) [
        | inl e ↦ absurd (ground (arith, e, h))
        | inr (u, e) ↦
            let same : text u ≡ v = ground (arith, e, h) in
            subst (λ v. compare_values env opts (text t) v ≡ true) (whole u e ∙ same)
              (compare_texts env opts plain t)
      ]

  expected_nested :
      (m : Option (Assoc Text)) (patterns : Fields) (v : Value)
      → expected_value generation (text_map m) (object patterns) ≡ some v
      → compare_values env opts (text_map m) v ≡ true
  unfolding expected_value
  expected_nested m patterns v h =
      let same : object (nested_equals patterns (entries_of m)) ≡ v = ground (arith, h) in
      subst (λ v. compare_values env opts (text_map m) v ≡ true) same
        (compare_nested_map env opts plain m patterns)

  expected_whole :
      (value v : Value)
      → compare_values env opts value value ≡ true
      → expected_value generation value (boolean true) ≡ some v
      → compare_values env opts value v ≡ true
  unfolding expected_value
  expected_whole value v c h =
      subst (λ v. compare_values env opts value v ≡ true) (ground (arith, h)) c

  compare_itself :
      (value : Value)
      → IsFieldValue value
      → is_nil value ≡ false
      → compare_values env opts value value ≡ true
  compare_itself nil i n = absurd (ground (arith, n))
  compare_itself (text t) i n = compare_texts env opts plain t
  compare_itself (text_map m) i n = compare_whole_map env opts plain m i
  compare_itself (boolean b) i n = absurd i
  compare_itself (number b) i n = absurd i
  compare_itself (array b) i n = absurd i
  compare_itself (object b) i n = absurd i

  -- Whatever a pattern makes of a field's value, the field compares equal to it.
  pub expected_value-holds :
      (value pattern v : Value)
      → IsFieldValue value
      → is_nil value ≡ false
      → ExtractsWhole generation value pattern
      → expected_value generation value pattern ≡ some v
      → compare_values env opts value v ≡ true
  expected_value-holds value (boolean true) v i n whole h =
      expected_whole value v (compare_itself value i n) h
  expected_value-holds (text t) (text pattern) v i n whole h = expected_of_text t pattern v whole h
  expected_value-holds (text_map m) (object patterns) v i n whole h = expected_nested m patterns v h
  expected_value-holds value pattern v i n whole h =
      absurd (unfold expected_value extract_with_pattern in ground (arith, h))
