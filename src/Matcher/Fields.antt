-- ===== src/Matcher/Fields.antt =====
-- internal/imposter/matcher.go: the part of a request that a predicate's key names,
-- `getRequestField` and `fieldExists`.
use go_tartuffe.Prelude.{
  Text, String, codes, text_eq, to_lower, Assoc, lookup, lookup_fold, length, ltb, not, Bool, false,
  Option, none, some, [], ◌∷◌, ◌==◌, if◌then◌else◌, is_some,
}
use go_tartuffe.Value.{Value, nil, text, text_map, text_or_empty}
use go_tartuffe.Models.Request.{Request}
use go_tartuffe.Matcher.Env.{is_empty}

-- strings.SplitN(field, ".", 2) where it has two parts.
unfoldable pub split_dot : Text → Option (Text × Text)
split_dot [] = none
split_dot (c ∷ s) =
    let rest = split_dot s in
    if c == b'.' then some ([], s) else elim rest [ none ↦ none | some (a, b) ↦ some (c ∷ a, b) ]

abbrev pub named : String → Text → Bool
named name t = text_eq (to_lower t) (codes name)

-- One key of a map field. A case sensitive read of a missing key yields "", not nil.
unfoldable pub nested_field : Bool → Text → Option (Assoc Text) → Value
unfolding text_or_empty
nested_field key_case_sensitive key none = nil
nested_field key_case_sensitive key (some m) =
    if key_case_sensitive
    then text (text_or_empty (lookup key m))
    else elim (lookup_fold key m) [ none ↦ nil | some v ↦ text v ]

-- The default case of `getRequestField`: "query.k", "headers.k" or "form.k".
unfoldable pub dotted_field : Request → Text → Bool → Value
unfolding nested_field split_dot
dotted_field req field key_case_sensitive = elim (split_dot field) [
  | none ↦ nil
  | some (parent, key) ↦
      if named "query" parent
      then nested_field key_case_sensitive key req.query
      else if named "headers" parent
      then nested_field key_case_sensitive key req.headers
      else if named "form" parent
      then nested_field key_case_sensitive key req.form
      else nil
]

unfoldable pub request_field : Request → Text → Bool → Value
unfolding dotted_field
request_field req field key_case_sensitive =
    if named "method" field
    then text req.method
    else if named "path" field
    then text req.path
    else if named "body" field
    then text req.body
    else if named "query" field
    then text_map req.query
    else if named "headers" field
    then text_map req.headers
    else if named "form" field
    then text_map req.form
    else dotted_field req field key_case_sensitive

unfoldable pub nested_exists : Bool → Text → Option (Assoc Text) → Bool
nested_exists key_case_sensitive key none = false
nested_exists key_case_sensitive key (some m) =
    if key_case_sensitive then is_some (lookup key m) else is_some (lookup_fold key m)

-- len(m) > 0
unfoldable pub has_entries : Option (Assoc Text) → Bool
has_entries none = false
has_entries (some m) = ltb 0 (length m)

unfoldable pub whole_field_exists : Request → Text → Bool
unfolding has_entries is_empty
whole_field_exists req field =
    if named "method" field
    then not (is_empty req.method)
    else if named "path" field
    then not (is_empty req.path)
    else if named "body" field
    then not (is_empty req.body)
    else if named "query" field
    then has_entries req.query
    else if named "headers" field
    then has_entries req.headers
    else if named "form" field
    then has_entries req.form
    else false

unfoldable pub field_exists : Request → Text → Bool → Bool
unfolding split_dot nested_exists whole_field_exists
field_exists req field key_case_sensitive = elim (split_dot field) [
  | some (parent, key) ↦
      if named "query" parent
      then nested_exists key_case_sensitive key req.query
      else if named "headers" parent
      then nested_exists key_case_sensitive key req.headers
      else if named "form" parent
      then nested_exists key_case_sensitive key req.form
      else false
  | none ↦ whole_field_exists req field
]
