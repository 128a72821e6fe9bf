-- ===== src/Behaviors/Extract.antt =====
-- internal/imposter/behaviors.go: `getFromValue`, `getRequestField`, `extractValues`, `extractXPath`,
-- `extractRegex` and `parseUsing`.
use go_tartuffe.Prelude.{
  Text, Assoc, codes, text_eq, to_lower, has_prefix, cut, is_blank, lookup, lookup_fold, Option,
  none, some, List, [], ◌∷◌, ◌++◌, if◌then◌else◌,
}
use go_tartuffe.Value.{Value, text, object, Fields, no_fields, field, entries}
use go_tartuffe.Models.Request.{Request}
use go_tartuffe.Models.Stub.{Using, UsingOptions}
use go_tartuffe.Behaviors.{Outcome, done, failed, panicked, invalid_regex, Tools}
use go_tartuffe.Behaviors.Select.{extract_jsonpath, trim_prefix}

-- getRequestField
unfoldable pub get_request_field : Request → Text → Text
get_request_field req name =
    let lowered = to_lower name in
    if text_eq lowered (codes "method")
    then req.method
    else if text_eq lowered (codes "path")
    then req.path
    else if text_eq lowered (codes "body")
    then req.body
    else if text_eq lowered (codes "data")
    then req.body
    else []

abbrev pub or_empty : Option Text → Text
or_empty none = []
or_empty (some t) = t

-- values[0], where there is one and no error.
abbrev pub first_of : Outcome (List Text) → Text → Outcome Text
first_of (done []) default = done default
first_of (done (v ∷ vs)) default = done v
first_of (failed e) default = done default
first_of panicked default = panicked

module _ (tools : Tools) (req : Request) where
  -- What one entry of a `from` map gives; `none` goes on to the next entry.
  unfoldable pub from_entry : Text → Text → Option (Outcome Text)
  from_entry name sub =
      let lowered = to_lower name in
      if text_eq lowered (codes "path")
      then some (done req.path)
      else if text_eq lowered (codes "body")
      then some (
          if has_prefix sub (codes "$")
          then first_of (extract_jsonpath tools req.body sub) req.body
          else done req.body)
      else if text_eq lowered (codes "query")
      then elim req.query [ none ↦ none | some m ↦ some (done (or_empty (lookup sub m))) ]
      else if text_eq lowered (codes "headers")
      then elim req.headers [
        | none ↦ none
        | some m ↦ elim (lookup_fold sub m) [ none ↦ none | some v ↦ some (done v) ]
      ]
      else none

  unfoldable pub from_entries : Fields → Outcome Text
  unfolding from_entry
  from_entries no_fields = done []
  from_entries (field name (text sub) fs) =
      let later = from_entries fs in
      elim (from_entry name sub) [ none ↦ later | some result ↦ result ]
  from_entries (field name v fs) = from_entries fs

  -- getFromValue
  unfoldable pub get_from_value : Value → Outcome Text
  unfolding from_entries get_request_field
  get_from_value (text name) = done (get_request_field req name)
  get_from_value (object fs) = from_entries fs
  get_from_value v = done []

module _ (tools : Tools) where
  -- extractRegex
  unfoldable pub extract_regex : Text → Text → Option UsingOptions → Outcome (List Text)
  extract_regex source pattern options =
      let flags : Text = elim options [
        | none ↦ []
        | some o ↦
            (if o.ignore_case then codes "(?i)" else [])
            ++ (if o.multiline then codes "(?m)" else [])
      ] in
      elim (tools.find_submatch (flags ++ pattern) source) [
        | none ↦ failed invalid_regex
        | some [] ↦ done []
        | some (whole ∷ []) ↦ done (whole ∷ [])
        | some (whole ∷ g ∷ groups) ↦ done (g ∷ groups)
      ]

  -- fmt.Sprintf("<%s[^>]*>([^<]+)</%s>", tag, tag)
  unfoldable pub tag_pattern : Text → Text
  tag_pattern tag = codes "<" ++ (tag ++ (codes "[^>]*>([^<]+)</" ++ (tag ++ codes ">")))

  -- The patterns of the prefixes of a namespace.
  unfoldable pub prefixed_patterns : Text → Text → Assoc Text → List Text
  unfolding tag_pattern
  prefixed_patterns ns tag [] = []
  prefixed_patterns ns tag ((prefix, url) ∷ namespaces) =
      let rest = prefixed_patterns ns tag namespaces in
      if text_eq url ns then tag_pattern (prefix ++ (codes ":" ++ tag)) ∷ rest else rest

  unfoldable pub first_match : Text → List Text → Outcome (List Text)
  first_match source [] = done []
  first_match source (pattern ∷ patterns) =
      let later = first_match source patterns in
      elim (tools.find_submatch pattern source) [
        | none ↦ panicked
        | some [] ↦ later
        | some (whole ∷ []) ↦ later
        | some (whole ∷ g ∷ groups) ↦ done (g ∷ [])
      ]

  -- extractXPath; the namespaces are a map that may be empty.
  unfoldable pub extract_xpath : Text → Text → Assoc Text → Outcome (List Text)
  unfolding prefixed_patterns first_match
  extract_xpath source selector namespaces =
      let path = trim_prefix selector (codes "//") in
      elim (cut (codes ":") path) [
        | none ↦ first_match source (tag_pattern path ∷ [])
        | some (prefix, tag) ↦
            let ns = or_empty (lookup prefix namespaces) in
            first_match source (
              (if is_blank ns then [] else prefixed_patterns ns tag namespaces)
              ++ tag_pattern tag ∷ [])
      ]

  -- extractValues
  unfoldable pub extract_values : Text → Using → Outcome (List Text)
  unfolding extract_regex extract_xpath
  extract_values source using =
      if text_eq using.method (codes "regex")
      then extract_regex source using.selector using.options
      else if text_eq using.method (codes "xpath")
      then extract_xpath source using.selector using.ns
      else if text_eq using.method (codes "jsonpath")
      then extract_jsonpath tools source using.selector
      else done (source ∷ [])

abbrev text_field : Text → Fields → Text
text_field name fs = elim (lookup name (entries fs)) [ some (text t) ↦ t | _ ↦ [] ]

unfoldable pub text_entries : Fields → Assoc Text
text_entries no_fields = []
text_entries (field k (text t) fs) = (k, t) ∷ text_entries fs
text_entries (field k v fs) = text_entries fs

-- parseUsing
unfoldable pub parse_using : Fields → Using
unfolding text_entries
parse_using fs = record {
  method = text_field (codes "method") fs;
  selector = text_field (codes "selector") fs;
  ns = elim (lookup (codes "ns") (entries fs)) [ some (object ns) ↦ text_entries ns | _ ↦ [] ];
  options = none;
}
