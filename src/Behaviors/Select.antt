-- ===== src/Behaviors/Select.antt =====
-- internal/imposter/behaviors.go: `extractJSONPath`, `recursiveSearch`, `navigateJSON` and
-- `jsonToString`.
pub mod Negative
use go_tartuffe.Prelude.{
  ℕ, zero, suc, ◌+◌, ◌==◌, Text, codes, text_eq, has_prefix, index_byte, cut, is_blank, take, drop,
  reverse, lookup, Bool, true, false, ◌||◌, Option, none, some, List, [], ◌∷◌, if◌then◌else◌, ℤ,
  pos, negsuc, atoi_value,
}
use go_tartuffe.Value.{
  Value, nil, boolean, number, text, array, object, text_map, Items, no_items, item, Fields,
  no_fields, field, entries,
}
use go_tartuffe.Behaviors.{Outcome, done, failed, panicked, and_then, Tools}

unfoldable pub drop_brackets : Text → Text
drop_brackets [] = []
drop_brackets (c ∷ s) = let rest = drop_brackets s in if c == b'[' || c == b']' then rest else c ∷ s

-- strings.Trim(s, "[]")
unfoldable pub trim_brackets : Text → Text
unfolding drop_brackets
trim_brackets s = reverse (drop_brackets (reverse (drop_brackets s)))

-- strings.TrimPrefix
unfoldable pub trim_prefix : Text → Text → Text
trim_prefix s prefix = elim (has_prefix s prefix) [ true ↦ dropped prefix s | false ↦ s ]
  where
    dropped : Text → Text → Text
    dropped [] t = t
    dropped (c ∷ p) [] = []
    dropped (c ∷ p) (d ∷ t) = dropped p t

-- The part of a path before the first dot, and the rest.
unfoldable pub first_part : Text → Text × Text
first_part path = elim (cut (codes ".") path) [ none ↦ (path, []) | some parts ↦ parts ]

module _ (tools : Tools) where
  -- jsonToString; a value that cannot be printed gives "".
  unfoldable pub json_to_string : Value → Text
  json_to_string (text t) = t
  json_to_string (number n) = tools.format_float n
  json_to_string (boolean true) = codes "true"
  json_to_string (boolean false) = codes "false"
  json_to_string nil = []
  json_to_string v = elim (tools.marshal v) [ none ↦ [] | some t ↦ t ]

  unfoldable mutual
    -- navigateJSON
    pub navigate_json : Value → Text → Outcome Text
    navigate_json (object fs) path =
        let key = (first_part path).0 in
        let rest = (first_part path).1 in
        if is_blank path then done (json_to_string (object fs)) else elim (index_byte b'[' key) [
          | none ↦ under_key fs key rest
          | some i ↦ under_array fs (take i key) (atoi_value (trim_brackets (drop i key))) rest
        ]
    navigate_json v path = done (if is_blank path then json_to_string v else [])

    -- m[key]
    pub under_key : Fields → Text → Text → Outcome Text
    under_key no_fields key rest = done []
    under_key (field k v fs) key rest = elim (text_eq k key) [
      | true ↦ navigate_json v rest
      | false ↦ under_key fs key rest
    ]

    -- m[arrayKey].([]interface{})
    pub under_array : Fields → Text → ℤ → Text → Outcome Text
    under_array no_fields key i rest = done []
    under_array (field k (array xs) fs) key i rest = elim (text_eq k key) [
      | true ↦ at_index xs i rest
      | false ↦ under_array fs key i rest
    ]
    under_array (field k v fs) key i rest = elim (text_eq k key) [
      | true ↦ done []
      | false ↦ under_array fs key i rest
    ]

    -- arr[index], if index < len(arr).
    pub at_index : Items → ℤ → Text → Outcome Text
    at_index no_items (pos i) rest = done []
    at_index no_items (negsuc i) rest = panicked
    at_index (item v xs) (pos zero) rest = navigate_json v rest
    at_index (item v xs) (pos (suc i)) rest = at_index xs (pos i) rest
    at_index (item v xs) (negsuc i) rest = panicked

  abbrev or_later : Text → Text → Text
  or_later result later = if is_blank result then later else result

  unfoldable mutual
    -- recursiveSearch
    pub recursive_search : Value → Text → Text
    recursive_search (object fs) name =
        let deeper = search_fields fs name in
        elim (lookup name (entries fs)) [ some v ↦ json_to_string v | none ↦ deeper ]
    recursive_search (array xs) name = search_items xs name
    recursive_search v name = []

    pub search_fields : Fields → Text → Text
    search_fields no_fields name = []
    search_fields (field k v fs) name = or_later (recursive_search v name) (search_fields fs name)

    pub search_items : Items → Text → Text
    search_items no_items name = []
    search_items (item v xs) name = or_later (recursive_search v name) (search_items xs name)

  abbrev if_any : Text → List Text
  if_any result = if is_blank result then [] else result ∷ []

  -- extractJSONPath
  unfoldable pub extract_jsonpath : Text → Text → Outcome (List Text)
  unfolding navigate_json recursive_search trim_prefix
  extract_jsonpath source selector =
      let path = trim_prefix selector (codes "$") in
      if text_eq selector (codes "$") then done (source ∷ []) else elim (tools.unmarshal source) [
        | none ↦ done (source ∷ [])
        | some json ↦
            if has_prefix path (codes "..")
            then done (if_any (recursive_search json (trim_prefix path (codes ".."))))
            else and_then (navigate_json json (trim_prefix path (codes ".")))
                (λ result. done (if_any result))
      ]
