-- ===== src/Selectors/Search.antt =====
-- internal/imposter/selectors.go: `recursiveSearchWithOptions` and the functions that apply a
-- selector to a body.
use go_tartuffe.Prelude.{
  Text, codes, text_eq, equal_fold, has_prefix, is_blank, trim_space, Bool, Option, none, some,
  List, [], ◌∷◌, if◌then◌else◌, map,
}
use go_tartuffe.Value.{Value, text, array, object, Items, no_items, item, Fields, no_fields, field}
use go_tartuffe.Models.Predicate.{Selector}
use go_tartuffe.Selectors.{Library, value_to_string, parse_path_segment, trim_byte}
use go_tartuffe.Selectors.Navigate.{navigate, exact_entry}

abbrev or_later : Text → Text → Text
or_later result later = if is_blank result then later else result

module _ (lib : Library) (key_case_sensitive : Bool) where
  -- The first result that is not empty among the keys that fold to the name.
  unfoldable pub search_folded : Fields → Text → Text → Text
  unfolding navigate
  search_folded no_fields name rest = []
  search_folded (field k v fs) name rest =
      let later = search_folded fs name rest in
      if equal_fold k name then or_later (navigate lib key_case_sensitive v rest) later else later

  -- The results at this level: of the segment itself, then without regard to case.
  unfoldable pub search_level : Fields → Text → Text
  unfolding search_folded
  search_level fs path =
      let segment = (parse_path_segment path).0 in
      let rest = (parse_path_segment path).1 in
      or_later
        (elim (exact_entry lib key_case_sensitive fs segment rest) [ none ↦ [] | some r ↦ r ])
        (if key_case_sensitive then [] else search_folded fs segment rest)

  unfoldable mutual
    -- recursiveSearchWithOptions
    pub recursive_search : Value → Text → Text
    recursive_search (object fs) path = or_later (search_level fs path) (search_entries fs path)
    recursive_search (array xs) path = search_items xs path
    recursive_search v path = []

    pub search_entries : Fields → Text → Text
    search_entries no_fields path = []
    search_entries (field k v fs) path = or_later (recursive_search v path) (search_entries fs path)

    pub search_items : Items → Text → Text
    search_items no_items path = []
    search_items (item v xs) path = or_later (recursive_search v path) (search_items xs path)

  -- evaluateJSONPathWithOptions
  unfoldable pub evaluate_jsonpath : Value → Text → Text
  unfolding recursive_search
  evaluate_jsonpath v path =
      let trimmed = trim_byte b'.' (trim_byte b'$' path) in
      if is_blank trimmed
      then value_to_string lib v
      else if has_prefix trimmed (codes ".")
      then recursive_search v (trim_byte b'.' trimmed)
      else navigate lib key_case_sensitive v trimmed

  -- applyJSONPathWithOptions; `none` is a body that is no JSON.
  unfoldable pub apply_jsonpath : Text → Text → Option Text
  unfolding evaluate_jsonpath
  apply_jsonpath body path = elim (lib.unmarshal body) [
    | none ↦ none
    | some v ↦ some (evaluate_jsonpath v path)
  ]

-- A node that xmlquery found, and its inner text.
pub data Node : Type 0 where
  attribute : Text → Node
  element : Text → Node

-- getXMLNodeValue
unfoldable pub node_value : Node → Text
node_value (attribute t) = t
node_value (element t) = trim_space t

unfoldable pub text_items : List Text → Items
text_items [] = no_items
text_items (t ∷ ts) = item (text t) (text_items ts)

-- The nodes that xmlquery finds, or an error.
module _ (lib : Library) (query : Text → Text → Option (List Node)) where
  -- applyXPath
  unfoldable pub apply_xpath : Text → Text → Option Text
  unfolding node_value text_items
  apply_xpath body xpath = elim (query body xpath) [
    | none ↦ none
    | some [] ↦ some []
    | some (n ∷ []) ↦ some (node_value n)
    | some (n ∷ n' ∷ ns) ↦ some (lib.marshal (array (text_items (map node_value (n ∷ n' ∷ ns)))))
  ]

  -- ApplySelectorWithOptions
  unfoldable pub apply_selector_with_options : Text → Option Selector → Text → Bool → Option Text
  unfolding apply_jsonpath apply_xpath
  apply_selector_with_options body none kind key_case_sensitive = some body
  apply_selector_with_options body (some s) kind key_case_sensitive =
      if is_blank s.selector
      then some body
      else if text_eq kind (codes "jsonpath")
      then apply_jsonpath lib key_case_sensitive body s.selector
      else if text_eq kind (codes "xpath")
      then apply_xpath body s.selector
      else some body

-- ApplyRegexSelector, with the submatches of the pattern: `none` if it does not compile.
unfoldable pub apply_regex_selector : (Text → Text → Option (List Text)) → Text → Text → Text
apply_regex_selector find_submatch value pattern = elim (find_submatch pattern value) [
  | none ↦ value
  | some [] ↦ []
  | some (whole ∷ []) ↦ whole
  | some (whole ∷ group ∷ groups) ↦ group
]
