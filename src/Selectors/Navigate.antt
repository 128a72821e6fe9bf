-- ===== src/Selectors/Navigate.antt =====
-- internal/imposter/selectors.go: `navigatePathWithOptions`.
use go_tartuffe.Prelude.{
  ℕ, zero, suc, ◌+◌, ◌-◌, ltb, Text, codes, text_eq, equal_fold, has_prefix, is_blank, join, atoi,
  length, Bool, true, false, Option, none, some, List, [], ◌∷◌, ◌++◌, if◌then◌else◌, ℤ, pos, negsuc,
}
use go_tartuffe.Value.{Value, array, object, Items, no_items, item, items, Fields, no_fields, field}
use go_tartuffe.Selectors.{Library, value_to_string, parse_path_segment, extract_bracket_key, trim}

-- Results that are not empty.
abbrev pub kept : Text → List Text → List Text
kept result results = if is_blank result then results else result ∷ results

-- The only result, or all of them with commas between them.
abbrev pub joined_results : List Text → Text
joined_results results = join (codes ",") results

-- An index below zero counts from the end; `none` if it is out of range.
unfoldable pub item_index : ℕ → ℤ → Option ℕ
item_index len (pos i) = if ltb i len then some i else none
item_index len (negsuc i) = if ltb i len then some (len - (i + 1)) else none

-- What the entries of a map give, tried in this order: the segment itself, the segment without regard
-- to case, the key in brackets in both ways, and the wildcard.
unfoldable pub choose_entry :
    Bool → Text → Option Text → Option Text → Option Text → Option Text → List Text → Text
choose_entry key_case_sensitive segment exact folded bracket bracket_folded all = elim exact [
  | some r ↦ r
  | none ↦ elim (if key_case_sensitive then none else folded) [
    | some r ↦ r
    | none ↦
        if has_prefix segment (codes "[")
        then elim bracket [
          | some r ↦ r
          | none ↦ elim (if key_case_sensitive then none else bracket_folded) [
            | some r ↦ r
            | none ↦ []
          ]
        ]
        else if text_eq segment (codes "*")
        then joined_results all
        else []
  ]
]

-- What the elements of an array give for a segment: the element of an index, or all of them.
unfoldable pub choose_item : Text → ℕ → (ℕ → Text) → List Text → List Text → Text
unfolding trim item_index
choose_item segment len at each fields =
    let index = trim segment (codes "[]") in
    if has_prefix segment (codes "[")
    then if text_eq index (codes "*") then joined_results each else elim (atoi index) [
      | none ↦ []
      | some i ↦ elim (item_index len i) [ none ↦ [] | some n ↦ at n ]
    ]
    else joined_results fields

module _ (lib : Library) (key_case_sensitive : Bool) where
  unfoldable mutual
    -- navigatePathWithOptions
    pub navigate : Value → Text → Text
    navigate (object fs) path =
        let segment = (parse_path_segment path).0 in
        let rest = (parse_path_segment path).1 in
        let key = extract_bracket_key segment in
        elim (is_blank path) [
          | true ↦ value_to_string lib (object fs)
          | false ↦
              choose_entry key_case_sensitive segment (exact_entry fs segment rest)
                (folded_entry fs segment rest) (exact_entry fs key rest) (folded_entry fs key rest)
                (each_entry fs rest)
        ]
    navigate (array xs) path =
        let segment = (parse_path_segment path).0 in
        let rest = (parse_path_segment path).1 in
        elim (is_blank path) [
          | true ↦ value_to_string lib (array xs)
          | false ↦
              choose_item segment (length (items xs)) (λ i. at_item xs i rest) (each_item xs rest)
                (each_item xs (segment ++ rest))
        ]
    navigate v path = if is_blank path then value_to_string lib v else []

    -- d[name], with the rest of the path.
    pub exact_entry : Fields → Text → Text → Option Text
    exact_entry no_fields name rest = none
    exact_entry (field k v fs) name rest = elim (text_eq k name) [
      | true ↦ some (navigate v rest)
      | false ↦ exact_entry fs name rest
    ]

    pub folded_entry : Fields → Text → Text → Option Text
    folded_entry no_fields name rest = none
    folded_entry (field k v fs) name rest = elim (equal_fold k name) [
      | true ↦ some (navigate v rest)
      | false ↦ folded_entry fs name rest
    ]

    pub each_entry : Fields → Text → List Text
    each_entry no_fields rest = []
    each_entry (field k v fs) rest = kept (navigate v rest) (each_entry fs rest)

    pub at_item : Items → ℕ → Text → Text
    at_item no_items i rest = []
    at_item (item v xs) zero rest = navigate v rest
    at_item (item v xs) (suc i) rest = at_item xs i rest

    pub each_item : Items → Text → List Text
    each_item no_items rest = []
    each_item (item v xs) rest = kept (navigate v rest) (each_item xs rest)
