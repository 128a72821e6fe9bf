-- ===== src/Selectors.antt =====
-- internal/imposter/selectors.go: the selection of a text from a body by a JSON path. Segments are
-- cut from the path here; the children walk through the value.
pub mod Navigate
pub mod Search
pub mod Descent
pub mod DroppedDot
pub mod Predicates
use go_tartuffe.Prelude.{
  ℕ, zero, suc, ◌+◌, ◌-◌, ◌==◌, ltb, Text, codes, index_byte, take, drop, reverse, has_prefix, Bool,
  true, false, ◌||◌, Option, none, some, List, [], ◌∷◌, if◌then◌else◌,
}
use go_tartuffe.Value.{Value, nil, boolean, number, text, array, object, text_map}

-- What the selectors call: encoding/json, the text of a number (FormatInt where it is an integer of
-- 64 bits, FormatFloat otherwise), and the %v verb.
pub record Library : Type 0 where
  pub unmarshal : Text → Option Value
  pub marshal : Value → Text
  pub format_number : ℕ → Text
  pub sprint : Value → Text

-- valueToString
unfoldable pub value_to_string : Library → Value → Text
value_to_string lib (text t) = t
value_to_string lib (number n) = lib.format_number n
value_to_string lib (boolean true) = codes "true"
value_to_string lib (boolean false) = codes "false"
value_to_string lib nil = []
value_to_string lib (array xs) = lib.marshal (array xs)
value_to_string lib (object fs) = lib.marshal (object fs)
value_to_string lib (text_map m) = lib.sprint (text_map m)

-- strings.TrimPrefix(s, prefix) of one byte.
unfoldable pub trim_byte : ℕ → Text → Text
trim_byte b [] = []
trim_byte b (c ∷ s) = if c == b then s else c ∷ s

unfoldable pub drop_any : Text → Text → Text
drop_any cutset [] = []
drop_any cutset (c ∷ s) =
    let rest = drop_any cutset s in elim (index_byte c cutset) [ none ↦ c ∷ s | some i ↦ rest ]

-- strings.Trim(s, cutset)
unfoldable pub trim : Text → Text → Text
unfolding drop_any
trim s cutset = reverse (drop_any cutset (reverse (drop_any cutset s)))

-- The index of the bracket that closes the first one, with the brackets that are open.
unfoldable pub closing : ℕ → Text → Option ℕ
closing depth [] = none
closing depth (c ∷ s) =
    let opened = closing (depth + 1) s in
    let closed = closing (depth - 1) s in
    let later = closing depth s in
    let next : Option ℕ → Option ℕ = λ o. elim o [ none ↦ none | some i ↦ some (suc i) ] in
    if c == b'['
    then next opened
    else if c == b']'
    then (if depth == 1 then some 0 else next closed)
    else next later

-- The segment before the first dot or bracket, and the rest: behind the dot, or from the bracket on.
unfoldable pub before_separator : Text → Text × Text
before_separator path = elim (index_byte b'.' path) [
  | none ↦ elim (index_byte b'[' path) [
    | none ↦ (path, [])
    | some bracket ↦ (take bracket path, drop bracket path)
  ]
  | some dot ↦ elim (index_byte b'[' path) [
    | none ↦ (take dot path, drop (dot + 1) path)
    | some bracket ↦
        if ltb dot bracket
        then (take dot path, drop (dot + 1) path)
        else (take bracket path, drop bracket path)
  ]
]

-- parsePathSegment
unfoldable pub parse_path_segment : Text → Text × Text
unfolding closing before_separator trim_byte
parse_path_segment path =
    if has_prefix path (codes "[")
    then elim (closing 0 path) [
      | none ↦ (path, [])
      | some i ↦ (take (i + 1) path, trim_byte b'.' (drop (i + 1) path))
    ]
    else before_separator path

-- extractBracketKey
unfoldable pub extract_bracket_key : Text → Text
unfolding trim
extract_bracket_key segment = trim (trim segment (codes "[]")) (codes "'\"")
