-- ===== src/Behaviors/Select/Negative.antt =====
-- internal/imposter/behaviors.go: an index below zero in the path of `navigateJSON`.
use go_tartuffe.Prelude.{
  index_byte-cons, index_byte-append, ℕ, Text, codes, cut, has_prefix, length, take, drop,
  take-append, drop-append, index_byte, false, none, some, [], ◌∷◌, ◌++◌, negsuc, atoi_value, ◌≡◌,
  refl, ap, ◌∙◌, arith, text_eq_refl, is_blank,
}
use mathlib.Core.Path.{ap₂}
use go_tartuffe.Value.{array, object, Items, no_items, item, Fields, field}
use go_tartuffe.Behaviors.{panicked, Tools}
use go_tartuffe.Behaviors.Select.{
  navigate_json, under_array, at_index, trim_brackets, drop_brackets, first_part,
}

at_index-negative :
    (tools : Tools) (xs : Items) (i : ℕ) (rest : Text)
    → at_index tools xs (negsuc i) rest ≡ panicked
unfolding at_index
at_index-negative tools no_items i rest = refl
at_index-negative tools (item v xs) i rest = refl

cut_no_dot : (s : Text) → index_byte b'.' s ≡ none → cut (codes ".") s ≡ none
unfolding cut has_prefix
cut_no_dot [] h = refl
cut_no_dot (c ∷ s) h = let (a, b) = index_byte-cons b'.' c s h in rw (a, cut_no_dot s b) refl

abbrev last_item : Text
last_item = codes "[-1]"

path-cut :
    (name : Text)
    → index_byte b'.' name ≡ none
    → first_part (name ++ last_item) ≡ (name ++ last_item, [])
unfolding first_part index_byte
path-cut name h =
    rw (first_part, cut_no_dot (name ++ last_item) (index_byte-append b'.' name last_item h)) refl

path-index :
    (name : Text)
    → index_byte b'[' name ≡ none
    → index_byte b'[' (name ++ last_item) ≡ some (length name)
unfolding index_byte
path-index name h = index_byte-append b'[' name last_item h ∙ ap some (ground arith)

is_blank-append : (s : Text) → is_blank (s ++ last_item) ≡ false
is_blank-append [] = refl
is_blank-append (c ∷ s) = refl

under_array-negative :
    (tools : Tools) (xs : Items) (fs : Fields) (name rest : Text) (i : ℕ)
    → under_array tools (field name (array xs) fs) name (negsuc i) rest ≡ panicked
unfolding under_array
under_array-negative tools xs fs name rest i =
    rw (under_array, text_eq_refl name) (at_index-negative tools xs i rest)

navigate_json-index :
    (tools : Tools) (fs : Fields) (path key rest : Text) (i : ℕ)
    → is_blank path ≡ false
    → first_part path ≡ (key, rest)
    → index_byte b'[' key ≡ some i
    → navigate_json tools (object fs) path
      ≡ under_array tools fs (take i key) (atoi_value (trim_brackets (drop i key))) rest
unfolding navigate_json
navigate_json-index tools fs path key rest i a b c =
    let c' : index_byte b'[' (first_part path).0 ≡ some i = ap (λ p. index_byte b'[' p.0) b ∙ c in
    rw (navigate_json, a, c')
      (ap (λ p. under_array tools fs (take i p.0) (atoi_value (trim_brackets (drop i p.0))) p.1) b)

-- In an object whose first field is an array, the path of the field with the index -1 panics: the
-- index is compared with the length of the array only. The name has neither a dot nor a bracket.
pub navigate_json-negative :
    (tools : Tools) (xs : Items) (fs : Fields) (name : Text)
    → index_byte b'.' name ≡ none
    → index_byte b'[' name ≡ none
    → navigate_json tools (object (field name (array xs) fs)) (name ++ codes "[-1]") ≡ panicked
unfolding trim_brackets drop_brackets atoi_value
navigate_json-negative tools xs fs name h k =
    navigate_json-index tools (field name (array xs) fs) (name ++ last_item) (name ++ last_item) []
      (length name) (is_blank-append name) (path-cut name h) (path-index name k)
    ∙ ap₂
        (λ key s.
          under_array tools (field name (array xs) fs) key (atoi_value (trim_brackets s)) [])
        (take-append name last_item) (drop-append name last_item)
    ∙ under_array-negative tools xs fs name [] 0
