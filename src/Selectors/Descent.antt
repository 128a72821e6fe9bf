-- ===== src/Selectors/Descent.antt =====
-- internal/imposter/selectors.go: paths of names with dots between them.
use go_tartuffe.Prelude.{
  ℕ, suc, ◌+◌, ltb, Text, codes, text_eq, lookup, index_byte, index_byte-cons, index_byte-append,
  take, drop, take-append, drop-append, length, has_prefix, is_blank, join, Bool, true, false,
  Option, none, some, List, [], ◌∷◌, ◌++◌, ◌≡◌, refl, sym, ap, ◌⊎◌, length-append, ◌∙◌, subst,
  arith, append-nil, append_assoc, Option-cases, Bool-cases, inl, inr,
}
use go_tartuffe.Value.{
  Value, nil, boolean, number, text, array, object, text_map, Fields, no_fields, field, entries,
}
use go_tartuffe.Selectors.{
  Library, value_to_string, parse_path_segment, before_separator, trim_byte,
}
use go_tartuffe.Selectors.Navigate.{navigate, exact_entry, choose_entry}
use go_tartuffe.Selectors.Search.{evaluate_jsonpath}

-- A name is a text that is not empty and has neither a dot nor an opening bracket.
abbrev pub IsName : Text → Type 0
IsName k = (is_blank k ≡ false) × (index_byte b'.' k ≡ none) × (index_byte b'[' k ≡ none)

dot_before :
    (k rest : Text)
    → index_byte b'.' k ≡ none
    → index_byte b'.' (k ++ b'.' ∷ rest) ≡ some (length k)
unfolding index_byte
dot_before k rest h = index_byte-append b'.' k (b'.' ∷ rest) h ∙ ap some (ground arith)

-- A bracket behind the dot stands behind it in the whole path too.
bracket_behind :
    (k rest : Text)
    → index_byte b'[' k ≡ none
    → (index_byte b'[' (k ++ b'.' ∷ rest) ≡ none)
      ⊎ ((i : ℕ) × (index_byte b'[' (k ++ b'.' ∷ rest) ≡ some (length k + suc i)))
unfolding index_byte
bracket_behind k rest h = elim (Option-cases (index_byte b'[' rest)) [
  | inl e ↦ inl (index_byte-append b'[' k (b'.' ∷ rest) h ∙ rw e refl)
  | inr (i, e) ↦ inr (i, index_byte-append b'[' k (b'.' ∷ rest) h ∙ rw e refl)
]

drop-behind : (k rest : Text) (c : ℕ) → drop (length k + 1) (k ++ c ∷ rest) ≡ rest
drop-behind k rest c =
    let n : length (k ++ c ∷ []) ≡ length k + 1 = length-append k (c ∷ []) in
    subst (λ n. drop n (k ++ c ∷ rest) ≡ rest) n
      (ap (drop (length (k ++ c ∷ []))) (sym (append_assoc k (c ∷ []) rest))
        ∙ drop-append (k ++ c ∷ []) rest)

parts-dot :
    (k rest : Text)
    → ◌≡◌ {A = Text × Text}
        (take (length k) (k ++ b'.' ∷ rest), drop (length k + 1) (k ++ b'.' ∷ rest))
        (k, rest)
parts-dot k rest i = (take-append k (b'.' ∷ rest) i, drop-behind k rest b'.' i)

-- The name in front of a dot is the first segment.
before_separator-dot : (k rest : Text) → IsName k → before_separator (k ++ b'.' ∷ rest) ≡ (k, rest)
unfolding before_separator
before_separator-dot k rest (filled, dotless, plain) = elim (bracket_behind k rest plain) [
  | inl e ↦ rw (before_separator, dot_before k rest dotless, e) (parts-dot k rest)
  | inr (i, e) ↦
      let less : ltb (length k) (length k + suc i) ≡ true = ground arith in
      rw (before_separator, dot_before k rest dotless, e, less) (parts-dot k rest)
]

before_separator-name : (k : Text) → IsName k → before_separator k ≡ (k, [])
unfolding before_separator
before_separator-name k (filled, dotless, plain) = rw (before_separator, dotless, plain) refl

pub has_prefix-name : (k s : Text) → IsName k → has_prefix (k ++ s) (codes "[") ≡ false
unfolding has_prefix
has_prefix-name [] s (filled, dotless, plain) = absurd (ground arith)
has_prefix-name (c ∷ k) s (filled, dotless, plain) = rw (index_byte-cons b'[' c k plain).0 refl

pub parse_path_segment-dot :
    (k rest : Text) → IsName k → parse_path_segment (k ++ b'.' ∷ rest) ≡ (k, rest)
unfolding parse_path_segment
parse_path_segment-dot k rest name =
    rw (parse_path_segment, has_prefix-name k (b'.' ∷ rest) name) (before_separator-dot k rest name)

pub parse_path_segment-name : (k : Text) → IsName k → parse_path_segment k ≡ (k, [])
unfolding parse_path_segment
parse_path_segment-name k name =
    let plain : has_prefix k (codes "[") ≡ false =
      subst (λ t. has_prefix t (codes "[") ≡ false) (append-nil k) (has_prefix-name k [] name) in
    rw (parse_path_segment, plain) (before_separator-name k name)

pub name-filled : (k s : Text) → IsName k → is_blank (k ++ s) ≡ false
name-filled [] s (filled, dotless, plain) = absurd (ground arith)
name-filled (c ∷ k) s name = refl

-- `Reads v keys w`: following the keys through nested objects from `v` leads to `w`.
pub data Reads : Value → List Text → Value → Type 0 where
  here : {v : Value} → Reads v [] v
  inside :
      {fs : Fields} {k : Text} {keys : List Text} {v w : Value}
      → lookup k (entries fs) ≡ some v
      → IsName k
      → Reads v keys w
      → Reads (object fs) (k ∷ keys) w

module _ (lib : Library) (key_case_sensitive : Bool) where
  navigate-blank : (v : Value) → navigate lib key_case_sensitive v [] ≡ value_to_string lib v
  unfolding navigate
  navigate-blank nil = refl
  navigate-blank (boolean b) = refl
  navigate-blank (number n) = refl
  navigate-blank (text t) = refl
  navigate-blank (array xs) = refl
  navigate-blank (object fs) = refl
  navigate-blank (text_map m) = refl

  exact_entry-lookup :
      (fs : Fields) (k rest : Text) {v : Value}
      → lookup k (entries fs) ≡ some v
      → exact_entry lib key_case_sensitive fs k rest ≡ some (navigate lib key_case_sensitive v rest)
  unfolding exact_entry lookup entries
  exact_entry-lookup no_fields k rest h = absurd (ground arith)
  exact_entry-lookup (field j u fs) k rest {v} h = elim (Bool-cases (text_eq j k)) [
    | inl e ↦
        let same : u ≡ v = ground (arith, h, e) in
        rw (exact_entry, e) (ap some (ap (λ x. navigate lib key_case_sensitive x rest) same))
    | inr e ↦ rw (exact_entry, e) (exact_entry-lookup fs k rest (ground (arith, h, e)))
  ]

  choose_entry-exact :
      (segment : Text) (exact folded bracket bracket_folded : Option Text) (all : List Text)
      (r : Text)
      → exact ≡ some r
      → choose_entry key_case_sensitive segment exact folded bracket bracket_folded all ≡ r
  unfolding choose_entry
  choose_entry-exact segment exact folded bracket bracket_folded all r e = rw (choose_entry, e) refl

  navigate-segment :
      (fs : Fields) (k rest path : Text) {v : Value}
      → is_blank path ≡ false
      → parse_path_segment path ≡ (k, rest)
      → lookup k (entries fs) ≡ some v
      → navigate lib key_case_sensitive (object fs) path ≡ navigate lib key_case_sensitive v rest
  unfolding navigate
  navigate-segment fs k rest path {v} filled parts h =
      let found : exact_entry lib key_case_sensitive fs (parse_path_segment path).0
            (parse_path_segment path).1
          ≡ some (navigate lib key_case_sensitive v rest) =
        ap (λ p. exact_entry lib key_case_sensitive fs p.0 p.1) parts
        ∙ exact_entry-lookup fs k rest h in
      rw (navigate, filled) (choose_entry-exact _ _ _ _ _ _ _ found)

  -- Without the dollar sign.
  navigate-Reads :
      {v w : Value} {keys : List Text}
      → Reads v keys w
      → navigate lib key_case_sensitive v (join (codes ".") keys) ≡ value_to_string lib w
  unfolding join
  navigate-Reads (here {v = v}) = navigate-blank v
  navigate-Reads (inside {fs = fs} {k = k} {keys = []} h name reads) =
      navigate-segment fs k [] k name.0 (parse_path_segment-name k name) h ∙ navigate-Reads reads
  navigate-Reads (inside {fs = fs} {k = k} {keys = k' ∷ keys} h name reads) =
      navigate-segment fs k (join (codes ".") (k' ∷ keys))
        (k ++ b'.' ∷ join (codes ".") (k' ∷ keys)) (name-filled k _ name)
        (parse_path_segment-dot k _ name) h
      ∙ navigate-Reads reads

  undotted : (k s : Text) → IsName k → has_prefix (k ++ s) (codes ".") ≡ false
  unfolding has_prefix
  undotted [] s (filled, dotless, plain) = absurd (ground arith)
  undotted (c ∷ k) s (filled, dotless, plain) = rw (index_byte-cons b'.' c k dotless).0 refl

  evaluate-undotted :
      (v : Value) (p : Text)
      → is_blank p ≡ false
      → has_prefix p (codes ".") ≡ false
      → evaluate_jsonpath lib key_case_sensitive v (codes "$." ++ p)
        ≡ navigate lib key_case_sensitive v p
  unfolding evaluate_jsonpath trim_byte
  evaluate-undotted v p filled plain = rw (evaluate_jsonpath, filled, plain) refl

  -- The path `$.a.b`, of names that lead from a value to another through nested objects, selects the
  -- text of the other, whether keys are case sensitive or not. A name is a text that is not empty and
  -- has neither a dot nor an opening bracket.
  pub evaluate_jsonpath-Reads :
      {v w : Value} {keys : List Text}
      → Reads v keys w
      → evaluate_jsonpath lib key_case_sensitive v (codes "$." ++ join (codes ".") keys)
        ≡ value_to_string lib w
  unfolding evaluate_jsonpath trim_byte join
  evaluate_jsonpath-Reads (here {v = v}) = refl
  evaluate_jsonpath-Reads {v = v} (inside {fs = fs} {k = k} {keys = []} h name reads) =
      evaluate-undotted v k name.0
        (subst (λ t. has_prefix t (codes ".") ≡ false) (append-nil k) (undotted k [] name))
      ∙ navigate-Reads (inside h name reads)
  evaluate_jsonpath-Reads {v = v} (inside {fs = fs} {k = k} {keys = k' ∷ keys} h name reads) =
      evaluate-undotted v _ (name-filled k _ name) (undotted k _ name)
      ∙ navigate-Reads (inside h name reads)
