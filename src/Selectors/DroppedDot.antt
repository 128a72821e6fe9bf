-- ===== src/Selectors/DroppedDot.antt =====
-- internal/imposter/selectors.go: the path below a name that is applied to the elements of an array.
use go_tartuffe.Prelude.{
  ℕ, Text, codes, index_byte-append, shifted, has_prefix, is_blank, length, Bool, false, List, [],
  ◌∷◌, ◌++◌, ◌≡◌, refl, sym, ap, ◌∙◌, subst, append-nil,
}
use go_tartuffe.Value.{array, Items}
use go_tartuffe.Selectors.{Library, parse_path_segment}
use go_tartuffe.Selectors.Navigate.{navigate, each_item, choose_item, joined_results}
use go_tartuffe.Selectors.Descent.{
  IsName, has_prefix-name, name-filled, parse_path_segment-dot, parse_path_segment-name,
}

IsName-append : (a b : Text) → IsName a → IsName b → IsName (a ++ b)
IsName-append a b (filled, dotless, plain) (filled', dotless', plain') = (
  name-filled a b (filled, dotless, plain),
  index_byte-append b'.' a b dotless ∙ ap (shifted (length a)) dotless',
  index_byte-append b'[' a b plain ∙ ap (shifted (length a)) plain',
)

plain-name : (k : Text) → IsName k → has_prefix k (codes "[") ≡ false
plain-name k name =
    subst (λ t. has_prefix t (codes "[") ≡ false) (append-nil k) (has_prefix-name k [] name)

choose_item-fields :
    (segment : Text) (len : ℕ) (at : ℕ → Text) (each fields : List Text)
    → has_prefix segment (codes "[") ≡ false
    → choose_item segment len at each fields ≡ joined_results fields
unfolding choose_item
choose_item-fields segment len at each fields e = rw (choose_item, e) refl

module _ (lib : Library) (key_case_sensitive : Bool) (xs : Items) where
  navigate-elements :
      (path segment rest : Text)
      → is_blank path ≡ false
      → parse_path_segment path ≡ (segment, rest)
      → has_prefix segment (codes "[") ≡ false
      → navigate lib key_case_sensitive (array xs) path
        ≡ joined_results (each_item lib key_case_sensitive xs (segment ++ rest))
  unfolding navigate
  navigate-elements path segment rest filled parts plain =
      let plain' : has_prefix (parse_path_segment path).0 (codes "[") ≡ false =
        ap (λ p. has_prefix p.0 (codes "[")) parts ∙ plain in
      rw (navigate, filled)
        (choose_item-fields _ _ _ _ _ plain'
          ∙ ap (λ p. joined_results (each_item lib key_case_sensitive xs (p.0 ++ p.1))) parts)

  -- On an array, the path of two names with a dot between them selects what the path of the two names
  -- run together selects: the dot is lost before the rest of the path is applied to the elements.
  pub navigate-dropped_dot :
      (a b : Text)
      → IsName a
      → IsName b
      → navigate lib key_case_sensitive (array xs) (a ++ (codes "." ++ b))
        ≡ navigate lib key_case_sensitive (array xs) (a ++ b)
  navigate-dropped_dot a b name name' =
      navigate-elements (a ++ b'.' ∷ b) a b (name-filled a (b'.' ∷ b) name)
        (parse_path_segment-dot a b name) (plain-name a name)
      ∙ sym (
          navigate-elements (a ++ b) (a ++ b) [] (IsName-append a b name name').0
            (parse_path_segment-name (a ++ b) (IsName-append a b name name'))
            (plain-name (a ++ b) (IsName-append a b name name'))
          ∙ ap (λ t. joined_results (each_item lib key_case_sensitive xs t)) (append-nil (a ++ b)))
