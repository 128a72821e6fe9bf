-- ===== src/Matcher/Exists/Reaching/Followed.antt =====
-- internal/imposter/matcher.go: `navigateAndCheck` and `jsonBodyPathExists` follow the paths.
use go_tartuffe.Prelude.{
  Text, Assoc, codes, text_eq, text_eq_iff, equal_fold, lookup, lookup_fold, find_key,
  find_key_of_lookup, any, Bool, true, false, none, some, List, [], ◌∷◌, ◌++◌, ◌==◌, has_prefix,
  map, atoi, ◌≡◌, ◌≢◌, ◌↔◌, ℤ, inl, inr, refl, sym, ap, subst, ◌∙◌, Bool-cases, arith,
}
use go_tartuffe.Value.{Value, array, object, Items, Fields, items, entries}
use go_tartuffe.Matcher.Env.{is_empty}
use go_tartuffe.Matcher.Json.{with_some}
use go_tartuffe.Matcher.Json.Strict.{with_some_inv}
use go_tartuffe.Matcher.Exists.{
  is_bracketed, trim_brackets, element_at, navigate_and_check, json_body_path_exists,
}
use go_tartuffe.Matcher.Exists.Paths.{
  Segment, key, index, segment_text, path_text, NoneOf, AreSegments, split_json_path-path_text,
}
use go_tartuffe.Matcher.Exists.Indices.{
  element_at-pos, element_at-negsuc, element_at-none, IsPlain, trim_brackets-index,
  index-is_bracketed,
}
use go_tartuffe.Matcher.Exists.Reaching.{
  Reaches, IsStep, AreSteps, any_inv, any_intro, lookup_fold_inv, lookup_fold_intro, atoi-cases,
  none-some, find_key-cases,
}

key-is_bracketed : (k : Text) → IsStep (key k) → is_bracketed k ≡ false
unfolding is_bracketed has_prefix
key-is_bracketed [] h = absurd (h.0 refl)
key-is_bracketed (c ∷ k) h =
    let n : (c == b'[') ≡ false = ground (arith, h.1.0.1) in rw (is_bracketed, has_prefix, n) refl

number-no_star : (i : Text) {z : ℤ} → atoi i ≡ some z → text_eq i (codes "*") ≡ false
number-no_star i {z} e = elim (Bool-cases (text_eq i (codes "*"))) [
  | inr no_star ↦ no_star
  | inl star ↦
      absurd (no_number z (subst (λ t. atoi t ≡ some z) ((text_eq_iff i (codes "*")).0 star) e))
]
  where
    no_number : (z : ℤ) → ¬ (atoi (codes "*") ≡ some z)
    no_number z q = unfold atoi in ground (arith, q)

found_folded :
    (b : Bool) (k : Text) (m before : Assoc Value) (k' : Text) (after : Assoc Value) (v : Value)
    → b ≡ false
    → lookup k m ≡ none
    → m ≡ before ++ (k', v) ∷ after
    → any (λ (e : Text × Value). equal_fold e.0 k) before ≡ false
    → equal_fold k' k ≡ true
    → find_key b k m ≡ some v
unfolding find_key
found_folded b k m before k' after v f missing p q t =
    rw (missing, f, find_key) (ap (lookup_fold k) p ∙ lookup_fold_intro k before k' after v q t)

steps-AreSegments : (steps : List Segment) → AreSteps steps → AreSegments steps
steps-AreSegments [] v = tt
steps-AreSegments (key k ∷ rest) v = (v.0, steps-AreSegments rest v.1)
steps-AreSegments (index i ∷ rest) v = (no_close i v.0, steps-AreSegments rest v.1)
  where
    no_close : (i : Text) → IsPlain i → NoneOf (λ c. c ≢ b']') i
    no_close [] h = tt
    no_close (c ∷ i) h = (h.0.1, no_close i h.1)

is_empty-path_text :
    (steps : List Segment) → steps ≢ [] → AreSteps steps → is_empty (path_text steps) ≡ false
unfolding is_empty
is_empty-path_text [] n v = absurd (n refl)
is_empty-path_text (key [] ∷ rest) n v = absurd (v.0.0 refl)
is_empty-path_text (key (c ∷ k) ∷ rest) n v = refl
is_empty-path_text (index i ∷ rest) n v = refl

module _ (b : Bool) where
  navigate-key :
      (fs : Fields) (k : Text) (rest : List Text)
      → IsStep (key k)
      → navigate_and_check (object fs) (k ∷ rest) b
        ≡ with_some (find_key b k (entries fs)) (λ v. navigate_and_check v rest b)
  unfolding navigate_and_check
  navigate-key fs k rest h = rw (key-is_bracketed k h, navigate_and_check) refl

  navigate-any :
      (xs : Items) (i : Text) (rest : List Text)
      → IsPlain i
      → i ≡ codes "*"
      → navigate_and_check (array xs) (segment_text (index i) ∷ rest) b
        ≡ any (λ v. navigate_and_check v rest b) (items xs)
  unfolding navigate_and_check
  navigate-any xs i rest h e =
      let star : text_eq i (codes "*") ≡ true = (text_eq_iff i (codes "*")).1 e in
      let star' : text_eq (trim_brackets (segment_text (index i))) (codes "*") ≡ true =
        rw (trim_brackets-index i h) star in
      rw (index-is_bracketed i, star', navigate_and_check) refl

  navigate-index :
      (xs : Items) (i : Text) (rest : List Text)
      → IsPlain i
      → text_eq i (codes "*") ≡ false
      → navigate_and_check (array xs) (segment_text (index i) ∷ rest) b
        ≡ with_some (element_at (items xs) i) (λ v. navigate_and_check v rest b)
  unfolding navigate_and_check
  navigate-index xs i rest h e =
      let e' : text_eq (trim_brackets (segment_text (index i))) (codes "*") ≡ false =
        rw (trim_brackets-index i h) e in
      rw (index-is_bracketed i, e', navigate_and_check)
        (ap (λ t. with_some (element_at (items xs) t) (λ v. navigate_and_check v rest b))
          (trim_brackets-index i h))

  navigate→Reaches :
      (json : Value) (steps : List Segment)
      → AreSteps steps
      → navigate_and_check json (map segment_text steps) b ≡ true
      → Reaches b json steps
  unfolding navigate_and_check
  navigate→Reaches json [] v h = Reaches.arrived
  navigate→Reaches (array xs) (index i ∷ rest) v h = elim (Bool-cases (text_eq i (codes "*"))) [
    | inl star ↦
        let e : i ≡ codes "*" = (text_eq_iff i (codes "*")).0 star in
        let (n, x, at', holds) =
          any_inv (λ x. navigate_and_check x (map segment_text rest) b) (items xs)
            (sym (navigate-any xs i (map segment_text rest) v.0 e) ∙ h) in
        Reaches.some_element n e at' (navigate→Reaches x rest v.1 holds)
    | inr numeral ↦
        let (x, e, holds) =
          with_some_inv (element_at (items xs) i) _
            (sym (navigate-index xs i (map segment_text rest) v.0 numeral) ∙ h) in
        let below = navigate→Reaches x rest v.1 holds in
        elim (atoi-cases i) [
          | inl no_number ↦ absurd (none-some (sym (element_at-none (items xs) i no_number) ∙ e))
          | inr (inl (n, front)) ↦
              Reaches.from_front front (sym (element_at-pos (items xs) i n front) ∙ e) below
          | inr (inr (n, back)) ↦
              Reaches.from_back back (sym (element_at-negsuc (items xs) i n back) ∙ e) below
        ]
  ]
  navigate→Reaches (object fs) (key k ∷ rest) v h =
      let (x, e, holds) =
        with_some_inv (find_key b k (entries fs)) _
          (sym (navigate-key fs k (map segment_text rest) v.0) ∙ h) in
      let below = navigate→Reaches x rest v.1 holds in
      elim (find_key-cases b k (entries fs) x e) [
        | inl exact ↦ Reaches.under_key exact below
        | inr (insensitive, missing, found) ↦
            let (before, k', after, p, q, r) = lookup_fold_inv k (entries fs) x found in
            Reaches.under_folded before k' after insensitive missing p q r below
      ]
  navigate→Reaches _ (key k ∷ rest) v h = absurd (ground (arith, key-is_bracketed k v.0))
  navigate→Reaches _ (index i ∷ rest) v h = absurd (ground (arith, index-is_bracketed i))

  Reaches→navigate :
      {json : Value} {steps : List Segment}
      → AreSteps steps
      → Reaches b json steps
      → navigate_and_check json (map segment_text steps) b ≡ true
  Reaches→navigate v Reaches.arrived = unfold navigate_and_check in refl
  Reaches→navigate {json = array xs} {steps = index i ∷ rest} v (Reaches.some_element n e at' r) =
      navigate-any xs i (map segment_text rest) v.0 e
      ∙ any_intro _ (items xs) n at' (Reaches→navigate v.1 r)
  Reaches→navigate {json = array xs} {steps = index i ∷ rest} v (Reaches.from_front {n} e at' r) =
      navigate-index xs i (map segment_text rest) v.0 (number-no_star i e)
      ∙ rw (element_at-pos (items xs) i n e, at') (Reaches→navigate v.1 r)
  Reaches→navigate {json = array xs} {steps = index i ∷ rest} v (Reaches.from_back {n} e at' r) =
      navigate-index xs i (map segment_text rest) v.0 (number-no_star i e)
      ∙ rw (element_at-negsuc (items xs) i n e, at') (Reaches→navigate v.1 r)
  Reaches→navigate {json = object fs} {steps = key k ∷ rest} v (Reaches.under_key e r) =
      navigate-key fs k (map segment_text rest) v.0
      ∙ rw (find_key_of_lookup b k (entries fs) e) (Reaches→navigate v.1 r)
  Reaches→navigate {json = object fs} {steps = key k ∷ rest} v
        (Reaches.under_folded before k' after {v = x} f missing p q t r) =
      navigate-key fs k (map segment_text rest) v.0
      ∙ rw (found_folded b k (entries fs) before k' after x f missing p q t)
          (Reaches→navigate v.1 r)

-- jsonBodyPathExists, given a path that is written from keys and indices, accepts exactly the values
-- that have something at that path: in a map the key, or without regard to case the first that folds
-- to it; in an array the element that the index counts from the front or, negative, from the back, or
-- any for `*`. The path has a segment; a key is not empty and holds no dot and no opening bracket, and
-- an index no bracket.
pub json_body_path_exists_iff :
    (key_case_sensitive : Bool) (json : Value) (steps : List Segment)
    → steps ≢ []
    → AreSteps steps
    → (json_body_path_exists json (path_text steps) key_case_sensitive ≡ true)
      ↔ Reaches key_case_sensitive json steps
unfolding json_body_path_exists
json_body_path_exists_iff b json steps n v =
    rw
      (
        is_empty-path_text steps n v,
        split_json_path-path_text steps (steps-AreSegments steps v),
        json_body_path_exists,
      )
      (navigate→Reaches b json steps v, Reaches→navigate b v)
