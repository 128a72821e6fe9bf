-- ===== src/Matcher/Exists/Reaching.antt =====
-- internal/imposter/matcher.go: the paths that `jsonBodyPathExists` follows, as a relation.
pub mod Followed
use go_tartuffe.Prelude.{
  ℕ, zero, suc, Text, Assoc, codes, text_eq, text_eq_iff, equal_fold, lookup, lookup_fold, find_key,
  find_key_of_lookup, get_elem?, any, reverse, Bool, true, false, Option, none, some, List, [], ◌∷◌,
  ◌++◌, ◌==◌, has_prefix, map, atoi, pos, negsuc, ◌≡◌, ◌≢◌, ◌↔◌, ◌⊎◌, ℤ, inl, inr, refl, sym, ap,
  subst, ◌∙◌, Bool-cases, Option-cases, arith,
}
use go_tartuffe.Value.{Value, array, object, Items, Fields, items, entries}
use go_tartuffe.Matcher.Env.{is_empty}
use go_tartuffe.Matcher.Json.{with_some}
use go_tartuffe.Matcher.Json.Strict.{with_some_inv}
use go_tartuffe.Matcher.Exists.{
  is_bracketed, trim_brackets, element_at, navigate_and_check, json_body_path_exists,
  split_json_path,
}
use go_tartuffe.Matcher.Exists.Paths.{
  Segment, key, index, segment_text, path_text, NoneOf, IsSegment, AreSegments,
  split_json_path-path_text,
}
use go_tartuffe.Matcher.Exists.Indices.{
  element_at-pos, element_at-negsuc, element_at-none, IsPlain, trim_brackets-index,
  index-is_bracketed,
}

-- The value has something at the path: the value of a key, or, without regard to case, of the first
-- key that folds to it if it is no key; the element that an index from 0 on counts from the front and
-- a negative one from the back; or, for `[*]`, some element.
pub data Reaches (key_case_sensitive : Bool) : Value → List Segment → Type 0 where
  arrived : {v : Value} → Reaches key_case_sensitive v []
  some_element :
      {xs : Items} {i : Text} {rest : List Segment} (n : ℕ) {v : Value}
      → i ≡ codes "*"
      → get_elem? (items xs) n ≡ some v
      → Reaches key_case_sensitive v rest
      → Reaches key_case_sensitive (array xs) (index i ∷ rest)
  from_front :
      {xs : Items} {i : Text} {rest : List Segment} {n : ℕ} {v : Value}
      → atoi i ≡ some (pos n)
      → get_elem? (items xs) n ≡ some v
      → Reaches key_case_sensitive v rest
      → Reaches key_case_sensitive (array xs) (index i ∷ rest)
  from_back :
      {xs : Items} {i : Text} {rest : List Segment} {n : ℕ} {v : Value}
      → atoi i ≡ some (negsuc n)
      → get_elem? (reverse (items xs)) n ≡ some v
      → Reaches key_case_sensitive v rest
      → Reaches key_case_sensitive (array xs) (index i ∷ rest)
  under_key :
      {fs : Fields} {k : Text} {rest : List Segment} {v : Value}
      → lookup k (entries fs) ≡ some v
      → Reaches key_case_sensitive v rest
      → Reaches key_case_sensitive (object fs) (key k ∷ rest)
  under_folded :
      {fs : Fields} {k : Text} {rest : List Segment} (before : Assoc Value) (k' : Text)
      (after : Assoc Value) {v : Value}
      → key_case_sensitive ≡ false
      → lookup k (entries fs) ≡ none
      → entries fs ≡ before ++ (k', v) ∷ after
      → any (λ (e : Text × Value). equal_fold e.0 k) before ≡ false
      → equal_fold k' k ≡ true
      → Reaches key_case_sensitive v rest
      → Reaches key_case_sensitive (object fs) (key k ∷ rest)

pub any_inv {ℓ} :
    {A : Type ℓ} (test : A → Bool) (xs : List A)
    → any test xs ≡ true
    → (i : ℕ) × (x : A) × (get_elem? xs i ≡ some x) × (test x ≡ true)
any_inv test [] h = absurd (ground arith)
any_inv test (x ∷ xs) h = elim (Bool-cases (test x)) [
  | inl hit ↦ (0, x, refl, hit)
  | inr miss ↦ let (i, y, p, q) = any_inv test xs (ground arith) in (suc i, y, p, q)
]

pub any_intro {ℓ} :
    {A : Type ℓ} (test : A → Bool) (xs : List A) (i : ℕ) {x : A}
    → get_elem? xs i ≡ some x
    → test x ≡ true
    → any test xs ≡ true
any_intro test [] i p h = absurd (ground arith)
any_intro test (y ∷ xs) zero p h = ground arith
any_intro test (y ∷ xs) (suc i) p h = ground (arith, any_intro test xs i p h)

pub lookup_fold_inv :
    (k : Text) (m : Assoc Value) (v : Value)
    → lookup_fold k m ≡ some v
    → (before : Assoc Value) × (k' : Text) × (after : Assoc Value) × (m ≡ before ++ (k', v) ∷ after)
      × (any (λ (e : Text × Value). equal_fold e.0 k) before ≡ false)
      × (equal_fold k' k ≡ true)
unfolding lookup_fold
lookup_fold_inv k [] v h = absurd (ground arith)
lookup_fold_inv k ((j, w) ∷ m) v h = elim (Bool-cases (equal_fold j k)) [
  | inl e ↦
      let same : w ≡ v = ground (arith, h, e) in ([], j, m, ap (λ x. (j, x) ∷ m) same, refl, e)
  | inr e ↦
      let (before, k', after, p, q, r) = lookup_fold_inv k m v (ground (arith, h, e)) in
      ((j, w) ∷ before, k', after, ap (◌∷◌ (j, w)) p, ground (arith, e, q), r)
]

pub lookup_fold_intro :
    (k : Text) (before : Assoc Value) (k' : Text) (after : Assoc Value) (v : Value)
    → any (λ (e : Text × Value). equal_fold e.0 k) before ≡ false
    → equal_fold k' k ≡ true
    → lookup_fold k (before ++ (k', v) ∷ after) ≡ some v
unfolding lookup_fold
lookup_fold_intro k [] k' after v q r = ground (arith, r)
lookup_fold_intro k ((j, w) ∷ before) k' after v q r =
    ground (arith, q, lookup_fold_intro k before k' after v)

pub atoi-cases :
    (i : Text)
    → (atoi i ≡ none)
      ⊎ (((n : ℕ) × (atoi i ≡ some (pos n))) ⊎ ((n : ℕ) × (atoi i ≡ some (negsuc n))))
atoi-cases i = go (atoi i) refl
  where
    go :
        (o : Option ℤ)
        → atoi i ≡ o
        → (atoi i ≡ none)
          ⊎ (((n : ℕ) × (atoi i ≡ some (pos n))) ⊎ ((n : ℕ) × (atoi i ≡ some (negsuc n))))
    go none e = inl e
    go (some (pos n)) e = inr (inl (n, e))
    go (some (negsuc n)) e = inr (inr (n, e))

pub none-some : {v : Value} → ¬ (none ≡ some v)
none-some q = ground arith

pub find_key-cases :
    (b : Bool) (k : Text) (m : Assoc Value) (v : Value)
    → find_key b k m ≡ some v
    → (lookup k m ≡ some v) ⊎ ((b ≡ false) × (lookup k m ≡ none) × (lookup_fold k m ≡ some v))
unfolding find_key
find_key-cases b k m v h = elim (Option-cases (lookup k m)) [
  | inr (w, e) ↦ inl (e ∙ sym (find_key_of_lookup b k m e) ∙ h)
  | inl e ↦ elim (Bool-cases b) [
    | inl t ↦ absurd (none-some (rw (e, t, find_key) at h))
    | inr f ↦ inr (f, e, rw (e, f, find_key) at h)
  ]
]

-- A segment as it stands between dots: a key without dots and brackets, or an index without brackets.
abbrev pub IsStep : Segment → Type 0
IsStep (key k) = IsSegment (key k)
IsStep (index i) = IsPlain i

abbrev pub AreSteps : List Segment → Type 0
AreSteps [] = Unit
AreSteps (x ∷ xs) = IsStep x × AreSteps xs
