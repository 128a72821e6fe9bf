-- ===== src/Matcher/Exists/Indices.antt =====
-- internal/imposter/matcher.go: the element that an index in brackets names.
use go_tartuffe.Prelude.{
  ℕ, zero, suc, ◌+◌, ◌-◌, ◌<◌, ◌≤◌, Text, get_elem?, has_prefix, has_suffix, length, length-append,
  ltb, reverse, reverse-append, true, none, some, List, [], ◌∷◌, ◌++◌, pos, negsuc, atoi, ◌≡◌, ◌≢◌,
  refl, sym, ap, ◌∙◌, Bool-cases, inl, inr, arith,
}
use mathlib.Core.List.{reverse-reverse}
use go_tartuffe.Value.{Value}
use go_tartuffe.Matcher.Exists.{is_bracketed, trim_left, trim_brackets, element_at, resolve_index}
use go_tartuffe.Matcher.Exists.Paths.{index, segment_text, NoneOf}

module _ {ℓ} {A : Type ℓ} where
  get_elem?-before :
      (xs ys : List A) (n : ℕ) → n < length xs → get_elem? (xs ++ ys) n ≡ get_elem? xs n
  get_elem?-before [] ys n h = absurd (omega arith)
  get_elem?-before (x ∷ xs) ys zero h = refl
  get_elem?-before (x ∷ xs) ys (suc n) h = get_elem?-before xs ys n (omega arith)

  get_elem?-last : (xs : List A) (x : A) → get_elem? (xs ++ x ∷ []) (length xs) ≡ some x
  get_elem?-last [] x = refl
  get_elem?-last (y ∷ xs) x = get_elem?-last xs x

  get_elem?-beyond : (xs : List A) (n : ℕ) → length xs ≤ n → get_elem? xs n ≡ none
  get_elem?-beyond [] n h = refl
  get_elem?-beyond (x ∷ xs) zero h = absurd (omega arith)
  get_elem?-beyond (x ∷ xs) (suc n) h = get_elem?-beyond xs n (omega arith)

  reverse-cons : (x : A) (xs : List A) → reverse (x ∷ xs) ≡ reverse xs ++ x ∷ []
  reverse-cons x xs = reverse-append (x ∷ []) xs

  length-reverse : (xs : List A) → length (reverse xs) ≡ length xs
  length-reverse [] = refl
  length-reverse (x ∷ xs) =
      rw (reverse-cons x xs) (omega (arith, length-append (reverse xs) (x ∷ []), length-reverse xs))

  get_elem?-reverse :
      (xs : List A) (n : ℕ)
      → n < length xs
      → get_elem? (reverse xs) n ≡ get_elem? xs (length xs - (n + 1))
  get_elem?-reverse [] n h = absurd (omega arith)
  get_elem?-reverse (x ∷ xs) n h = rw (reverse-cons x xs) (elim (Bool-cases (ltb n (length xs))) [
    | inl less ↦
        let l : n < length xs = ground (arith, less) in
        let e : suc (length xs) - (n + 1) ≡ suc (length xs - (n + 1)) = omega (arith, l) in
        get_elem?-before (reverse xs) (x ∷ []) n (omega (arith, l, length-reverse xs))
        ∙ get_elem?-reverse xs n l
        ∙ ap (get_elem? (x ∷ xs)) (sym e)
    | inr more ↦
        let l : n ≡ length xs = ground (arith, more, h) in
        let e : suc (length xs) - (n + 1) ≡ 0 = omega (arith, l) in
        ap (get_elem? (reverse xs ++ x ∷ [])) (l ∙ sym (length-reverse xs))
        ∙ get_elem?-last (reverse xs) x
        ∙ ap (get_elem? (x ∷ xs)) (sym e)
  ])

-- An index from 0 on counts from the front, a negative one from the back, and what is no number
-- names no element.
pub element_at-pos :
    (vs : List Value) (i : Text) (n : ℕ) → atoi i ≡ some (pos n) → element_at vs i ≡ get_elem? vs n
unfolding element_at resolve_index
element_at-pos vs i n e = elim (Bool-cases (ltb n (length vs))) [
  | inl less ↦ rw (element_at, e, resolve_index, less) refl
  | inr more ↦
      let h : length vs ≤ n = ground (arith, more) in
      rw (element_at, e, resolve_index, more) (sym (get_elem?-beyond vs n h))
]

pub element_at-negsuc :
    (vs : List Value) (i : Text) (n : ℕ)
    → atoi i ≡ some (negsuc n)
    → element_at vs i ≡ get_elem? (reverse vs) n
unfolding element_at resolve_index
element_at-negsuc vs i n e = elim (Bool-cases (ltb n (length vs))) [
  | inl less ↦
      let h : n < length vs = ground (arith, less) in
      rw (element_at, e, resolve_index, less) (sym (get_elem?-reverse vs n h))
  | inr more ↦
      let h : length (reverse vs) ≤ n = ground (arith, more, length-reverse vs) in
      rw (element_at, e, resolve_index, more) (sym (get_elem?-beyond (reverse vs) n h))
]

pub element_at-none : (vs : List Value) (i : Text) → atoi i ≡ none → element_at vs i ≡ none
unfolding element_at
element_at-none vs i e = rw (element_at, e) refl

-- No bracket is in the text.
abbrev pub IsPlain : Text → Type 0
IsPlain s = NoneOf (λ c. (c ≢ b'[') × (c ≢ b']')) s

trim_left-IsPlain : (s : Text) → IsPlain s → trim_left s ≡ s
unfolding trim_left
trim_left-IsPlain [] h = refl
trim_left-IsPlain (c ∷ s) h = ground (arith, h.0.0, h.0.1)

append-IsPlain : (s t : Text) → IsPlain s → IsPlain t → IsPlain (s ++ t)
append-IsPlain [] t h k = k
append-IsPlain (c ∷ s) t h k = (h.0, append-IsPlain s t h.1 k)

reverse-IsPlain : (s : Text) → IsPlain s → IsPlain (reverse s)
reverse-IsPlain [] h = tt
reverse-IsPlain (c ∷ s) h =
    rw (reverse-cons c s) (append-IsPlain (reverse s) (c ∷ []) (reverse-IsPlain s h.1) (h.0, tt))

trim_left-open : (c : ℕ) (s : Text) → c ≢ b'[' → c ≢ b']' → trim_left (b'[' ∷ c ∷ s) ≡ c ∷ s
unfolding trim_left
trim_left-open c s h k = ground arith

trim_right : (i : Text) → IsPlain i → reverse (trim_left (reverse (i ++ b']' ∷ []))) ≡ i
unfolding trim_left
trim_right i h =
    rw (reverse-append i (b']' ∷ []), trim_left-IsPlain (reverse i) (reverse-IsPlain i h))
      (reverse-reverse i)

pub trim_brackets-index : (i : Text) → IsPlain i → trim_brackets (segment_text (index i)) ≡ i
unfolding trim_brackets trim_left
trim_brackets-index [] h = refl
trim_brackets-index (c ∷ s) h =
    rw (trim_brackets, trim_left-open c (s ++ b']' ∷ []) h.0.0 h.0.1) (trim_right (c ∷ s) h)

pub index-is_bracketed : (i : Text) → is_bracketed (segment_text (index i)) ≡ true
unfolding is_bracketed has_prefix has_suffix
index-is_bracketed i = rw (reverse-append (b'[' ∷ i) (b']' ∷ [])) refl
