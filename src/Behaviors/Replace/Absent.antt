-- ===== src/Behaviors/Replace/Absent.antt =====
-- internal/imposter/behaviors.go: a response without the token.
use go_tartuffe.Prelude.{
  ℕ, ◌+◌, Text, contains, contains_longer, replace_all, replace_all_absent, is_blank, Bool, true,
  false, not, ◌&&◌, some, List, [], ◌∷◌, ◌≡◌, refl, ap, ◌∙◌, and-eq_true, arith, if◌then◌else◌,
}
use go_tartuffe.Value.{
  Value, nil, boolean, number, text, array, object, text_map, Fields, no_fields, field,
}
use go_tartuffe.Models.Stub.{IsResponse}
use mathlib.Core.Path.{ap₂}
use go_tartuffe.Behaviors.{Tools}
use go_tartuffe.Behaviors.Replace.{
  or_no_fields, indexed_token, replace_indexed, replace_values, map_texts, map_text, replace_tokens,
}

replace_indexed_absent :
    (into s : Text) (i : ℕ) (values : List Text)
    → contains s into ≡ false
    → replace_indexed into i values s ≡ s
unfolding replace_indexed indexed_token
replace_indexed_absent into s i [] h = refl
replace_indexed_absent into s i (v ∷ values) h =
    ap (replace_indexed into (i + 1) values)
      (replace_all_absent s (indexed_token into i) v (contains_longer s into _ h))
    ∙ replace_indexed_absent into s (i + 1) values h

replace_values_absent :
    (into s first : Text) (values : List Text)
    → contains s into ≡ false
    → replace_values into first values s ≡ s
unfolding replace_values
replace_values_absent into s first values h =
    ap (λ t. replace_all t into first) (replace_indexed_absent into s 0 values h)
    ∙ replace_all_absent s into first h

-- The texts of headers, of a body, and of a response, in which a token does not occur.
unfoldable pub misses : Text → Value → Bool
misses token (text t) = not (contains t token)
misses token v = true

unfoldable pub fields_miss : Text → Fields → Bool
unfolding misses
fields_miss token no_fields = true
fields_miss token (field k v fs) = misses token v && fields_miss token fs

unfoldable pub response_misses : Text → IsResponse → Bool
unfolding fields_miss
response_misses token resp =
    misses token resp.body
    && not (contains resp.payload token)
    && fields_miss token (or_no_fields resp.headers)

not-true : (b : Bool) → not b ≡ true → b ≡ false
not-true b h = ground arith

module _ (token : Text) (f : Text → Text)
    (keeps : (s : Text) → contains s token ≡ false → f s ≡ s) where
  map_text_absent : (v : Value) → misses token v ≡ true → map_text f v ≡ v
  unfolding misses
  map_text_absent (text t) h = ap text (keeps t (not-true _ h))
  map_text_absent nil h = refl
  map_text_absent (boolean b) h = refl
  map_text_absent (number n) h = refl
  map_text_absent (array xs) h = refl
  map_text_absent (object fs) h = refl
  map_text_absent (text_map m) h = refl

  map_texts_absent : (fs : Fields) → fields_miss token fs ≡ true → map_texts f fs ≡ fs
  unfolding misses fields_miss map_texts
  map_texts_absent no_fields h = refl
  map_texts_absent (field k (text t) fs) h =
      let (a, b) = and-eq_true (not (contains t token)) (fields_miss token fs) h in
      ap₂ (λ v rest. field k v rest) (ap text (keeps t (not-true _ a))) (map_texts_absent fs b)
  map_texts_absent (field k nil fs) h = ap (field k nil) (map_texts_absent fs h)
  map_texts_absent (field k (boolean b) fs) h = ap (field k (boolean b)) (map_texts_absent fs h)
  map_texts_absent (field k (number n) fs) h = ap (field k (number n)) (map_texts_absent fs h)
  map_texts_absent (field k (array xs) fs) h = ap (field k (array xs)) (map_texts_absent fs h)
  map_texts_absent (field k (object gs) fs) h = ap (field k (object gs)) (map_texts_absent fs h)
  map_texts_absent (field k (text_map m) fs) h = ap (field k (text_map m)) (map_texts_absent fs h)

  payload_absent : (t : Text) → not (contains t token) ≡ true → (if is_blank t then [] else f t) ≡ t
  payload_absent [] h = refl
  payload_absent (c ∷ t) h = keeps (c ∷ t) (not-true _ h)

-- A copy into a token that does not occur in the texts of the body, the data and the headers leaves
-- these three as they are, whatever the values, but for a nil map of headers, which becomes empty.
pub replace_tokens_absent :
    (tools : Tools) (resp : IsResponse) (into first : Text) (values : List Text)
    → response_misses into resp ≡ true
    → let r = replace_tokens tools resp into (first ∷ values) in
      (r.body ≡ resp.body)
      × (r.payload ≡ resp.payload)
      × (r.headers ≡ some (or_no_fields resp.headers))
unfolding replace_tokens response_misses
replace_tokens_absent tools resp into first values h =
    let (a, b) =
      and-eq_true (misses into resp.body && not (contains resp.payload into))
        (fields_miss into (or_no_fields resp.headers)) h in
    let (c, d) = and-eq_true (misses into resp.body) (not (contains resp.payload into)) a in
    let f = replace_values into first (first ∷ values) in
    let keeps : (s : Text) → contains s into ≡ false → f s ≡ s =
      λ s. replace_values_absent into s first (first ∷ values) in
    (
      map_text_absent into f keeps resp.body c,
      payload_absent into f keeps resp.payload d,
      ap some (map_texts_absent into f keeps (or_no_fields resp.headers) b),
    )
