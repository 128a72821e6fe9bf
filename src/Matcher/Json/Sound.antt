-- ===== src/Matcher/Json/Sound.antt =====
-- internal/imposter/matcher.go: what it means that `deepEqualJSON` accepts two values, stated without
-- its loops: arrays correspond element by element in some order, maps key by key.
use go_tartuffe.Prelude.{
  ℕ, suc, Text, Assoc, find_key, length, Bool, true, false, Option, some, List, [], ◌∷◌, ◌++◌, ◌≡◌,
  refl, ap, sym, ◌∙◌, arith, Bool-cases, and-eq_true, inl, inr, length-append, ==_iff, subst,
}
use go_tartuffe.Value.{
  Value, nil, boolean, number, text, array, object, text_map, Items, no_items, item, Fields,
  no_fields, field, items, entries, deep_equal, bool_eq, float_eq, text_map_eq,
}
use go_tartuffe.Matcher.Env.{PredicateOptions, same_text}
use go_tartuffe.Matcher.Json.{
  claim, unmatched, deep_equal_json, deep_equal_json_fields, deep_equal_json_items,
}
use go_tartuffe.Matcher.Json.Strict.{with_some_inv, claim_later}

module _ (opts : PredicateOptions) where
  mutual
    pub data DeepMatch : Value → Value → Type 0 where
      nils : DeepMatch nil nil
      booleans : (b : Bool) → DeepMatch (boolean b) (boolean b)
      numbers : {a b : ℕ} → float_eq a b ≡ true → DeepMatch (number a) (number b)
      texts : {a b : Text} → same_text opts.case_sensitive a b ≡ true → DeepMatch (text a) (text b)
      text_maps :
          {a b : Option (Assoc Text)} → text_map_eq a b ≡ true → DeepMatch (text_map a) (text_map b)
      objects :
          {m fs : Fields}
          → length (entries m) ≡ length (entries fs)
          → FieldsMatch (entries m) fs
          → DeepMatch (object m) (object fs)
      arrays : {ys xs : Items} → ItemsMatch (items ys) xs → DeepMatch (array ys) (array xs)

    -- Each expected key is found, at a value that matches.
    pub data FieldsMatch : Assoc Value → Fields → Type 0 where
      no_more : {m : Assoc Value} → FieldsMatch m no_fields
      key_found :
          {m : Assoc Value} {k : Text} {a e : Value} {rest : Fields}
          → find_key opts.key_case_sensitive k m ≡ some a
          → DeepMatch a e
          → FieldsMatch m rest
          → FieldsMatch m (field k e rest)

    -- Each expected element takes one actual element away, and none is left over.
    pub data ItemsMatch : List Value → Items → Type 0 where
      none_left : ItemsMatch [] no_items
      taken :
          {vs : List Value} {e : Value} {rest : Items} (before : List Value) (a : Value)
          (after : List Value)
          → vs ≡ before ++ a ∷ after
          → DeepMatch a e
          → ItemsMatch (before ++ after) rest
          → ItemsMatch vs (item e rest)

-- The elements that are not yet matched.
abbrev left : List (Value × Bool) → List Value
left [] = []
left ((v, true) ∷ rest) = left rest
left ((v, false) ∷ rest) = v ∷ left rest

left-unmatched : (vs : List Value) → left (unmatched vs) ≡ vs
left-unmatched [] = refl
left-unmatched (v ∷ vs) = ap (◌∷◌ v) (left-unmatched vs)

abbrev Claimed : (Value → Bool) → List (Value × Bool) → List (Value × Bool) → Type 0
Claimed test vs vs' =
    (before : List Value) × (a : Value) × (after : List Value) × (left vs ≡ before ++ a ∷ after)
    × (left vs' ≡ before ++ after)
    × (test a ≡ true)

claim_first :
    (test : Value → Bool) (v : Value) (rest vs' : List (Value × Bool))
    → test v ≡ true
    → claim test ((v, false) ∷ rest) ≡ some vs'
    → vs' ≡ (v, true) ∷ rest
unfolding claim
claim_first test v rest vs' hit h = ground arith

claim_lem :
    (test : Value → Bool) (vs vs' : List (Value × Bool))
    → claim test vs ≡ some vs'
    → Claimed test vs vs'
unfolding claim
claim_lem test [] vs' h = absurd (ground arith)
claim_lem test ((v, true) ∷ rest) vs' h =
    let (rest', (found, e)) = claim_later test v true rest vs' refl h in
    let (before, a, after, p, q, t) = claim_lem test rest rest' found in
    (before, a, after, p, ap left e ∙ q, t)
claim_lem test ((v, false) ∷ rest) vs' h = elim (Bool-cases (test v)) [
  | inl hit ↦ ([], v, left rest, refl, ap left (claim_first test v rest vs' hit h), hit)
  | inr miss ↦
      let (rest', (found, e)) = claim_later test v false rest vs' miss h in
      let (before, a, after, p, q, t) = claim_lem test rest rest' found in
      (v ∷ before, a, after, ap (◌∷◌ v) p, ap left e ∙ ap (◌∷◌ v) q, t)
]

nil_of_length {ℓ} : {A : Type ℓ} (vs : List A) → length vs ≡ 0 → vs ≡ []
nil_of_length [] h = refl
nil_of_length (v ∷ vs) h = absurd (omega arith)

-- Taking an element away leaves one fewer.
length-left_taken :
    (before after vs us : List Value) (a : Value) (n : ℕ)
    → vs ≡ before ++ a ∷ after
    → us ≡ before ++ after
    → length vs ≡ suc n
    → length us ≡ n
length-left_taken before after vs us a n p q h =
    omega (
      arith,
      ap length p,
      ap length q,
      length-append before (a ∷ after),
      length-append before after,
    )

module _ (opts : PredicateOptions) where
  mutual
    unfolding deep_equal_json deep_equal bool_eq items

    match_of_deep_equal :
        (actual expected : Value)
        → deep_equal_json opts actual expected ≡ true
        → DeepMatch opts actual expected
    match_of_deep_equal nil nil h = DeepMatch.nils
    match_of_deep_equal _ nil h = absurd (ground arith)
    match_of_deep_equal (object m) (object fs) h =
        let (same_length, h') = and-eq_true _ _ h in
        DeepMatch.objects ((==_iff _ _).0 same_length) (match_of_fields (entries m) fs h')
    match_of_deep_equal _ (object fs) h = absurd (ground arith)
    match_of_deep_equal (array ys) (array xs) h =
        let (same_length, h') = and-eq_true _ _ h in
        DeepMatch.arrays (
          subst (λ us. ItemsMatch opts us xs) (left-unmatched (items ys))
            (match_of_items (unmatched (items ys)) xs
              (ap length (left-unmatched (items ys))
                ∙ (==_iff (length (items ys)) (length (items xs))).0 same_length)
              h'))
    match_of_deep_equal _ (array xs) h = absurd (ground arith)
    match_of_deep_equal (text a) (text t) h = DeepMatch.texts h
    match_of_deep_equal _ (text t) h = absurd (ground arith)
    match_of_deep_equal (boolean true) (boolean true) h = DeepMatch.booleans true
    match_of_deep_equal (boolean false) (boolean false) h = DeepMatch.booleans false
    match_of_deep_equal _ (boolean b) h = absurd (ground arith)
    match_of_deep_equal (number a) (number b) h = DeepMatch.numbers h
    match_of_deep_equal _ (number b) h = absurd (ground arith)
    match_of_deep_equal (text_map a) (text_map b) h = DeepMatch.text_maps h
    match_of_deep_equal _ (text_map b) h = absurd (ground arith)

    match_of_fields :
        (m : Assoc Value) (fs : Fields)
        → deep_equal_json_fields opts m fs ≡ true
        → FieldsMatch opts m fs
    match_of_fields m no_fields h = FieldsMatch.no_more
    match_of_fields m (field k e rest) h =
        let (found, h') = and-eq_true _ _ h in
        let (a, here, holds) = with_some_inv _ _ found in
        FieldsMatch.key_found here (match_of_deep_equal a e holds) (match_of_fields m rest h')

    match_of_items :
        (vs : List (Value × Bool)) (xs : Items)
        → length (left vs) ≡ length (items xs)
        → deep_equal_json_items opts vs xs ≡ true
        → ItemsMatch opts (left vs) xs
    match_of_items vs no_items len h =
        subst (λ us. ItemsMatch opts us no_items) (sym (nil_of_length (left vs) len))
          ItemsMatch.none_left
    match_of_items vs (item e rest) len h =
        let (vs', claimed, h') = with_some_inv _ _ h in
        let (before, a, after, p, q, holds) = claim_lem _ vs vs' claimed in
        let len' =
          length-left_taken before after (left vs) (left vs') a (length (items rest)) p q len in
        ItemsMatch.taken before a after p (match_of_deep_equal a e holds)
          (subst (λ us. ItemsMatch opts us rest) q (match_of_items vs' rest len' h'))

-- What `deepEqualJSON` accepts matches: equal leaves, arrays whose elements match one to one in some
-- order, and maps of one size in which every expected key is found at a value that matches.
pub deep_equal_json_sound :
    (opts : PredicateOptions) (actual expected : Value)
    → deep_equal_json opts actual expected ≡ true
    → DeepMatch opts actual expected
deep_equal_json_sound = match_of_deep_equal
