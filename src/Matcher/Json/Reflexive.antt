-- ===== src/Matcher/Json/Reflexive.antt =====
-- internal/imposter/matcher.go: a JSON value equals itself under `deepEqualJSON`.
use go_tartuffe.Prelude.{
  ℕ, Text, Assoc, find_key_of_lookup, lookup, text_eq_sym, text_eq_refl, equal_fold_refl, length,
  Bool, true, false, none, some, List, [], ◌∷◌, ◌++◌, map, ◌≡◌, refl, arith, ==_refl,
}
use go_tartuffe.Value.{
  Value, nil, boolean, number, text, array, object, text_map, Items, no_items, item, Fields,
  no_fields, field, items, entries, deep_equal, bool_eq, float_eq, is_nan,
}
use go_tartuffe.Matcher.Env.{PredicateOptions, same_text}
use go_tartuffe.Matcher.Json.{
  claim, unmatched, deep_equal_json, deep_equal_json_fields, deep_equal_json_items,
}
use go_tartuffe.Matcher.Json.Strict.{and_intro}

-- What `json.Unmarshal` yields: no NaN, no map[string]string, and every key once.
abbrev mutual
  pub IsJson : Value → Type 0
  IsJson nil = Unit
  IsJson (boolean b) = Unit
  IsJson (number n) = is_nan n ≡ false
  IsJson (text t) = Unit
  IsJson (array xs) = AreJson xs
  IsJson (object fs) = HaveJson fs
  IsJson (text_map m) = ⊥

  pub AreJson : Items → Type 0
  AreJson no_items = Unit
  AreJson (item v vs) = IsJson v × AreJson vs

  pub HaveJson : Fields → Type 0
  HaveJson no_fields = Unit
  HaveJson (field k v fs) = (lookup k (entries fs) ≡ none) × IsJson v × HaveJson fs

-- Every entry is found in the map under its key.
abbrev Finds : Assoc Value → Fields → Type 0
Finds m no_fields = Unit
Finds m (field k v rest) = (lookup k m ≡ some v) × Finds m rest

Finds-cons :
    (j : Text) (w : Value) (m : Assoc Value) (fs : Fields)
    → lookup j (entries fs) ≡ none
    → Finds m fs
    → Finds ((j, w) ∷ m) fs
unfolding lookup entries
Finds-cons j w m no_fields h f = tt
Finds-cons j w m (field k v rest) h f =
    (ground (arith, text_eq_sym j k, f.0), Finds-cons j w m rest (ground arith) f.1)

Finds-self : (fs : Fields) → HaveJson fs → Finds (entries fs) fs
unfolding entries
Finds-self no_fields h = tt
Finds-self (field k v rest) h = (
  unfold lookup in rw (text_eq_refl k) refl,
  Finds-cons k v (entries rest) rest h.0 (Finds-self rest h.2),
)

abbrev matched : List Value → List (Value × Bool)
matched = map (λ v. (v, true))

-- Elements that are matched already are passed over.
claim-matched :
    (test : Value → Bool) (before : List Value) (v : Value) (after : List Value)
    → test v ≡ true
    → claim test (matched before ++ unmatched (v ∷ after))
      ≡ some (matched (before ++ v ∷ []) ++ unmatched after)
unfolding claim
claim-matched test [] v after h = rw h refl
claim-matched test (b ∷ before) v after h = rw (claim-matched test before v after h) refl

float_eq_refl : (n : ℕ) → is_nan n ≡ false → float_eq n n ≡ true
unfolding float_eq
float_eq_refl n h = rw (h, ==_refl n) refl

same_text_refl : (b : Bool) (t : Text) → same_text b t t ≡ true
unfolding same_text
same_text_refl true t = text_eq_refl t
same_text_refl false t = equal_fold_refl t

module _ (opts : PredicateOptions) where
  mutual
    unfolding deep_equal_json deep_equal bool_eq items entries

    deep_equal_self : (v : Value) → IsJson v → deep_equal_json opts v v ≡ true
    deep_equal_self nil h = refl
    deep_equal_self (boolean true) h = refl
    deep_equal_self (boolean false) h = refl
    deep_equal_self (number n) h = float_eq_refl n h
    deep_equal_self (text t) h = same_text_refl opts.case_sensitive t
    deep_equal_self (array xs) h =
        and_intro (==_refl (length (items xs))) (deep_equal_self_items [] xs h)
    deep_equal_self (object fs) h =
        and_intro (==_refl (length (entries fs)))
          (deep_equal_self_fields (entries fs) fs (Finds-self fs h) h)
    deep_equal_self (text_map m) h = absurd h

    deep_equal_self_fields :
        (m : Assoc Value) (fs : Fields)
        → Finds m fs
        → HaveJson fs
        → deep_equal_json_fields opts m fs ≡ true
    deep_equal_self_fields m no_fields f h = refl
    deep_equal_self_fields m (field k v rest) f h =
        rw (find_key_of_lookup opts.key_case_sensitive k m f.0)
          (and_intro (deep_equal_self v h.1) (deep_equal_self_fields m rest f.1 h.2))

    deep_equal_self_items :
        (before : List Value) (xs : Items)
        → AreJson xs
        → deep_equal_json_items opts (matched before ++ unmatched (items xs)) xs ≡ true
    deep_equal_self_items before no_items h = refl
    deep_equal_self_items before (item v rest) h =
        rw
          (claim-matched (λ a. deep_equal_json opts a v) before v (items rest)
            (deep_equal_self v h.0))
          (deep_equal_self_items (before ++ v ∷ []) rest h.1)

-- Under any options a parsed JSON value equals itself.
pub deep_equal_json_refl :
    (opts : PredicateOptions) (v : Value) → IsJson v → deep_equal_json opts v v ≡ true
deep_equal_json_refl = deep_equal_self
