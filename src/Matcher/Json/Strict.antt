-- ===== src/Matcher/Json/Strict.antt =====
-- internal/imposter/matcher.go: `deepEqualJSON` is at least as strict as `jsonContains`.
use go_tartuffe.Prelude.{
  Text, Assoc, find_key, any, Bool, true, false, not, ◌&&◌, Option, none, some, List, [], ◌∷◌, map,
  ◌≡◌, refl, ap, arith, Bool-cases, and-eq_true, inl, inr, subst,
}
use mathlib.Core.Bool.{or-true}
use go_tartuffe.Value.{
  Value, nil, boolean, number, text, array, object, text_map, Items, no_items, item, Fields,
  no_fields, field, items, entries, deep_equal,
}
use go_tartuffe.Matcher.Env.{Env, PredicateOptions, apply_except, same_text}
use go_tartuffe.Matcher.Json.{
  with_some, json_contains, json_contains_fields, json_contains_items, json_contains_leaf, descend,
  claim, unmatched, deep_equal_json, deep_equal_json_fields, deep_equal_json_items,
}

pub and_intro : {a b : Bool} → a ≡ true → b ≡ true → (a && b) ≡ true
and_intro p q = rw (p, q) refl

pub with_some_mono {ℓ} :
    {A : Type ℓ} (o : Option A) (k k' : A → Bool)
    → ((a : A) → k a ≡ true → k' a ≡ true)
    → with_some o k ≡ true
    → with_some o k' ≡ true
with_some_mono none k k' imp h = h
with_some_mono (some a) k k' imp h = imp a h

pub with_some_inv {ℓ} :
    {A : Type ℓ} (o : Option A) (k : A → Bool)
    → with_some o k ≡ true
    → (a : A) × (o ≡ some a) × (k a ≡ true)
with_some_inv none k h = absurd (ground arith)
with_some_inv (some a) k h = (a, refl, h)

abbrev pub values : List (Value × Bool) → List Value
values = map (λ e. e.0)

values-unmatched : (vs : List Value) → values (unmatched vs) ≡ vs
values-unmatched [] = refl
values-unmatched (v ∷ vs) = ap (◌∷◌ v) (values-unmatched vs)

claim_hit :
    (test test' : Value → Bool) (v : Value) (b : Bool) (rest vs' : List (Value × Bool))
    → ((u : Value) → test u ≡ true → test' u ≡ true)
    → (not b && test v) ≡ true
    → claim test ((v, b) ∷ rest) ≡ some vs'
    → (any test' (values ((v, b) ∷ rest)) ≡ true) × (values vs' ≡ values ((v, b) ∷ rest))
unfolding claim
claim_hit test test' v b rest vs' imp hit h = ground (arith, imp v)

pub claim_later :
    (test : Value → Bool) (v : Value) (b : Bool) (rest vs' : List (Value × Bool))
    → (not b && test v) ≡ false
    → claim test ((v, b) ∷ rest) ≡ some vs'
    → (rest' : List (Value × Bool)) × ((claim test rest ≡ some rest') × (vs' ≡ (v, b) ∷ rest'))
unfolding claim
claim_later test v b rest vs' miss h = ground arith

-- A claimed element passes the test, and claiming only changes marks.
claim-any :
    (test test' : Value → Bool) (vs vs' : List (Value × Bool))
    → ((v : Value) → test v ≡ true → test' v ≡ true)
    → claim test vs ≡ some vs'
    → (any test' (values vs) ≡ true) × (values vs' ≡ values vs)
unfolding claim
claim-any test test' [] vs' imp h = absurd (ground arith)
claim-any test test' ((v, b) ∷ rest) vs' imp h = elim (Bool-cases (not b && test v)) [
  | inl hit ↦ claim_hit test test' v b rest vs' imp hit h
  | inr miss ↦
      let (rest', (found, e)) = claim_later test v b rest vs' miss h in
      let (some_later, same) = claim-any test test' rest rest' imp found in
      (rw some_later (or-true _), rw e (ap (◌∷◌ v) same))
]

apply_except_nil : (env : Env) (t : Text) (b : Bool) → apply_except env t [] b ≡ t
unfolding apply_except
apply_except_nil env t b = refl

module _ (env : Env) (opts : PredicateOptions) (plain : opts.except ≡ []) where
  leaf_text :
      (a t : Text)
      → same_text opts.case_sensitive a t ≡ true
      → json_contains_leaf env opts (text a) (text t) ≡ true
  unfolding json_contains_leaf
  leaf_text a t h = rw (plain, apply_except_nil, apply_except_nil) h

  mutual
    unfolding deep_equal_json json_contains descend deep_equal json_contains_leaf

    contains_of_deep_equal :
        (actual expected : Value)
        → deep_equal_json opts actual expected ≡ true
        → json_contains env opts actual expected ≡ true
    contains_of_deep_equal actual nil h = h
    contains_of_deep_equal (object m) (object fs) h =
        contains_of_deep_equal_fields (entries m) fs (and-eq_true _ _ h).1
    contains_of_deep_equal _ (object fs) h = absurd (ground arith)
    contains_of_deep_equal (array ys) (array xs) h =
        let (same_length, h') = and-eq_true _ _ h in
        and_intro same_length (
          subst (λ vs. json_contains_items env opts vs xs ≡ true) (values-unmatched (items ys))
            (contains_of_deep_equal_items (unmatched (items ys)) xs h'))
    contains_of_deep_equal _ (array xs) h = absurd (ground arith)
    contains_of_deep_equal (text a) (text t) h = leaf_text a t h
    contains_of_deep_equal _ (text t) h = absurd (ground arith)
    contains_of_deep_equal (boolean a) (boolean b) h = h
    contains_of_deep_equal _ (boolean b) h = absurd (ground arith)
    contains_of_deep_equal (number a) (number b) h = h
    contains_of_deep_equal _ (number b) h = absurd (ground arith)
    contains_of_deep_equal (text_map a) (text_map b) h = h
    contains_of_deep_equal _ (text_map b) h = absurd (ground arith)

    contains_of_deep_equal_fields :
        (m : Assoc Value) (fs : Fields)
        → deep_equal_json_fields opts m fs ≡ true
        → json_contains_fields env opts m fs ≡ true
    contains_of_deep_equal_fields m no_fields h = refl
    contains_of_deep_equal_fields m (field k e rest) h =
        let (found, h') = and-eq_true _ _ h in
        and_intro
          (with_some_mono (find_key opts.key_case_sensitive k m) _ _
            (λ a. contains_of_deep_equal a e) found)
          (contains_of_deep_equal_fields m rest h')

    contains_of_deep_equal_items :
        (vs : List (Value × Bool)) (xs : Items)
        → deep_equal_json_items opts vs xs ≡ true
        → json_contains_items env opts (values vs) xs ≡ true
    contains_of_deep_equal_items vs no_items h = refl
    contains_of_deep_equal_items vs (item e rest) h =
        let (vs', claimed, h') = with_some_inv _ _ h in
        let (found, same) = claim-any _ _ vs vs' (λ a. contains_of_deep_equal a e) claimed in
        and_intro found (
          subst (λ us. json_contains_items env opts us rest ≡ true) same
            (contains_of_deep_equal_items vs' rest h'))

-- With no `except` pattern, what satisfies the deepEquals comparison of JSON satisfies the equals
-- comparison too.
pub json_contains_of_deep_equal_json :
    (env : Env) (opts : PredicateOptions) (actual expected : Value)
    → opts.except ≡ []
    → deep_equal_json opts actual expected ≡ true
    → json_contains env opts actual expected ≡ true
json_contains_of_deep_equal_json env opts actual expected plain h =
    contains_of_deep_equal env opts plain actual expected h
