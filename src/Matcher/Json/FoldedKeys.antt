-- ===== src/Matcher/Json/FoldedKeys.antt =====
-- internal/imposter/matcher.go: keys without regard to case in the deepEquals comparison of JSON.
use go_tartuffe.Prelude.{
  Text, text_eq, lookup, lookup_fold, find_key, equal_fold, true, false, ◌≡◌, refl, arith,
  Bool-cases, inl, inr, subst, text_eq→eq, equal_fold_refl, find_key_of_lookup, lookup_cons_self,
  some, [], ◌∷◌,
}
use go_tartuffe.Value.{Value, object, no_fields, field, entries}
use go_tartuffe.Matcher.Env.{PredicateOptions}
use go_tartuffe.Matcher.Json.{deep_equal_json}
use go_tartuffe.Matcher.Json.Reflexive.{IsJson, deep_equal_json_refl}

differs : (j k : Text) → equal_fold j k ≡ false → text_eq j k ≡ false
differs j k n = elim (Bool-cases (text_eq j k)) [
  | inl e ↦
      absurd
        (ground (arith, subst (λ t. equal_fold j t ≡ true) (text_eq→eq j k e) (equal_fold_refl j)))
  | inr e ↦ e
]

find_folded :
    (k k' j : Text) (v w : Value)
    → equal_fold k k' ≡ true
    → equal_fold j k' ≡ false
    → find_key false k' ((k, v) ∷ (j, w) ∷ []) ≡ some v
unfolding find_key lookup lookup_fold
find_folded k k' j v w f n = elim (Bool-cases (text_eq k k')) [
  | inl e ↦ rw (find_key, e) refl
  | inr e ↦ rw (find_key, e, differs j k' n, f) refl
]

-- Where keys are compared without regard to case, deepEquals accepts a map with a field that the
-- expected map does not have, if the expected map has another key twice but for its case: the map
-- with v at k and w at j is accepted for v at both k and k', where j is neither, by case or
-- not.
pub deep_equal_json-folded_keys :
    (opts : PredicateOptions) (k k' j : Text) (v w : Value)
    → opts.key_case_sensitive ≡ false
    → IsJson v
    → equal_fold k k' ≡ true
    → equal_fold j k' ≡ false
    → deep_equal_json opts
        (object (field k v (field j w no_fields)))
        (object (field k v (field k' v no_fields)))
      ≡ true
unfolding deep_equal_json entries
deep_equal_json-folded_keys opts k k' j v w o h f n =
    rw
      (
        o,
        find_key_of_lookup false k ((k, v) ∷ (j, w) ∷ []) (lookup_cons_self k v ((j, w) ∷ [])),
        find_folded k k' j v w f n,
        deep_equal_json_refl opts v h,
      )
      refl
