-- ===== src/Matcher/Substring/Implications.antt =====
-- internal/imposter/matcher.go: how equals, startsWith, endsWith and contains are related.
use mathlib.Core.List.{reverse-reverse}
use go_tartuffe.Prelude.{
  Text, to_lower, text_eq→eq, equal_fold_lem, has_prefix, has_suffix, contains, has_prefix_refl,
  has_suffix_refl, has_prefix→append, contains_of_prefix, contains-append, reverse, reverse-append,
  Bool, true, false, ◌++◌, ◌≡◌, sym, ap, ◌∙◌, arith, inl, inr, ◌⊎◌,
}
use go_tartuffe.Value.{Value, nil, text, to_string}
use go_tartuffe.Matcher.Env.{Env, PredicateOptions, same_text}
use go_tartuffe.Matcher.Compare.{compare_values}
use go_tartuffe.Matcher.Substring.{
  folded, both_texts, contains_value, starts_with_value, ends_with_value,
}
use go_tartuffe.Matcher.Json.Strict.{with_some_mono}

has_prefix_of_eq : (s t : Text) → s ≡ t → has_prefix s t ≡ true
has_prefix_of_eq s t e = rw e (has_prefix_refl t)

has_suffix_of_eq : (s t : Text) → s ≡ t → has_suffix s t ≡ true
has_suffix_of_eq s t e = rw e (has_suffix_refl t)

contains_of_suffix : (s p : Text) → has_suffix s p ≡ true → contains s p ≡ true
unfolding has_suffix
contains_of_suffix s p h =
    let (rest, e) = has_prefix→append (reverse s) (reverse p) h in
    let split : s ≡ reverse rest ++ p =
      sym (reverse-reverse s)
      ∙ ap reverse e
      ∙ reverse-append (reverse p) rest
      ∙ ap (λ q. reverse rest ++ q) (reverse-reverse p) in
    rw split (contains-append (reverse rest) p p (has_prefix_refl p))

-- A relation between two texts that holds of equal ones holds, folded, of texts that compare equal.
folded_of_same :
    (test : Text → Text → Bool)
    → ((s t : Text) → s ≡ t → test s t ≡ true)
    → (b : Bool) (s t : Text) → same_text b s t ≡ true
    → folded test b s t ≡ true
unfolding same_text folded
folded_of_same test holds true s t h = holds s t (text_eq→eq s t h)
folded_of_same test holds false s t h = holds (to_lower s) (to_lower t) ((equal_fold_lem s t).0 h)

folded_mono :
    (test test' : Text → Text → Bool)
    → ((s t : Text) → test s t ≡ true → test' s t ≡ true)
    → (b : Bool) (s t : Text) → folded test b s t ≡ true
    → folded test' b s t ≡ true
unfolding folded
folded_mono test test' imp true s t h = imp s t h
folded_mono test test' imp false s t h = imp (to_lower s) (to_lower t) h

both_texts_mono :
    (env : Env) (opts : PredicateOptions) (actual : Value) (expected : Text)
    (test test' : Text → Text → Bool)
    → ((s t : Text) → test s t ≡ true → test' s t ≡ true)
    → both_texts env opts test actual (text expected) ≡ true
    → both_texts env opts test' actual (text expected) ≡ true
unfolding both_texts to_string
both_texts_mono env opts actual expected test test' imp h =
    with_some_mono (to_string actual) _ _
      (λ a. folded_mono test test' imp opts.case_sensitive _ expected) h

both_texts_of_equal :
    (env : Env) (opts : PredicateOptions) (actual : Value) (expected : Text)
    (test : Text → Text → Bool)
    → ((s t : Text) → s ≡ t → test s t ≡ true)
    → compare_values env opts actual (text expected) ≡ true
    → both_texts env opts test actual (text expected) ≡ true
unfolding both_texts compare_values to_string
both_texts_of_equal env opts nil expected test holds h =
    folded_of_same test holds opts.case_sensitive _ expected h
both_texts_of_equal env opts (text a) expected test holds h =
    folded_of_same test holds opts.case_sensitive _ expected h
both_texts_of_equal env opts _ expected test holds h = absurd (ground arith)

-- A field that equals accepts for an expected text is accepted by startsWith and by endsWith for that
-- text, under the same options.
pub affixes_of_equal :
    (env : Env) (opts : PredicateOptions) (actual : Value) (expected : Text)
    → compare_values env opts actual (text expected) ≡ true
    → (starts_with_value env opts actual (text expected) ≡ true)
      × (ends_with_value env opts actual (text expected) ≡ true)
unfolding starts_with_value ends_with_value
affixes_of_equal env opts actual expected h = (
  both_texts_of_equal env opts actual expected has_prefix has_prefix_of_eq h,
  both_texts_of_equal env opts actual expected has_suffix has_suffix_of_eq h,
)

-- A field that startsWith or endsWith accepts for an expected text is accepted by contains for that
-- text, under the same options.
pub contains_of_affix :
    (env : Env) (opts : PredicateOptions) (actual : Value) (expected : Text)
    → (starts_with_value env opts actual (text expected) ≡ true)
      ⊎ (ends_with_value env opts actual (text expected) ≡ true)
    → contains_value env opts actual (text expected) ≡ true
unfolding starts_with_value ends_with_value contains_value
contains_of_affix env opts actual expected (inl h) =
    both_texts_mono env opts actual expected has_prefix contains contains_of_prefix h
contains_of_affix env opts actual expected (inr h) =
    both_texts_mono env opts actual expected has_suffix contains contains_of_suffix h
