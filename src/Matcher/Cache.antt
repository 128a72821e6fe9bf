-- ===== src/Matcher/Cache.antt =====
-- internal/imposter/matcher.go: `getCompiledRegex` and its cache of compiled patterns.
use mathlib.Core.Path.{ap₂}
use go_tartuffe.Prelude.{
  Text, text_eq, text_eq→eq, Assoc, lookup, Option, none, some, List, [], ◌∷◌, ◌≡◌, refl, sym, ◌∙◌,
  arith, Option-cases, Bool-cases, inl, inr, subst,
}
use go_tartuffe.Matcher.Env.{Regex, Env}

-- What is compiled, by pattern, the latest first: `regexCache`.
abbrev pub Cache : Type 0
Cache = Assoc Regex

-- The compiled pattern, `none` for an error, and the cache after the call.
unfoldable pub get_compiled_regex : Env → Text → Cache → Option Regex × Cache
get_compiled_regex env pattern cache = elim (lookup pattern cache) [
  | some re ↦ (some re, cache)
  | none ↦ elim (env.compile pattern) [
    | none ↦ (none, cache)
    | some re ↦ (some re, (pattern, re) ∷ cache)
  ]
]

-- Every entry is what its pattern compiles to.
abbrev pub IsFaithful : Env → Cache → Type 0
IsFaithful env [] = Unit
IsFaithful env ((pattern, re) ∷ cache) = (env.compile pattern ≡ some re) × IsFaithful env cache

-- The answers to patterns asked for one after the other, and the cache at the end.
abbrev pub get_each : Env → List Text → Cache → List (Option Regex) × Cache
get_each env [] cache = ([], cache)
get_each env (p ∷ ps) cache =
    let (re, cache') = get_compiled_regex env p cache in
    let (res, cache'') = get_each env ps cache' in (re ∷ res, cache'')

abbrev pub compile_each : Env → List Text → List (Option Regex)
compile_each env [] = []
compile_each env (p ∷ ps) = env.compile p ∷ compile_each env ps

lookup-IsFaithful :
    (env : Env) (pattern : Text) (cache : Cache) (re : Regex)
    → IsFaithful env cache
    → lookup pattern cache ≡ some re
    → env.compile pattern ≡ some re
unfolding lookup
lookup-IsFaithful env pattern [] re v h = absurd (ground arith)
lookup-IsFaithful env pattern ((p, r) ∷ cache) re (e, v) h = elim (Bool-cases (text_eq p pattern)) [
  | inl q ↦ subst (λ t. env.compile t ≡ some re) (text_eq→eq p pattern q) (e ∙ ground arith)
  | inr q ↦ lookup-IsFaithful env pattern cache re v (ground arith)
]

get_compiled_regex-IsFaithful :
    (env : Env) (pattern : Text) (cache : Cache)
    → IsFaithful env cache
    → ((get_compiled_regex env pattern cache).0 ≡ env.compile pattern)
      × IsFaithful env (get_compiled_regex env pattern cache).1
unfolding get_compiled_regex
get_compiled_regex-IsFaithful env pattern cache v = elim (Option-cases (lookup pattern cache)) [
  | inr (re, h) ↦ rw (get_compiled_regex, h) (sym (lookup-IsFaithful env pattern cache re v h), v)
  | inl h ↦ elim (Option-cases (env.compile pattern)) [
    | inl c ↦ rw (get_compiled_regex, h, c) (refl, v)
    | inr (re, c) ↦ rw (get_compiled_regex, h, c) (refl, (c, v))
  ]
]

-- From a cache whose entries are what their patterns compile to (the empty one, for instance), a
-- series of patterns gets the answers that compiling each of them anew gives, errors included, and
-- the cache stays such.
pub get_each-transparent :
    (env : Env) (patterns : List Text) (cache : Cache)
    → IsFaithful env cache
    → ((get_each env patterns cache).0 ≡ compile_each env patterns)
      × IsFaithful env (get_each env patterns cache).1
get_each-transparent env [] cache v = (refl, v)
get_each-transparent env (p ∷ ps) cache v =
    let (now, faithful) = get_compiled_regex-IsFaithful env p cache v in
    let (later, faithful') =
      get_each-transparent env ps (get_compiled_regex env p cache).1 faithful in
    (ap₂ (λ x xs. x ∷ xs) now later, faithful')
