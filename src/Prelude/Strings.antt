-- ===== src/Prelude/Strings.antt =====
-- Go strings as lists of bytes, and the functions of the `strings` package that the source calls.
-- Case folding is that of the ASCII letters; every other byte folds to itself.
use Prim.Native.Char.{code}
use Prim.Native.String.{String}
use Prim.Native.Nat.{ℕ, ◌+◌}
use mathlib.Core.Path.{◌≡◌, refl, ap₂}
use mathlib.Core.Logic.{◌↔◌}
use mathlib.Core.List.{List, [], ◌∷◌, ◌++◌, map, reverse}
use mathlib.Core.Bool.{Bool, true, false, ◌&&◌, ◌||◌, or-true}
use native.Mathlib.Omega.{arith}
use go_tartuffe.Prelude.Tests.{◌==◌, leb, if◌then◌else◌, ==_refl, ==_iff, and-eq_true}

abbrev pub Text : Type 0
Text = List ℕ

-- The bytes of an ASCII literal.
abbrev pub codes : String → Text
codes String.[] = []
codes (String.◌∷◌ c s) = code c ∷ codes s

-- a == b
unfoldable pub text_eq : Text → Text → Bool
text_eq [] [] = true
text_eq (a ∷ s) (b ∷ t) = (a == b) && text_eq s t
text_eq _ _ = false

pub text_eq_refl : (s : Text) → text_eq s s ≡ true
unfolding text_eq
text_eq_refl [] = refl
text_eq_refl (a ∷ s) = rw (==_refl a) (text_eq_refl s)

pub text_eq→eq : (s t : Text) → text_eq s t ≡ true → s ≡ t
unfolding text_eq
text_eq→eq [] [] h = refl
text_eq→eq [] (b ∷ t) h = absurd (ground arith)
text_eq→eq (a ∷ s) [] h = absurd (ground arith)
text_eq→eq (a ∷ s) (b ∷ t) h = ground (arith, text_eq→eq s t)

pub text_eq_iff : (s t : Text) → (text_eq s t ≡ true) ↔ (s ≡ t)
text_eq_iff s t = (text_eq→eq s t, λ p. rw p (text_eq_refl t))

pub text_eq_sym : (s t : Text) → text_eq s t ≡ text_eq t s
unfolding text_eq
text_eq_sym [] [] = refl
text_eq_sym [] (b ∷ t) = refl
text_eq_sym (a ∷ s) [] = refl
text_eq_sym (a ∷ s) (b ∷ t) = ground (arith, text_eq_sym s t)

-- unicode.ToLower on ASCII.
unfoldable pub lower : ℕ → ℕ
lower c = if leb b'A' c && leb c b'Z' then c + 32 else c

pub lower_idem : (c : ℕ) → lower (lower c) ≡ lower c
unfolding lower
lower_idem c = ground arith

-- strings.ToLower
unfoldable pub to_lower : Text → Text
to_lower s = map lower s

pub to_lower_idem : (s : Text) → to_lower (to_lower s) ≡ to_lower s
unfolding to_lower
to_lower_idem [] = refl
to_lower_idem (c ∷ s) = ap₂ ◌∷◌ (lower_idem c) (to_lower_idem s)

-- strings.EqualFold
unfoldable pub equal_fold : Text → Text → Bool
equal_fold s t = text_eq (to_lower s) (to_lower t)

pub equal_fold_refl : (s : Text) → equal_fold s s ≡ true
unfolding equal_fold
equal_fold_refl s = text_eq_refl (to_lower s)

pub equal_fold_of_eq : (s t : Text) → text_eq s t ≡ true → equal_fold s t ≡ true
equal_fold_of_eq s t h = rw (text_eq→eq s t h) (equal_fold_refl t)

pub equal_fold_lem : (s t : Text) → (equal_fold s t ≡ true) ↔ (to_lower s ≡ to_lower t)
unfolding equal_fold
equal_fold_lem s t = text_eq_iff (to_lower s) (to_lower t)

-- strings.HasPrefix(s, prefix)
unfoldable pub has_prefix : Text → Text → Bool
has_prefix s [] = true
has_prefix [] (p ∷ ps) = false
has_prefix (c ∷ s) (p ∷ ps) = (c == p) && has_prefix s ps

-- strings.HasSuffix(s, suffix)
unfoldable pub has_suffix : Text → Text → Bool
has_suffix s suffix = has_prefix (reverse s) (reverse suffix)

-- strings.Contains(s, substr)
unfoldable pub contains : Text → Text → Bool
contains [] sub = has_prefix [] sub
contains (c ∷ s) sub = has_prefix (c ∷ s) sub || contains s sub

pub has_prefix_refl : (s : Text) → has_prefix s s ≡ true
unfolding has_prefix
has_prefix_refl [] = refl
has_prefix_refl (c ∷ s) = rw (==_refl c) (has_prefix_refl s)

-- A prefix is a first part.
pub has_prefix→append : (s p : Text) → has_prefix s p ≡ true → (rest : Text) × (s ≡ p ++ rest)
unfolding has_prefix
has_prefix→append s [] h = (s, refl)
has_prefix→append [] (p ∷ ps) h = absurd (ground arith)
has_prefix→append (c ∷ s) (p ∷ ps) h =
    let (e, h') = and-eq_true (c == p) (has_prefix s ps) h in
    let (rest, q) = has_prefix→append s ps h' in (rest, ap₂ ◌∷◌ ((==_iff c p).0 e) q)

pub has_prefix-append : (p rest : Text) → has_prefix (p ++ rest) p ≡ true
unfolding has_prefix
has_prefix-append [] rest = refl
has_prefix-append (c ∷ p) rest = rw (==_refl c) (has_prefix-append p rest)

pub contains_of_prefix : (s p : Text) → has_prefix s p ≡ true → contains s p ≡ true
unfolding contains
contains_of_prefix [] p h = h
contains_of_prefix (c ∷ s) p h = rw h refl

pub contains-append : (pre s p : Text) → has_prefix s p ≡ true → contains (pre ++ s) p ≡ true
unfolding contains
contains-append [] s p h = contains_of_prefix s p h
contains-append (c ∷ pre) s p h = rw (contains-append pre s p h) (or-true _)

pub has_suffix_refl : (s : Text) → has_suffix s s ≡ true
unfolding has_suffix
has_suffix_refl s = has_prefix_refl (reverse s)
