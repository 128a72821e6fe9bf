-- ===== src/Prelude/Slices.antt =====
-- More of the `strings` package: searching, trimming and cutting texts.
use Prim.Native.Nat.{ℕ, suc, ◌+◌, ◌-◌}
use mathlib.Core.Path.{◌≡◌, refl}
use mathlib.Core.Logic.{inl, inr}
use native.Mathlib.Omega.{arith}
use mathlib.Core.List.{[], ◌∷◌, ◌++◌, map, reverse}
use mathlib.Core.Bool.{Bool, false, ◌&&◌, ◌||◌}
use mathlib.Core.Option.{Option, none, some}
use go_tartuffe.Prelude.Tests.{◌==◌, leb, if◌then◌else◌, Option-cases}
use go_tartuffe.Prelude.Lists.{take, drop, length}
use go_tartuffe.Prelude.Strings.{Text}

-- strings.ToUpper on ASCII.
unfoldable pub upper : ℕ → ℕ
upper c = if leb b'a' c && leb c b'z' then c - 32 else c

unfoldable pub to_upper : Text → Text
unfolding upper
to_upper s = map upper s

-- strings.Index(s, c) for one byte; `none` is -1.
unfoldable pub index_byte : ℕ → Text → Option ℕ
index_byte b [] = none
index_byte b (c ∷ s) =
    let later = index_byte b s in
    if c == b then some 0 else elim later [ none ↦ none | some i ↦ some (suc i) ]

-- s[from:to]
unfoldable pub slice : ℕ → ℕ → Text → Text
slice from to s = drop from (take to s)

unfoldable pub is_space : ℕ → Bool
is_space c = c == 32 || (leb 9 c && leb c 13)

unfoldable pub drop_spaces : Text → Text
unfolding is_space
drop_spaces [] = []
drop_spaces (c ∷ s) = let rest = drop_spaces s in if is_space c then rest else c ∷ s

-- strings.TrimSpace
unfoldable pub trim_space : Text → Text
unfolding drop_spaces
trim_space s = reverse (drop_spaces (reverse (drop_spaces s)))

unfoldable pub is_newline : ℕ → Bool
is_newline c = c == 13 || c == 10

-- strings.TrimRight(s, "\r\n"): a trailing byte is kept if it, or a byte behind it, is no newline.
unfoldable pub trim_newlines : Text → Text
unfolding is_newline
trim_newlines [] = []
trim_newlines (c ∷ s) = elim (trim_newlines s) [
  | [] ↦ if is_newline c then [] else c ∷ []
  | d ∷ rest ↦ c ∷ d ∷ rest
]

-- strings.SplitN(s, sep, 2) for one byte, where it has two parts.
unfoldable pub cut_byte : ℕ → Text → Option (Text × Text)
cut_byte b [] = none
cut_byte b (c ∷ s) =
    let rest = cut_byte b s in
    if c == b then some ([], s) else elim rest [ none ↦ none | some (x, y) ↦ some (c ∷ x, y) ]

abbrev pub shifted : ℕ → Option ℕ → Option ℕ
shifted n none = none
shifted n (some i) = some (n + i)

pub index_byte-cons :
    (b c : ℕ) (s : Text)
    → index_byte b (c ∷ s) ≡ none
    → ((c == b) ≡ false) × (index_byte b s ≡ none)
unfolding index_byte
index_byte-cons b c s h = elim (Option-cases (index_byte b s)) [
  | inl e ↦ (ground (arith, e, h), e)
  | inr (i, e) ↦ absurd (ground (arith, e, h))
]

shifted-suc :
    (n : ℕ) (o : Option ℕ)
    → elim (shifted n o) [ none ↦ none | some i ↦ some (suc i) ] ≡ shifted (suc n) o
shifted-suc n none = refl
shifted-suc n (some i) = ground arith

shifted-zero : (o : Option ℕ) → o ≡ shifted 0 o
shifted-zero none = refl
shifted-zero (some i) = ground arith

-- A byte that the first text lacks is where the second has it.
pub index_byte-append :
    (b : ℕ) (s t : Text)
    → index_byte b s ≡ none
    → index_byte b (s ++ t) ≡ shifted (length s) (index_byte b t)
unfolding index_byte
index_byte-append b [] t h = shifted-zero (index_byte b t)
index_byte-append b (c ∷ s) t h =
    let (x, y) = index_byte-cons b c s h in
    rw (x, index_byte-append b s t y) (shifted-suc (length s) (index_byte b t))
