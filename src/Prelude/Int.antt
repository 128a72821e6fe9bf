-- ===== src/Prelude/Int.antt =====
-- Signed integers over the native numbers, under the library's names.
use native.Mathlib.Omega.{arith}
use mathlib.Core.Logic.{◌↔◌}
use mathlib.Core.Path.{◌≡◌, refl}
use Prim.Native.Nat.{ℕ, suc, ◌+◌, ◌-◌, ◌*◌, ◌^◌, zero}
use mathlib.Core.Bool.{Bool, true, false, ◌&&◌}
use mathlib.Core.List.{[], ◌∷◌}
use mathlib.Core.Option.{Option, none, some}
use go_tartuffe.Prelude.Tests.{◌==◌, ltb, leb, if◌then◌else◌}
use go_tartuffe.Prelude.Strings.{Text}

-- `negsuc n` is -(n + 1).
pub data ℤ : Type 0 where
  pos : ℕ → ℤ
  negsuc : ℕ → ℤ

unfoldable pub digits : ℕ → Text → Option ℕ
digits n [] = some n
digits n (c ∷ s) = if leb b'0' c && leb c b'9' then digits (n * 10 + (c - b'0')) s else none

-- One digit at least.
unfoldable decimal : Text → Option ℕ
unfolding digits
decimal [] = none
decimal (c ∷ s) = digits 0 (c ∷ s)

unfoldable negative : ℕ → Option ℤ
negative n = if n == 0 then some (pos 0) else if leb n (2 ^ 63) then some (negsuc (n - 1)) else none

unfoldable nonnegative : ℕ → Option ℤ
nonnegative n = if ltb n (2 ^ 63) then some (pos n) else none

-- strconv.Atoi: an optional sign, decimal digits, and the range of an int64.
unfoldable pub atoi : Text → Option ℤ
unfolding decimal negative nonnegative
atoi [] = none
atoi (c ∷ s) =
    if c == b'-'
    then elim (decimal s) [ none ↦ none | some n ↦ negative n ]
    else if c == b'+'
    then elim (decimal s) [ none ↦ none | some n ↦ nonnegative n ]
    else elim (decimal (c ∷ s)) [ none ↦ none | some n ↦ nonnegative n ]

-- The number that strconv.Atoi returns along with an error too: 0 on a text that is no number, the
-- nearest int64 on one that is out of range.
unfoldable pub atoi_value : Text → ℤ
unfolding decimal
atoi_value [] = pos 0
atoi_value (c ∷ s) =
    if c == b'-'
    then elim (decimal s) [
      | none ↦ pos 0
      | some n ↦
          if n == 0 then pos 0 else if leb n (2 ^ 63) then negsuc (n - 1) else negsuc (2 ^ 63 - 1)
    ]
    else elim (decimal (if c == b'+' then s else c ∷ s)) [
      | none ↦ pos 0
      | some n ↦ if ltb n (2 ^ 63) then pos n else pos (2 ^ 63 - 1)
    ]

-- a == b on integers.
unfoldable pub int_eq : ℤ → ℤ → Bool
int_eq (pos a) (pos b) = a == b
int_eq (negsuc a) (negsuc b) = a == b
int_eq _ _ = false

pub int_eq_iff : (a b : ℤ) → (int_eq a b ≡ true) ↔ (a ≡ b)
unfolding int_eq
int_eq_iff (pos a) (pos b) = ground arith
int_eq_iff (negsuc a) (negsuc b) = ground arith
int_eq_iff (pos a) (negsuc b) = ground arith
int_eq_iff (negsuc a) (pos b) = ground arith

pub int_eq_refl : (a : ℤ) → int_eq a a ≡ true
int_eq_refl a = (int_eq_iff a a).1 refl

pub int_eq_sym : (a b : ℤ) → int_eq a b ≡ int_eq b a
int_eq_sym a b = ground (arith, int_eq_iff a b, int_eq_iff b a)

-- x++ on an int64.
unfoldable pub increment : ℤ → ℤ
increment (pos n) = if n == 2 ^ 63 - 1 then negsuc (2 ^ 63 - 1) else pos (n + 1)
increment (negsuc zero) = pos 0
increment (negsuc (suc n)) = negsuc n
