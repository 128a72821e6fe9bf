-- ===== src/Prelude/Decimal.antt =====
-- The decimal digits of a number are read back as the number, so the fuel that writes them is enough.
use Prim.Native.Nat.{ℕ, zero, suc, ◌+◌, ◌-◌, ◌*◌, ◌/◌, ◌%◌, ◌<◌}
use mathlib.Core.Path.{◌≡◌, refl, ap, ◌∙◌}
use mathlib.Core.Logic.{inl, inr, ◌⊎◌}
use mathlib.Core.List.{[], ◌∷◌}
use mathlib.Core.Bool.{true}
use mathlib.Core.Option.{some}
use native.Mathlib.Omega.{arith}
use go_tartuffe.Prelude.Tests.{leb}
use go_tartuffe.Prelude.Strings.{Text}
use go_tartuffe.Prelude.Int.{digits}
use go_tartuffe.Prelude.Split.{digits_before, decimal_text}

digits-cons :
    (m n : ℕ) (rest : Text) → digits m ((b'0' + n % 10) ∷ rest) ≡ digits (m * 10 + n % 10) rest
unfolding digits
digits-cons m n rest =
    let a : leb b'0' (b'0' + n % 10) ≡ true = ground arith in
    let b : leb (b'0' + n % 10) b'9' ≡ true = ground arith in
    let c : b'0' + n % 10 - b'0' ≡ n % 10 = ground arith in rw (digits, a, b, c) refl

quotient-cases : (n : ℕ) → (n / 10 ≡ 0) ⊎ ((q : ℕ) × (n / 10 ≡ suc q))
quotient-cases n = go (n / 10) refl
  where
    go : (m : ℕ) → n / 10 ≡ m → (n / 10 ≡ 0) ⊎ ((q : ℕ) × (n / 10 ≡ suc q))
    go zero e = inl e
    go (suc q) e = inr (q, e)

digits-digits_before :
    (fuel n : ℕ) (rest : Text) → n < fuel → digits 0 (digits_before fuel n rest) ≡ digits n rest
unfolding digits_before
digits-digits_before zero n rest h = absurd (ground arith)
digits-digits_before (suc fuel) n rest h = elim (quotient-cases n) [
  | inl e ↦
      let v : 0 * 10 + n % 10 ≡ n = ground arith in
      rw (digits_before, e) (digits-cons 0 n rest ∙ ap (λ m. digits m rest) v)
  | inr (q, e) ↦
      let less : n / 10 < fuel = ground arith in
      let v : n / 10 * 10 + n % 10 ≡ n = ground arith in
      rw (digits_before, e)
        (digits-digits_before fuel (n / 10) ((b'0' + n % 10) ∷ rest) less
          ∙ (digits-cons (n / 10) n rest ∙ ap (λ m. digits m rest) v))
]

-- What decimal_text writes is read as the number.
pub digits-decimal_text : (n : ℕ) → digits 0 (decimal_text n) ≡ some n
unfolding decimal_text digits
digits-decimal_text n = digits-digits_before (n + 1) n [] (ground arith)
