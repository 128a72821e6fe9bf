-- ===== src/Prelude/Split.antt =====
-- Splitting texts at a text, joining them, replacing in them, and decimal numbers.
use Prim.Native.Nat.{ℕ, zero, suc, ◌+◌, ◌-◌, ◌/◌, ◌%◌}
use mathlib.Core.List.{List, [], ◌∷◌, ◌++◌, append_assoc, append-nil}
use mathlib.Core.Bool.{Bool, true, false, not, ◌&&◌, ◌||◌}
use mathlib.Core.Option.{Option, none, some}
use go_tartuffe.Prelude.Tests.{if◌then◌else◌, ◌==◌, Bool-cases}
use mathlib.Core.Logic.{inl, inr}
use go_tartuffe.Prelude.Lists.{drop, length}
use go_tartuffe.Prelude.Strings.{Text, has_prefix, contains, contains_of_prefix}
use mathlib.Core.Path.{◌≡◌, refl, sym, ap}
use native.Mathlib.Omega.{arith}
use go_tartuffe.Prelude.Slices.{is_space}

abbrev pub is_blank : Text → Bool
is_blank [] = true
is_blank (c ∷ s) = false

-- strings.SplitN(s, sep, 2), `none` where it has one part.
unfoldable pub cut : Text → Text → Option (Text × Text)
cut sep [] = none
cut sep (c ∷ s) =
    let later = cut sep s in
    if has_prefix (c ∷ s) sep
    then some ([], drop (length sep) (c ∷ s))
    else elim later [ none ↦ none | some (x, y) ↦ some (c ∷ x, y) ]

-- strings.Split(s, sep), with the bytes of a separator that are still to pass and the part so far.
unfoldable pub split_from : Text → Text → ℕ → Text → List Text
split_from sep [] passing current = current ∷ []
split_from sep (c ∷ s) (suc n) current = split_from sep s n current
split_from sep (c ∷ s) zero current =
    let found = has_prefix (c ∷ s) sep in
    let rest =
      split_from sep s (if found then length sep - 1 else 0)
        (if found then [] else current ++ c ∷ []) in
    if found then current ∷ rest else rest

unfoldable pub split : Text → Text → List Text
unfolding split_from
split s sep = split_from sep s 0 []

-- strings.Fields
unfoldable pub fields_from : Text → Text → List Text
fields_from [] current = if is_blank current then [] else current ∷ []
fields_from (c ∷ s) current =
    let rest = fields_from s (if is_space c then [] else current ++ c ∷ []) in
    if is_space c && not (is_blank current) then current ∷ rest else rest

-- strings.Join
unfoldable pub join : Text → List Text → Text
join sep [] = []
join sep (t ∷ []) = t
join sep (t ∷ u ∷ ts) = t ++ (sep ++ join sep (u ∷ ts))

-- `new` before each byte and at the end: strings.ReplaceAll of the empty text, in ASCII.
unfoldable pub interspersed : Text → Text → Text
interspersed new [] = new
interspersed new (c ∷ s) = new ++ c ∷ interspersed new s

-- strings.ReplaceAll(s, old, new)
unfoldable pub replace_all : Text → Text → Text → Text
unfolding split join interspersed
replace_all s old new = if is_blank old then interspersed new s else join new (split s old)

-- The decimal digits of `n`, before those of `digits`; a number is below the fuel `n + 1`.
unfoldable pub digits_before : ℕ → ℕ → Text → Text
digits_before zero n digits = digits
digits_before (suc fuel) n digits = elim (n / 10) [
  | zero ↦ (b'0' + n % 10) ∷ digits
  | suc q ↦ digits_before fuel (n / 10) ((b'0' + n % 10) ∷ digits)
]

-- The verb %d on a number that is not negative.
unfoldable pub decimal_text : ℕ → Text
unfolding digits_before
decimal_text n = digits_before (n + 1) n []

or-eq_false : (a b : Bool) → (a || b) ≡ false → (a ≡ false) × (b ≡ false)
or-eq_false a b h = ground arith

split_from_absent :
    (sep s current : Text)
    → contains s sep ≡ false
    → split_from sep s 0 current ≡ (current ++ s) ∷ []
unfolding split_from contains
split_from_absent sep [] current h = ap (λ x. x ∷ []) (sym (append-nil current))
split_from_absent sep (c ∷ s) current h =
    let (a, b) = or-eq_false (has_prefix (c ∷ s) sep) (contains s sep) h in
    rw (a, split_from_absent sep s (current ++ c ∷ []) b, append_assoc current (c ∷ []) s) refl

-- A text in which `old` does not occur stays.
pub replace_all_absent : (s old new : Text) → contains s old ≡ false → replace_all s old new ≡ s
unfolding replace_all split join contains has_prefix
replace_all_absent s [] new h = absurd (ground (arith, contains_of_prefix s [] refl))
replace_all_absent s (c ∷ old) new h =
    rw (replace_all, split, split_from_absent (c ∷ old) s [] h) refl

has_prefix_longer : (s p q : Text) → has_prefix s p ≡ false → has_prefix s (p ++ q) ≡ false
unfolding has_prefix
has_prefix_longer s [] q h = absurd (ground arith)
has_prefix_longer [] (d ∷ p) q h = refl
has_prefix_longer (c ∷ s) (d ∷ p) q h = elim (Bool-cases (c == d)) [
  | inl e ↦ rw e (has_prefix_longer s p q (ground arith))
  | inr e ↦ rw e refl
]

-- Where a text does not occur, no longer one does.
pub contains_longer : (s p q : Text) → contains s p ≡ false → contains s (p ++ q) ≡ false
unfolding contains
contains_longer [] p q h = has_prefix_longer [] p q h
contains_longer (c ∷ s) p q h =
    let (a, b) = or-eq_false (has_prefix (c ∷ s) p) (contains s p) h in
    rw (has_prefix_longer (c ∷ s) p q a, contains_longer s p q b) refl
