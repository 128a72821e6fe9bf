-- ===== src/Repository/Filesystem/Names.antt =====
-- internal/repository/filesystem.go: filenameFor. Names of different counters differ.
use go_tartuffe.Prelude.{
  ℕ, ◌+◌, ◌-◌, ◌*◌, ◌^◌, ◌<◌, Text, codes, text_eq, text_eq→eq, decimal_text, true, false, ltb,
  ◌==◌, if◌then◌else◌, [], ◌∷◌, ◌++◌, some, ◌≡◌, ◌≢◌, refl, sym, ap, ◌∙◌, arith, Bool-cases, inl,
  inr, digits, ℤ, pos, negsuc,
}
use mathlib.Core.List.{append_cancel_left, append_cancel_right}
use go_tartuffe.Prelude.Decimal.{digits-decimal_text}
use go_tartuffe.Repository.Filesystem.{Host, itoa, counter_text, json_suffix, tmp_suffix}
use go_tartuffe.Repository.Filesystem.Actions.{name_at}

-- The number behind the last dash.
last_number : ℕ → Text → ℕ
last_number m [] = m
last_number m (c ∷ s) = if c == b'-' then last_number 0 s else last_number (m * 10 + (c - b'0')) s

last_number-dash : (m : ℕ) (s t : Text) → last_number m (s ++ b'-' ∷ t) ≡ last_number 0 t
unfolding last_number
last_number-dash m [] t = refl
last_number-dash m (c ∷ s) t = elim (Bool-cases (c == b'-')) [
  | inl e ↦ rw e (last_number-dash 0 s t)
  | inr e ↦ rw e (last_number-dash (m * 10 + (c - b'0')) s t)
]

last_number-digits : (m n : ℕ) (s : Text) → digits m s ≡ some n → last_number m s ≡ n
unfolding last_number digits
last_number-digits m n [] h = ground arith
last_number-digits m n (c ∷ s) h = ground (arith, last_number-digits (m * 10 + (c - b'0')) n s)

last_number-name : (host : Host) (c : ℕ) → c < 2 ^ 63 → last_number 0 (name_at host c) ≡ c
unfolding name_at counter_text
last_number-name host c small =
    let b : ltb c (2 ^ 63) ≡ true = ground arith in
    rw (b) (
      last_number-dash 0 (decimal_text (host.epoch c))
        (decimal_text host.pid ++ b'-' ∷ decimal_text c)
      ∙ last_number-dash 0 (decimal_text host.pid) (decimal_text c)
      ∙ last_number-digits 0 c (decimal_text c) (digits-decimal_text c))

-- Names of different counters differ, as long as the counter has not wrapped.
pub name-injective :
    (host : Host) (c d : ℕ) → c < 2 ^ 63 → d < 2 ^ 63 → name_at host c ≡ name_at host d → c ≡ d
name-injective host c d hc hd e =
    sym (last_number-name host c hc) ∙ ap (last_number 0) e ∙ last_number-name host d hd

eq_false_of_ne : (s t : Text) → s ≢ t → text_eq s t ≡ false
eq_false_of_ne s t h = elim (Bool-cases (text_eq s t)) [
  | inl e ↦ absurd (h (text_eq→eq s t e))
  | inr e ↦ e
]

pub names_differ :
    (host : Host) (c d : ℕ)
    → c < 2 ^ 63
    → d < 2 ^ 63
    → c ≢ d
    → text_eq (name_at host c) (name_at host d) ≡ false
names_differ host c d hc hd h =
    eq_false_of_ne (name_at host c) (name_at host d) (λ e. h (name-injective host c d hc hd e))

abbrev pub file_at : Host → ℕ → Text
file_at host c = name_at host c ++ json_suffix

pub files_differ :
    (host : Host) (c d : ℕ)
    → c < 2 ^ 63
    → d < 2 ^ 63
    → c ≢ d
    → text_eq (file_at host c) (file_at host d) ≡ false
files_differ host c d hc hd h = eq_false_of_ne (file_at host c) (file_at host d) (λ e. h (
    name-injective host c d hc hd
      (append_cancel_right (name_at host c) (name_at host d) json_suffix e)))

last_code : ℕ → Text → ℕ
last_code a [] = a
last_code a (c ∷ s) = last_code c s

last_code-append : (a b : ℕ) (s t : Text) → last_code a (s ++ b ∷ t) ≡ last_code b t
unfolding last_code
last_code-append a b [] t = refl
last_code-append a b (c ∷ s) t = last_code-append c b s t

-- A temporary file is not one of those that stay.
pub tmp_differs :
    (host : Host) (s : Text) (d : ℕ) → text_eq (s ++ tmp_suffix) (file_at host d) ≡ false
unfolding last_code
tmp_differs host s d = eq_false_of_ne (s ++ tmp_suffix) (file_at host d) (λ e. ground (
  arith,
  last_code-append 0 b'.' s (codes "tmp"),
  last_code-append 0 b'.' (name_at host d) (codes "json"),
  ap (last_code 0) e,
))

itoa-injective : (a b : ℤ) → itoa a ≡ itoa b → a ≡ b
unfolding itoa digits
itoa-injective (pos m) (pos n) e =
    ground (arith, digits-decimal_text m, digits-decimal_text n, ap (digits 0) e)
itoa-injective (pos m) (negsuc n) e =
    absurd (ground (arith, digits-decimal_text m, ap (digits 0) e))
itoa-injective (negsuc m) (pos n) e =
    absurd (ground (arith, digits-decimal_text n, ap (digits 0) e))
itoa-injective (negsuc m) (negsuc n) e = ground (
  arith,
  digits-decimal_text (m + 1),
  digits-decimal_text (n + 1),
  ap (digits 0) (append_cancel_left (b'-' ∷ []) (decimal_text (m + 1)) (decimal_text (n + 1)) e),
)

pub itoa_differs : (a b : ℤ) → a ≢ b → text_eq (itoa a) (itoa b) ≡ false
itoa_differs a b h = eq_false_of_ne (itoa a) (itoa b) (λ e. h (itoa-injective a b e))
