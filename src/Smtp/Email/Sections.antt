-- ===== src/Smtp/Email/Sections.antt =====
-- internal/imposter/smtp_server.go: a message with written headers, cut into its sections and lines.
use go_tartuffe.Prelude.{
  cut, split, split_from, ℕ, ◌==◌, Text, has_prefix, is_newline, trim_space, is_space, any, Bool,
  true, false, not, ◌&&◌, some, List, [], ◌∷◌, ◌++◌, append_assoc, append-nil, ◌≡◌, refl, ap, ◌∙◌,
  arith, subst,
}
use go_tartuffe.Smtp.Email.{blank_line}

abbrev pub no_newline : Text → Bool
no_newline s = not (any is_newline s)

-- A key: it starts with no space, and has no colon and no newline.
abbrev pub is_key : Text → Bool
is_key [] = false
is_key (c ∷ k) = not (is_space c) && (not (any (λ d. d == b':') (c ∷ k)) && no_newline (c ∷ k))

-- A value: no newline, and no space around it.
abbrev pub IsField : Text × Text → Type 0
IsField (key, value) = (is_key key ≡ true) × (no_newline value ≡ true) × (trim_space value ≡ value)

abbrev pub AreFields : List (Text × Text) → Type 0
AreFields [] = Unit {0}
AreFields (f ∷ fs) = IsField f × AreFields fs

abbrev pub field_line : Text × Text → Text
field_line (key, value) = key ++ b':' ∷ b' ' ∷ value

-- The header lines, with CRLF between them.
abbrev pub header_text : Text × Text → List (Text × Text) → Text
header_text f [] = field_line f
header_text f (g ∷ fs) = field_line f ++ 13 ∷ 10 ∷ header_text g fs

cut-line :
    (l s x y : Text)
    → no_newline l ≡ true
    → cut blank_line s ≡ some (x, y)
    → cut blank_line (l ++ s) ≡ some (l ++ x, y)
unfolding cut has_prefix is_newline
cut-line [] s x y h e = e
cut-line (c ∷ l) s x y h e =
    let ih = cut-line l s x y (ground arith) e in
    let other : (c == 13) ≡ false = ground arith in rw (ih, other) refl

cut-end : (body : Text) → cut blank_line (blank_line ++ body) ≡ some ([], body)
unfolding cut has_prefix
cut-end body = refl

cut-step :
    (sep : Text) (c : ℕ) (s x y : Text)
    → has_prefix (c ∷ s) sep ≡ false
    → cut sep s ≡ some (x, y)
    → cut sep (c ∷ s) ≡ some (c ∷ x, y)
unfolding cut
cut-step sep c s x y h e = rw (h, e) refl

-- No blank line starts at the end of a line before another line.
no_blank_line :
    (d : ℕ) (s : Text) → is_newline d ≡ false → has_prefix (13 ∷ 10 ∷ d ∷ s) blank_line ≡ false
unfolding has_prefix is_newline
no_blank_line d s h = ground arith

cut-next :
    (d : ℕ) (s x y : Text)
    → is_newline d ≡ false
    → cut blank_line (d ∷ s) ≡ some (x, y)
    → cut blank_line (13 ∷ 10 ∷ d ∷ s) ≡ some (13 ∷ 10 ∷ x, y)
unfolding has_prefix
cut-next d s x y h e =
    cut-step blank_line 13 (10 ∷ d ∷ s) (10 ∷ x) y (no_blank_line d s h)
      (cut-step blank_line 10 (d ∷ s) x y refl e)

no_newline-append :
    (s t : Text) → no_newline s ≡ true → no_newline t ≡ true → no_newline (s ++ t) ≡ true
no_newline-append [] t h k = k
no_newline-append (c ∷ s) t h k =
    let ih = no_newline-append s t (ground arith) k in ground (arith, ih)

is_key-no_newline : (key : Text) → is_key key ≡ true → no_newline key ≡ true
is_key-no_newline [] k = absurd (ground arith)
is_key-no_newline (c ∷ key) k = ground arith

pub field_line-no_newline : (f : Text × Text) → IsField f → no_newline (field_line f) ≡ true
unfolding is_newline
field_line-no_newline (key, value) (k, n, t) =
    no_newline-append key (b':' ∷ b' ' ∷ value) (is_key-no_newline key k) n

-- The headers start with a byte of a key, so no blank line ends in front of them.
cut-before :
    (f : Text × Text) (fs : List (Text × Text))
    → IsField f
    → (s x y : Text) → cut blank_line (header_text f fs ++ s) ≡ some (x, y)
    → cut blank_line (13 ∷ 10 ∷ (header_text f fs ++ s)) ≡ some (13 ∷ 10 ∷ x, y)
unfolding is_newline
cut-before ([], value) fs (k, n, t) s x y e = absurd (ground arith)
cut-before (c ∷ key, value) [] (k, n, t) s x y e = cut-next c _ x y (ground arith) e
cut-before (c ∷ key, value) (g ∷ fs) (k, n, t) s x y e = cut-next c _ x y (ground arith) e

pub cut-headers :
    (f : Text × Text) (fs : List (Text × Text)) (body : Text)
    → AreFields (f ∷ fs)
    → cut blank_line (header_text f fs ++ (blank_line ++ body)) ≡ some (header_text f fs, body)
cut-headers f [] body (h, hs) =
    cut-line (field_line f) (blank_line ++ body) [] body (field_line-no_newline f h) (cut-end body)
    ∙ ap (λ x. some (x, body)) (append-nil (field_line f))
cut-headers f (g ∷ fs) body (h, hs) =
    ap (cut blank_line)
      (append_assoc (field_line f) (13 ∷ 10 ∷ header_text g fs) (blank_line ++ body))
    ∙ cut-line (field_line f) _ (13 ∷ 10 ∷ header_text g fs) body (field_line-no_newline f h) (
        cut-before g fs hs.0 (blank_line ++ body) (header_text g fs) body
          (cut-headers g fs body hs))

-- Splitting at the ends of lines.
split_from-line :
    (l s current : Text)
    → no_newline l ≡ true
    → split_from (10 ∷ []) (l ++ s) 0 current ≡ split_from (10 ∷ []) s 0 (current ++ l)
unfolding split_from has_prefix is_newline
split_from-line [] s current h = rw (append-nil current) refl
split_from-line (c ∷ l) s current h =
    let other : (c == 10) ≡ false = ground arith in
    let ih = split_from-line l s (current ++ c ∷ []) (ground arith) in
    rw other (ih ∙ rw (append_assoc current (c ∷ []) l) refl)

split_from-end :
    (s current : Text)
    → split_from (10 ∷ []) (10 ∷ s) 0 current ≡ current ∷ split_from (10 ∷ []) s 0 []
unfolding split_from has_prefix
split_from-end s current = refl

split_from-return :
    (s current : Text)
    → split_from (10 ∷ []) (13 ∷ s) 0 current ≡ split_from (10 ∷ []) s 0 (current ++ 13 ∷ [])
unfolding split_from has_prefix
split_from-return s current = refl

-- The lines that the headers are split into: each but the last keeps its carriage return.
abbrev pub raw_lines : Text × Text → List (Text × Text) → List Text
raw_lines f [] = field_line f ∷ []
raw_lines f (g ∷ fs) = (field_line f ++ 13 ∷ []) ∷ raw_lines g fs

pub split-headers :
    (f : Text × Text) (fs : List (Text × Text))
    → AreFields (f ∷ fs)
    → split (header_text f fs) (10 ∷ []) ≡ raw_lines f fs
unfolding split
split-headers f [] (h, hs) =
    subst (λ l. split_from (10 ∷ []) l 0 [] ≡ field_line f ∷ []) (append-nil (field_line f))
      (split_from-line (field_line f) [] [] (field_line-no_newline f h))
split-headers f (g ∷ fs) (h, hs) =
    split_from-line (field_line f) (13 ∷ 10 ∷ header_text g fs) [] (field_line-no_newline f h)
    ∙ split_from-return (10 ∷ header_text g fs) (field_line f)
    ∙ split_from-end (header_text g fs) (field_line f ++ 13 ∷ [])
    ∙ ap (◌∷◌ (field_line f ++ 13 ∷ [])) (split-headers g fs hs)
