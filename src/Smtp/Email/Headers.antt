-- ===== src/Smtp/Email/Headers.antt =====
-- internal/imposter/smtp_server.go: the headers and the body of a message, written and parsed again.
use go_tartuffe.Prelude.{
  cut, split, ℕ, suc, ◌+◌, ◌==◌, Text, Assoc, codes, to_lower, has_prefix, index_byte, is_newline,
  trim_newlines, trim_space, drop_spaces, is_space, take, drop, length, any, true, false, ◌||◌,
  some, List, [], ◌∷◌, ◌++◌, ◌≡◌, refl, ap, ◌∙◌, arith,
}
use go_tartuffe.Smtp.Email.{
  blank_line, sections, Reading, saved, header_line, header_lines, parse_email_parts,
}
use go_tartuffe.Smtp.Email.Sections.{
  no_newline, IsField, AreFields, field_line, header_text, raw_lines, field_line-no_newline,
  cut-headers, split-headers,
}

trim_newlines-none : (l : Text) → no_newline l ≡ true → trim_newlines l ≡ l
unfolding trim_newlines is_newline
trim_newlines-none [] h = refl
trim_newlines-none (c ∷ []) h = ground arith
trim_newlines-none (c ∷ d ∷ l) h = let ih = trim_newlines-none (d ∷ l) (ground arith) in rw ih refl

trim_newlines-return : (l : Text) → no_newline l ≡ true → trim_newlines (l ++ 13 ∷ []) ≡ l
unfolding trim_newlines is_newline
trim_newlines-return [] h = refl
trim_newlines-return (c ∷ []) h = ground arith
trim_newlines-return (c ∷ d ∷ l) h =
    let ih = trim_newlines-return (d ∷ l) (ground arith) in rw ih refl

index_byte-key :
    (key s : Text)
    → any (λ d. d == b':') key ≡ false
    → index_byte b':' (key ++ b':' ∷ s) ≡ some (length key)
unfolding index_byte
index_byte-key [] s h = ground arith
index_byte-key (c ∷ key) s h = let ih = index_byte-key key s (ground arith) in rw ih (ground arith)

take-key : (key s : Text) → take (length key) (key ++ s) ≡ key
take-key [] s = refl
take-key (c ∷ key) s = ap (◌∷◌ c) (take-key key s)

drop-key : (key s : Text) (c : ℕ) → drop (suc (length key)) (key ++ c ∷ s) ≡ s
drop-key [] s c = refl
drop-key (d ∷ key) s c = drop-key key s c

abbrev read : Text × Text → Reading → Reading
read (key, value) r = record {
  headers = (saved r).headers;
  current_key = key;
  current_value = value;
}

no_space :
    (c : ℕ) (s : Text)
    → is_space c ≡ false
    → (has_prefix (c ∷ s) (codes " ") || has_prefix (c ∷ s) (9 ∷ [])) ≡ false
unfolding has_prefix is_space
no_space c s h = ground arith

space-trim_space : (s : Text) → trim_space (b' ' ∷ s) ≡ trim_space s
unfolding trim_space drop_spaces is_space
space-trim_space s = refl

header_line-field :
    (f : Text × Text)
    → IsField f
    → (raw : Text) (r : Reading) → trim_newlines raw ≡ field_line f
    → header_line raw r ≡ read f r
unfolding header_line
header_line-field ([], value) (k, n, t) raw r e = absurd (ground arith)
header_line-field (c ∷ key, value) (k, n, t) raw r e =
    let colon : any (λ d. d == b':') (c ∷ key) ≡ false = ground arith in
    let starts : is_space c ≡ false = ground arith in
    let line = field_line (c ∷ key, value) in
    let behind : suc (length key) + 1 ≡ suc (length (c ∷ key)) = omega arith in
    let value_read : trim_space (drop (suc (length key) + 1) line) ≡ value =
      ap (λ n. trim_space (drop n line)) behind
      ∙ ap trim_space (drop-key (c ∷ key) (b' ' ∷ value) b':')
      ∙ space-trim_space value
      ∙ t in
    rw
      (
        e,
        no_space c (key ++ b':' ∷ b' ' ∷ value) starts,
        index_byte-key (c ∷ key) (b' ' ∷ value) colon,
      )
      (rw (e, take-key (c ∷ key) (b':' ∷ b' ' ∷ value), value_read) refl)

abbrev read_all : List (Text × Text) → Reading → Reading
read_all [] r = r
read_all (f ∷ fs) r = read_all fs (read f r)

-- The map that the fields make, the latest first.
abbrev pub stored : List (Text × Text) → Assoc Text → Assoc Text
stored [] m = m
stored ((key, value) ∷ fs) m = stored fs ((to_lower key, value) ∷ m)

header_lines-fields :
    (f : Text × Text) (fs : List (Text × Text)) (r : Reading)
    → AreFields (f ∷ fs)
    → header_lines (raw_lines f fs) r ≡ read_all (f ∷ fs) r
unfolding header_lines
header_lines-fields f [] r (h, hs) =
    header_line-field f h (field_line f) r
      (trim_newlines-none (field_line f) (field_line-no_newline f h))
header_lines-fields f (g ∷ fs) r (h, hs) =
    ap (header_lines (raw_lines g fs)) (
      header_line-field f h (field_line f ++ 13 ∷ []) r
        (trim_newlines-return (field_line f) (field_line-no_newline f h)))
    ∙ header_lines-fields g fs (read f r) hs

saved-read :
    (f : Text × Text)
    → IsField f
    → (r : Reading) → (saved (read f r)).headers ≡ stored (f ∷ []) (saved r).headers
unfolding saved
saved-read ([], value) (k, n, t) r = absurd (ground arith)
saved-read (c ∷ key, value) (k, n, t) r = refl

saved-read_all :
    (f : Text × Text) (fs : List (Text × Text)) (r : Reading)
    → AreFields (f ∷ fs)
    → (saved (read_all (f ∷ fs) r)).headers ≡ stored (f ∷ fs) (saved r).headers
saved-read_all f [] r (h, hs) = saved-read f h r
saved-read_all f (g ∷ fs) r (h, hs) =
    saved-read_all g fs (read f r) hs ∙ ap (stored (g ∷ fs)) (saved-read f h r)

abbrev empty_reading : Reading
empty_reading = record { headers = []; current_key = []; current_value = [] }

sections_of_cut : (m x y : Text) → cut blank_line m ≡ some (x, y) → sections m ≡ (x, y)
unfolding sections
sections_of_cut m x y e = rw (sections, e) refl

parse_of_sections :
    (m x y : Text)
    → sections m ≡ (x, y)
    → parse_email_parts m ≡ ((saved (header_lines (split x (10 ∷ [])) empty_reading)).headers, y)
unfolding parse_email_parts
parse_of_sections m x y e = rw e refl

saved-empty_reading : (saved empty_reading).headers ≡ []
unfolding saved
saved-empty_reading = refl

-- Header fields, each written as its key, a colon, a space and its value, with CRLF between them and a
-- blank line behind the last, are read back: parseEmailParts yields every value under the
-- lower-case form of its key, a later one before an earlier one, and the body as it is. A key starts
-- with no space and has no colon and no newline; a value has no newline and no space around it.
pub parse_email_parts-header_text :
    (f : Text × Text) (fs : List (Text × Text)) (body : Text)
    → AreFields (f ∷ fs)
    → parse_email_parts (header_text f fs ++ (blank_line ++ body)) ≡ (stored (f ∷ fs) [], body)
parse_email_parts-header_text f fs body h =
    parse_of_sections _ (header_text f fs) body
      (sections_of_cut (header_text f fs ++ (blank_line ++ body)) _ _ (cut-headers f fs body h))
    ∙ ap (λ lines. ((saved (header_lines lines empty_reading)).headers, body))
        (split-headers f fs h)
    ∙ ap (λ r. ((saved r).headers, body)) (header_lines-fields f fs empty_reading h)
    ∙ ap (λ m. (m, body))
        (saved-read_all f fs empty_reading h ∙ ap (stored (f ∷ fs)) saved-empty_reading)
