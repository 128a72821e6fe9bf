-- ===== src/Smtp/Session/Envelope.antt =====
-- internal/imposter/smtp_server.go: a whole message, from its envelope to the end of its data.
use go_tartuffe.Prelude.{
  is_blank, ℕ, ◌==◌, Text, codes, text_eq, to_upper, upper, index_byte, slice, is_newline,
  trim_newlines, take, length, Bool, false, some, List, [], ◌∷◌, ◌++◌, map, any, append_assoc,
  append-nil, ◌≡◌, ◌≢◌, refl, ap, ◌∙◌, arith,
}
use go_tartuffe.Models.Smtp.{SmtpRequest}
use go_tartuffe.Models.Imposter.{Imposter}
use go_tartuffe.Smtp.Session.{
  Session, new_session, crlf, extract_address, command, handle_line, handle_lines, record_message,
}
use go_tartuffe.Smtp.Session.Transfer.{
  IsLine, AreLines, wire, data_of, trim_newlines-line, receiving, open_with, preceded,
  handle_lines_open, handle_lines-message,
}

-- An address that can stand between angle brackets on a line, and is not empty.
abbrev pub IsAddress : Text → Type 0
IsAddress a = IsLine a × (any (λ c. c == b'>') a ≡ false) × (a ≢ [])

abbrev pub bracketed : Text → Text → Text
bracketed start a = start ++ (b'<' ∷ a ++ b'>' ∷ [])

index_byte-after :
    (c : ℕ) (a : Text) → any (λ d. d == c) a ≡ false → index_byte c (a ++ c ∷ []) ≡ some (length a)
unfolding index_byte
index_byte-after c [] h = ground arith
index_byte-after c (d ∷ a) h = let ih = index_byte-after c a (ground arith) in rw ih (ground arith)

take-length : (a t : Text) → take (length a) (a ++ t) ≡ a
take-length [] t = refl
take-length (c ∷ a) t = ap (◌∷◌ c) (take-length a t)

any-append-false :
    (test : ℕ → Bool) (s t : Text)
    → any test s ≡ false
    → any test t ≡ false
    → any test (s ++ t) ≡ false
any-append-false test [] t h k = k
any-append-false test (c ∷ s) t h k =
    let ih = any-append-false test s t (ground arith) k in rw ih (ground arith)

extract_address-mail :
    (a : Text)
    → any (λ c. c == b'>') a ≡ false
    → extract_address (bracketed (codes "MAIL FROM:") a) ≡ a
unfolding extract_address index_byte slice
extract_address-mail a h =
    rw (index_byte-after b'>' a h) (ground (arith, take-length a (b'>' ∷ [])))

extract_address-rcpt :
    (a : Text)
    → any (λ c. c == b'>') a ≡ false
    → extract_address (bracketed (codes "RCPT TO:") a) ≡ a
unfolding extract_address index_byte slice
extract_address-rcpt a h =
    rw (index_byte-after b'>' a h) (ground (arith, take-length a (b'>' ∷ [])))

-- A session outside data mode.
abbrev pub waiting : Text → List Text → Session
waiting from to = record { mail_from = from; rcpt_to = to; data_mode = false; data_buffer = [] }

bracketed-IsLine : (start a : Text) → IsLine start → IsLine a → IsLine (bracketed start a)
unfolding is_newline
bracketed-IsLine start a h k =
    any-append-false is_newline start _ h
      (any-append-false is_newline (b'<' ∷ a) (b'>' ∷ []) k refl)

is_blank_of_nonempty : (a : Text) → a ≢ [] → is_blank a ≡ false
is_blank_of_nonempty [] h = absurd (h refl)
is_blank_of_nonempty (c ∷ a) h = refl

abbrev pub AreAddresses : List Text → Type 0
AreAddresses [] = Unit {0}
AreAddresses (a ∷ rest) = IsAddress a × AreAddresses rest

abbrev pub mail_line : Text → Text
mail_line a = bracketed (codes "MAIL FROM:") a ++ crlf

abbrev pub rcpt_line : Text → Text
rcpt_line a = bracketed (codes "RCPT TO:") a ++ crlf

-- All that a client sends for a message: its sender, its recipients and its lines.
abbrev pub script : Text → List Text → List Text → List Text
script from to lines =
    mail_line from
    ∷ (map rcpt_line to ++ (codes "DATA" ++ crlf) ∷ (map wire lines ++ (codes "." ++ crlf) ∷ []))

-- What it gets back for it: an OK for each address, the start of the data, the message queued.
abbrev pub acknowledged : List Text → List Text
acknowledged to =
    codes "250 OK"
    ∷ (map (λ a. codes "250 OK") to
        ++ codes "354 Start mail input; end with <CRLF>.<CRLF>"
          ∷ codes "250 OK message queued"
          ∷ [])

module _ (parse_email : Text → List Text → Text → SmtpRequest) where
  handle_line-mail :
      (a : Text)
      → IsAddress a
      → (from : Text) (to : List Text) (imp : Imposter)
      → handle_line parse_email
          (bracketed (codes "MAIL FROM:") a ++ crlf)
          (record { session = waiting from to; imposter = imp })
        ≡ open_with (codes "250 OK" ∷ []) (waiting a to) imp
  unfolding handle_line command to_upper upper text_eq is_newline
  handle_line-mail a (h, k, n) from to imp =
      rw
        (
          trim_newlines-line (bracketed (codes "MAIL FROM:") a)
              (bracketed-IsLine (codes "MAIL FROM:") a refl h),
          extract_address-mail a k,
          is_blank_of_nonempty a n,
        )
        refl

  handle_line-rcpt :
      (a : Text)
      → IsAddress a
      → (from : Text) (to : List Text) (imp : Imposter)
      → handle_line parse_email
          (bracketed (codes "RCPT TO:") a ++ crlf)
          (record { session = waiting from to; imposter = imp })
        ≡ open_with (codes "250 OK" ∷ []) (waiting from (to ++ a ∷ [])) imp
  unfolding handle_line command to_upper upper text_eq is_newline
  handle_line-rcpt a (h, k, n) from to imp =
      rw
        (
          trim_newlines-line (bracketed (codes "RCPT TO:") a)
              (bracketed-IsLine (codes "RCPT TO:") a refl h),
          extract_address-rcpt a k,
          is_blank_of_nonempty a n,
        )
        refl

  handle_line-data :
      (from : Text) (to : List Text) (b : Text) (imp : Imposter)
      → from ≢ []
      → handle_line parse_email
          (codes "DATA" ++ crlf)
          (record { session = waiting from (b ∷ to); imposter = imp })
        ≡ open_with
            (codes "354 Start mail input; end with <CRLF>.<CRLF>" ∷ [])
            (receiving from (b ∷ to) [])
            imp
  unfolding handle_line command to_upper upper text_eq is_newline trim_newlines
  handle_line-data from to b imp h = rw (is_blank_of_nonempty from h) refl

  handle_lines-recipients :
      (to : List Text)
      → AreAddresses to
      → (more : List Text) (from : Text) (before : List Text) (imp : Imposter)
      → handle_lines parse_email
          (map rcpt_line to ++ more)
          (record { session = waiting from before; imposter = imp })
        ≡ preceded (map (λ a. codes "250 OK") to) (
            handle_lines parse_email more
              (record { session = waiting from (before ++ to); imposter = imp }))
  handle_lines-recipients [] h more from before imp = rw (append-nil before) refl
  handle_lines-recipients (a ∷ to) (h, hs) more from before imp =
      handle_lines_open parse_email (rcpt_line a) (map rcpt_line to ++ more) _ _ _ _
        (handle_line-rcpt a h from before imp)
      ∙ ap (preceded (codes "250 OK" ∷ []))
          (handle_lines-recipients to hs more from (before ++ a ∷ []) imp)
      ∙ rw (append_assoc before (a ∷ []) to) refl

  -- A client that names a sender and at least one recipient, each an address between angle brackets
  -- that has no `>` and no newline and is not empty, and then sends lines without newlines of their
  -- own, with their leading dots doubled, is acknowledged at every step. The message is counted and,
  -- if requests are recorded, recorded with exactly that sender, those recipients in that order, and
  -- those lines, and the session is ready for the next message.
  pub handle_lines-script :
      (from : Text)
      → IsAddress from
      → (first : Text) (to : List Text) → AreAddresses (first ∷ to)
      → (lines : List Text) → AreLines lines
      → (imp : Imposter)
      → handle_lines parse_email
          (script from (first ∷ to) lines)
          (record { session = new_session; imposter = imp })
        ≡ open_with
            (acknowledged (first ∷ to))
            new_session
            (record_message parse_email (receiving from (first ∷ to) (data_of lines)) imp)
  unfolding handle_lines
  handle_lines-script from (h, k, n) first to hs lines ls imp =
      let content = map wire lines ++ (codes "." ++ crlf) ∷ [] in
      let rest = (codes "DATA" ++ crlf) ∷ content in
      let oks = map (λ a. codes "250 OK") (first ∷ to) in
      handle_lines_open parse_email (mail_line from) (map rcpt_line (first ∷ to) ++ rest)
        (record { session = new_session; imposter = imp }) _ _ _
        (handle_line-mail from (h, k, n) [] [] imp)
      ∙ ap (preceded (codes "250 OK" ∷ [])) (
          handle_lines-recipients (first ∷ to) hs rest from [] imp
          ∙ ap (preceded oks) (
              handle_lines_open parse_email (codes "DATA" ++ crlf) content
                (record { session = waiting from (first ∷ to); imposter = imp }) _ _ _
                (handle_line-data from to first imp n)
              ∙ ap (preceded (codes "354 Start mail input; end with <CRLF>.<CRLF>" ∷ []))
                  (handle_lines-message parse_email lines ls [] from (first ∷ to) [] imp)))
