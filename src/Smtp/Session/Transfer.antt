-- ===== src/Smtp/Session/Transfer.antt =====
-- internal/imposter/smtp_server.go: the transfer of a message's data, with its dots stuffed.
use go_tartuffe.Prelude.{
  Text, codes, text_eq, has_prefix, is_newline, trim_newlines, true, false, List, [], ◌∷◌, ◌++◌,
  map, any, append_assoc, append-nil, if◌then◌else◌, ◌≡◌, refl, ◌∙◌, arith, Bool-cases, inl, inr,
}
use go_tartuffe.Models.Smtp.{SmtpRequest}
use go_tartuffe.Models.Imposter.{Imposter}
use go_tartuffe.Smtp.Session.{
  Session, Connection, Outcome, new_session, crlf, unstuffed, record_message, data_line,
  handle_line, handle_lines,
}

-- A line has no newline of its own.
abbrev pub IsLine : Text → Type 0
IsLine line = any is_newline line ≡ false

abbrev pub AreLines : List Text → Type 0
AreLines [] = Unit {0}
AreLines (line ∷ rest) = IsLine line × AreLines rest

-- What a client sends for a line: its leading dot doubled, the end of line put behind.
abbrev pub stuffed : Text → Text
stuffed line = if has_prefix line (codes ".") then 46 ∷ line else line

abbrev pub wire : Text → Text
wire line = stuffed line ++ crlf

-- The data that the lines are.
abbrev pub data_of : List Text → Text
data_of [] = []
data_of (line ∷ rest) = (line ++ crlf) ++ data_of rest

pub trim_newlines-line : (line : Text) → IsLine line → trim_newlines (line ++ crlf) ≡ line
unfolding trim_newlines is_newline
trim_newlines-line [] h = refl
trim_newlines-line (c ∷ []) h = ground arith
trim_newlines-line (c ∷ d ∷ s) h = let ih = trim_newlines-line (d ∷ s) (ground arith) in rw ih refl

stuffed-IsLine : (line : Text) → IsLine line → IsLine (stuffed line)
unfolding is_newline
stuffed-IsLine line h = elim (Bool-cases (has_prefix line (codes "."))) [
  | inl e ↦ rw e h
  | inr e ↦ rw e h
]

unstuffed-stuffed : (line : Text) → unstuffed (stuffed line) ≡ line
unfolding unstuffed has_prefix
unstuffed-stuffed [] = refl
unstuffed-stuffed (c ∷ s) = ground arith

stuffed_not_end : (line : Text) → text_eq (stuffed line) (codes ".") ≡ false
unfolding text_eq has_prefix
stuffed_not_end [] = refl
stuffed_not_end (c ∷ s) = ground arith

-- A session that has received the envelope and the lines up to here.
abbrev pub receiving : Text → List Text → Text → Session
receiving from to payload = record {
  mail_from = from;
  rcpt_to = to;
  data_mode = true;
  data_buffer = payload;
}

-- The connection stays open, with these replies.
abbrev pub open_with : List Text → Session → Imposter → Outcome
open_with sent s imp = record {
  replies = sent;
  connection = record { session = s; imposter = imp };
  closed = false;
}

-- An outcome with replies sent before it.
abbrev pub preceded : List Text → Outcome → Outcome
preceded sent o = record o { replies = sent ++ o.replies }

module _ (parse_email : Text → List Text → Text → SmtpRequest) where
  handle_line-wire :
      (line : Text)
      → IsLine line
      → (from : Text) (to : List Text) (payload : Text) (imp : Imposter)
      → handle_line parse_email
          (wire line)
          (record { session = receiving from to payload; imposter = imp })
        ≡ open_with [] (receiving from to (payload ++ (line ++ crlf))) imp
  unfolding handle_line data_line
  handle_line-wire line h from to payload imp =
      rw
        (
          trim_newlines-line (stuffed line) (stuffed-IsLine line h),
          stuffed_not_end line,
          unstuffed-stuffed line,
        )
        refl

  handle_line-end :
      (from : Text) (to : List Text) (payload : Text) (imp : Imposter)
      → handle_line parse_email
          (codes "." ++ crlf)
          (record { session = receiving from to payload; imposter = imp })
        ≡ open_with
            (codes "250 OK message queued" ∷ [])
            new_session
            (record_message parse_email (receiving from to payload) imp)
  unfolding handle_line data_line trim_newlines is_newline text_eq
  handle_line-end from to payload imp = refl

  pub handle_lines_open :
      (raw : Text) (more : List Text) (c : Connection) (sent : List Text) (s : Session)
      (imp : Imposter)
      → handle_line parse_email raw c ≡ open_with sent s imp
      → handle_lines parse_email (raw ∷ more) c
        ≡ preceded sent (handle_lines parse_email more (record { session = s; imposter = imp }))
  unfolding handle_lines
  handle_lines_open raw more c sent s imp e = rw e refl

  -- The lines of a message, each with its leading dot doubled, and the line of one dot after them,
  -- sent to a session in data mode: the one reply is that the message is queued, and what follows is
  -- handled by a session as at the start, with the message counted and, if requests
  -- are recorded, recorded. Its data are those
  -- that were there and then the lines as they were before stuffing, each with its end. So no line is
  -- taken for the end of the data.
  pub handle_lines-message :
      (lines : List Text)
      → AreLines lines
      → (more : List Text) (from : Text) (to : List Text) (payload : Text) (imp : Imposter)
      → handle_lines parse_email
          (map wire lines ++ (codes "." ++ crlf) ∷ more)
          (record { session = receiving from to payload; imposter = imp })
        ≡ preceded (codes "250 OK message queued" ∷ []) (
            handle_lines parse_email more (record {
              session = new_session;
              imposter =
                  record_message parse_email (receiving from to (payload ++ data_of lines)) imp;
            }))
  handle_lines-message [] h more from to payload imp =
      rw (append-nil payload)
        (handle_lines_open (codes "." ++ crlf) more _ _ _ _ (handle_line-end from to payload imp))
  handle_lines-message (line ∷ rest) (h, hs) more from to payload imp =
      handle_lines_open (wire line) (map wire rest ++ (codes "." ++ crlf) ∷ more) _ _ _ _
        (handle_line-wire line h from to payload imp)
      ∙ handle_lines-message rest hs more from to (payload ++ (line ++ crlf)) imp
      ∙ rw (append_assoc payload (line ++ crlf) (data_of rest)) refl
