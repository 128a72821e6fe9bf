-- ===== src/Smtp/Session.antt =====
-- internal/imposter/smtp_server.go: one connection, `handleConnection` and `extractAddress`. The lines
-- that the client sends are the input; the replies are the output. The stub match that follows a
-- message changes no state and sends nothing.
pub mod Invariant
pub mod Transfer
pub mod Envelope
use go_tartuffe.Prelude.{
  is_blank, ℕ, suc, ◌+◌, ◌<◌, Text, codes, text_eq, has_prefix, to_upper, index_byte, slice,
  cut_byte, trim_space, trim_newlines, take, drop, length, ltb, Bool, true, false, ◌&&◌, ◌||◌,
  Option, none, some, List, [], ◌∷◌, ◌++◌, if◌then◌else◌, ℤ, pos, increment, String,
}
use go_tartuffe.Models.Smtp.{SmtpRequest}
use go_tartuffe.Models.Imposter.{Imposter}

pub record Session : Type 0 where
  pub mail_from : Text
  pub rcpt_to : List Text
  pub data_mode : Bool
  pub data_buffer : Text

abbrev pub new_session : Session
new_session = record { mail_from = []; rcpt_to = []; data_mode = false; data_buffer = [] }

pub record Connection : Type 0 where
  pub session : Session
  pub imposter : Imposter

-- The replies to a line, the state after it, and whether the handler returns.
pub record Outcome : Type 0 where
  pub replies : List Text
  pub connection : Connection
  pub closed : Bool

abbrev pub crlf : Text
crlf = 13 ∷ 10 ∷ []

abbrev pub has_none : List Text → Bool
has_none [] = true
has_none (t ∷ ts) = false

-- strings.TrimSpace(parts[1]) of the parts at a colon.
unfoldable pub after_colon : Text → Text
after_colon line = elim (cut_byte b':' line) [ none ↦ [] | some (_, rest) ↦ trim_space rest ]

-- extractAddress
unfoldable pub extract_address : Text → Text
unfolding after_colon
extract_address line = elim (index_byte b'<' line) [
  | none ↦ after_colon line
  | some start ↦ elim (index_byte b'>' line) [
    | none ↦ after_colon line
    | some end ↦ if ltb start end then slice (start + 1) end line else after_colon line
  ]
]

abbrev pub replied : String → Connection → Outcome
replied text c = record { replies = codes text ∷ []; connection = c; closed = false }

abbrev pub with_session : Connection → Session → Connection
with_session c s = record c { session = s }

unfoldable pub count_message : Option ℤ → Option ℤ
count_message none = some (pos 1)
count_message (some n) = some (increment n)

-- One command outside DATA mode.
unfoldable pub command : Text → Connection → Outcome
unfolding extract_address
command line c =
    let cmd = take 4 (to_upper line) in
    let address = extract_address line in
    let s = c.session in
    if text_eq cmd (codes "HELO")
    then replied "250 localhost Hello" c
    else if text_eq cmd (codes "EHLO")
    then record {
      replies =
          codes "250-localhost Hello"
          ∷ codes "250-SIZE 10485760"
          ∷ codes "250-8BITMIME"
          ∷ codes "250 OK"
          ∷ [];
      connection = c;
      closed = false;
    }
    else if text_eq cmd (codes "MAIL")
    then replied (if is_blank address then "501 Syntax error in parameters" else "250 OK")
        (with_session c (record s { mail_from = address }))
    else if text_eq cmd (codes "RCPT")
    then if is_blank address
      then replied "501 Syntax error in parameters" c
      else replied "250 OK" (with_session c (record s { rcpt_to = s.rcpt_to ++ address ∷ [] }))
    else if text_eq cmd (codes "DATA")
    then if is_blank s.mail_from || has_none s.rcpt_to
      then replied "503 Bad sequence of commands" c
      else replied "354 Start mail input; end with <CRLF>.<CRLF>"
          (with_session c (record s { data_mode = true }))
    else if text_eq cmd (codes "RSET")
    then replied "250 OK"
        (with_session c (record s { mail_from = []; rcpt_to = []; data_buffer = [] }))
    else if text_eq cmd (codes "NOOP")
    then replied "250 OK" c
    else if text_eq cmd (codes "QUIT")
    then record { replies = codes "221 Bye" ∷ []; connection = c; closed = true }
    else if text_eq cmd (codes "VRFY")
    then replied "252 Cannot verify user" c
    else if text_eq cmd (codes "AUTH")
    then replied "235 Authentication successful" c
    else replied "500 Command not recognized" c

-- A leading dot of a line of data is dropped.
unfoldable pub unstuffed : Text → Text
unstuffed line = if has_prefix line (codes ".") then drop 1 line else line

-- What the handler calls: `parseEmail` of the sender's address, the envelope and the data, with the
-- time of arrival put in.
module _ (parse_email : Text → List Text → Text → SmtpRequest) where
  -- The message is recorded, if requests are, and counted.
  unfoldable pub record_message : Session → Imposter → Imposter
  unfolding count_message
  record_message s imp = record imp {
    smtp_requests =
        if imp.record_requests
        then imp.smtp_requests ++ parse_email s.mail_from s.rcpt_to s.data_buffer ∷ []
        else imp.smtp_requests;
    number_of_requests = count_message imp.number_of_requests;
  }

  -- One line in DATA mode.
  unfoldable pub data_line : Text → Connection → Outcome
  unfolding record_message unstuffed
  data_line line c =
      if text_eq line (codes ".")
      then replied "250 OK message queued"
          (record { session = new_session; imposter = record_message c.session c.imposter })
      else record {
        replies = [];
        connection = with_session c (record (c.session) {
          data_buffer = c.session.data_buffer ++ (unstuffed line ++ crlf);
        });
        closed = false;
      }

  -- One round of the loop, on a line as it is read, its end included.
  unfoldable pub handle_line : Text → Connection → Outcome
  unfolding command data_line
  handle_line raw c =
      let line = trim_newlines raw in
      if c.session.data_mode then data_line line c else command line c

  -- The loop of `handleConnection`, over the lines that arrive before the connection ends.
  unfoldable pub handle_lines : List Text → Connection → Outcome
  unfolding handle_line
  handle_lines [] c = record { replies = []; connection = c; closed = false }
  handle_lines (raw ∷ raws) c =
      let now = handle_line raw c in
      let later = handle_lines raws now.connection in
      if now.closed then now else record later { replies = now.replies ++ later.replies }
