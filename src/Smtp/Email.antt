-- ===== src/Smtp/Email.antt =====
-- internal/imposter/smtp_server.go: `parseEmail` and what it calls. A rune is read as a byte.
pub mod Sections
pub mod Headers
use go_tartuffe.Prelude.{
  is_blank, cut, split, fields_from, ℕ, zero, suc, ◌+◌, ◌-◌, Text, Assoc, lookup, codes, text_eq,
  to_lower, has_prefix, has_suffix, contains, index_byte, trim_space, trim_newlines, take, drop,
  length, reverse, is_space, not, ◌&&◌, ◌||◌, Option, none, some, List, [], ◌∷◌, ◌++◌,
  if◌then◌else◌, String,
}
use go_tartuffe.Models.Smtp.{EmailAddress, SmtpRequest}
use go_tartuffe.Smtp.Addresses.{parse_email_address, parse_email_addresses, trim_quotes}

-- headers[key], "" for a key that is missing.
abbrev pub header : String → Assoc Text → Text
header name headers = elim (lookup (codes name) headers) [ none ↦ [] | some v ↦ v ]

-- The variables of the loop of `parseEmailParts`. The latest value of a key stands first.
pub record Reading : Type 0 where
  pub headers : Assoc Text
  pub current_key : Text
  pub current_value : Text

unfoldable pub saved : Reading → Reading
saved r =
    if is_blank r.current_key
    then r
    else record r { headers = (to_lower r.current_key, r.current_value) ∷ r.headers }

-- One line of the headers; strings.TrimRight(line, "\r") of a line without "\n".
unfoldable pub header_line : Text → Reading → Reading
unfolding saved
header_line raw r =
    let line = trim_newlines raw in
    if is_blank line
    then r
    else if has_prefix line (codes " ") || has_prefix line (9 ∷ [])
    then if is_blank r.current_key
      then r
      else record r { current_value = r.current_value ++ (codes " " ++ trim_space line) }
    else elim (index_byte b':' line) [
      | some (suc i) ↦ record (saved r) {
        current_key = take (suc i) line;
        current_value = trim_space (drop (suc i + 1) line);
      }
      | _ ↦ saved r
    ]

unfoldable pub header_lines : List Text → Reading → Reading
unfolding header_line
header_lines [] r = r
header_lines (line ∷ lines) r = header_lines lines (header_line line r)

abbrev pub blank_line : Text
blank_line = 13 ∷ 10 ∷ 13 ∷ 10 ∷ []

-- The text before the first blank line, and what is behind it.
unfoldable pub sections : Text → Text × Text
unfolding cut
sections message = elim (cut blank_line message) [
  | some parts ↦ parts
  | none ↦ elim (cut (10 ∷ 10 ∷ []) message) [ some parts ↦ parts | none ↦ (message, []) ]
]

-- parseEmailParts
unfoldable pub parse_email_parts : Text → Assoc Text × Text
unfolding sections header_lines split saved
parse_email_parts message =
    let (header_section, body) = sections message in
    let start : Reading = record { headers = []; current_key = []; current_value = [] } in
    ((saved (header_lines (split header_section (10 ∷ [])) start)).headers, body)

-- The value of the first part, between semicolons, that starts with this name.
unfoldable pub parameter_of : Text → List Text → Text
parameter_of name [] = []
parameter_of name (part ∷ parts) =
    let later = parameter_of name parts in
    let trimmed = trim_space part in
    if has_prefix (to_lower trimmed) name then trim_quotes (drop (length name) trimmed) else later

-- extractBoundary
unfoldable pub extract_boundary : Text → Text
unfolding parameter_of split
extract_boundary content_type = parameter_of (codes "boundary=") (split content_type (codes ";"))

-- extractFilename
unfoldable pub extract_filename : Text → Text
unfolding parameter_of split
extract_filename disposition = parameter_of (codes "filename=") (split disposition (codes ";"))

-- strings.TrimSuffix
unfoldable pub trim_suffix : Text → Text → Text
trim_suffix s suffix = if has_suffix s suffix then take (length s - length suffix) s else s

unfoldable pub sections_of : List Text → List Text
unfolding trim_suffix
sections_of [] = []
sections_of (raw ∷ raws) =
    let rest = sections_of raws in
    let section = trim_space raw in
    let content = trim_space (trim_suffix section (codes "--")) in
    if is_blank section || text_eq section (codes "--")
    then rest
    else if is_blank content
    then rest
    else content ∷ rest

-- parseMultipart
unfoldable pub parse_multipart : Text → Text → List Text
unfolding sections_of split
parse_multipart body boundary = sections_of (split body (codes "--" ++ boundary))

-- extractIP: what stands before the last colon.
unfoldable pub extract_ip : Text → Text
extract_ip addr = elim (index_byte b':' (reverse addr)) [
  | none ↦ addr
  | some i ↦ take (length addr - (i + 1)) addr
]

unfoldable pub priority_of : Text → Text
priority_of p =
    if text_eq p (codes "1") || text_eq p (codes "2")
    then codes "high"
    else if text_eq p (codes "4") || text_eq p (codes "5")
    then codes "low"
    else codes "normal"

-- A list header, which is only read if it is not empty.
abbrev pub addresses_in : Text → List EmailAddress
addresses_in value = if is_blank value then [] else parse_email_addresses value

-- The library function base64.StdEncoding.EncodeToString.
module _ (encode_base64 : Text → Text) where
  -- One part of a multipart message: a text, an HTML text, an attachment, or nothing.
  unfoldable pub take_part : Text → SmtpRequest → SmtpRequest
  unfolding parse_email_parts extract_filename
  take_part part req =
      let (headers, body) = parse_email_parts part in
      let content_type = to_lower (header "content-type" headers) in
      let disposition = header "content-disposition" headers in
      if contains content_type (codes "text/plain")
      then record req { text = trim_space body }
      else if contains content_type (codes "text/html")
      then record req { html = trim_space body }
      else if is_blank disposition
      then req
      else record req {
        attachments =
            req.attachments
            ++ record {
              filename = extract_filename disposition;
              content_type = content_type;
              size = length body;
              content = encode_base64 body;
            }
              ∷ [];
      }

  unfoldable pub take_parts : List Text → SmtpRequest → SmtpRequest
  unfolding take_part
  take_parts [] req = req
  take_parts (part ∷ parts) req = take_parts parts (take_part part req)

  unfoldable pub take_body : Text → Text → SmtpRequest → SmtpRequest
  unfolding take_parts extract_boundary parse_multipart
  take_body content_type body req =
      let boundary = extract_boundary content_type in
      if contains (to_lower content_type) (codes "multipart")
      then (if is_blank boundary then req else take_parts (parse_multipart body boundary) req)
      else if contains (to_lower content_type) (codes "text/html")
      then record req { html = trim_space body }
      else record req { text = trim_space body }

  -- parseEmail, the time of arrival as `handleConnection` puts it in behind it.
  unfoldable pub parse_email : Text → Text → Text → List Text → Text → SmtpRequest
  unfolding parse_email_parts take_body priority_of extract_ip
  parse_email client_addr time mail_from rcpt_to message =
      let (headers, body) = parse_email_parts message in
      take_body (header "content-type" headers) body (record {
        request_from = client_addr;
        ip = extract_ip client_addr;
        envelope_from = mail_from;
        envelope_to = rcpt_to;
        from =
            if is_blank (header "from" headers)
            then none
            else some (parse_email_address (header "from" headers));
        to = addresses_in (header "to" headers);
        cc = addresses_in (header "cc" headers);
        bcc = addresses_in (header "bcc" headers);
        subject = header "subject" headers;
        priority = priority_of (header "x-priority" headers);
        references = fields_from (header "references" headers) [];
        in_reply_to = fields_from (header "in-reply-to" headers) [];
        text = [];
        html = [];
        attachments = [];
        timestamp = time;
      })
