-- ===== src/Smtp/Session/Invariant.antt =====
-- internal/imposter/smtp_server.go: what holds of a session between two lines.
use go_tartuffe.Prelude.{
  is_blank, Text, trim_newlines, Bool, true, false, not, ◌&&◌, List, [], ◌∷◌, if◌then◌else◌, ◌≡◌,
  arith, Bool-cases, inl, inr,
}
use go_tartuffe.Models.Smtp.{SmtpRequest}
use go_tartuffe.Smtp.Session.{
  Session, Connection, has_none, command, data_line, handle_line, handle_lines,
}

-- In data mode a sender and a recipient are known; outside it the data are empty.
abbrev pub is_valid : Session → Bool
is_valid s =
    if s.data_mode
    then not (is_blank s.mail_from) && not (has_none s.rcpt_to)
    else is_blank s.data_buffer

command-is_valid :
    (line : Text) (c : Connection)
    → c.session.data_mode ≡ false
    → is_valid c.session ≡ true
    → is_valid (command line c).connection.session ≡ true
unfolding command
command-is_valid line c m h = ground arith

module _ (parse_email : Text → List Text → Text → SmtpRequest) where
  data_line-is_valid :
      (line : Text) (c : Connection)
      → c.session.data_mode ≡ true
      → is_valid c.session ≡ true
      → is_valid (data_line parse_email line c).connection.session ≡ true
  unfolding data_line
  data_line-is_valid line c m h = ground arith

  handle_line-is_valid :
      (raw : Text) (c : Connection)
      → is_valid c.session ≡ true
      → is_valid (handle_line parse_email raw c).connection.session ≡ true
  unfolding handle_line
  handle_line-is_valid raw c h =
      ground
        (arith, command-is_valid (trim_newlines raw) c, data_line-is_valid (trim_newlines raw) c)

  -- After any lines, handled from a session that is so: in data mode a sender and at least one
  -- recipient are known, and outside data mode no data wait.
  pub handle_lines-is_valid :
      (raws : List Text) (c : Connection)
      → is_valid c.session ≡ true
      → is_valid (handle_lines parse_email raws c).connection.session ≡ true
  unfolding handle_lines
  handle_lines-is_valid [] c h = h
  handle_lines-is_valid (raw ∷ raws) c h =
      let now = handle_line parse_email raw c in
      let valid = handle_line-is_valid raw c h in
      elim (Bool-cases now.closed) [
        | inl e ↦ rw e valid
        | inr e ↦ rw e (handle_lines-is_valid raws now.connection valid)
      ]
