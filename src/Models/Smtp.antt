-- ===== src/Models/Smtp.antt =====
-- internal/models/smtp.go: a captured e-mail.
use go_tartuffe.Prelude.{ℕ, Text, Option, List}

pub record EmailAddress : Type 0 where
  pub address : Text
  pub name : Text

pub record SmtpAttachment : Type 0 where
  pub filename : Text
  pub content_type : Text
  pub size : ℕ
  pub content : Text

pub record SmtpRequest : Type 0 where
  pub request_from : Text
  pub ip : Text
  pub envelope_from : Text
  pub envelope_to : List Text
  pub from : Option EmailAddress
  pub to : List EmailAddress
  pub cc : List EmailAddress
  pub bcc : List EmailAddress
  pub subject : Text
  pub priority : Text
  pub references : List Text
  pub in_reply_to : List Text
  pub text : Text
  pub html : Text
  pub attachments : List SmtpAttachment
  pub timestamp : Text
