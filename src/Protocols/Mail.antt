-- ===== src/Protocols/Mail.antt =====
-- internal/imposter/smtp_server.go: SMTPMatcher; internal/models/smtp.go: ToMap.
use go_tartuffe.Prelude.{
  ℕ, Text, Assoc, codes, lookup, is_some, length, Bool, true, false, Option, none, some, List, [],
  ◌∷◌, ◌++◌,
}
use go_tartuffe.Value.{Value, boolean, text, object, bool_eq}
use go_tartuffe.Models.Predicate.{Operators}
use go_tartuffe.Models.Smtp.{SmtpRequest, EmailAddress, SmtpAttachment}
use go_tartuffe.Models.Stub.{Stub}
use go_tartuffe.Matcher.Env.{Regex}
use go_tartuffe.Matcher.Evaluate.{all_fields}
use go_tartuffe.Protocols.{equal_text, contains_text, starts_with_text, ends_with_text, first_stub}

-- An entry of the map of a request.
pub data Entry : Type 0 where
  plain : Text → Entry
  texts : List Text → Entry
  address : EmailAddress → Entry
  addresses : List EmailAddress → Entry
  attachments : List SmtpAttachment → Entry

-- The %v verb, and the regexp package.
pub record Printer : Type 0 where
  pub sprint : Value → Text
  pub sprint_texts : List Text → Text
  pub sprint_address : EmailAddress → Text
  pub sprint_addresses : List EmailAddress → Text
  pub sprint_attachments : List SmtpAttachment → Text
  pub compile : Text → Option Regex

abbrev text_entry : Text → Text → Assoc Entry
text_entry key [] = []
text_entry key (c ∷ s) = (key, plain (c ∷ s)) ∷ []

abbrev texts_entry : Text → List Text → Assoc Entry
texts_entry key [] = []
texts_entry key (t ∷ ts) = (key, texts (t ∷ ts)) ∷ []

abbrev addresses_entry : Text → List EmailAddress → Assoc Entry
addresses_entry key [] = []
addresses_entry key (a ∷ as') = (key, addresses (a ∷ as')) ∷ []

abbrev address_entry : Text → Option EmailAddress → Assoc Entry
address_entry key none = []
address_entry key (some a) = (key, address a) ∷ []

abbrev attachments_entry : Text → List SmtpAttachment → Assoc Entry
attachments_entry key [] = []
attachments_entry key (a ∷ as') = (key, attachments (a ∷ as')) ∷ []

-- ToMap: the fields that are not empty.
unfoldable pub to_map : SmtpRequest → Assoc Entry
to_map r =
    text_entry (codes "requestFrom") r.request_from
    ++ (text_entry (codes "ip") r.ip
        ++ (text_entry (codes "envelopeFrom") r.envelope_from
            ++ (texts_entry (codes "envelopeTo") r.envelope_to
                ++ (address_entry (codes "from") r.from
                    ++ (addresses_entry (codes "to") r.to
                        ++ (addresses_entry (codes "cc") r.cc
                            ++ (addresses_entry (codes "bcc") r.bcc
                                ++ (text_entry (codes "subject") r.subject
                                    ++ (text_entry (codes "priority") r.priority
                                        ++ (texts_entry (codes "references") r.references
                                            ++ (texts_entry (codes "inReplyTo") r.in_reply_to
                                                ++ (text_entry (codes "text") r.text
                                                    ++ (text_entry (codes "html") r.html
                                                        ++ attachments_entry (codes "attachments")
                                                            r.attachments)))))))))))))

module _ (printer : Printer) where
  -- fmt.Sprintf("%v", v)
  unfoldable pub printed : Value → Text
  printed (text t) = t
  printed v = printer.sprint v

  unfoldable pub printed_entry : Entry → Text
  printed_entry (plain t) = t
  printed_entry (texts ts) = printer.sprint_texts ts
  printed_entry (address a) = printer.sprint_address a
  printed_entry (addresses as') = printer.sprint_addresses as'
  printed_entry (attachments as') = printer.sprint_attachments as'

  -- evaluateEquals, evaluateContains, evaluateStartsWith and evaluateEndsWith, by the test of two texts.
  unfoldable pub evaluate_fields : (Text → Text → Bool) → Value → Assoc Entry → Bool
  unfolding printed printed_entry all_fields
  evaluate_fields test (object fs) m =
      all_fields
        (λ key expected. elim (lookup key m) [
          | none ↦ false
          | some actual ↦ test (printed_entry actual) (printed expected)
        ])
        fs
  evaluate_fields test v m = false

  -- evaluateMatches and regexpMatch
  unfoldable pub matches_text : Text → Text → Bool
  matches_text actual pattern = elim (printer.compile pattern) [
    | none ↦ false
    | some re ↦ re.match_string actual
  ]

  -- evaluateExists; a value that is no boolean expects the field to be missing.
  unfoldable pub evaluate_exists : Value → Assoc Entry → Bool
  unfolding all_fields bool_eq
  evaluate_exists (object fs) m =
      all_fields
        (λ key expected.
          bool_eq (is_some (lookup key m)) (elim expected [ boolean b ↦ b | _ ↦ false ]))
        fs
  evaluate_exists v m = false

  -- The operators of evaluatePredicate, the first that is set.
  unfoldable pub evaluate_operators : Assoc Entry → Operators → Bool
  unfolding evaluate_fields evaluate_exists matches_text
  evaluate_operators m ops = elim ops.equals [
    | some v ↦ evaluate_fields (equal_text ops.case_sensitive) v m
    | none ↦ elim ops.contains [
      | some v ↦ evaluate_fields (contains_text ops.case_sensitive) v m
      | none ↦ elim ops.starts_with [
        | some v ↦ evaluate_fields (starts_with_text ops.case_sensitive) v m
        | none ↦ elim ops.ends_with [
          | some v ↦ evaluate_fields (ends_with_text ops.case_sensitive) v m
          | none ↦ elim ops.matches [
            | some v ↦ evaluate_fields matches_text v m
            | none ↦ elim ops.exists [ some v ↦ evaluate_exists v m | none ↦ true ]
          ]
        ]
      ]
    ]
  ]

  -- SMTPMatcher.Match: the index of the stub and the stub.
  unfoldable pub match_mail : List Stub → SmtpRequest → Option (ℕ × Stub)
  unfolding first_stub evaluate_operators to_map
  match_mail stubs r = elim (first_stub (λ ops. none) (evaluate_operators (to_map r)) stubs) [
    | none ↦ none
    | some (front, stub, after) ↦ some (length front, stub)
  ]
