-- ===== src/Tests/StoreRuns.antt =====
-- internal/repository/memory.go and internal/imposter/smtp_server.go: the theorems on concrete
-- imposters and sessions.
use go_tartuffe.Prelude.{
  trim_space, Text, codes, true, false, some, List, [], ◌∷◌, ◌++◌, map, get_elem?, pos, int_eq,
  if◌then◌else◌, ◌≡◌, refl, arith, ◌⊎◌, is_newline, is_space, drop_spaces,
}
use mathlib.Core.List.{cons-ne-nil}
use go_tartuffe.Models.Request.{Request}
use go_tartuffe.Models.Smtp.{SmtpRequest}
use go_tartuffe.Models.Stub.{Stub}
use go_tartuffe.Models.Imposter.{Imposter}
use go_tartuffe.Repository.{RepositoryError, ok, err}
use go_tartuffe.Repository.Memory.{
  InMemory, new_in_memory, exists, get, add_stub, delete_stub, clear_requests,
  clear_requests_and_proxy_stubs, changed, apply_change, keep_written, with_stub, is_outside,
}
use go_tartuffe.Prelude.{find}
use go_tartuffe.Repository.Memory.Laws.{
  IsValid, Operation, adding, deleting, changing, run_all, run_all-IsValid, apply_change_lem,
}
use go_tartuffe.Repository.Memory.Stubs.{AllWritten, delete_stub-add_stub, clear_proxy_stubs}
use go_tartuffe.Repository.Memory.Requests.{recorded, with_requests, get-recorded}
use go_tartuffe.Smtp.Session.{new_session, crlf, handle_lines, record_message}
use go_tartuffe.Smtp.Addresses.{split_addresses}
use go_tartuffe.Smtp.Addresses.Lists.{AreElements, joined, split_addresses-joined}
use go_tartuffe.Smtp.Email.{parse_email, parse_email_parts, blank_line}
use go_tartuffe.Smtp.Email.Sections.{AreFields, header_text}
use go_tartuffe.Smtp.Email.Headers.{stored, parse_email_parts-header_text}
use go_tartuffe.Smtp.Session.Transfer.{
  AreLines, wire, data_of, receiving, open_with, preceded, handle_lines-message,
}
use go_tartuffe.Smtp.Session.Envelope.{IsAddress, script, acknowledged, handle_lines-script}
use go_tartuffe.Smtp.Session.Invariant.{is_valid, handle_lines-is_valid}
use go_tartuffe.Tests.{request_to, response_with, stub_of, imposter_on}

abbrev plain : Stub
plain = stub_of [] (response_with (codes "a") (pos 0) ∷ []) false

abbrev generated : Stub
generated = stub_of [] [] true

abbrev imposter : Imposter
imposter = imposter_on (pos 3000) (plain ∷ [])

abbrev other : Imposter
other = imposter_on (pos 4000) []

abbrev store : InMemory
store = record { imposters = (pos 3000, imposter) ∷ [] }

abbrev operations : List Operation
operations =
    adding imposter
    ∷ adding other
    ∷ changing (add_stub plain (pos 0)) (pos 3000)
    ∷ deleting (pos 4000)
    ∷ []

run_all-IsValid_example : IsValid (run_all operations new_in_memory)
run_all-IsValid_example = run_all-IsValid operations new_in_memory tt

apply_change_lem_example :
    ((imp imp' : Imposter) × (get (pos 3000) store ≡ ok imp)
      × (changed clear_requests imp ≡ ok imp')
      × ((apply_change clear_requests (pos 3000) store).0 ≡ ok tt)
      × (get (pos 3000) (apply_change clear_requests (pos 3000) store).1
          ≡ (if int_eq (pos 3000) (pos 3000) then ok imp' else get (pos 3000) store)))
    ⊎ ((e : RepositoryError) × ((apply_change clear_requests (pos 3000) store).0 ≡ err e)
        × ((apply_change clear_requests (pos 3000) store).1 ≡ store))
apply_change_lem_example = apply_change_lem clear_requests (pos 3000) (pos 3000) store

unknown : exists (pos 4000) store ≡ false
unfolding exists find int_eq
unknown = refl

abbrev grown : Imposter
grown = imposter_on (pos 3000) (generated ∷ plain ∷ [])

added : changed (add_stub generated (pos 0)) imposter ≡ ok grown
unfolding changed with_stub is_outside
added = refl

delete_stub-add_stub_example :
    (changed (delete_stub (pos 0)) grown ≡ ok imposter) × (get_elem? grown.stubs 0 ≡ some generated)
delete_stub-add_stub_example = delete_stub-add_stub generated 0 imposter grown (omega arith) added

abbrev kept : Imposter
kept = imposter_on (pos 3000) (plain ∷ [])

clear_ok : changed clear_requests_and_proxy_stubs grown ≡ ok kept
unfolding changed keep_written
clear_ok = refl

clear_proxy_stubs_example :
    AllWritten kept.stubs
    × (kept.stubs ≡ keep_written (generated ∷ []) ++ (plain ∷ [] ++ keep_written []))
clear_proxy_stubs_example =
    clear_proxy_stubs grown kept (generated ∷ []) (plain ∷ []) [] refl (refl, tt) clear_ok

abbrev request : Request
request = request_to (codes "/a") []

held : get (pos 3000) store ≡ ok imposter
unfolding get find int_eq
held = refl

get-recorded_example :
    get (pos 3000) (recorded (pos 3000) (request ∷ request ∷ []) store)
    ≡ ok (with_requests 0 (request ∷ request ∷ []) imposter)
get-recorded_example =
    get-recorded (pos 3000) (request ∷ request ∷ []) store imposter 0 held refl (omega arith)

-- The parser of the source, for a client and a time; the attachments are kept as they are.
abbrev parser : Text → List Text → Text → SmtpRequest
parser = parse_email (λ content. content) (codes "10.0.0.1:5000") (codes "2026-01-01T00:00:00Z")

abbrev sender : Text
sender = codes "a@b"

-- The second line is a dot, which the client doubles.
abbrev message : List Text
message = codes "x" ∷ codes "." ∷ []

message-AreLines : AreLines message
unfolding is_newline
message-AreLines = (refl, (refl, tt))

sender-IsAddress : IsAddress sender
unfolding is_newline
sender-IsAddress = (refl, refl, cons-ne-nil _ _)

handle_lines-message_example :
    handle_lines parser
      (map wire message ++ (codes "." ++ crlf) ∷ [])
      (record { session = receiving sender (sender ∷ []) []; imposter = other })
    ≡ preceded (codes "250 OK message queued" ∷ []) (
        handle_lines parser [] (record {
          session = new_session;
          imposter =
              record_message parser (receiving sender (sender ∷ []) ([] ++ data_of message)) other;
        }))
handle_lines-message_example =
    handle_lines-message parser message message-AreLines [] sender (sender ∷ []) [] other

handle_lines-script_example :
    handle_lines parser
      (script sender (sender ∷ []) message)
      (record { session = new_session; imposter = other })
    ≡ open_with
        (acknowledged (sender ∷ []))
        new_session
        (record_message parser (receiving sender (sender ∷ []) (data_of message)) other)
handle_lines-script_example =
    handle_lines-script parser sender sender-IsAddress sender [] (sender-IsAddress, tt) message
      message-AreLines other

handle_lines-is_valid_example :
    is_valid
      (handle_lines parser
        (script sender (sender ∷ []) message)
        (record { session = new_session; imposter = other })).connection.session
    ≡ true
handle_lines-is_valid_example =
    handle_lines-is_valid parser (script sender (sender ∷ []) message)
      (record { session = new_session; imposter = other }) refl

abbrev recipients : List Text
recipients = codes "\"A, B\" <a@b>" ∷ codes " c@d" ∷ []

recipients-AreElements : AreElements recipients
recipients-AreElements = ((cons-ne-nil _ _, refl), ((cons-ne-nil _ _, refl), tt))

split_addresses-joined_example : split_addresses (joined recipients) ≡ map trim_space recipients
split_addresses-joined_example = split_addresses-joined recipients recipients-AreElements

abbrev subject : Text × Text
subject = (codes "Subject", codes "hi")

abbrev priority : List (Text × Text)
priority = (codes "X-Priority", codes "1") ∷ []

written-AreFields : AreFields (subject ∷ priority)
unfolding is_space is_newline trim_space drop_spaces
written-AreFields = ((refl, refl, refl), ((refl, refl, refl), tt))

parse_email_parts-header_text_example :
    parse_email_parts (header_text subject priority ++ (blank_line ++ codes "text"))
    ≡ (stored (subject ∷ priority) [], codes "text")
parse_email_parts-header_text_example =
    parse_email_parts-header_text subject priority (codes "text") written-AreFields
