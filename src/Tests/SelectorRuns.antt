-- ===== src/Tests/SelectorRuns.antt =====
-- internal/imposter/selectors.go and the matchers of SMTP, TCP and gRPC: the theorems on concrete
-- bodies, messages and stubs.
use go_tartuffe.Prelude.{
  List, join, Text, codes, index_byte, lookup, text_eq, true, false, none, some, [], ◌∷◌, ◌≡◌, refl,
}
use go_tartuffe.Value.{text, array, object, no_items, item, Fields, no_fields, field, entries}
use go_tartuffe.Models.Predicate.{Selector}
use go_tartuffe.Matcher.Evaluate.{apply_selector}
use go_tartuffe.Selectors.{Library, value_to_string}
use go_tartuffe.Selectors.Navigate.{navigate}
use go_tartuffe.Selectors.Descent.{Reads, here, inside}
use go_tartuffe.Selectors.DroppedDot.{navigate-dropped_dot}
use go_tartuffe.Selectors.Predicates.{selecting, apply_selector-Reads}
use go_tartuffe.Models.Stub.{Stub}
use go_tartuffe.Models.Smtp.{SmtpRequest}
use go_tartuffe.Models.Imposter.{GrpcRequest}
use go_tartuffe.Protocols.Mail.{Printer, evaluate_operators, match_mail, to_map}
use go_tartuffe.Protocols.Tcp.{evaluate_inject, match_data}
use go_tartuffe.Protocols.Grpc.{match_call}
use go_tartuffe.Protocols.Tcp
use go_tartuffe.Protocols.Grpc
use go_tartuffe.Protocols.Chosen.{Chooses, ChoosesAt, tcp_choice, grpc_choice}
use go_tartuffe.Protocols.Chosen.Matchers.{match-Chooses}
use go_tartuffe.Tests.{stub_of, path_equals, test_env, request_to, no_operators}

-- {"user": {"name": "Ann"}}
abbrev inner : Fields
inner = field (codes "name") (text (codes "Ann")) no_fields

abbrev outer : Fields
outer = field (codes "user") (object inner) no_fields

abbrev test_library : Library
test_library = record {
  unmarshal = λ s. some (object outer);
  marshal = λ v. [];
  format_number = λ n. [];
  sprint = λ v. [];
}

abbrev name_selector : Selector
name_selector = record { selector = codes "$.user.name"; namespaces = [] }

outer-Reads : Reads (object outer) (codes "user" ∷ codes "name" ∷ []) (text (codes "Ann"))
unfolding lookup entries text_eq index_byte
outer-Reads = inside refl (refl, refl, refl) (inside refl (refl, refl, refl) here)

apply_selector-Reads_example :
    apply_selector {S = Text} test_env
      (selecting test_library (λ body xpath. none) (λ script req n. (none, n)))
      (request_to (codes "/") (codes "{}"))
      (record no_operators { jsonpath = some name_selector })
      false
    ≡ some (request_to (codes "/") (codes "Ann"))
unfolding join value_to_string
apply_selector-Reads_example =
    apply_selector-Reads {S = Text} test_library (λ body xpath. none) (λ script req n. (none, n))
      test_env (request_to (codes "/") (codes "{}"))
      (record no_operators { jsonpath = some name_selector }) name_selector false
      {keys = codes "user" ∷ codes "name" ∷ []} refl refl refl outer-Reads

navigate-dropped_dot_example :
    navigate test_library true (array (item (object outer) no_items)) (codes "user.name")
    ≡ navigate test_library true (array (item (object outer) no_items)) (codes "username")
unfolding index_byte
navigate-dropped_dot_example =
    navigate-dropped_dot test_library true (item (object outer) no_items) (codes "user")
      (codes "name") (refl, refl, refl) (refl, refl, refl)

abbrev printer : Printer
printer = record {
  sprint = λ v. [];
  sprint_texts = λ ts. [];
  sprint_address = λ a. [];
  sprint_addresses = λ as'. [];
  sprint_attachments = λ as'. [];
  compile = λ pattern. none;
}

abbrev mail_stubs : List Stub
mail_stubs =
    stub_of (path_equals (codes "/home") ∷ []) [] false
    ∷ stub_of [] [] false
    ∷ stub_of [] [] true
    ∷ []

abbrev mail : SmtpRequest
mail = record {
  request_from = codes "::1";
  ip = codes "::1";
  envelope_from = [];
  envelope_to = [];
  from = none;
  to = [];
  cc = [];
  bcc = [];
  subject = [];
  priority = [];
  references = [];
  in_reply_to = [];
  text = [];
  html = [];
  attachments = [];
  timestamp = [];
}

abbrev call : GrpcRequest
call = record {
  request_from = codes "::1";
  service = codes "Greeter";
  method = codes "Hello";
  message = no_fields;
  metadata = [];
  timestamp = [];
}

abbrev grpc_library : Grpc.Library
grpc_library = record {
  marshal = λ v. none;
  marshal_texts = λ ts. [];
  marshal_metadata = λ m. [];
  compile = λ pattern. none;
}

match-Chooses_example :
    ChoosesAt
      (λ ops. none)
      (evaluate_operators printer (to_map mail))
      mail_stubs
      (match_mail printer mail_stubs mail)
    × Chooses
        (evaluate_inject (λ p. none) (λ script bytes. none) (codes "hello"))
        (Tcp.evaluate_operators (λ p. none) (λ script bytes. none) (codes "hello"))
        mail_stubs
        (tcp_choice (match_data (λ p. none) (λ script bytes. none) mail_stubs none (codes "hello")))
    × Chooses
        (λ ops. none)
        (Grpc.evaluate_operators grpc_library call)
        mail_stubs
        (grpc_choice (match_call grpc_library mail_stubs none call))
match-Chooses_example =
    match-Chooses printer mail (λ p. none) (λ script bytes. none) (codes "hello") grpc_library call
      none mail_stubs
