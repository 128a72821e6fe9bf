-- ===== src/Protocols/Chosen/Matchers.antt =====
-- SMTPMatcher.Match, TCPMatcher.Match and GRPCMatcher.Match: which stub they choose.
use go_tartuffe.Prelude.{Text, Bool, Option, none, some, List, ◌≡◌, refl, sym, subst}
use go_tartuffe.Models.Smtp.{SmtpRequest}
use go_tartuffe.Models.Imposter.{GrpcRequest}
use go_tartuffe.Models.Stub.{
  Stub, Response, Next, no_response, response, out_of_range, next_response,
}
use go_tartuffe.Matcher.Env.{Regex}
use go_tartuffe.Protocols.{first_stub}
use go_tartuffe.Protocols.Mail.{Printer, match_mail, to_map}
use go_tartuffe.Protocols.Tcp.{TcpMatchResult, match_data, evaluate_inject}
use go_tartuffe.Protocols.Grpc.{Library, GrpcMatchResult, match_call}
use go_tartuffe.Protocols.Mail
use go_tartuffe.Protocols.Tcp
use go_tartuffe.Protocols.Grpc
use go_tartuffe.Protocols.Chosen.{
  tcp_choice, grpc_choice, Chooses, ChoosesAt, mail_choice, advanced_choice, choice,
  mail_choice-Chooses, choice-Chooses, first_stub-Found,
}

module _ (printer : Printer) (r : SmtpRequest) (stubs : List Stub) where
  match_mail-found :
      (f : Option (List Stub × Stub × List Stub))
      → first_stub (λ ops. none) (Mail.evaluate_operators printer (to_map r)) stubs ≡ f
      → match_mail printer stubs r ≡ mail_choice f
  unfolding match_mail
  match_mail-found none e = rw (match_mail, e) refl
  match_mail-found (some (front, stub, after)) e = rw (match_mail, e) refl

module _ (compile : Text → Option Regex) (run_predicate : Text → Text → Option Bool)
    (default : Option Response) (bytes : Text) (stubs : List Stub) where
  abbrev tcp_found : Option (List Stub × Stub × List Stub)
  tcp_found =
      first_stub (evaluate_inject compile run_predicate bytes)
        (Tcp.evaluate_operators compile run_predicate bytes) stubs

  match_data-next :
      (front : List Stub) (stub : Stub) (after : List Stub) (n : Next)
      → tcp_found ≡ some (front, stub, after)
      → (next_response stub).0 ≡ n
      → tcp_choice (match_data compile run_predicate stubs default bytes)
        ≡ advanced_choice front stub after (n, (next_response stub).1)
  unfolding match_data Tcp.get_match_result
  match_data-next front stub after out_of_range e q =
      rw (match_data, e, Tcp.get_match_result, q) refl
  match_data-next front stub after no_response e q =
      rw (match_data, e, Tcp.get_match_result, q) refl
  match_data-next front stub after (response r) e q =
      rw (match_data, e, Tcp.get_match_result, q) refl

  match_data-found :
      (f : Option (List Stub × Stub × List Stub))
      → tcp_found ≡ f
      → tcp_choice (match_data compile run_predicate stubs default bytes) ≡ choice stubs f
  unfolding match_data
  match_data-found none e = rw (match_data, e) refl
  match_data-found (some (front, stub, after)) e =
      match_data-next front stub after (next_response stub).0 e refl

module _ (lib : Library) (default : Option Response) (req : GrpcRequest) (stubs : List Stub) where
  abbrev grpc_found : Option (List Stub × Stub × List Stub)
  grpc_found = first_stub (λ ops. none) (Grpc.evaluate_operators lib req) stubs

  match_call-next :
      (front : List Stub) (stub : Stub) (after : List Stub) (n : Next)
      → grpc_found ≡ some (front, stub, after)
      → (next_response stub).0 ≡ n
      → grpc_choice (match_call lib stubs default req)
        ≡ advanced_choice front stub after (n, (next_response stub).1)
  unfolding match_call Grpc.get_match_result
  match_call-next front stub after out_of_range e q =
      rw (match_call, e, Grpc.get_match_result, q) refl
  match_call-next front stub after no_response e q =
      rw (match_call, e, Grpc.get_match_result, q) refl
  match_call-next front stub after (response r) e q =
      rw (match_call, e, Grpc.get_match_result, q) refl

  match_call-found :
      (f : Option (List Stub × Stub × List Stub))
      → grpc_found ≡ f
      → grpc_choice (match_call lib stubs default req) ≡ choice stubs f
  unfolding match_call
  match_call-found none e = rw (match_call, e) refl
  match_call-found (some (front, stub, after)) e =
      match_call-next front stub after (next_response stub).0 e refl

-- The Match functions of SMTP, TCP and gRPC choose the first stub whose predicates all hold, a tree of
-- `and`, `or` and `not` holding as these words say, and no stub only if there is none such. Those of
-- TCP and gRPC advance that stub by NextResponse and no other, or panic with it.
pub match-Chooses :
    (printer : Printer) (mail : SmtpRequest) (compile : Text → Option Regex)
    (run_predicate : Text → Text → Option Bool) (bytes : Text) (lib : Library) (call : GrpcRequest)
    (default : Option Response) (stubs : List Stub)
    → ChoosesAt
        (λ ops. none)
        (Mail.evaluate_operators printer (to_map mail))
        stubs
        (match_mail printer stubs mail)
      × Chooses
          (evaluate_inject compile run_predicate bytes)
          (Tcp.evaluate_operators compile run_predicate bytes)
          stubs
          (tcp_choice (match_data compile run_predicate stubs default bytes))
      × Chooses
          (λ ops. none)
          (Grpc.evaluate_operators lib call)
          stubs
          (grpc_choice (match_call lib stubs default call))
match-Chooses printer mail compile run_predicate bytes lib call default stubs = (
  subst (ChoosesAt _ _ stubs) (sym (match_mail-found printer mail stubs _ refl))
      (mail_choice-Chooses _ _ stubs _ (first_stub-Found _ _ stubs)),
  subst (Chooses _ _ stubs)
      (sym (match_data-found compile run_predicate default bytes stubs _ refl))
      (choice-Chooses _ _ stubs _ (first_stub-Found _ _ stubs)),
  subst (Chooses _ _ stubs) (sym (match_call-found lib default call stubs _ refl))
      (choice-Chooses _ _ stubs _ (first_stub-Found _ _ stubs)),
)
