-- ===== src/Protocols/Chosen.antt =====
-- The matchers of SMTP, TCP and gRPC: the choice of a stub.
pub mod Matchers
use go_tartuffe.Prelude.{
  ℕ, Text, Bool, true, false, not, Option, none, some, List, [], ◌∷◌, ◌++◌, length, all, ◌≡◌, refl,
  ap, sym, subst, ◌∙◌, arith, Option-cases, inl, inr, ◌&&◌,
}
use go_tartuffe.Models.Predicate.{Operators}
use go_tartuffe.Models.Smtp.{SmtpRequest}
use go_tartuffe.Models.Imposter.{GrpcRequest}
use go_tartuffe.Models.Stub.{
  Stub, Response, Next, no_response, response, out_of_range, next_response,
}
use go_tartuffe.Matcher.Env.{Regex}
use go_tartuffe.Protocols.{first_stub, matches_all}
use go_tartuffe.Protocols.First.{rejects, IsFirst, first_stub-IsFirst}
use go_tartuffe.Protocols.Holding.{Accepts, matches_all-Accepts}
use go_tartuffe.Protocols.Mail.{Printer, match_mail, to_map}
use go_tartuffe.Protocols.Tcp.{TcpMatchResult, match_data, evaluate_inject}
use go_tartuffe.Protocols.Grpc.{Library, GrpcMatchResult, match_call}
use go_tartuffe.Protocols.Mail
use go_tartuffe.Protocols.Tcp
use go_tartuffe.Protocols.Grpc

-- No stub of the list has predicates that all hold.
abbrev pub NoneAccepts : (Operators → Option Bool) → (Operators → Bool) → List Stub → Type 0
NoneAccepts before compare [] = Unit
NoneAccepts before compare (s ∷ stubs) =
    (¬ (Accepts before compare s.predicates)) × NoneAccepts before compare stubs

-- The stub is the first of the list whose predicates all hold, between the others.
abbrev pub IsChosen :
    (Operators → Option Bool)
    → (Operators → Bool)
    → List Stub
    → List Stub
    → Stub
    → List Stub
    → Type 0
IsChosen before compare stubs front stub after =
    (stubs ≡ front ++ stub ∷ after)
    × NoneAccepts before compare front
    × Accepts before compare stub.predicates

-- The stub of a result with its index, and the stubs after Match; `none` is the panic of NextResponse.
abbrev pub Choice : Type 0
Choice = Option (Option Stub × ℕ × List Stub)

abbrev pub tcp_choice : Option (TcpMatchResult × List Stub) → Choice
tcp_choice none = none
tcp_choice (some (r, stubs)) = some (r.stub, r.stub_index, stubs)

abbrev pub grpc_choice : Option (GrpcMatchResult × List Stub) → Choice
grpc_choice none = none
grpc_choice (some (r, stubs)) = some (r.stub, r.stub_index, stubs)

-- A choice is the first stub whose predicates all hold, with its index, advanced by NextResponse in its
-- place; or there is no such stub, and the stubs are as before.
abbrev pub Chooses : (Operators → Option Bool) → (Operators → Bool) → List Stub → Choice → Type 0
Chooses before compare stubs none =
    (front : List Stub) × (stub : Stub) × (after : List Stub) × IsChosen before compare stubs front
      stub after
    × ((next_response stub).0 ≡ out_of_range)
Chooses before compare stubs (some (none, i, stubs')) =
    NoneAccepts before compare stubs × (stubs' ≡ stubs)
Chooses before compare stubs (some (some advanced, i, stubs')) =
    (front : List Stub) × (stub : Stub) × (after : List Stub) × IsChosen before compare stubs front
      stub after
    × (advanced ≡ (next_response stub).1)
    × (i ≡ length front)
    × (stubs' ≡ front ++ advanced ∷ after)

-- The index and the stub that SMTPMatcher.Match returns, which advances nothing.
abbrev pub ChoosesAt :
    (Operators → Option Bool) → (Operators → Bool) → List Stub → Option (ℕ × Stub) → Type 0
ChoosesAt before compare stubs none = NoneAccepts before compare stubs
ChoosesAt before compare stubs (some (i, stub)) =
    (front : List Stub) × (after : List Stub) × IsChosen before compare stubs front stub after
    × (i ≡ length front)

abbrev pub mail_choice : Option (List Stub × Stub × List Stub) → Option (ℕ × Stub)
mail_choice none = none
mail_choice (some (front, stub, after)) = some (length front, stub)

-- What NextResponse makes of the stub that is found.
abbrev pub advanced_choice : List Stub → Stub → List Stub → Next × Stub → Choice
advanced_choice front stub after (out_of_range, s) = none
advanced_choice front stub after (_, s) = some (some s, length front, front ++ s ∷ after)

abbrev pub choice : List Stub → Option (List Stub × Stub × List Stub) → Choice
choice stubs none = some (none, 0, stubs)
choice stubs (some (front, stub, after)) = advanced_choice front stub after (next_response stub)

module _ (before : Operators → Option Bool) (compare : Operators → Bool) where
  abbrev Found : List Stub → Option (List Stub × Stub × List Stub) → Type 0
  Found stubs none = NoneAccepts before compare stubs
  Found stubs (some (front, stub, after)) = IsChosen before compare stubs front stub after

  refused : (b c : Bool) → (not b && c) ≡ true → (b ≡ true → ⊥) × (c ≡ true)
  refused b c h = (λ e. ground arith, ground arith)

  rejects-NoneAccepts :
      (stubs : List Stub)
      → all (rejects before compare) stubs ≡ true
      → NoneAccepts before compare stubs
  rejects-NoneAccepts [] h = tt
  rejects-NoneAccepts (s ∷ stubs) h =
      let (no_match, rest) = refused (matches_all before compare s.predicates) _ h in
      (
        λ a. no_match ((matches_all-Accepts before compare s.predicates).1 a),
        rejects-NoneAccepts stubs rest,
      )

  IsFirst-Found :
      (stubs : List Stub) (r : Option (List Stub × Stub × List Stub))
      → IsFirst before compare stubs r
      → Found stubs r
  IsFirst-Found stubs none h = rejects-NoneAccepts stubs h
  IsFirst-Found stubs (some (front, stub, after)) h = (
    h.0,
    rejects-NoneAccepts front h.1,
    (matches_all-Accepts before compare stub.predicates).0 h.2,
  )

  pub first_stub-Found : (stubs : List Stub) → Found stubs (first_stub before compare stubs)
  first_stub-Found stubs = IsFirst-Found stubs _ (first_stub-IsFirst before compare stubs)

  pub mail_choice-Chooses :
      (stubs : List Stub) (r : Option (List Stub × Stub × List Stub))
      → Found stubs r
      → ChoosesAt before compare stubs (mail_choice r)
  mail_choice-Chooses stubs none h = h
  mail_choice-Chooses stubs (some (front, stub, after)) h = (front, after, h, refl)

  advanced_choice-Chooses :
      (stubs front : List Stub) (stub : Stub) (after : List Stub) (n : Next) (s : Stub)
      → IsChosen before compare stubs front stub after
      → next_response stub ≡ (n, s)
      → Chooses before compare stubs (advanced_choice front stub after (n, s))
  advanced_choice-Chooses stubs front stub after out_of_range s h e =
      (front, stub, after, h, ap (λ p. p.0) e)
  advanced_choice-Chooses stubs front stub after no_response s h e =
      (front, stub, after, h, ap (λ p. p.1) (sym e), refl, refl)
  advanced_choice-Chooses stubs front stub after (response r) s h e =
      (front, stub, after, h, ap (λ p. p.1) (sym e), refl, refl)

  pub choice-Chooses :
      (stubs : List Stub) (r : Option (List Stub × Stub × List Stub))
      → Found stubs r
      → Chooses before compare stubs (choice stubs r)
  choice-Chooses stubs none h = (h, refl)
  choice-Chooses stubs (some (front, stub, after)) h =
      advanced_choice-Chooses stubs front stub after (next_response stub).0 (next_response stub).1 h
        refl
