-- ===== src/Matcher/Match.antt =====
-- internal/imposter/matcher.go: selection of the stub that answers a request, and of its response.
pub mod First
use go_tartuffe.Prelude.{
  ℕ, suc, ◌+◌, Text, Bool, true, false, Option, none, some, List, [], ◌∷◌, if◌then◌else◌, ℤ, pos,
  negsuc, length, ◌++◌,
}
use go_tartuffe.Value.{Value, nil, boolean, number, text, array, object, text_map, no_items}
use go_tartuffe.Models.Request.{Request}
use go_tartuffe.Models.Stub.{
  IsResponse, ProxyResponse, Behavior, Response, Stub, Next, no_response, response, out_of_range,
  next_response,
}
use go_tartuffe.Matcher.Env.{Env, is_empty}
use go_tartuffe.Matcher.Evaluate.{Engine, matches_all_predicates}

pub record MatchResult : Type 0 where
  pub response : Option IsResponse
  pub proxy : Option ProxyResponse
  pub inject : Text
  pub fault : Text
  pub behaviors : List Behavior
  pub stub : Option Stub
  pub stub_index : ℤ

abbrev no_result : MatchResult
no_result = record {
  response = none;
  proxy = none;
  inject = [];
  fault = [];
  behaviors = [];
  stub = none;
  stub_index = negsuc 0;
}

-- &models.IsResponse{StatusCode: 200}, the status as the float64 200.
abbrev pub ok_response : IsResponse
ok_response = record {
  status_code = number 0x4069000000000000;
  status_message = [];
  headers = none;
  body = nil;
  payload = [];
  mode = [];
  proxy_response_time = pos 0;
  stream = no_items;
}

-- normalizeResponse: a body that is neither a string nor nil is printed as JSON, if it can be.
unfoldable pub normalized_body : Env → Value → Value
normalized_body env nil = nil
normalized_body env (text t) = text t
normalized_body env body = elim (env.marshal_indent body) [ some t ↦ text t | none ↦ body ]

unfoldable pub normalize_response : Env → IsResponse → IsResponse
unfolding normalized_body
normalize_response env r = record r { body = normalized_body env r.body }

-- The kind of a response: is, proxy, inject, fault, and 200 where none is set.
unfoldable pub response_result : Env → Response → MatchResult → MatchResult
unfolding normalize_response
response_result env r base = elim r.is [
  | some i ↦ record base { response = some (normalize_response env i) }
  | none ↦ elim r.proxy [
    | some p ↦ record base { proxy = some p }
    | none ↦
        if is_empty r.inject
        then (if is_empty r.fault
            then record base { response = some ok_response }
            else record base { fault = r.fault })
        else record base { inject = r.inject }
  ]
]

-- `none` is the panic of `NextResponse`. The stub comes back with its counters advanced.
unfoldable pub get_match_result : Env → Stub → ℕ → Option (MatchResult × Stub)
unfolding next_response response_result
get_match_result env stub index =
    let (next, stub') = next_response stub in
    let base : MatchResult = record no_result { stub = some stub'; stub_index = pos index } in
    elim next [
      | no_response ↦ some (record base { response = some ok_response }, stub')
      | out_of_range ↦ none
      | response r ↦ some (response_result env r (record base { behaviors = r.behaviors }), stub')
    ]

-- What `Match` does when no stub matches.
unfoldable pub default_result : Option Response → MatchResult
default_result none = record no_result { response = some ok_response }
default_result (some r) = elim r.is [
  | some i ↦ record no_result { response = some i }
  | none ↦ elim r.proxy [
    | some p ↦ record no_result { proxy = some p }
    | none ↦
        if is_empty r.inject
        then record no_result { response = some ok_response }
        else record no_result { inject = r.inject }
  ]
]

-- What `Match` returns, given the stub that it chose.
unfoldable pub answer :
    Env
    → Option Response
    → List Stub
    → Option (List Stub × Stub × List Stub)
    → Option (MatchResult × List Stub)
unfolding get_match_result default_result
answer env default_response stubs none = some (default_result default_response, stubs)
answer env default_response stubs (some (before, chosen, after)) =
    elim (get_match_result env chosen (length before)) [
      | none ↦ none
      | some (result, chosen') ↦ some (result, before ++ chosen' ∷ after)
    ]

abbrev pub skipped :
    {S : Type 0}
    → Stub
    → Option (List Stub × Stub × List Stub) × S
    → Option (List Stub × Stub × List Stub) × S
skipped stub (none, s) = (none, s)
skipped stub (some (before, chosen, after), s) = (some (stub ∷ before, chosen, after), s)

-- One round of the loop in `Match`: this stub, or the search among the stubs after it.
abbrev pub choose :
    {S : Type 0}
    → Stub
    → List Stub
    → Bool × S
    → (S → Option (List Stub × Stub × List Stub) × S)
    → Option (List Stub × Stub × List Stub) × S
choose stub rest (true, s) later = (some ([], stub, rest), s)
choose stub rest (false, s) later = skipped stub (later s)

module _ {S : Type 0} (env : Env) (engine : Engine S) where
  -- The first stub whose predicates all match, with the stubs before it and after it.
  unfoldable pub find_stub : List Stub → Request → S → Option (List Stub × Stub × List Stub) × S
  find_stub [] req s = (none, s)
  find_stub (stub ∷ rest) req s =
      choose stub rest (matches_all_predicates env engine stub.predicates req s)
        (λ s'. find_stub rest req s')

  -- Match, over the imposter's stubs and default response; the stubs come back.
  unfoldable pub match_request :
      List Stub → Option Response → Request → S → Option (MatchResult × List Stub) × S
  unfolding find_stub answer
  match_request stubs default_response req s =
      let (found, s') = find_stub stubs req s in (answer env default_response stubs found, s')
