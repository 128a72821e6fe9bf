-- ===== src/Protocols/Tcp/Connection.antt =====
-- internal/imposter/tcp_server.go: `handleConnection` and `applyTCPBehaviors`. The mutex makes the
-- recording of one connection one step; the proxying to another server is not modelled.
pub mod Framing
use go_tartuffe.Prelude.{
  ℕ, Text, codes, text_eq, is_blank, map, Bool, true, false, ◌||◌, Option, none, some, List, [],
  ◌∷◌, ◌++◌, if◌then◌else◌, ℤ, pos,
}
use go_tartuffe.Value.{Value, nil, boolean, number, text, array, object, text_map}
use go_tartuffe.Models.Request.{Request}
use go_tartuffe.Models.Stub.{Stub, Response, IsResponse, Behavior}
use go_tartuffe.Models.Imposter.{Imposter, TcpRequest}
use go_tartuffe.Matcher.Env.{Regex}
use go_tartuffe.Repository.Memory.{count_request}
use go_tartuffe.Behaviors.{Outcome, done, failed, panicked, Tools}
use go_tartuffe.Behaviors.Execute.{execute}
use go_tartuffe.Protocols.Tcp.{empty_response, TcpMatchResult, match_data}
use go_tartuffe.Protocols.Tcp.Reading.{Read, Resolver, read_request_packets}

-- base64, the regexp package, what the behaviors call, and the scripts of predicates and responses.
pub record Library (S : Type 0) : Type 0 where
  pub encode_base64 : Text → Text
  pub decode_base64 : Text → Option Text
  pub compile : Text → Option Regex
  pub tools : Tools
  pub run_predicate : Text → Text → Option Bool
  pub execute_tcp_response : Text → Text → S → Option Text × S

-- What a connection ends with: nothing written, the bytes written, a proxied response, or a panic.
pub data Reply : Type 0 where
  no_reply : Reply
  written : Text → Reply
  proxied : Text → Response → Reply
  crashed : Reply

abbrev is_binary : Text → Bool
is_binary mode = text_eq mode (codes "binary")

unfoldable pub concat : List Text → Text
concat [] = []
concat (p ∷ ps) = p ++ concat ps

-- &models.Request{Body: …}
abbrev body_request : Text → Request
body_request bytes = record {
  request_from = [];
  method = [];
  path = [];
  query = none;
  raw_query = [];
  headers = none;
  body = bytes;
  form = none;
  ip = [];
  timestamp = [];
  mode = [];
}

module _ {S : Type 0} (lib : Library S) where
  -- The bytes as the matcher reads them.
  unfoldable pub as_data : Text → Text → Text
  as_data mode bytes = if is_binary mode then lib.encode_base64 bytes else bytes

  -- One request for each packet, if requests are recorded, and one more connection.
  unfoldable pub record_packets : Text → Text → List Text → Imposter → Imposter
  unfolding as_data count_request
  record_packets address now packets imp = record imp {
    tcp_requests =
        if imp.record_requests
        then imp.tcp_requests
          ++ map
              (λ p. record {
                request_from = address;
                payload = as_data imp.mode p;
                timestamp = now;
              })
              packets
        else imp.tcp_requests;
    number_of_requests = count_request imp.number_of_requests;
  }

  -- applyTCPBehaviors; an error leaves the data.
  unfoldable pub apply_behaviors : Text → Text → List Behavior → Outcome Text
  apply_behaviors request response behaviors =
      elim (execute lib.tools (body_request request) behaviors
        (record empty_response { payload = response })) [
          | done (slept, r) ↦
              done (
                if is_blank r.payload then elim r.body [ text t ↦ t | _ ↦ response ] else r.payload)
          | failed e ↦ done response
          | panicked ↦ panicked
        ]

  abbrev payload_of : Option IsResponse → Text
  payload_of none = []
  payload_of (some r) = r.payload

  abbrev response_mode : Option IsResponse → Text
  response_mode none = []
  response_mode (some r) = r.mode

  -- The data of the response, before the behaviors.
  unfoldable pub response_data : TcpMatchResult → Text → S → Text × S
  response_data match bytes s = elim match.raw_response [
    | none ↦ (payload_of match.response, s)
    | some r ↦
        if is_blank r.inject
        then (payload_of match.response, s)
        else (let (result, s') = lib.execute_tcp_response r.inject bytes s in
            (elim result [ some t ↦ t | none ↦ payload_of match.response ], s'))
  ]

  -- The data after the behaviors.
  unfoldable pub behaved : TcpMatchResult → Text → Text → Outcome Text
  unfolding apply_behaviors
  behaved match request response = elim match.raw_response [
    | none ↦ done response
    | some r ↦ elim r.behaviors [
      | [] ↦ done response
      | b ∷ bs ↦ apply_behaviors request response (b ∷ bs)
    ]
  ]

  -- What is written; data that are no base64 are written as they are.
  unfoldable pub written_data : Bool → Text → Reply
  written_data binary response =
      if is_blank response
      then no_reply
      else if binary
      then elim (lib.decode_base64 response) [ some t ↦ written t | none ↦ written response ]
      else written response

  abbrev finished : Bool → Outcome Text → Reply
  finished binary (done t) = written_data binary t
  finished binary (failed e) = crashed
  finished binary panicked = crashed

  -- The part of handleConnection after the recording: the reply, the stubs and the script state.
  unfoldable pub respond : Text → List Stub → Option Response → Text → S → Reply × List Stub × S
  unfolding as_data match_data response_data behaved written_data
  respond mode stubs default bytes s =
      let request = as_data mode bytes in
      elim (match_data lib.compile lib.run_predicate stubs default request) [
        | none ↦ (crashed, stubs, s)
        | some (match, stubs') ↦
            let (response, s') = response_data match request s in
            let reply =
              finished (is_binary mode || is_binary (response_mode match.response))
                (behaved match request response) in
            elim match.raw_response [
              | none ↦ (reply, stubs', s')
              | some r ↦ elim r.proxy [
                | none ↦ (reply, stubs', s')
                | some p ↦ (proxied bytes r, stubs', s)
              ]
            ]
      ]

  -- handleConnection
  unfoldable pub handle_connection :
      Option Resolver → Text → Text → List Read → Imposter → S → Reply × Imposter × S
  unfolding read_request_packets record_packets respond concat
  handle_connection resolver address now rs imp s = elim (read_request_packets resolver rs) [
    | [] ↦ (no_reply, imp, s)
    | p ∷ ps ↦
        let recorded = record_packets address now (p ∷ ps) imp in
        let (reply, stubs, s') =
          respond recorded.mode recorded.stubs recorded.default_response (concat (p ∷ ps)) s in
        (reply, record recorded { stubs = stubs }, s')
  ]
