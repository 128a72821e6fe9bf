-- ===== src/Proxy/Forwarding.antt =====
-- internal/imposter/proxy.go: Execute and buildTargetURL.
pub mod HopByHop
use go_tartuffe.Prelude.{
  Text, codes, text_eq, to_lower, has_prefix, contains, Assoc, lookup, Bool, true, false, Option,
  none, some, List, [], ◌∷◌, is_blank, ◌||◌, ◌&&◌, not, if◌then◌else◌, ℤ, pos,
}
use go_tartuffe.Value.{Value, nil, text, array, Items, no_items, item, Fields, no_fields, field}
use go_tartuffe.Models.Request.{Request}
use go_tartuffe.Models.Stub.{IsResponse, ProxyResponse, Stub}
use go_tartuffe.Proxy.{
  Generation, Urls, Headers, ProxyRequest, Reply, Exchange, replied, unresolved, unreachable,
  request_failed, unread, Network, ProxyResult, ProxyOutcome, proxied, bad_url, bad_request,
  cannot_resolve, cannot_connect, proxy_failed,
}
use go_tartuffe.Proxy.Binary.{is_binary_response_content}
use go_tartuffe.Proxy.Recording.{generate_stub}

module _ {U Q : Type 0} (urls : Urls U Q) where
  -- for k, v := range req.Query { q.Set(k, v) }
  unfoldable pub set_all : Assoc Text → Q → Q
  set_all [] q = q
  set_all ((k, v) ∷ m) q = set_all m (urls.set k v q)

  -- buildTargetURL, with the raw query of the original request, if there is one.
  unfoldable pub build_target_url : Text → Request → Option Text → Option Text
  unfolding set_all
  build_target_url to req raw_query = elim (urls.parse to) [
    | none ↦ none
    | some base ↦
        let target = urls.resolve_path req.path base in
        some (
          urls.url_text (elim raw_query [
            | some (c ∷ s) ↦ urls.with_raw_query (c ∷ s) target
            | _ ↦ elim req.query [
              | some ((k, v) ∷ m) ↦
                  urls.with_raw_query (urls.encode (set_all ((k, v) ∷ m) (urls.query target)))
                    target
              | _ ↦ target
            ]
          ]))
  ]

-- m[key] = values, and delete(m, key)
unfoldable pub put_header : Text → List Text → Headers → Headers
put_header key values [] = (key, values) ∷ []
put_header key values ((k, old) ∷ h) =
    if text_eq k key then (key, values) ∷ h else (k, old) ∷ put_header key values h

unfoldable pub drop_header : Text → Headers → Headers
drop_header key [] = []
drop_header key ((k, values) ∷ h) =
    let rest = drop_header key h in if text_eq k key then rest else (k, values) ∷ rest

abbrev pub is_host : Text → Bool
is_host key = text_eq (to_lower key) (codes "host")

abbrev pub hop_by_hop : List Text
hop_by_hop =
    codes "connection"
    ∷ codes "keep-alive"
    ∷ codes "proxy-authenticate"
    ∷ codes "proxy-authorization"
    ∷ codes "te"
    ∷ codes "trailers"
    ∷ codes "transfer-encoding"
    ∷ codes "upgrade"
    ∷ []

-- lk == "connection" || lk == "keep-alive" || lk == "transfer-encoding"
unfoldable pub is_skipped : Text → Bool
is_skipped key =
    let lk = to_lower key in
    text_eq lk (codes "connection")
    || text_eq lk (codes "keep-alive")
    || text_eq lk (codes "transfer-encoding")

unfoldable pub texts_of : List Text → Items
texts_of [] = no_items
texts_of (v ∷ vs) = item (text v) (texts_of vs)

-- The headers of the response: one text, or a list of them.
unfoldable pub response_headers : Headers → Fields
unfolding is_skipped texts_of
response_headers [] = no_fields
response_headers ((k, []) ∷ h) = response_headers h
response_headers ((k, v ∷ []) ∷ h) =
    let rest = response_headers h in if is_skipped k then rest else field k (text v) rest
response_headers ((k, v ∷ w ∷ vs) ∷ h) =
    let rest = response_headers h in
    if is_skipped k then rest else field k (array (texts_of (v ∷ w ∷ vs))) rest

-- proxy.Mode: proxyOnce, also if none is set, proxyAlways, and modes that record nothing.
unfoldable pub is_recording : Text → Bool
is_recording mode =
    is_blank mode || text_eq mode (codes "proxyOnce") || text_eq mode (codes "proxyAlways")

module _ (network : Network) where
  -- for k, v := range req.Headers { … Header.Set(k, v) }
  unfoldable pub copy_headers : Assoc Text → Headers → Headers
  unfolding put_header
  copy_headers [] h = h
  copy_headers ((k, v) ∷ m) h =
      copy_headers m (if is_host k then h else put_header (network.canonical k) (v ∷ []) h)

  -- The injected headers; a Host is set apart.
  unfoldable pub inject_headers : Assoc Text → Headers × Option Text → Headers × Option Text
  unfolding put_header
  inject_headers [] (h, host) = (h, host)
  inject_headers ((k, v) ∷ m) (h, host) =
      inject_headers m
        (if is_host k then (h, some v) else (put_header (network.canonical k) (v ∷ []) h, host))

  unfoldable pub drop_headers : List Text → Headers → Headers
  unfolding drop_header
  drop_headers [] h = h
  drop_headers (k ∷ ks) h = drop_headers ks (drop_header (network.canonical k) h)

  abbrev pub header_entries : Option (Assoc Text) → Assoc Text
  header_entries none = []
  header_entries (some m) = m

  -- The body that is sent: a binary one is decoded, if it is base64.
  unfoldable pub request_body : Request → Text
  request_body req =
      if text_eq req.mode (codes "binary")
      then elim (network.decode_base64 req.body) [ some t ↦ t | none ↦ req.body ]
      else req.body

  unfoldable pub proxy_request : Request → ProxyResponse → Text → ProxyRequest
  unfolding copy_headers inject_headers drop_headers request_body
  proxy_request req proxy url =
      let (h, host) =
        inject_headers proxy.inject_headers (copy_headers (header_entries req.headers) [], none) in
      record {
        method = req.method;
        url = url;
        body = request_body req;
        headers = drop_headers hop_by_hop h;
        host = host;
      }

  -- Header.Get
  unfoldable pub header_value : Text → Headers → Text
  header_value key h = elim (lookup (network.canonical key) h) [ some (v ∷ vs) ↦ v | _ ↦ [] ]

  -- The body of the response, and its mode.
  unfoldable pub response_body : Text → Text → Text → Value × Text
  unfolding is_binary_response_content
  response_body content_type content_encoding body =
      if text_eq content_encoding (codes "gzip")
        || is_binary_response_content network content_type body
      then (text (network.encode_base64 body), codes "binary")
      else (
        if has_prefix body (b'{' ∷ 10 ∷ [])
              || has_prefix body (b'[' ∷ 10 ∷ [])
              || contains (to_lower content_type) (codes "application/json")
            then elim (network.unmarshal body) [ some v ↦ v | none ↦ text body ]
            else text body,
        [],
      )

  unfoldable pub response_of : Generation → Reply → IsResponse
  unfolding response_headers header_value response_body
  response_of generation reply =
      let (body, mode) =
        response_body (header_value (codes "Content-Type") reply.headers)
          (header_value (codes "Content-Encoding") reply.headers) reply.body in
      record {
        status_code = generation.int_value reply.status_code;
        status_message = [];
        headers = some (response_headers reply.headers);
        body = body;
        payload = [];
        mode = mode;
        proxy_response_time = pos 0;
        stream = no_items;
      }

  unfoldable pub result_of : Generation → Request → ProxyResponse → Reply → ℤ → ProxyResult
  unfolding is_recording generate_stub response_of
  result_of generation req proxy reply elapsed =
      let resp = response_of generation reply in
      let (stub, timed) = generate_stub generation req resp proxy elapsed in
      if is_recording proxy.mode
      then record { response = timed; generated_stub = some stub; should_record = true }
      else record { response = resp; generated_stub = none; should_record = false }

  unfoldable pub outcome_of : Generation → Request → ProxyResponse → Exchange → ProxyOutcome
  unfolding result_of
  outcome_of generation req proxy (replied reply elapsed) =
      proxied (result_of generation req proxy reply elapsed)
  outcome_of generation req proxy unresolved = cannot_resolve proxy.to
  outcome_of generation req proxy unreachable = cannot_connect proxy.to
  outcome_of generation req proxy request_failed = proxy_failed
  outcome_of generation req proxy unread = proxy_failed

  -- Execute
  unfoldable pub execute_proxy :
      {U Q : Type 0} → Urls U Q → Generation → Request → ProxyResponse → Option Text → ProxyOutcome
  unfolding build_target_url proxy_request outcome_of
  execute_proxy urls generation req proxy raw_query =
      elim (build_target_url urls proxy.to req raw_query) [
        | none ↦ bad_url
        | some url ↦
            if network.is_request req.method url
            then outcome_of generation req proxy (network.exchange (proxy_request req proxy url))
            else bad_request
      ]
