-- ===== src/Proxy/Recording/Answering.antt =====
-- internal/imposter/proxy.go, manager.go and matcher.go: from a proxied request to the recorded stub
-- that answers it.
use go_tartuffe.Prelude.{
  Text, codes, text_eq, true, Option, some, List, [], ◌∷◌, ◌++◌, length, map, is_blank, ℤ, pos, ◌≡◌,
  refl, sym, ◌∙◌, ap, arith, Bool-cases, Option-cases, inl, inr,
}
use go_tartuffe.Models.Request.{Request}
use go_tartuffe.Models.Predicate.{Predicate}
use go_tartuffe.Models.Stub.{Stub, ProxyResponse}
use go_tartuffe.Matcher.Env.{Env}
use go_tartuffe.Matcher.Evaluate.{Engine}
use go_tartuffe.Matcher.Match.{find_stub}
use go_tartuffe.Matcher.Match.First.{Rejects}
use go_tartuffe.Serving.ProxyStubs.{mode_of, record_proxy_stub}
use go_tartuffe.Serving.ProxyStubs.Recorded.{record_proxy_stub-shadows}
use go_tartuffe.Proxy.{
  Generation, Urls, Network, Exchange, replied, unresolved, unreachable, request_failed, unread,
  Reply, ProxyResult, proxied,
}
use go_tartuffe.Proxy.Predicates.Hold.{HasMaps}
use go_tartuffe.Proxy.Recording.{generate_stub}
use go_tartuffe.Proxy.Recording.Matching.{ArePlain, generate_stub-matches}
use go_tartuffe.Proxy.Forwarding.{
  is_recording, response_of, result_of, outcome_of, build_target_url, proxy_request, execute_proxy,
}

-- The mode proxyOnce records, also where it is the default.
is_recording-once :
    (proxy : ProxyResponse)
    → mode_of (some proxy) ≡ codes "proxyOnce"
    → is_recording proxy.mode ≡ true
unfolding is_recording mode_of
is_recording-once proxy h = elim (Bool-cases (is_blank proxy.mode)) [
  | inl e ↦ rw (is_recording, e) refl
  | inr e ↦
      let same : proxy.mode ≡ codes "proxyOnce" = ground (arith, e, h) in
      rw same (unfold text_eq in refl)
]

proxied-injective : (a b : ProxyResult) → proxied a ≡ proxied b → a ≡ b
proxied-injective a b h = cc

-- A request that is answered has a reply.
outcome_of-proxied :
    (network : Network) (generation : Generation) (req : Request) (proxy : ProxyResponse)
    (exchange : Exchange) (result : ProxyResult)
    → outcome_of network generation req proxy exchange ≡ proxied result
    → (reply : Reply) × (elapsed : ℤ) × (result
        ≡ result_of network generation req proxy reply elapsed)
unfolding outcome_of
outcome_of-proxied network generation req proxy (replied reply elapsed) result h =
    (reply, elapsed, sym (proxied-injective _ result h))
outcome_of-proxied network generation req proxy unresolved result h = absurd (ground (arith, h))
outcome_of-proxied network generation req proxy unreachable result h = absurd (ground (arith, h))
outcome_of-proxied network generation req proxy request_failed result h = absurd (ground (arith, h))
outcome_of-proxied network generation req proxy unread result h = absurd (ground (arith, h))

result_of-recording :
    (network : Network) (generation : Generation) (req : Request) (proxy : ProxyResponse)
    (reply : Reply) (elapsed : ℤ)
    → is_recording proxy.mode ≡ true
    → (let (stub, timed) =
          generate_stub generation req (response_of network generation reply) proxy elapsed in
        result_of network generation req proxy reply elapsed
        ≡ record { response = timed; generated_stub = some stub; should_record = true })
unfolding result_of
result_of-recording network generation req proxy reply elapsed e = rw (result_of, e) refl

module _ {U Q : Type 0} (network : Network) (urls : Urls U Q) (generation : Generation)
    (req : Request) (proxy : ProxyResponse) (raw_query : Option Text) (result : ProxyResult)
    (ran : execute_proxy network urls generation req proxy raw_query ≡ proxied result) where
  execute_proxy-replied :
      (reply : Reply) × (elapsed : ℤ) × (result
        ≡ result_of network generation req proxy reply elapsed)
  unfolding execute_proxy
  execute_proxy-replied = elim (Option-cases (build_target_url urls proxy.to req raw_query)) [
    | inl e ↦ absurd (ground (arith, e, ran))
    | inr (url, e) ↦ elim (Bool-cases (network.is_request req.method url)) [
      | inl r ↦
          outcome_of-proxied network generation req proxy
            (network.exchange (proxy_request network req proxy url)) result (sent url e r ∙ ran)
      | inr r ↦ absurd (ground (arith, e, r, ran))
    ]
  ]
    where
      sent :
          (url : Text)
          → build_target_url urls proxy.to req raw_query ≡ some url
          → network.is_request req.method url ≡ true
          → outcome_of network generation req proxy
              (network.exchange (proxy_request network req proxy url))
            ≡ execute_proxy network urls generation req proxy raw_query
      sent url e r = rw (execute_proxy, e, r) refl

  -- A proxied request in mode proxyOnce generates a stub with the response. Once that is recorded, the
  -- same request, which the stubs in front of the proxy's stub reject, is answered by the recorded
  -- stub. The generators have no script and their patterns extract the whole of a field or nothing, and
  -- the keys of the query and of the headers stand once each.
  pub execute_proxy-answers :
      {S : Type 0} (env : Env) (engine : Engine S)
      (marshal_predicates : List Predicate → Option Text) (before after : List Stub) (chosen : Stub)
      (s t : S)
      → mode_of (some proxy) ≡ codes "proxyOnce"
      → HasMaps req
      → ArePlain generation req proxy.predicate_generators
      → Rejects env engine req before s t
      → (stub : Stub) × (result.generated_stub ≡ some stub)
        × (map (λ r. r.is) stub.responses ≡ some result.response ∷ [])
        × (find_stub env engine
              (record_proxy_stub marshal_predicates
                (some proxy)
                (pos (length before))
                stub
                (before ++ chosen ∷ after))
              req
              s
            ≡ (some (before, record stub { is_proxy_generated = true }, chosen ∷ after), t))
  unfolding generate_stub
  execute_proxy-answers env engine marshal_predicates before after chosen s t mode maps plain
        rejects =
      let (reply, elapsed, same) = execute_proxy-replied in
      let (stub, timed) =
        generate_stub generation req (response_of network generation reply) proxy elapsed in
      let recorded : result
          ≡ record { response = timed; generated_stub = some stub; should_record = true } =
        same
        ∙ result_of-recording network generation req proxy reply elapsed
            (is_recording-once proxy mode) in
      (
        stub,
        ap (λ r. r.generated_stub) recorded,
        ap (λ (r : ProxyResult). some r.response ∷ []) (sym recorded),
        record_proxy_stub-shadows env engine req marshal_predicates proxy before after chosen stub s
            t t mode rejects
            (generate_stub-matches generation req env maps engine
              (response_of network generation reply) proxy elapsed t plain),
      )
