-- ===== src/Proxy/Forwarding/HopByHop.antt =====
-- internal/imposter/proxy.go: the headers that Execute forwards.
use go_tartuffe.Prelude.{
  Text, text_eq, text_eq→eq, text_eq_iff, text_eq_refl, lookup, any, true, none, List, [], ◌∷◌,
  if◌then◌else◌, ◌≡◌, refl, ◌∙◌, subst, arith, Bool-cases, inl, inr,
}
use go_tartuffe.Models.Request.{Request}
use go_tartuffe.Models.Stub.{ProxyResponse}
use go_tartuffe.Proxy.{Headers, Network}
use go_tartuffe.Proxy.Forwarding.{drop_header, drop_headers, hop_by_hop, proxy_request}

lookup-drop_header :
    (key j : Text) (h : Headers)
    → lookup j (drop_header key h) ≡ (if text_eq key j then none else lookup j h)
unfolding lookup drop_header
lookup-drop_header key j [] = ground arith
lookup-drop_header key j ((k, values) ∷ h) =
    ground
      (arith, text_eq_iff key j, text_eq_iff k key, text_eq_iff k j, lookup-drop_header key j h)

module _ (network : Network) where
  lookup-dropped :
      (keys : List Text) (j : Text) (h : Headers)
      → lookup j h ≡ none
      → lookup j (drop_headers network keys h) ≡ none
  unfolding drop_headers
  lookup-dropped [] j h e = e
  lookup-dropped (k ∷ keys) j h e =
      lookup-dropped keys j (drop_header (network.canonical k) h)
        (lookup-drop_header (network.canonical k) j h ∙ ground (arith, e))

  lookup-drop_headers :
      (keys : List Text) (key : Text) (h : Headers)
      → any (λ k. text_eq k key) keys ≡ true
      → lookup (network.canonical key) (drop_headers network keys h) ≡ none
  unfolding drop_headers
  lookup-drop_headers [] key h e = absurd (ground (arith, e))
  lookup-drop_headers (k ∷ keys) key h e = elim (Bool-cases (text_eq k key)) [
    | inl same ↦ lookup-dropped keys (network.canonical key) (drop_header (network.canonical k) h) (
        subst (λ j. lookup (network.canonical j) (drop_header (network.canonical k) h) ≡ none)
          (text_eq→eq k key same)
          (lookup-drop_header (network.canonical k) (network.canonical k) h
            ∙ rw (text_eq_refl (network.canonical k)) refl))
    | inr differs ↦
        lookup-drop_headers keys key (drop_header (network.canonical k) h)
          (ground (arith, e, differs))
  ]

  -- No hop-by-hop header is forwarded, neither one of the client's nor one that the proxy injects.
  pub proxy_request-hop_by_hop :
      (req : Request) (proxy : ProxyResponse) (url key : Text)
      → any (λ k. text_eq k key) hop_by_hop ≡ true
      → lookup (network.canonical key) (proxy_request network req proxy url).headers ≡ none
  unfolding proxy_request
  proxy_request-hop_by_hop req proxy url key e = lookup-drop_headers hop_by_hop key _ e
