-- ===== src/Api/Options/Filtered.antt =====
-- internal/api/handlers/imposters.go: applyOptionsWithRequest with removeProxies.
use mathlib.Core.List.{cons-ne-nil}
use go_tartuffe.Prelude.{
  ℕ, ◌+◌, Text, true, false, is_some, some, none, List, [], ◌∷◌, ◌≡◌, ◌≢◌, refl, sym, arith,
  Bool-cases, Option-cases, inl, inr, subst,
}
use go_tartuffe.Models.Stub.{Stub, Response, ProxyResponse}
use go_tartuffe.Models.Imposter.{Imposter}
use go_tartuffe.Api.{ApiRequest}
use go_tartuffe.Api.Options.{
  SerializeOptions, non_proxy_responses, without_proxies, with_links, apply_options,
}

-- The second list has the responses of the first that are no proxies, in their order, and no others.
pub data Kept : List Response → List Response → Type 0 where
  ended : Kept [] []
  hidden :
      {r : Response} {p : ProxyResponse} {rs rs' : List Response}
      → r.proxy ≡ some p
      → Kept rs rs'
      → Kept (r ∷ rs) rs'
  kept :
      {r : Response} {rs rs' : List Response}
      → r.proxy ≡ none
      → Kept rs rs'
      → Kept (r ∷ rs) (r ∷ rs')

-- The second list has the stubs of the first that have a response that is no proxy, in their order,
-- each with its predicates and those responses.
pub data Shown : List Stub → List Stub → Type 0 where
  ended : Shown [] []
  hidden :
      {s : Stub} {stubs stubs' : List Stub}
      → Kept s.responses []
      → Shown stubs stubs'
      → Shown (s ∷ stubs) stubs'
  shown :
      {s s' : Stub} {stubs stubs' : List Stub}
      → s'.predicates ≡ s.predicates
      → Kept s.responses s'.responses
      → s'.responses ≢ []
      → Shown stubs stubs'
      → Shown (s ∷ stubs) (s' ∷ stubs')

non_proxy_responses-hidden :
    (r : Response) {p : ProxyResponse} (rs : List Response)
    → r.proxy ≡ some p
    → non_proxy_responses (r ∷ rs) ≡ non_proxy_responses rs
unfolding non_proxy_responses
non_proxy_responses-hidden r rs e =
    let proxy : is_some r.proxy ≡ true = rw e refl in rw (non_proxy_responses, proxy) refl

non_proxy_responses-kept :
    (r : Response) (rs : List Response)
    → r.proxy ≡ none
    → non_proxy_responses (r ∷ rs) ≡ r ∷ non_proxy_responses rs
unfolding non_proxy_responses
non_proxy_responses-kept r rs e =
    let plain : is_some r.proxy ≡ false = rw e refl in rw (non_proxy_responses, plain) refl

non_proxy_responses-Kept : (rs : List Response) → Kept rs (non_proxy_responses rs)
unfolding non_proxy_responses
non_proxy_responses-Kept [] = Kept.ended
non_proxy_responses-Kept (r ∷ rs) = elim (Option-cases r.proxy) [
  | inl e ↦
      subst (Kept (r ∷ rs)) (sym (non_proxy_responses-kept r rs e))
        (Kept.kept e (non_proxy_responses-Kept rs))
  | inr (p, e) ↦
      subst (Kept (r ∷ rs)) (sym (non_proxy_responses-hidden r rs e))
        (Kept.hidden e (non_proxy_responses-Kept rs))
]

abbrev put_stub : Stub → List Response → List Stub → List Stub
put_stub s [] rest = rest
put_stub s (r ∷ rs) rest = record s { responses = r ∷ rs } ∷ rest

without_proxies-cons :
    (s : Stub) (stubs : List Stub)
    → without_proxies (s ∷ stubs)
      ≡ put_stub s (non_proxy_responses s.responses) (without_proxies stubs)
unfolding without_proxies
without_proxies-cons s stubs = ground arith

put_stub-Shown :
    (s : Stub) (rs : List Response) {stubs stubs' : List Stub}
    → Kept s.responses rs
    → Shown stubs stubs'
    → Shown (s ∷ stubs) (put_stub s rs stubs')
put_stub-Shown s [] k h = Shown.hidden k h
put_stub-Shown s (r ∷ rs) k h = Shown.shown refl k (cons-ne-nil r rs) h

without_proxies-Shown : (stubs : List Stub) → Shown stubs (without_proxies stubs)
unfolding without_proxies
without_proxies-Shown [] = Shown.ended
without_proxies-Shown (s ∷ stubs) = subst (Shown (s ∷ stubs)) (sym (without_proxies-cons s stubs)) (
    put_stub-Shown s (non_proxy_responses s.responses) (non_proxy_responses-Kept s.responses)
      (without_proxies-Shown stubs))

-- The links change neither predicates nor responses.
with_links-Shown :
    (base : Text) (i : ℕ) {stubs stubs' : List Stub}
    → Shown stubs stubs'
    → Shown stubs (with_links base i stubs')
unfolding with_links
with_links-Shown base i Shown.ended = Shown.ended
with_links-Shown base i (Shown.hidden k h) = Shown.hidden k (with_links-Shown base i h)
with_links-Shown base i (Shown.shown e k n h) = Shown.shown e k n (with_links-Shown base (i + 1) h)

-- An imposter that is shown without proxies has those of its stubs that have a response that is no
-- proxy, in their order, each with its predicates and its responses that are no proxies, in theirs.
pub apply_options-removes_proxies :
    (r : ApiRequest) (options : SerializeOptions) (imp : Imposter)
    → options.removes_proxies ≡ true
    → Shown imp.stubs (apply_options r options imp).stubs
unfolding apply_options
apply_options-removes_proxies r options imp h = elim (Bool-cases options.is_replayable) [
  | inl e ↦ rw (h, e, apply_options) (without_proxies-Shown imp.stubs)
  | inr e ↦ rw (h, e, apply_options) (with_links-Shown _ 0 (without_proxies-Shown imp.stubs))
]
