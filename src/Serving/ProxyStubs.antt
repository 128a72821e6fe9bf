-- ===== src/Serving/ProxyStubs.antt =====
-- internal/imposter/manager.go: `recordProxyStub` and `predicatesEqual`.
pub mod Recorded
use go_tartuffe.Prelude.{
  ℕ, suc, ◌+◌, ◌==◌, ltb, Text, codes, text_eq, is_blank, length, take, drop, Bool, true, false,
  not, ◌&&◌, Option, none, some, List, [], ◌∷◌, ◌++◌, if◌then◌else◌, ℤ, pos, negsuc,
}
use go_tartuffe.Models.Predicate.{Predicate}
use go_tartuffe.Models.Stub.{Stub, ProxyResponse}

-- match.Proxy.Mode, or "proxyOnce".
unfoldable pub mode_of : Option ProxyResponse → Text
mode_of none = codes "proxyOnce"
mode_of (some p) = if is_blank p.mode then codes "proxyOnce" else p.mode

-- The new stub before that of the index, or in front of all if there is none.
unfoldable pub insert_once : ℤ → Stub → List Stub → List Stub
insert_once (negsuc i) stub stubs = stub ∷ stubs
insert_once (pos i) stub stubs =
    if ltb i (length stubs) then take i stubs ++ stub ∷ drop i stubs else stub ∷ stubs

-- The stub with the responses of the new one behind its own.
unfoldable pub extended : Stub → Stub → Stub
extended new stub = record stub {
  responses = stub.responses ++ new.responses;
  is_proxy_generated = true;
}

-- i == match.StubIndex
unfoldable pub is_index : ℤ → ℕ → Bool
is_index (pos j) i = i == j
is_index (negsuc j) i = false

-- json.Marshal of the predicates is a parameter.
module _ (marshal_predicates : List Predicate → Option Text) where
  -- predicatesEqual
  unfoldable pub predicates_equal : List Predicate → List Predicate → Bool
  predicates_equal ps qs = (length ps == length qs) && elim (marshal_predicates ps) [
    | none ↦ false
    | some s ↦ elim (marshal_predicates qs) [ none ↦ false | some t ↦ text_eq s t ]
  ]

  -- The loop over the stubs from index `i` on, and the stub that is appended if none has the predicates.
  unfoldable pub add_always : ℤ → Stub → ℕ → List Stub → List Stub
  unfolding extended is_index predicates_equal
  add_always index new i [] = new ∷ []
  add_always index new i (stub ∷ stubs) =
      let later = add_always index new (i + 1) stubs in
      if not (is_index index i) && predicates_equal stub.predicates new.predicates
      then extended new stub ∷ stubs
      else stub ∷ later

  -- recordProxyStub, on the stubs of the imposter.
  unfoldable pub record_proxy_stub : Option ProxyResponse → ℤ → Stub → List Stub → List Stub
  unfolding mode_of insert_once add_always
  record_proxy_stub proxy index stub stubs =
      let new : Stub = record stub { is_proxy_generated = true } in
      let mode = mode_of proxy in
      if text_eq mode (codes "proxyOnce")
      then insert_once index new stubs
      else if text_eq mode (codes "proxyAlways")
      then add_always index new 0 stubs
      else stubs
