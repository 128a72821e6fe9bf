-- ===== src/Serving/ProxyStubs/Recorded.antt =====
-- internal/imposter/manager.go and internal/imposter/matcher.go: how a recorded stub answers.
use go_tartuffe.Prelude.{
  ℕ, zero, suc, ◌+◌, ◌<◌, ltb, Text, codes, text_eq, length, length-append, take-append,
  drop-append, get_elem?, Bool, true, false, not, ◌&&◌, Option, some, List, [], ◌∷◌, ◌++◌, pos, ◌≡◌,
  refl, sym, ap, ◌∙◌, subst, arith, Bool-cases, inl, inr,
}
use go_tartuffe.Models.Request.{Request}
use go_tartuffe.Models.Predicate.{Predicate}
use go_tartuffe.Models.Stub.{Stub, ProxyResponse}
use go_tartuffe.Matcher.Env.{Env}
use go_tartuffe.Matcher.Evaluate.{Engine, matches_all_predicates}
use go_tartuffe.Matcher.Match.{find_stub, choose, skipped}
use go_tartuffe.Matcher.Match.First.{Rejects}
use go_tartuffe.Serving.ProxyStubs.{
  mode_of, insert_once, is_index, predicates_equal, add_always, record_proxy_stub,
}

insert_once-append :
    (new chosen : Stub) (before after : List Stub)
    → insert_once (pos (length before)) new (before ++ chosen ∷ after)
      ≡ before ++ new ∷ chosen ∷ after
unfolding insert_once
insert_once-append new chosen before after =
    let inside : ltb (length before) (length (before ++ chosen ∷ after)) ≡ true =
      ground (arith, length-append before (chosen ∷ after)) in
    rw
      (
        insert_once,
        inside,
        take-append before (chosen ∷ after),
        drop-append before (chosen ∷ after),
      )
      refl

module _ {S : Type 0} (env : Env) (engine : Engine S) (req : Request) where
  choose-skipped :
      (stub found : Stub) (rest before after : List Stub) (s' : S) (r : Bool × S)
      (later : S → Option (List Stub × Stub × List Stub) × S)
      → r.0 ≡ false
      → later r.1 ≡ (some (before, found, after), s')
      → choose stub rest r later ≡ (some (stub ∷ before, found, after), s')
  choose-skipped stub found rest before after s' (true, s) later h e = absurd (ground arith)
  choose-skipped stub found rest before after s' (false, s) later h e = ap (skipped stub) e

  -- The search comes to a stub whose predicates hold behind stubs that it rejects.
  find_stub-append :
      (before after : List Stub) (found : Stub) (s t s' : S)
      → Rejects env engine req before s t
      → matches_all_predicates env engine found.predicates req t ≡ (true, s')
      → find_stub env engine (before ++ found ∷ after) req s ≡ (some (before, found, after), s')
  unfolding find_stub
  find_stub-append [] after found s t s' h m =
      let m' : matches_all_predicates env engine found.predicates req s ≡ (true, s') =
        subst (λ x. matches_all_predicates env engine found.predicates req x ≡ (true, s')) (sym h)
          m in
      rw (find_stub, m') refl
  find_stub-append (stub ∷ before) after found s t s' (rejects, h) m =
      choose-skipped stub found (before ++ found ∷ after) before after s'
        (matches_all_predicates env engine stub.predicates req s) _ rejects
        (find_stub-append before after found _ t s' h m)

  -- Once a response of a proxy in mode proxyOnce is recorded, a request that the stubs in front of the
  -- proxy's stub reject and that satisfies the recorded predicates is answered by the recorded stub,
  -- and the proxy's stub stands behind it.
  pub record_proxy_stub-shadows :
      (marshal_predicates : List Predicate → Option Text) (proxy : ProxyResponse)
      (before after : List Stub) (chosen new : Stub) (s t s' : S)
      → mode_of (some proxy) ≡ codes "proxyOnce"
      → Rejects env engine req before s t
      → matches_all_predicates env engine new.predicates req t ≡ (true, s')
      → find_stub env engine
          (record_proxy_stub marshal_predicates
            (some proxy)
            (pos (length before))
            new
            (before ++ chosen ∷ after))
          req
          s
        ≡ (some (before, record new { is_proxy_generated = true }, chosen ∷ after), s')
  unfolding record_proxy_stub text_eq
  record_proxy_stub-shadows marshal_predicates proxy before after chosen new s t s' mode h m =
      let new' : Stub = record new { is_proxy_generated = true } in
      let recorded : record_proxy_stub marshal_predicates (some proxy) (pos (length before)) new
            (before ++ chosen ∷ after)
          ≡ before ++ new' ∷ chosen ∷ after =
        rw (record_proxy_stub, mode) (insert_once-append new' chosen before after) in
      ap (λ stubs. find_stub env engine stubs req s) recorded
      ∙ find_stub-append before (chosen ∷ after) new' s t s' h m

is_index-here : (i : ℕ) → is_index (pos (i + 0)) i ≡ true
unfolding is_index
is_index-here i = ground arith

-- The stub that the index names stays where it is, and as it is.
add_always-keeps :
    (marshal_predicates : List Predicate → Option Text) (new : Stub) (i j : ℕ) (stubs : List Stub)
    → j < length stubs
    → get_elem? (add_always marshal_predicates (pos (i + j)) new i stubs) j ≡ get_elem? stubs j
unfolding add_always
add_always-keeps marshal_predicates new i j [] h = absurd (ground arith)
add_always-keeps marshal_predicates new i zero (stub ∷ stubs) h =
    rw (add_always, is_index-here i) refl
add_always-keeps marshal_predicates new i (suc j) (stub ∷ stubs) h =
    let differs =
      not (is_index (pos (i + suc j)) i)
      && predicates_equal marshal_predicates stub.predicates new.predicates in
    elim (Bool-cases differs) [
      | inl e ↦ rw (add_always, e) refl
      | inr e ↦
          let p : i + 1 + j ≡ i + suc j = ground arith in
          rw (add_always, e)
            (subst
              (λ n.
                get_elem? (add_always marshal_predicates (pos n) new (i + 1) stubs) j
                ≡ get_elem? stubs j)
              p (add_always-keeps marshal_predicates new (i + 1) j stubs (ground arith)))
    ]

-- In a mode other than proxyOnce the stub of the proxy stays at its index, and as it is.
pub record_proxy_stub-keeps :
    (marshal_predicates : List Predicate → Option Text) (proxy : Option ProxyResponse) (j : ℕ)
    (new : Stub) (stubs : List Stub)
    → text_eq (mode_of proxy) (codes "proxyOnce") ≡ false
    → j < length stubs
    → get_elem? (record_proxy_stub marshal_predicates proxy (pos j) new stubs) j ≡ get_elem? stubs j
unfolding record_proxy_stub
record_proxy_stub-keeps marshal_predicates proxy j new stubs mode h =
    elim (Bool-cases (text_eq (mode_of proxy) (codes "proxyAlways"))) [
      | inl e ↦
          let new' : Stub = record new { is_proxy_generated = true } in
          let start : 0 + j ≡ j = ground arith in
          rw (record_proxy_stub, mode, e)
            (subst
              (λ n.
                get_elem? (add_always marshal_predicates (pos n) new' 0 stubs) j
                ≡ get_elem? stubs j)
              start (add_always-keeps marshal_predicates new' 0 j stubs h))
      | inr e ↦ rw (record_proxy_stub, mode, e) refl
    ]
