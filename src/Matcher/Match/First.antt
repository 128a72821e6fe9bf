-- ===== src/Matcher/Match/First.antt =====
-- internal/imposter/matcher.go: `Match` chooses the first stub that matches.
use go_tartuffe.Prelude.{
  ℕ, Bool, true, false, Option, none, some, List, [], ◌∷◌, ◌++◌, length, pos, negsuc, ◌≡◌, refl, ap,
  sym, inl, inr, Option-cases, arith, subst,
}
use go_tartuffe.Models.Request.{Request}
use go_tartuffe.Models.Stub.{Stub, Response, next_response}
use go_tartuffe.Matcher.Env.{Env}
use go_tartuffe.Matcher.Evaluate.{Engine, matches_all_predicates}
use go_tartuffe.Matcher.Match.{
  MatchResult, find_stub, get_match_result, default_result, match_request, response_result, skipped,
  choose, answer,
}

module _ {S : Type 0} (env : Env) (engine : Engine S) (req : Request) where
  -- Evaluating the stubs in order from state `s` rejects each of them and ends in state `s'`.
  abbrev pub Rejects : List Stub → S → S → Type 0
  Rejects [] s s' = s ≡ s'
  Rejects (stub ∷ rest) s s' =
      ((matches_all_predicates env engine stub.predicates req s).0 ≡ false)
      × Rejects rest (matches_all_predicates env engine stub.predicates req s).1 s'

  -- `found` is the first stub that matches, with its neighbours; `none` if every stub is rejected.
  abbrev pub IsFirst : List Stub → S → Option (List Stub × Stub × List Stub) → S → Type 0
  IsFirst stubs s none s' = Rejects stubs s s'
  IsFirst stubs s (some (before, chosen, after)) s' =
      (stubs ≡ before ++ chosen ∷ after)
      × (t : S) × Rejects before s t
      × (matches_all_predicates env engine chosen.predicates req t ≡ (true, s'))

  skipped-IsFirst :
      (stub : Stub) (rest : List Stub) (s s1 : S)
      → matches_all_predicates env engine stub.predicates req s ≡ (false, s1)
      → (r : Option (List Stub × Stub × List Stub) × S) → IsFirst rest s1 r.0 r.1
      → IsFirst (stub ∷ rest) s (skipped stub r).0 (skipped stub r).1
  skipped-IsFirst stub rest s s1 e (none, s') h =
      subst (λ r. (r.0 ≡ false) × Rejects rest r.1 s') (sym e) (refl, h)
  skipped-IsFirst stub rest s s1 e (some (before, chosen, after), s') (p, t, rejects, m) = (
    ap (◌∷◌ stub) p,
    t,
    subst (λ r. (r.0 ≡ false) × Rejects before r.1 t) (sym e) (refl, rejects),
    m,
  )

  choose-IsFirst :
      (stub : Stub) (rest : List Stub) (s : S) (r : Bool × S)
      → matches_all_predicates env engine stub.predicates req s ≡ r
      → (later : S → Option (List Stub × Stub × List Stub) × S)
      → ((t : S) → IsFirst rest t (later t).0 (later t).1)
      → IsFirst (stub ∷ rest) s (choose stub rest r later).0 (choose stub rest r later).1
  choose-IsFirst stub rest s (true, s1) e later ih = (refl, s, refl, e)
  choose-IsFirst stub rest s (false, s1) e later ih =
      skipped-IsFirst stub rest s s1 e (later s1) (ih s1)

  find_stub-IsFirst :
      (stubs : List Stub) (s : S)
      → IsFirst stubs s (find_stub env engine stubs req s).0 (find_stub env engine stubs req s).1
  unfolding find_stub
  find_stub-IsFirst [] s = refl
  find_stub-IsFirst (stub ∷ rest) s =
      choose-IsFirst stub rest s (matches_all_predicates env engine stub.predicates req s) refl
        (λ t. find_stub env engine rest req t) (find_stub-IsFirst rest)

-- What `Match` answers for a search result, and what becomes of the stubs: the counters of the chosen
-- stub advance, all else stays. There is no answer only if `NextResponse` panics.
abbrev pub Answers :
    Env
    → Option Response
    → List Stub
    → Option (List Stub × Stub × List Stub)
    → Option (MatchResult × List Stub)
    → Type 0
Answers env d stubs none answer =
    (answer ≡ some (default_result d, stubs)) × ((default_result d).stub_index ≡ negsuc 0)
Answers env d stubs (some (before, chosen, after)) none =
    get_match_result env chosen (length before) ≡ none
Answers env d stubs (some (before, chosen, after)) (some (result, stubs')) =
    (result.stub_index ≡ pos (length before))
    × (stubs' ≡ before ++ (next_response chosen).1 ∷ after)

get_match_result_lem :
    (env : Env) (stub : Stub) (i : ℕ) {result : MatchResult} {stub' : Stub}
    → get_match_result env stub i ≡ some (result, stub')
    → (result.stub_index ≡ pos i) × (stub' ≡ (next_response stub).1)
unfolding get_match_result response_result
get_match_result_lem env stub i h = ground arith

default-index : (d : Option Response) → (default_result d).stub_index ≡ negsuc 0
unfolding default_result
default-index none = refl
default-index (some r) = ground arith

answer-Answers :
    (env : Env) (d : Option Response) (stubs : List Stub)
    (found : Option (List Stub × Stub × List Stub))
    → Answers env d stubs found (answer env d stubs found)
unfolding answer
answer-Answers env d stubs none = (refl, default-index d)
answer-Answers env d stubs (some (before, chosen, after)) =
    elim (Option-cases (get_match_result env chosen (length before))) [
      | inl panics ↦ rw (panics, Answers) panics
      | inr ((result, chosen'), e) ↦
          let (index, moved) = get_match_result_lem env chosen (length before) e in
          rw (e, Answers) (index, ap (λ c. before ++ c ∷ after) moved)
    ]

-- Match answers with the first stub, in the order of the list, whose predicates all hold: those
-- before it were evaluated in that order, each in the state that the one before left, and were
-- rejected. The result has the stub's index, and only that stub's counters advance, unless
-- NextResponse panics on that stub, which gives no answer. If every stub is rejected, the answer is the
-- default response with index -1 and no stub changes.
pub match_request-IsFirst :
    {S : Type 0} (env : Env) (engine : Engine S) (stubs : List Stub) (d : Option Response)
    (req : Request) (s : S)
    → (found : Option (List Stub × Stub × List Stub)) × IsFirst env engine req stubs s found
        (match_request env engine stubs d req s).1
      × Answers env d stubs found (match_request env engine stubs d req s).0
unfolding match_request
match_request-IsFirst env engine stubs d req s = (
  (find_stub env engine stubs req s).0,
  find_stub-IsFirst env engine req stubs s,
  answer-Answers env d stubs (find_stub env engine stubs req s).0,
)
