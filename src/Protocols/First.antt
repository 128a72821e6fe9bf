-- ===== src/Protocols/First.antt =====
-- The matchers of SMTP, TCP and gRPC: Match comes to the first stub whose predicates all hold.
use go_tartuffe.Prelude.{
  Bool, true, false, Option, none, some, List, [], ◌∷◌, ◌++◌, all, not, ◌≡◌, refl, ap, Bool-cases,
  inl, inr,
}
use go_tartuffe.Models.Predicate.{Operators}
use go_tartuffe.Models.Stub.{Stub}
use go_tartuffe.Protocols.{matches_all, first_stub}

module _ (before : Operators → Option Bool) (compare : Operators → Bool) where
  abbrev pub rejects : Stub → Bool
  rejects stub = not (matches_all before compare stub.predicates)

  -- The stubs before the one that is found are rejected, and it is not; if none is found, all are
  -- rejected.
  abbrev pub IsFirst : List Stub → Option (List Stub × Stub × List Stub) → Type 0
  IsFirst stubs none = all rejects stubs ≡ true
  IsFirst stubs (some (front, found, after)) =
      (stubs ≡ front ++ found ∷ after)
      × (all rejects front ≡ true)
      × (matches_all before compare found.predicates ≡ true)

  pub first_stub-IsFirst : (stubs : List Stub) → IsFirst stubs (first_stub before compare stubs)
  unfolding first_stub
  first_stub-IsFirst [] = refl
  first_stub-IsFirst (stub ∷ stubs) =
      elim (Bool-cases (matches_all before compare stub.predicates)) [
        | inl e ↦ rw (first_stub, e, IsFirst) (refl, refl, e)
        | inr e ↦
            rw (first_stub, e)
              (step stub stubs (first_stub before compare stubs) e (first_stub-IsFirst stubs))
      ]
    where
      step :
          (stub : Stub) (stubs : List Stub) (found : Option (List Stub × Stub × List Stub))
          → matches_all before compare stub.predicates ≡ false
          → IsFirst stubs found
          → IsFirst (stub ∷ stubs) (elim found [
            | none ↦ none
            | some (front, it, after) ↦ some (stub ∷ front, it, after)
          ])
      step stub stubs none e h = rw e h
      step stub stubs (some (front, it, after)) e (p, rejected, holds) =
          (ap (◌∷◌ stub) p, rw e rejected, holds)
