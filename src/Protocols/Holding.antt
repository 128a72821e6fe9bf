-- ===== src/Protocols/Holding.antt =====
-- The matchers of SMTP, TCP and gRPC: what it means that a tree of predicates holds.
use go_tartuffe.Prelude.{
  Bool, true, false, not, ◌&&◌, ◌||◌, Option, none, some, List, [], ◌∷◌, ◌≡◌, refl, ◌↔◌, ◌⊎◌, inl,
  inr, arith, Bool-cases,
}
use go_tartuffe.Models.Predicate.{
  Predicate, predicate, unset, clauses, no_negation, negated, Predicates, no_predicates, more,
  Operators,
}
use go_tartuffe.Protocols.{evaluate, evaluate_all, evaluate_any, matches_all}

-- What is tested first decides, if it does; else the rest.
abbrev pub Decided : Option Bool → Type 0 → Type 0
Decided (some b) rest = b ≡ true
Decided none rest = rest

module _ (before : Operators → Option Bool) (compare : Operators → Bool) where
  -- All clauses of `and`, some clause of `or`, not the one of `not`, or else the operators.
  unfoldable mutual
    pub Holds : Predicate → Type 0
    Holds (predicate (clauses ps) o n ops) = Decided (before ops) (AllHold ps)
    Holds (predicate unset (clauses ps) n ops) = Decided (before ops) (SomeHolds ps)
    Holds (predicate unset unset (negated p) ops) = Decided (before ops) (¬ (Holds p))
    Holds (predicate unset unset no_negation ops) = Decided (before ops) (compare ops ≡ true)

    pub AllHold : Predicates → Type 0
    AllHold no_predicates = Unit
    AllHold (more p ps) = Holds p × AllHold ps

    pub SomeHolds : Predicates → Type 0
    SomeHolds no_predicates = ⊥
    SomeHolds (more p ps) = Holds p ⊎ SomeHolds ps

  -- All predicates of the stub hold.
  abbrev pub Accepts : List Predicate → Type 0
  Accepts [] = Unit
  Accepts (p ∷ ps) = Holds p × Accepts ps

and_true : (a b : Bool) → a ≡ true → b ≡ true → (a && b) ≡ true
and_true a b h k = ground arith

or_left : (a b : Bool) → a ≡ true → (a || b) ≡ true
or_left a b h = ground arith

or_right : (a b : Bool) → b ≡ true → (a || b) ≡ true
or_right a b h = ground arith

and_inv : (a b : Bool) → (a && b) ≡ true → (a ≡ true) × (b ≡ true)
and_inv a b h = (ground arith, ground arith)

not_inv : (a : Bool) → not a ≡ true → a ≡ true → ⊥
not_inv a h k = ground arith

not_intro : (a : Bool) → ¬ (a ≡ true) → not a ≡ true
not_intro true h = absurd (h refl)
not_intro false h = refl

decide-Decided :
    (early : Option Bool) (b : Bool) (T : Type 0)
    → ((b ≡ true) ↔ T)
    → (elim early as (λ x. Bool) [ some e ↦ e | none ↦ b ]) ≡ true ↔ Decided early T
decide-Decided (some e) b T h = (λ x. x, λ x. x)
decide-Decided none b T h = h

module _ (before : Operators → Option Bool) (compare : Operators → Bool) where
  mutual
    unfolding evaluate Holds

    evaluate-Holds : (p : Predicate) → (evaluate before compare p ≡ true) ↔ Holds before compare p
    evaluate-Holds (predicate (clauses ps) o n ops) =
        decide-Decided (before ops) _ _ (evaluate_all-AllHold ps)
    evaluate-Holds (predicate unset (clauses ps) n ops) =
        decide-Decided (before ops) _ _ (evaluate_any-SomeHolds ps)
    evaluate-Holds (predicate unset unset (negated p) ops) =
        let h = evaluate-Holds p in
        decide-Decided (before ops) _ _ (
          λ e k. not_inv (evaluate before compare p) e (h.1 k),
          λ k. not_intro (evaluate before compare p) (λ e. k (h.0 e)),
        )
    evaluate-Holds (predicate unset unset no_negation ops) =
        decide-Decided (before ops) _ _ (λ x. x, λ x. x)

    evaluate_all-AllHold :
        (ps : Predicates) → (evaluate_all before compare ps ≡ true) ↔ AllHold before compare ps
    evaluate_all-AllHold no_predicates = (λ e. tt, λ u. refl)
    evaluate_all-AllHold (more p ps) =
        let h = evaluate-Holds p in
        let t = evaluate_all-AllHold ps in
        (
          λ e.
              let (a, b) = and_inv (evaluate before compare p) (evaluate_all before compare ps) e in
              (h.0 a, t.0 b),
          λ k. and_true _ _ (h.1 k.0) (t.1 k.1),
        )

    evaluate_any-SomeHolds :
        (ps : Predicates) → (evaluate_any before compare ps ≡ true) ↔ SomeHolds before compare ps
    evaluate_any-SomeHolds no_predicates = (λ e. absurd (ground arith), λ n. absurd n)
    evaluate_any-SomeHolds (more p ps) =
        let h = evaluate-Holds p in
        let t = evaluate_any-SomeHolds ps in
        (
          λ e. elim (Bool-cases (evaluate before compare p)) [
            | inl a ↦ inl (h.0 a)
            | inr a ↦ inr (t.0 (rw a at e))
          ],
          λ k. elim k [ inl a ↦ or_left _ _ (h.1 a) | inr a ↦ or_right _ _ (t.1 a) ],
        )

  pub matches_all-Accepts :
      (ps : List Predicate) → (matches_all before compare ps ≡ true) ↔ Accepts before compare ps
  unfolding matches_all
  matches_all-Accepts [] = (λ e. tt, λ u. refl)
  matches_all-Accepts (p ∷ ps) =
      let h = evaluate-Holds p in
      let t = matches_all-Accepts ps in
      (
        λ e.
            let (a, b) = and_inv (evaluate before compare p) (matches_all before compare ps) e in
            (h.0 a, t.0 b),
        λ k. and_true _ _ (h.1 k.0) (t.1 k.1),
      )
