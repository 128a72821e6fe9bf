-- ===== src/Prelude/Maps.antt =====
-- Go maps with text keys, as the list of their entries in the order in which a `range` loop meets
-- them. A Go map holds a key once: `IsMap` says so.
use mathlib.Core.Path.{◌≡◌, refl}
use mathlib.Core.List.{List, [], ◌∷◌}
use mathlib.Core.Bool.{Bool}
use mathlib.Core.Option.{Option, none, some}
use go_tartuffe.Prelude.Tests.{if◌then◌else◌}
use go_tartuffe.Prelude.Strings.{Text, text_eq, equal_fold, text_eq_refl}

abbrev pub Assoc {ℓ} : Type ℓ → Type ℓ
Assoc V = List (Text × V)

module _ {ℓ} {V : Type ℓ} where
  -- v, ok := m[k]
  unfoldable pub lookup : Text → Assoc V → Option V
  lookup k [] = none
  lookup k ((j, v) ∷ m) = if text_eq j k then some v else lookup k m

  -- Each key stands once.
  abbrev pub IsMap : Assoc V → Type ℓ
  IsMap [] = Unit
  IsMap ((k, v) ∷ m) = (lookup k m ≡ none) × IsMap m

  -- for j, v := range m { if strings.EqualFold(j, k) { … v … } }
  unfoldable pub lookup_fold : Text → Assoc V → Option V
  lookup_fold k [] = none
  lookup_fold k ((j, v) ∷ m) = if equal_fold j k then some v else lookup_fold k m

  -- The exact key first; then, unless keys are case sensitive, the first key that folds to it.
  unfoldable pub find_key : Bool → Text → Assoc V → Option V
  find_key key_case_sensitive k m = elim (lookup k m) [
    | some v ↦ some v
    | none ↦ if key_case_sensitive then none else lookup_fold k m
  ]

  pub lookup_cons_self : (k : Text) (v : V) (m : Assoc V) → lookup k ((k, v) ∷ m) ≡ some v
  unfolding lookup
  lookup_cons_self k v m = rw (text_eq_refl k) refl

  -- A key that is found exactly is found, whatever the option.
  pub find_key_of_lookup :
      (b : Bool) (k : Text) (m : Assoc V) {v : V} → lookup k m ≡ some v → find_key b k m ≡ some v
  unfolding find_key
  find_key_of_lookup b k m h = rw (h, find_key) refl
