-- ===== src/Prelude/PortMaps.antt =====
-- A map[int]V, as the list of its entries.
use mathlib.Core.Path.{◌≡◌, refl}
use mathlib.Core.List.{List, [], ◌∷◌}
use mathlib.Core.Option.{Option, none, some}
use native.Mathlib.Omega.{arith}
use go_tartuffe.Prelude.Tests.{if◌then◌else◌}
use go_tartuffe.Prelude.Int.{ℤ, int_eq, int_eq_iff, int_eq_refl}

abbrev pub IntMap {ℓ} : Type ℓ → Type ℓ
IntMap V = List (ℤ × V)

module _ {ℓ} {V : Type ℓ} where
  -- v, ok := m[key]
  unfoldable pub find : ℤ → IntMap V → Option V
  find key [] = none
  find key ((k, v) ∷ m) = if int_eq k key then some v else find key m

  -- m[key] = v
  unfoldable pub put : ℤ → V → IntMap V → IntMap V
  put key v [] = (key, v) ∷ []
  put key v ((k, old) ∷ m) = if int_eq k key then (key, v) ∷ m else (k, old) ∷ put key v m

  -- delete(m, key)
  unfoldable pub without : ℤ → IntMap V → IntMap V
  without key [] = []
  without key ((k, v) ∷ m) =
      let rest = without key m in if int_eq k key then rest else (k, v) ∷ rest

  pub find-put :
      (key j : ℤ) (v : V) (m : IntMap V)
      → find j (put key v m) ≡ (if int_eq key j then some v else find j m)
  unfolding find put
  find-put key j v [] = refl
  find-put key j v ((k, old) ∷ m) =
      ground (arith, int_eq_iff key j, int_eq_iff k key, int_eq_iff k j, find-put key j v m)

  pub find-without :
      (key j : ℤ) (m : IntMap V)
      → find j (without key m) ≡ (if int_eq key j then none else find j m)
  unfolding find without
  find-without key j [] = ground arith
  find-without key j ((k, old) ∷ m) =
      ground (arith, int_eq_iff key j, int_eq_iff k key, int_eq_iff k j, find-without key j m)

  pub put-put : (key : ℤ) (v w : V) (m : IntMap V) → put key v (put key w m) ≡ put key v m
  unfolding put
  put-put key v w [] = rw (int_eq_refl key) refl
  put-put key v w ((k, old) ∷ m) = ground (arith, int_eq_refl key, put-put key v w m)
