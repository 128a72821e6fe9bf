-- ===== src/Repository.antt =====
-- internal/repository/repository.go: the errors of imposter storage, and results that may hold them.
pub mod Memory
pub mod Filesystem
use go_tartuffe.Prelude.{ℤ, ◌⊎◌, inl, inr, ◌≡◌, refl}

pub data RepositoryError : Type 0 where
  not_found : ℤ → RepositoryError
  conflict : ℤ → RepositoryError
  invalid_index : ℤ → ℤ → RepositoryError

-- A Go pair (value, error) of which one part is set.
pub data Result {ℓ} (A : Type ℓ) : Type ℓ where
  ok : A → Result A
  err : RepositoryError → Result A

pub Result-cases {ℓ} :
    {A : Type ℓ} (r : Result A) → ((a : A) × (r ≡ ok a)) ⊎ ((e : RepositoryError) × (r ≡ err e))
Result-cases (ok a) = inl (a, refl)
Result-cases (err e) = inr (e, refl)

pub ok-injective {ℓ} : {A : Type ℓ} (a b : A) → ok a ≡ ok b → a ≡ b
ok-injective a b h = cc
