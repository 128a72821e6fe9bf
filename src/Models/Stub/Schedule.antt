-- ===== src/Models/Stub/Schedule.antt =====
-- internal/models/stub.go: rounds through a stub's responses, and what remains of one.
use go_tartuffe.Prelude.{
  ℕ, zero, suc, ◌+◌, ◌^◌, ◌≤◌, ◌<◌, some, List, [], ◌∷◌, ◌++◌, length, get_elem?, drop, replicate,
  ◌==◌, ℤ, pos, negsuc, ◌≡◌, refl, arith, subst,
}
use go_tartuffe.Models.Stub.{
  Response, Stub, Next, next_response, increment_64, effective_repeat, reached,
}

-- How often a response is handed out in a row.
unfoldable pub times : ℤ → ℕ
times (pos zero) = 1
times (pos (suc n)) = suc n
times (negsuc n) = 1

-- One round through the responses.
unfoldable pub schedule : List Response → List Response
schedule [] = []
schedule (r ∷ rs) = replicate (times r.repeat) r ++ schedule rs

-- `k` elements of the endless repetition of `full`, from `now` on.
unfoldable pub cycle {ℓ} : {A : Type ℓ} → ℕ → List A → List A → List A
cycle zero full now = []
cycle (suc k) full (x ∷ now) = x ∷ cycle k full now
cycle (suc k) [] [] = []
cycle (suc k) (x ∷ xs) [] = x ∷ cycle k (x ∷ xs) xs

-- The results of `k` calls.
unfoldable pub calls : ℕ → Stub → List Next
calls zero s = []
calls (suc k) s = let (next, s') = next_response s in next ∷ calls k s'

abbrev pub All {ℓ κ} : {A : Type ℓ} → (A → Type κ) → List A → Type κ
All P [] = Unit
All P (x ∷ xs) = P x × All P xs

-- Room for the repeat of every response in an int64.
abbrev pub HasSmallRepeats : List Response → Type 0
HasSmallRepeats = All (λ r. times r.repeat < 2 ^ 63)

pub times_pos : (r : ℤ) → 0 < times r
unfolding times
times_pos (pos zero) = omega arith
times_pos (pos (suc n)) = omega arith
times_pos (negsuc n) = omega arith

-- The test on the repeat counter asks whether the response has been handed out often enough.
pub reached_lem :
    (c : ℕ) (r : ℤ)
    → c < times r
    → times r < 2 ^ 63
    → reached (increment_64 c) (effective_repeat r) ≡ (c + 1 == times r)
unfolding times reached increment_64 effective_repeat
reached_lem c (pos zero) h b = ground arith
reached_lem c (pos (suc n)) h b = ground arith
reached_lem c (negsuc n) h b = ground arith

module _ {ℓ} {A : Type ℓ} where
  drop_elem :
      (xs : List A) (i : ℕ) (x : A) → get_elem? xs i ≡ some x → drop i xs ≡ x ∷ drop (suc i) xs
  drop_elem [] i x h = absurd (ground arith)
  drop_elem (y ∷ xs) zero x h = ground arith
  drop_elem (y ∷ xs) (suc i) x h = drop_elem xs i x h

  drop-replicate :
      (m c : ℕ) (x : A) (rest : List A)
      → c < m
      → drop c (replicate m x ++ rest) ≡ x ∷ drop (suc c) (replicate m x ++ rest)
  drop-replicate zero c x rest h = elim h [ ]
  drop-replicate (suc m) zero x rest h = refl
  drop-replicate (suc m) (suc c) x rest h = drop-replicate m c x rest (omega arith)

  drop-replicate_all : (m : ℕ) (x : A) (rest : List A) → drop m (replicate m x ++ rest) ≡ rest
  drop-replicate_all zero x rest = refl
  drop-replicate_all (suc m) x rest = drop-replicate_all m x rest

  pub drop-length : (xs : List A) (n : ℕ) → length xs ≤ n → drop n xs ≡ []
  drop-length [] zero h = refl
  drop-length [] (suc n) h = refl
  drop-length (x ∷ xs) zero h = absurd (omega arith)
  drop-length (x ∷ xs) (suc n) h = drop-length xs n (omega arith)

  pub All_elem :
      (P : A → Type 0) (xs : List A) (i : ℕ) (x : A) → All P xs → get_elem? xs i ≡ some x → P x
  All_elem P [] i x a h = absurd (ground arith)
  All_elem P (y ∷ xs) zero x a h = subst P (ground arith) a.0
  All_elem P (y ∷ xs) (suc i) x a h = All_elem P xs i x a.1 h

-- What is still to come in this round, when response `i` has been handed out `c` times.
abbrev pub upcoming : List Response → ℕ → ℕ → List Response
upcoming rs i c = drop c (schedule (drop i rs))

module _ (rs : List Response) (i c : ℕ) (r : Response) (here : get_elem? rs i ≡ some r) where
  pub upcoming_step : c < times r.repeat → upcoming rs i c ≡ r ∷ upcoming rs i (suc c)
  unfolding schedule
  upcoming_step h = rw (drop_elem rs i r here) (drop-replicate (times r.repeat) c r _ h)

  pub upcoming_last : suc c ≡ times r.repeat → upcoming rs i (suc c) ≡ upcoming rs (suc i) 0
  unfolding schedule
  upcoming_last e = rw (drop_elem rs i r here, e) (drop-replicate_all (times r.repeat) r _)
