-- ===== src/Api/Stubs/Replaced.antt =====
-- internal/api/handlers/stubs.go and internal/repository/memory.go: ReplaceStub.
use native.Mathlib.Numerals.{add-one}
use go_tartuffe.Prelude.{
  ℕ, zero, suc, ◌<◌, ◌≤◌, Text, Bool, true, false, some, List, [], ◌∷◌, ◌++◌, take, drop, length,
  leb, if◌then◌else◌, ℤ, pos, int_eq, int_eq_refl, put, atoi, ◌≡◌, refl, ap, ◌∙◌, arith,
}
use go_tartuffe.Models.Stub.{Stub}
use go_tartuffe.Models.Imposter.{Imposter}
use go_tartuffe.Repository.{ok}
use go_tartuffe.Repository.Memory.{
  InMemory, get, changed, add_stub, delete_stub, is_outside, without_stub,
}
use go_tartuffe.Repository.Memory.Laws.{apply_change-ok, get-put}
use go_tartuffe.Repository.Memory.Requests.{get-found}
use go_tartuffe.Repository.Memory.Stubs.{insert_at, with_stub-insert}
use go_tartuffe.Api.{ApiRequest, World, one}
use go_tartuffe.Api.Options.{apply_options, no_options}
use go_tartuffe.Api.Stubs.{replaced_at, replace_stub_handler, show_imposter}

module _ {ℓ} {A : Type ℓ} where
  take-removed :
      (i : ℕ) (xs : List A) → i < length xs → take i (take i xs ++ drop (suc i) xs) ≡ take i xs
  take-removed zero xs h = refl
  take-removed (suc i) [] h = absurd (omega (arith, h))
  take-removed (suc i) (x ∷ xs) h = ap (◌∷◌ x) (take-removed i xs (omega (arith, h)))

  drop-removed :
      (i : ℕ) (xs : List A)
      → i < length xs
      → drop i (take i xs ++ drop (suc i) xs) ≡ drop (suc i) xs
  drop-removed zero xs h = refl
  drop-removed (suc i) [] h = absurd (omega (arith, h))
  drop-removed (suc i) (x ∷ xs) h = drop-removed i xs (omega (arith, h))

  length-removed : (i : ℕ) (xs : List A) → i < length xs → i ≤ length (take i xs ++ drop (suc i) xs)
  length-removed zero xs h = omega arith
  length-removed (suc i) [] h = absurd (omega (arith, h))
  length-removed (suc i) (x ∷ xs) h = omega (arith, length-removed i xs)

-- The imposter with a stub in the place of another one.
abbrev pub with_replaced : ℕ → Stub → Imposter → Imposter
with_replaced i stub imp = record imp { stubs = take i imp.stubs ++ stub ∷ drop (suc i) imp.stubs }

abbrev without_at : ℕ → Imposter → Imposter
without_at i imp = record imp { stubs = take i imp.stubs ++ drop (suc i) imp.stubs }

inner_if {ℓ} :
    {A : Type ℓ} (b : Bool) (x y z : A)
    → (if b then x else if b then y else z) ≡ (if b then x else z)
inner_if true x y z = refl
inner_if false x y z = refl

module _ (imp : Imposter) (i : ℕ) (inside : i < length imp.stubs) where
  deleted : changed (delete_stub (pos i)) imp ≡ ok (without_at i imp)
  unfolding changed without_stub is_outside
  deleted =
      let e : leb (length imp.stubs) i ≡ false = ground (arith, inside) in
      rw (changed, without_stub, e, add-one) refl

  added :
      (stub : Stub)
      → changed (add_stub stub (pos i)) (without_at i imp) ≡ ok (with_replaced i stub imp)
  unfolding changed insert_at
  added stub =
      rw
        (
          with_stub-insert stub i (without_at i imp).stubs (length-removed i imp.stubs inside),
          take-removed i imp.stubs inside,
          drop-removed i imp.stubs inside,
        )
        refl

  get-replaced_at :
      (port j : ℤ) (stub : Stub) (repo : InMemory)
      → get port repo ≡ ok imp
      → get j (replaced_at port stub (pos i) repo)
        ≡ (if int_eq port j then ok (with_replaced i stub imp) else get j repo)
  unfolding replaced_at
  get-replaced_at port j stub repo h =
      let r1 : InMemory = record { imposters = put port (without_at i imp) repo.imposters } in
      let first =
        apply_change-ok (delete_stub (pos i)) port repo imp (get-found port repo imp h)
          (without_at i imp) deleted in
      let there : get port r1 ≡ ok (without_at i imp) =
        rw (get-put port port (without_at i imp) repo, int_eq_refl) refl in
      let second =
        apply_change-ok (add_stub stub (pos i)) port r1 (without_at i imp)
          (get-found port r1 (without_at i imp) there) (with_replaced i stub imp) (added stub) in
      rw
        (
          replaced_at,
          first,
          second,
          get-put port j (with_replaced i stub imp) r1,
          get-put port j (without_at i imp) repo,
        )
        (inner_if (int_eq port j) (ok (with_replaced i stub imp)) (ok (without_at i imp))
          (get j repo))

show_imposter_lem :
    (r : ApiRequest) (port : ℤ) (repo : InMemory) (imp : Imposter)
    → get port repo ≡ ok imp
    → show_imposter r port repo
      ≡ record { status = 200; body = one (apply_options r no_options imp) }
unfolding show_imposter
show_imposter_lem r port repo imp h = rw (h, show_imposter) refl

-- ReplaceStub at an index within the imposter's stubs puts the new stub in the place of the old one
-- and leaves every other stub where it was. The reply, of status 200, shows the imposter so. The
-- imposters on other ports are as before.
pub replace_stub_handler-replaces :
    (r : ApiRequest) (id stub_index : Text) (stub : Stub) (w : World) (port j : ℤ) (i : ℕ)
    (imp : Imposter)
    → atoi id ≡ some port
    → atoi stub_index ≡ some (pos i)
    → get port w.repository ≡ ok imp
    → i < length imp.stubs
    → (let (reply, w') = replace_stub_handler r id stub_index (some stub) w in
        (reply ≡ record {
          status = 200;
          body = one (apply_options r no_options (with_replaced i stub imp));
        })
        × (get j w'.repository
            ≡ (if int_eq port j then ok (with_replaced i stub imp) else get j w.repository)))
unfolding replace_stub_handler is_outside
replace_stub_handler-replaces r id stub_index stub w port j i imp e e' h inside =
    let within : leb (length imp.stubs) i ≡ false = ground (arith, inside) in
    let here =
      get-replaced_at imp i inside port port stub w.repository h
      ∙ ap (λ b. if b then ok (with_replaced i stub imp) else get port w.repository)
          (int_eq_refl port) in
    rw (e, e', h, within, replace_stub_handler, is_outside)
      (
        show_imposter_lem r port (replaced_at port stub (pos i) w.repository)
            (with_replaced i stub imp) here,
        get-replaced_at imp i inside port j stub w.repository h,
      )
