-- ===== src/Repository/Memory/Stubs.antt =====
-- internal/repository/memory.go: the list of stubs under AddStub, DeleteStub and
-- ClearRequestsAndProxyStubs.
use native.Mathlib.Numerals.{add-one}
use go_tartuffe.Prelude.{
  ℕ, zero, suc, ◌≤◌, true, false, List, [], ◌∷◌, ◌++◌, length, take, drop, get_elem?, leb, some,
  take-append-drop, pos, ◌≡◌, refl, ap, sym, ◌∙◌, arith, Bool-cases, inl, inr, subst,
}
use go_tartuffe.Models.Stub.{Stub}
use go_tartuffe.Models.Imposter.{Imposter}
use go_tartuffe.Repository.{ok, ok-injective}
use go_tartuffe.Repository.Memory.{
  with_stub, without_stub, keep_written, changed, add_stub, delete_stub,
  clear_requests_and_proxy_stubs,
}

module _ {ℓ} {A : Type ℓ} where
  unfoldable pub insert_at : ℕ → A → List A → List A
  insert_at i x xs = take i xs ++ x ∷ drop i xs

  take-insert :
      (i : ℕ) (x : A) (xs : List A) → i ≤ length xs → take i (insert_at i x xs) ≡ take i xs
  unfolding insert_at
  take-insert zero x xs h = refl
  take-insert (suc i) x [] h = absurd (omega arith)
  take-insert (suc i) x (y ∷ xs) h = ap (◌∷◌ y) (take-insert i x xs (omega arith))

  drop-insert :
      (i : ℕ) (x : A) (xs : List A) → i ≤ length xs → drop (suc i) (insert_at i x xs) ≡ drop i xs
  unfolding insert_at
  drop-insert zero x xs h = refl
  drop-insert (suc i) x [] h = absurd (omega arith)
  drop-insert (suc i) x (y ∷ xs) h = drop-insert i x xs (omega arith)

  get-insert :
      (i : ℕ) (x : A) (xs : List A) → i ≤ length xs → get_elem? (insert_at i x xs) i ≡ some x
  unfolding insert_at
  get-insert zero x xs h = refl
  get-insert (suc i) x [] h = absurd (omega arith)
  get-insert (suc i) x (y ∷ xs) h = get-insert i x xs (omega arith)

  length-insert :
      (i : ℕ) (x : A) (xs : List A) → i ≤ length xs → length (insert_at i x xs) ≡ suc (length xs)
  unfolding insert_at
  length-insert zero x xs h = refl
  length-insert (suc i) x [] h = absurd (omega arith)
  length-insert (suc i) x (y ∷ xs) h = ap suc (length-insert i x xs (omega arith))

  take-length : (xs : List A) → take (length xs) xs ≡ xs
  take-length [] = refl
  take-length (x ∷ xs) = ap (◌∷◌ x) (take-length xs)

  drop_all : (xs : List A) → drop (length xs) xs ≡ []
  drop_all [] = refl
  drop_all (x ∷ xs) = drop_all xs

insert_end :
    (stub : Stub) (stubs : List Stub) → insert_at (length stubs) stub stubs ≡ stubs ++ stub ∷ []
unfolding insert_at
insert_end stub stubs = rw (take-length, drop_all) refl

with_stub_outside :
    (stub : Stub) (i : ℕ) (stubs : List Stub)
    → leb (length stubs) i ≡ true
    → with_stub stub (pos i) stubs ≡ stubs ++ stub ∷ []
unfolding with_stub
with_stub_outside stub i stubs h = rw h refl

-- An index in range and the end of the list are one case.
pub with_stub-insert :
    (stub : Stub) (i : ℕ) (stubs : List Stub)
    → i ≤ length stubs
    → with_stub stub (pos i) stubs ≡ insert_at i stub stubs
with_stub-insert stub i stubs h = elim (Bool-cases (leb (length stubs) i)) [
  | inl end ↦
      let e : length stubs ≡ i = ground arith in
      with_stub_outside stub i stubs end
      ∙ sym (insert_end stub stubs)
      ∙ ap (λ n. insert_at n stub stubs) e
  | inr inside ↦ unfold with_stub insert_at in rw inside refl
]

without_stub-insert :
    (stub : Stub) (i : ℕ) (stubs : List Stub)
    → i ≤ length stubs
    → without_stub (pos i) (insert_at i stub stubs) ≡ ok stubs
unfolding without_stub
without_stub-insert stub i stubs h =
    let inside : leb (length (insert_at i stub stubs)) i ≡ false =
      ground (arith, length-insert i stub stubs h) in
    rw
      (
        inside,
        add-one,
        take-insert i stub stubs h,
        drop-insert i stub stubs h,
        take-append-drop i stubs,
      )
      refl

with_stub_lem :
    (stub : Stub) (i : ℕ) (stubs : List Stub)
    → i ≤ length stubs
    → (without_stub (pos i) (with_stub stub (pos i) stubs) ≡ ok stubs)
      × (get_elem? (with_stub stub (pos i) stubs) i ≡ some stub)
with_stub_lem stub i stubs h =
    rw (with_stub-insert stub i stubs h)
      (without_stub-insert stub i stubs h, get-insert i stub stubs h)

-- A stub that AddStub puts at an index up to the length of the list stands there, and DeleteStub at
-- that index gives the imposter back as it was.
pub delete_stub-add_stub :
    (stub : Stub) (i : ℕ) (imp imp' : Imposter)
    → i ≤ length imp.stubs
    → changed (add_stub stub (pos i)) imp ≡ ok imp'
    → (changed (delete_stub (pos i)) imp' ≡ ok imp) × (get_elem? imp'.stubs i ≡ some stub)
unfolding changed
delete_stub-add_stub stub i imp imp' h e =
    let (undone, here) = with_stub_lem stub i imp.stubs h in
    subst (λ x. (changed (delete_stub (pos i)) x ≡ ok imp) × (get_elem? x.stubs i ≡ some stub))
      (ok-injective (record imp { stubs = with_stub stub (pos i) imp.stubs }) imp' e)
      (rw (undone, changed) refl, here)

keep_written-append :
    (xs ys : List Stub) → keep_written (xs ++ ys) ≡ keep_written xs ++ keep_written ys
unfolding keep_written
keep_written-append [] ys = refl
keep_written-append (x ∷ xs) ys = ground (arith, keep_written-append xs ys)

abbrev pub AllWritten : List Stub → Type 0
AllWritten [] = Unit
AllWritten (s ∷ stubs) = (s.is_proxy_generated ≡ false) × AllWritten stubs

keep_written-AllWritten : (stubs : List Stub) → AllWritten (keep_written stubs)
unfolding keep_written
keep_written-AllWritten [] = tt
keep_written-AllWritten (s ∷ stubs) = ground (arith, keep_written-AllWritten stubs)

keep_written_id : (stubs : List Stub) → AllWritten stubs → keep_written stubs ≡ stubs
unfolding keep_written
keep_written_id [] h = refl
keep_written_id (s ∷ stubs) h = rw (h.0, keep_written_id stubs h.1) refl

-- ClearRequestsAndProxyStubs leaves no stub that a proxy generated. It keeps every list of other stubs
-- whole and in its place, whatever stands before and after it.
pub clear_proxy_stubs :
    (imp imp' : Imposter) (before kept after : List Stub)
    → imp.stubs ≡ before ++ (kept ++ after)
    → AllWritten kept
    → changed clear_requests_and_proxy_stubs imp ≡ ok imp'
    → AllWritten imp'.stubs × (imp'.stubs ≡ keep_written before ++ (kept ++ keep_written after))
unfolding changed
clear_proxy_stubs imp imp' before kept after e h c =
    let same : keep_written imp.stubs ≡ imp'.stubs = ground arith in
    (
      subst AllWritten same (keep_written-AllWritten imp.stubs),
      sym same ∙ rw (e, keep_written-append, keep_written-append, keep_written_id kept h) refl,
    )
