-- ===== src/Repository/Memory/Laws.antt =====
-- internal/repository/memory.go: every operation keeps the map well formed, changes one port only,
-- and changes nothing when it fails.
use go_tartuffe.Prelude.{
  false, none, some, List, [], ◌∷◌, if◌then◌else◌, ℤ, int_eq, int_eq_iff, ◌≡◌, refl, ◌∙◌, arith,
  ◌⊎◌, inl, inr, Option-cases,
}
use go_tartuffe.Models.Imposter.{Imposter}
use go_tartuffe.Repository.{ok, err, not_found, RepositoryError, Result-cases}
use go_tartuffe.Repository.Memory.{Entries}
use go_tartuffe.Prelude.{find, put, without, find-put, find-without}
use go_tartuffe.Repository.Memory.{
  InMemory, exists, add, get, delete, delete_all, Change, changed, apply_change, update_stubs,
  modify, record_request,
}

-- No port stands twice, and each imposter stands under its own port.
abbrev pub AreKeyed : Entries → Type 0
AreKeyed [] = Unit
AreKeyed ((p, imp) ∷ m) = (imp.port ≡ p) × (find p m ≡ none) × AreKeyed m

abbrev pub IsValid : InMemory → Type 0
IsValid r = AreKeyed r.imposters

put-AreKeyed :
    (port : ℤ) (imp : Imposter) (m : Entries)
    → imp.port ≡ port
    → AreKeyed m
    → AreKeyed (put port imp m)
unfolding put find
put-AreKeyed port imp [] e v = (e, refl, tt)
put-AreKeyed port imp ((p, old) ∷ m) e v = ground (
  arith,
  int_eq_iff p port,
  int_eq_iff port p,
  find-put port p imp m,
  put-AreKeyed port imp m e v.2,
)

without-AreKeyed : (port : ℤ) (m : Entries) → AreKeyed m → AreKeyed (without port m)
unfolding without find
without-AreKeyed port [] v = tt
without-AreKeyed port ((p, old) ∷ m) v = ground (
  arith,
  int_eq_iff p port,
  int_eq_iff port p,
  find-without port p m,
  without-AreKeyed port m v.2,
)

find-port :
    (port : ℤ) (m : Entries) (imp : Imposter)
    → AreKeyed m
    → find port m ≡ some imp
    → imp.port ≡ port
unfolding find
find-port port [] imp v h = absurd (ground arith)
find-port port ((p, old) ∷ m) imp v h = ground (arith, int_eq_iff p port, find-port port m imp v.2)

-- No change moves an imposter to another port.
port-changed :
    (c : Change) (imp : Imposter) {imp' : Imposter} → changed c imp ≡ ok imp' → imp'.port ≡ imp.port
unfolding changed record_request
port-changed (update_stubs stubs) imp h = ground arith
port-changed c imp h = ground arith

pub data Operation : Type 0 where
  adding : Imposter → Operation
  deleting : ℤ → Operation
  deleting_all : Operation
  changing : Change → ℤ → Operation

abbrev pub run : Operation → InMemory → InMemory
run (adding imp) r = (add imp r).1
run (deleting port) r = (delete port r).1
run deleting_all r = (delete_all r).1
run (changing c port) r = (apply_change c port r).1

abbrev pub run_all : List Operation → InMemory → InMemory
run_all [] r = r
run_all (o ∷ os) r = run_all os (run o r)

add-IsValid : (imp : Imposter) (r : InMemory) → IsValid r → IsValid (add imp r).1
unfolding add
add-IsValid imp r v = ground (arith, put-AreKeyed imp.port imp r.imposters)

delete-IsValid : (port : ℤ) (r : InMemory) → IsValid r → IsValid (delete port r).1
unfolding delete
delete-IsValid port r v = ground (arith, without-AreKeyed port r.imposters)

module _ (c : Change) (port : ℤ) (r : InMemory) where
  apply_change-missing :
      find port r.imposters ≡ none → apply_change c port r ≡ (err (not_found port), r)
  unfolding apply_change
  apply_change-missing e = rw (e, apply_change, modify) refl

  module _ (imp : Imposter) (here : find port r.imposters ≡ some imp) where
    pub apply_change-ok :
        (imp' : Imposter)
        → changed c imp ≡ ok imp'
        → apply_change c port r ≡ (ok tt, record { imposters = put port imp' r.imposters })
    unfolding apply_change
    apply_change-ok imp' e = rw (here, e, apply_change, modify) refl

    apply_change-err :
        (e : RepositoryError) → changed c imp ≡ err e → apply_change c port r ≡ (err e, r)
    unfolding apply_change
    apply_change-err e h = rw (here, h, apply_change, modify) refl

pub get-put :
    (port j : ℤ) (imp : Imposter) (r : InMemory)
    → get j (record { imposters = put port imp r.imposters })
      ≡ (if int_eq port j then ok imp else get j r)
unfolding get
get-put port j imp r = ground (arith, find-put port j imp r.imposters)

apply_change-IsValid :
    (c : Change) (port : ℤ) (r : InMemory) → IsValid r → IsValid (apply_change c port r).1
apply_change-IsValid c port r v = elim (Option-cases (find port r.imposters)) [
  | inl missing ↦ rw (apply_change-missing c port r missing) v
  | inr (imp, here) ↦ elim (Result-cases (changed c imp)) [
    | inl (imp', e) ↦ rw (apply_change-ok c port r imp here imp' e) (
        put-AreKeyed port imp' r.imposters
          (port-changed c imp e ∙ find-port port r.imposters imp v here) v)
    | inr (e, h) ↦ rw (apply_change-err c port r imp here e h) v
  ]
]

run-IsValid : (o : Operation) (r : InMemory) → IsValid r → IsValid (run o r)
run-IsValid (adding imp) r v = add-IsValid imp r v
run-IsValid (deleting port) r v = delete-IsValid port r v
run-IsValid deleting_all r v = unfold delete_all in tt
run-IsValid (changing c port) r v = apply_change-IsValid c port r v

-- Whatever operations run one after the other, each imposter of a repository that was well formed
-- before them stands under its own port, and no port stands twice.
pub run_all-IsValid : (os : List Operation) (r : InMemory) → IsValid r → IsValid (run_all os r)
run_all-IsValid [] r v = v
run_all-IsValid (o ∷ os) r v = run_all-IsValid os (run o r) (run-IsValid o r v)

-- A change of one port that succeeds is the change of that port's imposter and of nothing else; one
-- that fails changes nothing at all.
pub apply_change_lem :
    (c : Change) (port j : ℤ) (r : InMemory)
    → ((imp imp' : Imposter) × (get port r ≡ ok imp)
        × (changed c imp ≡ ok imp')
        × ((apply_change c port r).0 ≡ ok tt)
        × (get j (apply_change c port r).1 ≡ (if int_eq port j then ok imp' else get j r)))
      ⊎ ((e : RepositoryError) × ((apply_change c port r).0 ≡ err e)
          × ((apply_change c port r).1 ≡ r))
unfolding get
apply_change_lem c port j r = elim (Option-cases (find port r.imposters)) [
  | inl missing ↦ inr (
    not_found port,
    rw (apply_change-missing c port r missing) refl,
    rw (apply_change-missing c port r missing) refl,
  )
  | inr (imp, here) ↦ elim (Result-cases (changed c imp)) [
    | inl (imp', e) ↦ inl (
      imp,
      imp',
      rw (here, get) refl,
      e,
      rw (apply_change-ok c port r imp here imp' e) refl,
      rw (apply_change-ok c port r imp here imp' e) (get-put port j imp' r),
    )
    | inr (e, h) ↦ inr (
      e,
      rw (apply_change-err c port r imp here e h) refl,
      rw (apply_change-err c port r imp here e h) refl,
    )
  ]
]

-- An imposter that is deleted right after it was added comes back, and every port is as before.
pub delete-add :
    (imp : Imposter) (r : InMemory) (j : ℤ)
    → exists imp.port r ≡ false
    → ((delete imp.port (add imp r).1).0 ≡ ok imp)
      × (get j (delete imp.port (add imp r).1).1 ≡ get j r)
unfolding delete add get exists
delete-add imp r j free = ground (
  arith,
  int_eq_iff imp.port imp.port,
  int_eq_iff imp.port j,
  find-put imp.port imp.port imp r.imposters,
  find-put imp.port j imp r.imposters,
  find-without imp.port j (put imp.port imp r.imposters),
)
