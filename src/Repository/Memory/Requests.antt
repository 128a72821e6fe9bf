-- ===== src/Repository/Memory/Requests.antt =====
-- internal/repository/memory.go: what a run of AddRequest records.
use mathlib.Core.Path.{ap₂}
use go_tartuffe.Prelude.{
  ℕ, suc, ◌+◌, ◌^◌, ◌<◌, Bool, true, false, List, [], ◌∷◌, ◌++◌, length, append_assoc, append-nil,
  Option, some, if◌then◌else◌, ℤ, pos, increment, int_eq_refl, ◌≡◌, refl, ap, sym, ◌∙◌, arith,
}
use go_tartuffe.Models.Request.{Request}
use go_tartuffe.Models.Imposter.{Imposter}
use go_tartuffe.Repository.{ok}
use go_tartuffe.Repository.Memory.{
  InMemory, get, apply_change, changed, record_request, count_request, add_request,
}
use go_tartuffe.Prelude.{find}
use go_tartuffe.Repository.Memory.Laws.{get-put, apply_change-ok}

-- AddRequest for each of the requests.
abbrev pub recorded : ℤ → List Request → InMemory → InMemory
recorded port [] r = r
recorded port (req ∷ reqs) r = recorded port reqs (apply_change (add_request req) port r).1

-- The imposter with these requests recorded, `n` having been counted before.
abbrev pub with_requests : ℕ → List Request → Imposter → Imposter
with_requests n reqs imp = record imp {
  requests = if imp.record_requests then imp.requests ++ reqs else imp.requests;
  number_of_requests = some (pos (n + length reqs));
}

pub get-found :
    (port : ℤ) (r : InMemory) (imp : Imposter)
    → get port r ≡ ok imp
    → find port r.imposters ≡ some imp
unfolding get
get-found port r imp h = ground arith

get-add_request :
    (port : ℤ) (req : Request) (r : InMemory) (imp : Imposter)
    → get port r ≡ ok imp
    → get port (apply_change (add_request req) port r).1 ≡ ok (record_request req imp)
get-add_request port req r imp h =
    rw
      (
        apply_change-ok (add_request req) port r imp (get-found port r imp h)
            (record_request req imp) (unfold changed in refl),
        get-put port port (record_request req imp) r,
        int_eq_refl,
      )
      refl

counted :
    (n : ℕ) (c : Option ℤ)
    → n + 1 < 2 ^ 63
    → c ≡ some (pos n)
    → count_request c ≡ some (pos (n + 1))
unfolding count_request increment
counted n c small e = rw e (ground arith)

-- An imposter with other requests and another count.
recount : Imposter → List Request → Option ℤ → Imposter
recount imp reqs c = record imp { requests = reqs; number_of_requests = c }

record_request_lem :
    (n : ℕ) (req : Request) (imp : Imposter)
    → n + 1 < 2 ^ 63
    → imp.number_of_requests ≡ some (pos n)
    → record_request req imp ≡ with_requests n (req ∷ []) imp
unfolding record_request recount
record_request_lem n req imp small e =
    ap (recount imp (if imp.record_requests then imp.requests ++ req ∷ [] else imp.requests))
      (counted n imp.number_of_requests small e)

appended_none : (b : Bool) (rs : List Request) → (if b then rs ++ [] else rs) ≡ rs
appended_none true rs = append-nil rs
appended_none false rs = refl

appended_more :
    (b : Bool) (rs : List Request) (req : Request) (reqs : List Request)
    → (let one = if b then rs ++ req ∷ [] else rs in if b then one ++ reqs else one)
      ≡ (if b then rs ++ req ∷ reqs else rs)
appended_more true rs req reqs = append_assoc rs (req ∷ []) reqs
appended_more false rs req reqs = refl

same_count : (n m : ℕ) → n ≡ m → ◌≡◌ {A = Option ℤ} (some (pos n)) (some (pos m))
same_count n m e = ap (λ k. some (pos k)) e

with_requests-nil :
    (n : ℕ) (imp : Imposter) → imp.number_of_requests ≡ some (pos n) → with_requests n [] imp ≡ imp
unfolding recount
with_requests-nil n imp e =
    ap₂ (recount imp) (appended_none imp.record_requests imp.requests)
      (same_count (n + 0) n (omega arith) ∙ sym e)

with_requests-cons :
    (n : ℕ) (req : Request) (reqs : List Request) (imp : Imposter)
    → with_requests (n + 1) reqs (with_requests n (req ∷ []) imp) ≡ with_requests n (req ∷ reqs) imp
unfolding recount
with_requests-cons n req reqs imp =
    ap₂ (recount imp) (appended_more imp.record_requests imp.requests req reqs)
      (same_count (n + 1 + length reqs) (n + suc (length reqs)) (omega arith))

-- A run of AddRequest counts every request. It appends them, in order, to the recorded ones of an
-- imposter that records requests, and leaves those of any other imposter as they were. The count
-- stays below 2^63.
pub get-recorded :
    (port : ℤ) (reqs : List Request) (r : InMemory) (imp : Imposter) (n : ℕ)
    → get port r ≡ ok imp
    → imp.number_of_requests ≡ some (pos n)
    → n + length reqs < 2 ^ 63
    → get port (recorded port reqs r) ≡ ok (with_requests n reqs imp)
get-recorded port [] r imp n h e small = rw (with_requests-nil n imp e) h
get-recorded port (req ∷ reqs) r imp n h e small =
    let one = record_request_lem n req imp (omega arith) e in
    get-recorded port reqs (apply_change (add_request req) port r).1
      (with_requests n (req ∷ []) imp) (n + 1) (get-add_request port req r imp h ∙ ap ok one)
      (same_count (n + 1) (n + 1) refl) (omega arith)
    ∙ ap ok (with_requests-cons n req reqs imp)
