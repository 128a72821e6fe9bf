-- ===== src/Repository/Memory.antt =====
-- internal/repository/memory.go: imposters in memory, a map from ports. The mutex makes each
-- operation one step. A pointer to an imposter stands in the map once, so a change through it is a
-- change of the map's entry.
pub mod Laws
pub mod Requests
pub mod Stubs
use go_tartuffe.Prelude.{
  ℕ, zero, suc, ◌+◌, Bool, true, false, not, ◌||◌, Option, none, some, List, [], ◌∷◌, ◌++◌, map,
  length, take, drop, leb, if◌then◌else◌, is_some, ℤ, pos, negsuc, increment,
}
use go_tartuffe.Models.Request.{Request}
use go_tartuffe.Models.Stub.{Stub}
use go_tartuffe.Models.Imposter.{Imposter}
use go_tartuffe.Repository.{Result, ok, err, not_found, conflict, invalid_index}
use go_tartuffe.Prelude.{IntMap, find, put, without}

abbrev pub Entries : Type 0
Entries = IntMap Imposter

pub record InMemory : Type 0 where
  pub imposters : Entries

-- NewInMemory
abbrev pub new_in_memory : InMemory
new_in_memory = record { imposters = [] }

-- Exists
unfoldable pub exists : ℤ → InMemory → Bool
exists port r = is_some (find port r.imposters)

-- Add
unfoldable pub add : Imposter → InMemory → Result (Unit {0}) × InMemory
add imp r = elim (find imp.port r.imposters) [
  | some _ ↦ (err (conflict imp.port), r)
  | none ↦ (ok tt, record { imposters = put imp.port imp r.imposters })
]

-- Get
unfoldable pub get : ℤ → InMemory → Result Imposter
get port r = elim (find port r.imposters) [ none ↦ err (not_found port) | some imp ↦ ok imp ]

-- All
unfoldable pub all_imposters : InMemory → List Imposter
all_imposters r = map (λ e. e.1) r.imposters

-- Delete
unfoldable pub delete : ℤ → InMemory → Result Imposter × InMemory
delete port r = elim (find port r.imposters) [
  | none ↦ (err (not_found port), r)
  | some imp ↦ (ok imp, record { imposters = without port r.imposters })
]

-- DeleteAll
unfoldable pub delete_all : InMemory → List Imposter × InMemory
unfolding all_imposters
delete_all r = (all_imposters r, new_in_memory)

-- The operations that change one imposter: `imp, ok := r.imposters[port]`, the change, or its error.
unfoldable pub modify : ℤ → (Imposter → Result Imposter) → InMemory → Result (Unit {0}) × InMemory
modify port change r = elim (find port r.imposters) [
  | none ↦ (err (not_found port), r)
  | some imp ↦ elim (change imp) [
    | ok imp' ↦ (ok tt, record { imposters = put port imp' r.imposters })
    | err e ↦ (err e, r)
  ]
]

-- index < 0 || index >= len(stubs)
unfoldable pub is_outside : ℤ → List Stub → Bool
is_outside (pos i) stubs = leb (length stubs) i
is_outside (negsuc i) stubs = true

abbrev pub index_of : ℤ → ℕ
index_of (pos i) = i
index_of (negsuc i) = 0

-- len(stubs) - 1
unfoldable pub max_index : List Stub → ℤ
max_index [] = negsuc 0
max_index (s ∷ stubs) = pos (length stubs)

unfoldable pub with_stub : Stub → ℤ → List Stub → List Stub
unfolding is_outside
with_stub stub index stubs =
    if is_outside index stubs
    then stubs ++ stub ∷ []
    else take (index_of index) stubs ++ stub ∷ drop (index_of index) stubs

unfoldable pub without_stub : ℤ → List Stub → Result (List Stub)
unfolding is_outside max_index
without_stub index stubs =
    if is_outside index stubs
    then err (invalid_index index (max_index stubs))
    else ok (take (index_of index) stubs ++ drop (index_of index + 1) stubs)

abbrev pub cleared : Imposter → Imposter
cleared imp = record imp {
  requests = [];
  tcp_requests = [];
  smtp_requests = [];
  grpc_requests = [];
  number_of_requests = some (pos 0);
}

unfoldable pub keep_written : List Stub → List Stub
keep_written [] = []
keep_written (s ∷ stubs) =
    let rest = keep_written stubs in if s.is_proxy_generated then rest else s ∷ rest

unfoldable pub count_request : Option ℤ → Option ℤ
count_request none = some (pos 1)
count_request (some n) = some (increment n)

unfoldable pub record_request : Request → Imposter → Imposter
unfolding count_request
record_request req imp = record imp {
  requests = if imp.record_requests then imp.requests ++ req ∷ [] else imp.requests;
  number_of_requests = count_request imp.number_of_requests;
}

-- UpdateStubs, AddStub, DeleteStub, ClearRequests, ClearRequestsAndProxyStubs and AddRequest.
pub data Change : Type 0 where
  update_stubs : List Stub → Change
  add_stub : Stub → ℤ → Change
  delete_stub : ℤ → Change
  clear_requests : Change
  clear_requests_and_proxy_stubs : Change
  add_request : Request → Change

unfoldable pub changed : Change → Imposter → Result Imposter
changed (update_stubs stubs) imp = ok (record imp { stubs = stubs })
changed (add_stub stub index) imp = ok (record imp { stubs = with_stub stub index imp.stubs })
changed (delete_stub index) imp = elim (without_stub index imp.stubs) [
  | ok stubs ↦ ok (record imp { stubs = stubs })
  | err e ↦ err e
]
changed clear_requests imp = ok (cleared imp)
changed clear_requests_and_proxy_stubs imp =
    ok (record (cleared imp) { stubs = keep_written imp.stubs })
changed (add_request req) imp = ok (record_request req imp)

unfoldable pub apply_change : Change → ℤ → InMemory → Result (Unit {0}) × InMemory
unfolding modify changed
apply_change c port = modify port (changed c)
