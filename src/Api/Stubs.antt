-- ===== src/Api/Stubs.antt =====
-- internal/api/handlers/stubs.go: the handlers of an imposter's stubs. The body comes decoded, `none`
-- if it is no JSON of its type.
pub mod Replaced
use go_tartuffe.Prelude.{
  ℕ, Text, Bool, true, false, Option, none, some, List, [], ◌∷◌, if◌then◌else◌, ℤ, pos, negsuc,
  atoi,
}
use go_tartuffe.Models.Stub.{Stub}
use go_tartuffe.Models.Imposter.{Imposter}
use go_tartuffe.Repository.{Result, ok, err, RepositoryError, not_found, conflict, invalid_index}
use go_tartuffe.Repository.Memory.{
  InMemory, get, apply_change, update_stubs, add_stub, delete_stub, is_outside,
}
use go_tartuffe.Api.{
  ApiRequest, Body, one, error, bad_data, no_such_resource, invalid_json, nothing, Reply, refusal,
  repository_refusal, World,
}
use go_tartuffe.Api.Options.{no_options, apply_options}

-- imp, _ := h.repo.Get(port); … WriteJSON: a missing imposter would be dereferenced, and is not there
-- only if the operation before failed.
unfoldable pub show_imposter : ApiRequest → ℤ → InMemory → Reply
show_imposter r port repo = elim (get port repo) [
  | ok imp ↦ record { status = 200; body = one (apply_options r no_options imp) }
  | err e ↦ record { status = 200; body = nothing }
]

abbrev pub with_repository : World → InMemory → World
with_repository w repo = record w { repository = repo }

-- After an operation on the imposter: the imposter as it is now, or the error.
abbrev pub shown_or :
    (RepositoryError → Reply)
    → ApiRequest
    → ℤ
    → World
    → Result (Unit {0}) × InMemory
    → Reply × World
shown_or refuse r port w (ok u, repo) = (show_imposter r port repo, with_repository w repo)
shown_or refuse r port w (err e, repo) = (refuse e, with_repository w repo)

-- ReplaceStubs: the field `stubs` is required.
unfoldable pub replace_stubs_handler :
    ApiRequest → Text → Option (Option (List Stub)) → World → Reply × World
unfolding show_imposter repository_refusal
replace_stubs_handler r id decoded w = elim (atoi id) [
  | none ↦ (refusal 400 bad_data, w)
  | some port ↦ elim decoded [
    | none ↦ (refusal 400 invalid_json, w)
    | some none ↦ (refusal 400 bad_data, w)
    | some (some stubs) ↦
        shown_or repository_refusal r port w (apply_change (update_stubs stubs) port w.repository)
  ]
]

-- The body of AddStub: whether it has the field `stub`, and the stub and the index in it.
pub data StubBody : Type 0 where
  no_json : StubBody
  no_stub : StubBody
  bad_stub : StubBody
  stub_at : Stub → Option ℤ → StubBody

abbrev pub index_or_end : Option ℤ → ℤ
index_or_end none = negsuc 0
index_or_end (some i) = i

-- AddStub
unfoldable pub add_stub_handler : ApiRequest → Text → StubBody → World → Reply × World
unfolding show_imposter repository_refusal
add_stub_handler r id decoded w = elim (atoi id) [
  | none ↦ (refusal 400 bad_data, w)
  | some port ↦ elim decoded [
    | no_json ↦ (refusal 400 invalid_json, w)
    | no_stub ↦ (refusal 400 bad_data, w)
    | bad_stub ↦ (refusal 400 invalid_json, w)
    | stub_at stub index ↦
        shown_or repository_refusal r port w
          (apply_change (add_stub stub (index_or_end index)) port w.repository)
  ]
]

-- DeleteStub, then AddStub at the same index; their errors are dropped.
unfoldable pub replaced_at : ℤ → Stub → ℤ → InMemory → InMemory
replaced_at port stub index repo =
    (apply_change (add_stub stub index) port (apply_change (delete_stub index) port repo).1).1

-- ReplaceStub
unfoldable pub replace_stub_handler : ApiRequest → Text → Text → Option Stub → World → Reply × World
unfolding show_imposter repository_refusal is_outside replaced_at
replace_stub_handler r id stub_index decoded w = elim (atoi id) [
  | none ↦ (refusal 400 bad_data, w)
  | some port ↦ elim (atoi stub_index) [
    | none ↦ (refusal 400 bad_data, w)
    | some index ↦ elim decoded [
      | none ↦ (refusal 400 invalid_json, w)
      | some stub ↦ elim (get port w.repository) [
        | err e ↦ (repository_refusal e, w)
        | ok imp ↦
            let repo = replaced_at port stub index w.repository in
            if is_outside index imp.stubs
            then (refusal 404 no_such_resource, w)
            else (show_imposter r port repo, with_repository w repo)
      ]
    ]
  ]
]

-- The errors of DeleteStub: an index out of range is 404 too.
unfoldable pub stub_refusal : RepositoryError → Reply
stub_refusal (not_found port) = refusal 404 no_such_resource
stub_refusal (invalid_index index max) = refusal 404 no_such_resource
stub_refusal (conflict port) = refusal 500 bad_data

-- DeleteStub
unfoldable pub delete_stub_handler : ApiRequest → Text → Text → World → Reply × World
unfolding show_imposter stub_refusal
delete_stub_handler r id stub_index w = elim (atoi id) [
  | none ↦ (refusal 400 bad_data, w)
  | some port ↦ elim (atoi stub_index) [
    | none ↦ (refusal 400 bad_data, w)
    | some index ↦
        shown_or stub_refusal r port w (apply_change (delete_stub index) port w.repository)
  ]
]
