-- ===== src/Api/OneImposter.antt =====
-- internal/api/handlers/imposter.go: the handlers of one imposter.
use go_tartuffe.Prelude.{Text, Bool, none, some, [], ◌∷◌, if◌then◌else◌, ℤ, atoi}
use go_tartuffe.Repository.{Result, ok, err, RepositoryError, not_found}
use go_tartuffe.Repository.Memory.{
  InMemory, get, delete, apply_change, clear_requests, clear_requests_and_proxy_stubs,
}
use go_tartuffe.Manager.{stop}
use go_tartuffe.Api.{
  ApiRequest, one, nothing, page, bad_data, Reply, refusal, repository_refusal, World, reset_server,
}
use go_tartuffe.Api.Options.{parse_options, delete_options, apply_options}
use go_tartuffe.Api.Stubs.{show_imposter, with_repository}

-- GetImposter
unfoldable pub get_imposter_handler : ApiRequest → Text → World → Reply
unfolding parse_options repository_refusal
get_imposter_handler r id w = elim (atoi id) [
  | none ↦ refusal 400 bad_data
  | some port ↦ elim (get port w.repository) [
    | err e ↦ repository_refusal e
    | ok imp ↦ record {
      status = 200;
      body =
          if r.accepts_html then page (imp ∷ []) else one (apply_options r (parse_options r) imp);
    }
  ]
]

-- A missing imposter is deleted already.
unfoldable pub delete_refusal : RepositoryError → Reply
delete_refusal (not_found port) = record { status = 200; body = nothing }
delete_refusal e = refusal 500 bad_data

-- DeleteImposter
unfoldable pub delete_imposter_handler : ApiRequest → Bool → Text → World → Reply × World
unfolding delete_options delete_refusal
delete_imposter_handler r in_time id w = elim (atoi id) [
  | none ↦ (refusal 400 bad_data, w)
  | some port ↦
      let (deleted, repo) = delete port w.repository in
      elim deleted [
        | err e ↦ (delete_refusal e, with_repository w repo)
        | ok imp ↦ (
          record { status = 200; body = one (apply_options r (delete_options r) imp) },
          record { repository = repo; manager = (stop port in_time w.manager).1 },
        )
      ]
]

-- The reply of a reset: the repository's error, or the imposter, its server's count reset too.
abbrev pub after_reset : ApiRequest → ℤ → World → Result (Unit {0}) × InMemory → Reply × World
after_reset r port w (err e, repo) = (repository_refusal e, with_repository w repo)
after_reset r port w (ok u, repo) =
    (show_imposter r port repo, record { repository = repo; manager = reset_server port w.manager })

-- ResetRequests
unfoldable pub reset_requests : ApiRequest → Text → World → Reply × World
unfolding repository_refusal reset_server show_imposter
reset_requests r id w = elim (atoi id) [
  | none ↦ (refusal 400 bad_data, w)
  | some port ↦ after_reset r port w (apply_change clear_requests port w.repository)
]

-- DeleteRequests
unfoldable pub delete_requests : ApiRequest → Text → World → Reply × World
unfolding repository_refusal reset_server show_imposter
delete_requests r id w = elim (atoi id) [
  | none ↦ (refusal 400 bad_data, w)
  | some port ↦ after_reset r port w (apply_change clear_requests_and_proxy_stubs port w.repository)
]
