-- ===== src/Api/Imposters.antt =====
-- internal/api/handlers/imposters.go: the handlers of the list of imposters.
pub mod Created
pub mod Replaced
use go_tartuffe.Prelude.{
  ℕ, Text, codes, text_eq, Bool, true, false, not, ◌&&◌, ◌||◌, any, Option, none, some, List, [],
  ◌∷◌, map, ◌++◌, if◌then◌else◌, is_blank, is_some, ltb, int_eq, ℤ, pos, negsuc, atoi,
}
use go_tartuffe.Models.Predicate.{Predicate, predicate}
use go_tartuffe.Models.Stub.{Stub}
use go_tartuffe.Models.Imposter.{Imposter}
use go_tartuffe.Repository.{Result, ok, err, RepositoryError, not_found, conflict, invalid_index}
use go_tartuffe.Repository.Memory.{
  InMemory, get, add, delete, delete_all, all_imposters, apply_change, clear_requests,
  clear_requests_and_proxy_stubs,
}
use go_tartuffe.Manager.{
  Server, Manager, ManagerError, Surroundings, kind_of, listening, start, stop, stop_all,
}
use go_tartuffe.Api.{
  ApiRequest, Body, one, several, nothing, error, page, bad_data, resource_conflict,
  no_such_resource, invalid_json, Reply, refusal, repository_refusal, World, reset_server,
}
use go_tartuffe.Api.Options.{no_options, parse_options, delete_options, apply_options}
use go_tartuffe.Api.Stubs.{show_imposter, with_repository}

-- port < low || port > 65535
unfoldable pub is_port_from : ℕ → ℤ → Bool
is_port_from low (negsuc n) = false
is_port_from low (pos n) = not (ltb n low) && not (ltb 65535 n)

-- validProtocols[protocol], which are also those that the manager is asked to start.
unfoldable pub is_served : Text → Bool
is_served protocol =
    text_eq protocol (codes "http")
    || text_eq protocol (codes "https")
    || text_eq protocol (codes "tcp")
    || text_eq protocol (codes "smtp")

abbrev pub has_matches : Predicate → Bool
has_matches (predicate a o n ops) = is_some ops.matches

-- A matches predicate of an imposter in binary mode.
unfoldable pub uses_matches : List Stub → Bool
uses_matches stubs = any (λ (s : Stub). any has_matches s.predicates) stubs

-- The count that is set if there is none.
unfoldable pub counted : Imposter → Imposter
counted imp = elim imp.number_of_requests [
  | none ↦ record imp { number_of_requests = some (pos 0) }
  | some n ↦ imp
]

unfoldable pub with_default_mode : Imposter → Imposter
with_default_mode imp =
    if text_eq imp.protocol (codes "tcp") && is_blank imp.mode
    then record imp { mode = codes "text" }
    else imp

-- The checks of CreateImposter, in their order; the API itself listens on `api_port`.
unfoldable pub create_refusal : ℤ → Imposter → Option Reply
unfolding is_port_from is_served uses_matches with_default_mode
create_refusal api_port imp =
    if is_blank imp.protocol
    then some (refusal 400 bad_data)
    else if not (is_port_from 0 imp.port)
    then some (refusal 400 bad_data)
    else if not (int_eq imp.port (pos 0)) && int_eq imp.port api_port
    then some (refusal 400 resource_conflict)
    else if not (is_served imp.protocol)
    then some (refusal 400 bad_data)
    else if text_eq imp.protocol (codes "tcp")
        && text_eq (with_default_mode imp).mode (codes "binary")
        && uses_matches imp.stubs
    then some (refusal 400 bad_data)
    else none

-- The imposter as Start leaves it: port 0 has become the port of the listener.
unfoldable pub started_imposter : Surroundings → Imposter → Imposter
unfolding kind_of listening
started_imposter out imp = elim out.listen [
  | none ↦ imp
  | some port ↦ listening (kind_of imp.protocol) port imp
]

unfoldable pub add_refusal : RepositoryError → Reply
add_refusal (conflict port) = refusal 400 resource_conflict
add_refusal e = refusal 500 bad_data

-- repo.Add after the start, with the server stopped again if it fails.
abbrev pub finish_create :
    ApiRequest → Bool → Imposter → World → Result (Unit {0}) × InMemory → Reply × World
finish_create r in_time imp w (ok u, repo) =
    (record { status = 201; body = one (apply_options r no_options imp) }, with_repository w repo)
finish_create r in_time imp w (err e, repo) =
    (add_refusal e, record { repository = repo; manager = (stop imp.port in_time w.manager).1 })

abbrev pub after_start :
    ApiRequest → Bool → Imposter → World → Option ManagerError × Manager → Reply × World
after_start r in_time imp w (some e, m) = (refusal 400 resource_conflict, record w { manager = m })
after_start r in_time imp w (none, m) =
    finish_create r in_time imp (record w { manager = m }) (add imp w.repository)

-- CreateImposter
unfoldable pub create_imposter :
    ApiRequest → ℤ → Surroundings → Bool → Option Imposter → World → Reply × World
unfolding create_refusal started_imposter with_default_mode counted add_refusal
create_imposter r api_port out in_time decoded w = elim decoded [
  | none ↦ (refusal 400 invalid_json, w)
  | some imp ↦ elim (create_refusal api_port imp) [
    | some reply ↦ (reply, w)
    | none ↦
        let imp' = with_default_mode (counted imp) in
        after_start r in_time (started_imposter out imp') w (start out imp' w.manager)
  ]
]

-- GetImposters
unfoldable pub get_imposters : ApiRequest → World → Reply
unfolding parse_options
get_imposters r w =
    let imposters = all_imposters w.repository in
    record {
      status = 200;
      body =
          if r.accepts_html
          then page imposters
          else several (map (apply_options r (parse_options r)) imposters);
    }

-- DeleteImposters
unfoldable pub delete_imposters : ApiRequest → (Server → Bool) → World → Reply × World
unfolding delete_options delete_all
delete_imposters r in_time w =
    let (imposters, repo) = delete_all w.repository in
    (
      record { status = 200; body = several (map (apply_options r (delete_options r)) imposters) },
      record { repository = repo; manager = (stop_all in_time w.manager).1 },
    )

-- The checks of ReplaceImposters on all imposters, before anything changes.
unfoldable pub replace_refused : List Imposter → Bool
unfolding is_port_from
replace_refused [] = false
replace_refused (imp ∷ imps) =
    is_blank imp.protocol || not (is_port_from 1 imp.port) || replace_refused imps

abbrev pub started_if : Bool → Surroundings → Imposter → Manager → Manager
started_if true out imp m = (start out imp m).1
started_if false out imp m = m

-- The loop that creates them: Add, whose error ends it, then Start, whose error is dropped.
unfoldable pub create_each :
    ApiRequest → (Imposter → Surroundings) → List Imposter → List Imposter → World → Reply × World
unfolding counted is_served
create_each r out [] shown w = (record { status = 200; body = several shown }, w)
create_each r out (imp ∷ imps) shown w =
    let imp' = counted imp in
    let (added, repo) = add imp' w.repository in
    let w' : World = record {
      repository = repo;
      manager = started_if (is_served imp'.protocol) (out imp') imp' w.manager;
    } in
    let rest = create_each r out imps (shown ++ apply_options r no_options imp' ∷ []) w' in
    elim added [ err e ↦ (refusal 400 bad_data, with_repository w repo) | ok u ↦ rest ]

-- ReplaceImposters
unfoldable pub replace_imposters :
    ApiRequest
    → (Imposter → Surroundings)
    → (Server → Bool)
    → Option (Option (List Imposter))
    → World
    → Reply × World
unfolding replace_refused create_each
replace_imposters r out in_time decoded w = elim decoded [
  | none ↦ (refusal 400 invalid_json, w)
  | some none ↦ (refusal 400 bad_data, w)
  | some (some imps) ↦
      if replace_refused imps
      then (refusal 400 bad_data, w)
      else create_each r out imps [] (record {
        repository = (delete_all w.repository).1;
        manager = (stop_all in_time w.manager).1;
      })
]
