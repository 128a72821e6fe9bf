-- ===== src/Tests/ApiRuns.antt =====
-- internal/api/handlers: the theorems on concrete requests to the management API.
use go_tartuffe.Prelude.{
  codes, true, false, none, some, [], ◌∷◌, if◌then◌else◌, pos, int_eq, atoi, ◌≡◌, refl, ◌⊎◌, find,
  arith,
}
use go_tartuffe.Models.Stub.{Stub, Response, ProxyResponse}
use go_tartuffe.Models.Imposter.{Imposter}
use go_tartuffe.Repository.{ok}
use go_tartuffe.Repository.Memory.{get}
use go_tartuffe.Manager.{Surroundings, new_manager}
use go_tartuffe.Api.{ApiRequest, World, one}
use go_tartuffe.Api.Options.{SerializeOptions, apply_options, no_options}
use go_tartuffe.Api.Options.Filtered.{Shown, apply_options-removes_proxies}
use go_tartuffe.Api.Imposters.{create_refusal, create_imposter}
use go_tartuffe.Api.Imposters.Created.{Created, Refused, create_imposter-outcome}
use go_tartuffe.Api.Imposters.{replace_imposters, replace_refused, is_port_from}
use go_tartuffe.Api.Imposters.Replaced.{AreDistinct, shown_all, on_port, replace_imposters-held}
use go_tartuffe.Prelude.{List}
use go_tartuffe.Repository.{err, not_found}
use go_tartuffe.Api.{several}
use go_tartuffe.Api.Stubs.{replace_stub_handler}
use go_tartuffe.Api.Stubs.Replaced.{with_replaced, replace_stub_handler-replaces}
use go_tartuffe.Tests.{response_with, stub_of, imposter_on}

abbrev request : ApiRequest
request = record {
  replayable = [];
  remove_proxies = codes "true";
  is_tls = false;
  forwarded_proto = [];
  host = codes "localhost:2525";
  accepts_html = false;
}

abbrev plain : Stub
plain = stub_of [] (response_with (codes "a") (pos 0) ∷ []) false

abbrev imposter : Imposter
imposter = imposter_on (pos 3000) (stub_of [] [] true ∷ plain ∷ [])

abbrev world : World
world = record {
  repository = record { imposters = (pos 3000, imposter) ∷ [] };
  manager = new_manager;
}

abbrev surroundings : Surroundings
surroundings = record { tls_ready = true; protos_load = true; listen = some (pos 4000) }

create_imposter-outcome_example :
    ((imp : Imposter) × (some (imposter_on (pos 0) []) ≡ some imp)
      × (create_refusal (pos 2525) imp ≡ none)
      × Created request surroundings (pos 4000) imp world (
          create_imposter request
            (pos 2525)
            surroundings
            true
            (some (imposter_on (pos 0) []))
            world))
    ⊎ Refused world
        (create_imposter request (pos 2525) surroundings true (some (imposter_on (pos 0) [])) world)
create_imposter-outcome_example =
    create_imposter-outcome request (pos 2525) surroundings true (some (imposter_on (pos 0) []))
      world (pos 4000)

three_thousand : atoi (codes "3000") ≡ some (pos 3000)
unfolding atoi
three_thousand = refl

zero_index : atoi (codes "0") ≡ some (pos 0)
unfolding atoi
zero_index = refl

stored : get (pos 3000) world.repository ≡ ok imposter
unfolding get find int_eq
stored = refl

replace_stub_handler-replaces_example :
    let (reply, w') = replace_stub_handler request (codes "3000") (codes "0") (some plain) world in
    (reply ≡ record {
      status = 200;
      body = one (apply_options request no_options (with_replaced 0 plain imposter));
    })
    × (get (pos 3000) w'.repository ≡ (
        if int_eq (pos 3000) (pos 3000)
        then ok (with_replaced 0 plain imposter)
        else get (pos 3000) world.repository))
replace_stub_handler-replaces_example =
    replace_stub_handler-replaces request (codes "3000") (codes "0") plain world (pos 3000)
      (pos 3000) 0 imposter three_thousand zero_index stored (omega arith)

abbrev shown : SerializeOptions
shown = record { is_replayable = false; removes_proxies = true }

abbrev once : ProxyResponse
once = record {
  to = codes "http://localhost:8080";
  mode = [];
  predicate_generators = [];
  add_wait_behavior = false;
  add_decorate_behavior = [];
  inject_headers = [];
  cert = [];
  key = [];
  ciphers = [];
  secure_protocol = [];
}

abbrev proxy : Response
proxy = record (response_with [] (pos 0)) { proxy = some once }

-- A stub of a proxy and another response, and one of a proxy only.
abbrev proxying : Imposter
proxying = imposter_on (pos 3000) (
    stub_of [] (proxy ∷ response_with (codes "a") (pos 0) ∷ []) false
    ∷ stub_of [] (proxy ∷ []) false
    ∷ [])

apply_options-removes_proxies_example :
    Shown proxying.stubs (apply_options request shown proxying).stubs
apply_options-removes_proxies_example = apply_options-removes_proxies request shown proxying refl

abbrev distinct : List Imposter
distinct = imposter_on (pos 4000) [] ∷ imposter ∷ []

accepted : replace_refused distinct ≡ false
unfolding replace_refused is_port_from
accepted = refl

different : AreDistinct distinct
unfolding int_eq
different = (refl, (refl, tt))

replace_imposters-held_example :
    let (reply, w') =
      replace_imposters request (λ imp. surroundings) (λ srv. true) (some (some distinct)) world in
    (reply ≡ record { status = 200; body = several (shown_all request distinct) })
    × (get (pos 3000) w'.repository ≡ on_port (pos 3000) distinct (err (not_found (pos 3000))))
replace_imposters-held_example =
    replace_imposters-held request (λ imp. surroundings) (λ srv. true) distinct world (pos 3000)
      accepted different
