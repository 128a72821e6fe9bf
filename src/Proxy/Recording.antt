-- ===== src/Proxy/Recording.antt =====
-- internal/imposter/proxy.go: generateStub.
pub mod Matching
pub mod Partial
pub mod Answering
use go_tartuffe.Prelude.{
  Text, codes, Bool, true, false, Option, none, some, List, [], ◌∷◌, ◌++◌, is_blank, if◌then◌else◌,
  ℤ, pos,
}
use go_tartuffe.Value.{Value, nil, text, object, Fields, no_fields, field}
use go_tartuffe.Models.Request.{Request}
use go_tartuffe.Models.Predicate.{Predicate}
use go_tartuffe.Models.Stub.{IsResponse, Behavior, PredicateGen, ProxyResponse, Stub}
use go_tartuffe.Proxy.{Generation}
use go_tartuffe.Proxy.Predicates.{unset_operators, with_operators, generate_predicates}

abbrev pub no_behavior : Behavior
no_behavior = record {
  wait = nil;
  repeat = pos 0;
  copy = [];
  lookup = [];
  decorate = [];
  shell_transform = nil;
}

-- Equals: {"method": req.Method, "path": req.Path}
unfoldable pub default_predicate : Request → Predicate
default_predicate req = with_operators (record unset_operators {
  equals = some (
      object (
        field (codes "method") (text req.method) (field (codes "path") (text req.path) no_fields)));
})

module _ (generation : Generation) where
  unfoldable pub recorded_behaviors : ProxyResponse → ℤ → List Behavior
  recorded_behaviors proxy elapsed =
      let waits =
        if proxy.add_wait_behavior
        then record no_behavior { wait = generation.int_value elapsed } ∷ []
        else [] in
      let decorates =
        if is_blank proxy.add_decorate_behavior
        then []
        else record no_behavior { decorate = proxy.add_decorate_behavior } ∷ [] in
      waits ++ decorates

  unfoldable pub recorded_predicates : Request → List PredicateGen → List Predicate
  unfolding default_predicate generate_predicates
  recorded_predicates req [] = default_predicate req ∷ []
  recorded_predicates req (gen ∷ gens) = generate_predicates generation req (gen ∷ gens)

  -- generateStub: the stub, and the response, which it changes and shares with the stub.
  unfoldable pub generate_stub : Request → IsResponse → ProxyResponse → ℤ → Stub × IsResponse
  unfolding recorded_behaviors recorded_predicates
  generate_stub req resp proxy elapsed =
      let timed =
        if proxy.add_wait_behavior then record resp { proxy_response_time = elapsed } else resp in
      (
        record {
          predicates = recorded_predicates req proxy.predicate_generators;
          responses =
              record {
                is = some timed;
                proxy = none;
                inject = [];
                fault = [];
                repeat = pos 0;
                behaviors = recorded_behaviors proxy elapsed;
                is_shorthand = false;
              }
              ∷ [];
          links = none;
          response_index = 0;
          repeat_count = 0;
          is_proxy_generated = false;
        },
        timed,
      )
