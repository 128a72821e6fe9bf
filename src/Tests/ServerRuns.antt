-- ===== src/Tests/ServerRuns.antt =====
-- internal/imposter/manager.go and internal/imposter/behaviors.go: the theorems on concrete
-- imposters and responses.
use go_tartuffe.Prelude.{
  to_lower, lower, equal_fold, ℕ, ◌≤◌, Text, codes, true, false, none, some, List, [], ◌∷◌, lookup,
  find, put, int_eq, pos, ◌≡◌, ◌≢◌, refl, subst, text_eq, arith, index_byte,
}
use go_tartuffe.Value.{Value, nil, number, text, array, object, no_items, item, no_fields, field}
use go_tartuffe.Models.Stub.{IsResponse, Behavior, CsvSource}
use go_tartuffe.Models.Imposter.{Imposter}
use go_tartuffe.Manager.{Surroundings, Manager, new_manager, start, is_running}
use go_tartuffe.Manager.Holders.{IsFresh, holders}
use go_tartuffe.Manager.Exclusive.{Reached, created, starting, Reached-exclusive}
use go_tartuffe.Manager.Starting.{start-unassigned_grpc}
use go_tartuffe.Behaviors.{panicked, Tools}
use go_tartuffe.Behaviors.Select.{navigate_json}
use go_tartuffe.Behaviors.Select.Negative.{navigate_json-negative}
use go_tartuffe.Behaviors.Execute.{execute, lookup_csv, column_index}
use go_tartuffe.Behaviors.Execute.Refusal.{is_done, asks_shell, execute-asks_shell}
use go_tartuffe.Behaviors.Execute.Rows.{distinct, holds, lookup_csv-column}
use go_tartuffe.Models.Stub.{ProxyResponse, Stub}
use go_tartuffe.Matcher.Evaluate.{
  matches_all_predicates, evaluate_predicate, evaluate_operators, evaluate_equals,
}
use go_tartuffe.Matcher.Compare.{compare_values}
use go_tartuffe.Matcher.Fields.{request_field}
use go_tartuffe.Matcher.Env.{same_text, apply_except}
use go_tartuffe.Value.{to_string}
use go_tartuffe.Matcher.Match.{find_stub}
use go_tartuffe.Serving.ProxyStubs.{mode_of, record_proxy_stub}
use go_tartuffe.Serving.ProxyStubs.Recorded.{record_proxy_stub-shadows}
use go_tartuffe.Tests.{
  request_to, imposter_on, stub_of, path_equals, response_with, test_env, test_engine,
}

abbrev listens : ℕ → Surroundings
listens port = record { tls_ready = true; protos_load = true; listen = some (pos port) }

abbrev first_imposter : Imposter
first_imposter = imposter_on (pos 3000) []

abbrev second_imposter : Imposter
second_imposter = imposter_on (pos 0) []

abbrev grpc_imposter : Imposter
grpc_imposter = record (imposter_on (pos 0) []) { protocol = codes "grpc" }

-- Two servers: one on its own port, one on the port that the listener chose.
abbrev running : Manager
running =
    (start (listens 4000) second_imposter (start (listens 3000) first_imposter new_manager).1).1

listens-IsFresh :
    (port : ℕ) (m : Manager)
    → pos port ≢ pos 0
    → is_running (pos port) m ≡ false
    → IsFresh (listens port) m
listens-IsFresh port m n free j e =
    let q : pos port ≡ j = ground (arith, e) in
    subst (λ i. (i ≢ pos 0) × (is_running i m ≡ false)) q (n, free)

assigned : (n : ℕ) → n ≢ 0 → pos n ≢ pos 0
assigned n h = ground (arith, h)

new_manager-IsFresh : IsFresh (listens 3000) new_manager
unfolding is_running find
new_manager-IsFresh = listens-IsFresh 3000 new_manager (assigned 3000 (ground arith)) refl

start-IsFresh : IsFresh (listens 4000) (start (listens 3000) first_imposter new_manager).1
unfolding is_running start find put int_eq text_eq
start-IsFresh =
    listens-IsFresh 4000 (start (listens 3000) first_imposter new_manager).1
      (assigned 4000 (ground arith)) refl

running-Reached : Reached running
running-Reached =
    starting (listens 4000) second_imposter
      (starting (listens 3000) first_imposter created new_manager-IsFresh) start-IsFresh

Reached-exclusive_example : holders (pos 4000) running ≤ 1
Reached-exclusive_example = Reached-exclusive running-Reached (pos 4000)

start-unassigned_grpc_example :
    start (listens 4001) grpc_imposter (start (listens 4000) grpc_imposter new_manager).1
    ≡ start (listens 4001) grpc_imposter new_manager
unfolding start int_eq text_eq
start-unassigned_grpc_example =
    start-unassigned_grpc (listens 4000) (listens 4001) grpc_imposter grpc_imposter new_manager refl
      refl refl refl refl refl

-- One regular expression, one CSV file, and no scripts.
abbrev table : List (List Text)
table =
    (codes "id" ∷ codes "name" ∷ [])
    ∷ (codes "1" ∷ codes "Ann" ∷ [])
    ∷ (codes "2" ∷ codes "Bob" ∷ [])
    ∷ []

abbrev pub test_tools : Tools
test_tools = record {
  find_submatch = λ pattern s. some (s ∷ []);
  unmarshal = λ s. none;
  marshal = λ v. none;
  format_float = λ n. codes "1";
  to_int = λ v. some (pos 1);
  int_value = λ i. number 0;
  read_csv = λ path delimiter. some table;
  run_wait = λ script req. none;
  run_decorate = λ script req resp. none;
}

abbrev greeting : IsResponse
greeting = record {
  status_code = nil;
  status_message = [];
  headers = some (field (codes "Server") (text (codes "tartuffe")) no_fields);
  body = text (codes "Hello ${name}");
  payload = [];
  mode = [];
  proxy_response_time = pos 0;
  stream = no_items;
}

abbrev behavior_with : Value → Behavior
behavior_with shell = record {
  wait = nil;
  repeat = pos 0;
  copy = [];
  lookup = [];
  decorate = [];
  shell_transform = shell;
}

execute-asks_shell_example :
    is_done (
      execute test_tools
        (request_to (codes "/") [])
        (behavior_with nil ∷ behavior_with (text (codes "ls")) ∷ [])
        greeting)
    ≡ false
unfolding asks_shell
execute-asks_shell_example =
    execute-asks_shell test_tools (request_to (codes "/") [])
      (behavior_with nil ∷ behavior_with (text (codes "ls")) ∷ []) greeting refl

navigate_json-negative_example :
    navigate_json test_tools
      (object (field (codes "tags") (array (item nil no_items)) no_fields))
      (codes "tags[-1]")
    ≡ panicked
unfolding index_byte
navigate_json-negative_example =
    navigate_json-negative test_tools (item nil no_items) no_fields (codes "tags") refl refl

abbrev users : CsvSource
users = record { path = codes "users.csv"; key_column = codes "id"; delimiter = [] }

lookup_csv-column_example :
    (row : List (Text × Text)) × (lookup_csv test_tools
        (request_to (codes "/") [])
        users
        (codes "2")
      ≡ some row)
    × (lookup (codes "id") row ≡ some (codes "2"))
unfolding distinct column_index text_eq holds
lookup_csv-column_example =
    lookup_csv-column test_tools (request_to (codes "/") []) users (codes "2")
      (codes "id" ∷ codes "name" ∷ [])
      ((codes "1" ∷ codes "Ann" ∷ []) ∷ (codes "2" ∷ codes "Bob" ∷ []) ∷ []) 0 refl refl refl

abbrev once : ProxyResponse
once = record {
  to = codes "http://localhost:8080";
  mode = [];
  predicate_generators = [];
  add_wait_behavior = false;
  add_decorate_behavior = [];
  inject_headers = [];
  cert = [];
  key = [];
  ciphers = [];
  secure_protocol = [];
}

abbrev home_stub : Stub
home_stub = stub_of (path_equals (codes "/home") ∷ []) [] false

abbrev proxy_stub : Stub
proxy_stub = stub_of [] [] false

abbrev saved_stub : Stub
saved_stub =
    stub_of (path_equals (codes "/a") ∷ []) (response_with (codes "saved") (pos 0) ∷ []) false

record_proxy_stub-shadows_example :
    find_stub test_env test_engine
      (record_proxy_stub (λ ps. none) (some once) (pos 1) saved_stub (home_stub ∷ proxy_stub ∷ []))
      (request_to (codes "/a") [])
      0
    ≡ (some (home_stub ∷ [], record saved_stub { is_proxy_generated = true }, proxy_stub ∷ []), 0)
unfolding mode_of matches_all_predicates evaluate_predicate evaluate_operators evaluate_equals
    compare_values to_string request_field text_eq to_lower lower same_text equal_fold apply_except
record_proxy_stub-shadows_example =
    record_proxy_stub-shadows test_env test_engine (request_to (codes "/a") []) (λ ps. none) once
      (home_stub ∷ []) [] proxy_stub saved_stub 0 0 0 refl (refl, refl) refl
