-- ===== src/Tests/ConnectionRuns.antt =====
-- internal/imposter/tcp_server.go: the theorems on a concrete connection.
use go_tartuffe.Prelude.{false, ℕ, suc, codes, map, none, some, [], ◌∷◌, pos, ◌≡◌, refl}
use go_tartuffe.Models.Imposter.{Imposter}
use go_tartuffe.Protocols.Tcp.Reading.{chunk}
use go_tartuffe.Protocols.Tcp.Connection.{Library, concat, handle_connection}
use go_tartuffe.Protocols.Tcp.Connection.Framing.{seen, handle_connection-framing}
use go_tartuffe.Tests.{imposter_on, stub_of, response_with}
use go_tartuffe.Tests.ServerRuns.{test_tools}

-- Scripts that answer with what they got and count their runs.
abbrev echo : Library ℕ
echo = record {
  encode_base64 = λ t. t;
  decode_base64 = λ t. some t;
  compile = λ pattern. none;
  tools = test_tools;
  run_predicate = λ script bytes. none;
  execute_tcp_response = λ script bytes n. (some bytes, suc n);
}

abbrev echoing : Imposter
echoing = imposter_on (pos 5000) (stub_of [] (response_with (codes "echo") (pos 0) ∷ []) false ∷ [])

handle_connection-framing_example :
    seen echo (codes "::1") (codes "12:00") echoing 0 (
      handle_connection echo none
        (codes "::1")
        (codes "12:00")
        (map chunk (codes "ab" ∷ codes "c" ∷ []))
        echoing
        0)
    ≡ seen echo (codes "::1") (codes "12:00") echoing 0 (
        handle_connection echo none
          (codes "::1")
          (codes "12:00")
          (map chunk (codes "a" ∷ codes "bc" ∷ []))
          echoing
          0)
unfolding concat
handle_connection-framing_example =
    handle_connection-framing echo (codes "::1") (codes "12:00") echoing 0 (codes "ab") (codes "a")
      (codes "c" ∷ []) (codes "bc" ∷ []) refl refl refl
