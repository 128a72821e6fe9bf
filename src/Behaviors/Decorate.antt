-- ===== src/Behaviors/Decorate.antt =====
-- internal/imposter/behaviors.go: `executeDecorate` and `convertDecorateResult`.
use go_tartuffe.Prelude.{
  Text, Assoc, codes, text_eq, lookup, Option, none, some, [], ◌∷◌, if◌then◌else◌,
}
use go_tartuffe.Value.{Value, number, text, object, text_map, Fields, no_fields, field, entries}
use go_tartuffe.Models.Request.{Request}
use go_tartuffe.Models.Stub.{IsResponse}
use go_tartuffe.Behaviors.{Outcome, done, failed, script_failed, Tools}
use go_tartuffe.Behaviors.Replace.{fresh_response, or_no_fields}

-- headers[k] = v
unfoldable pub set_header : Text → Value → Fields → Fields
set_header key v no_fields = field key v no_fields
set_header key v (field k w fs) =
    let later = set_header key v fs in if text_eq k key then field key v fs else field k w later

-- The loop over the headers of the decorator.
unfoldable pub merge_headers : Fields → Fields → Fields
unfolding set_header
merge_headers no_fields headers = headers
merge_headers (field k v fs) headers = merge_headers fs (set_header k v headers)

unfoldable pub text_fields : Assoc Text → Fields
text_fields [] = no_fields
text_fields ((k, v) ∷ m) = field k (text v) (text_fields m)

unfoldable pub headers_of : Value → Fields
unfolding text_fields
headers_of (object fs) = fs
headers_of (text_map (some m)) = text_fields m
headers_of v = no_fields

module _ (tools : Tools) where
  -- int(v) of a number; another value leaves the status code.
  unfoldable pub status_or : Value → Value → Value
  status_or original (number n) = elim (tools.to_int (number n)) [
    | some i ↦ tools.int_value i
    | none ↦ original
  ]
  status_or original v = original

  -- convertDecorateResult, of a result that is a map or not.
  unfoldable pub convert_decorate_result : Option Fields → IsResponse → IsResponse
  unfolding fresh_response merge_headers headers_of status_or
  convert_decorate_result none original = original
  convert_decorate_result (some fs) original =
      let m = entries fs in
      record (fresh_response original) {
        status_code = elim (lookup (codes "statusCode") m) [
          | some v ↦ status_or original.status_code v
          | none ↦ original.status_code
        ];
        headers = elim (lookup (codes "headers") m) [
          | some h ↦ some (merge_headers (headers_of h) (or_no_fields original.headers))
          | none ↦ some (or_no_fields original.headers)
        ];
        body = elim (lookup (codes "body") m) [ some b ↦ b | none ↦ original.body ];
        payload = elim (lookup (codes "data") m) [ some (text t) ↦ t | _ ↦ [] ];
      }

  -- executeDecorate
  unfoldable pub execute_decorate : Request → IsResponse → Text → Outcome IsResponse
  unfolding convert_decorate_result
  execute_decorate req resp script = elim (tools.run_decorate script req resp) [
    | none ↦ failed script_failed
    | some result ↦ done (convert_decorate_result result resp)
  ]
