-- ===== src/Serving.antt =====
-- internal/imposter/manager.go: what the HTTP server of an imposter does with a response, apart from
-- the sockets: the stubs that it records, the defaults that it fills in, and what it writes.
pub mod ProxyStubs
pub mod Writing
use go_tartuffe.Prelude.{
  ℕ, Text, Assoc, codes, text_eq, is_blank, lookup, Bool, true, false, not, ◌&&◌, ◌||◌, Option,
  none, some, List, [], ◌∷◌, if◌then◌else◌, ℤ, pos,
}
use go_tartuffe.Value.{
  Value, nil, boolean, number, text, array, object, text_map, Fields, float_eq, no_items,
}
use go_tartuffe.Models.Stub.{Stub, IsResponse}
use go_tartuffe.Models.Imposter.{Imposter}

-- v == 0 for a number, or no status code at all.
unfoldable pub is_unset_status : Value → Bool
is_unset_status nil = true
is_unset_status (number n) = float_eq n 0
is_unset_status v = false

abbrev pub is_nil : Value → Bool
is_nil nil = true
is_nil v = false

abbrev or_text : Text → Text → Text
or_text [] default = default
or_text (c ∷ s) default = c ∷ s

abbrev or_value : Value → Value → Value
or_value nil default = default
or_value v default = v

abbrev or_headers : Option Fields → Option Fields → Option Fields
or_headers none default = default
or_headers (some fs) default = some fs

-- mergeWithDefault, of a default response that is there.
unfoldable pub merge_with_default : IsResponse → IsResponse → IsResponse
unfolding is_unset_status
merge_with_default resp default = record {
  status_code =
      if is_unset_status resp.status_code && not (is_nil default.status_code)
      then default.status_code
      else resp.status_code;
  status_message = [];
  headers = or_headers resp.headers default.headers;
  body = or_value resp.body default.body;
  payload = or_text resp.payload default.payload;
  mode = or_text resp.mode default.mode;
  proxy_response_time = pos 0;
  stream = no_items;
}

-- ResetRequestCount
unfoldable pub reset_request_count : Imposter → Imposter
reset_request_count imp = record imp { number_of_requests = some (pos 0); requests = [] }

-- UpdateStubs; the matcher is made anew from the imposter.
unfoldable pub with_stubs : List Stub → Imposter → Imposter
with_stubs stubs imp = record imp { stubs = stubs }
