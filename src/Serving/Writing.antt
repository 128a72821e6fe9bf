-- ===== src/Serving/Writing.antt =====
-- internal/imposter/manager.go: `writeResponse` and `handleCORSPreflight`.
use go_tartuffe.Prelude.{
  Text, Assoc, codes, text_eq, is_blank, lookup, atoi, Option, none, some, List, [], ◌∷◌, ◌++◌,
  if◌then◌else◌, ℤ, pos, int_eq,
}
use go_tartuffe.Value.{
  Value, nil, number, text, array, Fields, no_fields, field, Items, no_items, item, float_eq,
}
use go_tartuffe.Models.Stub.{IsResponse}

-- http.Header
abbrev pub Header : Type 0
Header = Assoc (List Text)

-- What is written: the status code, the headers and the body. That net/http panics on a status code
-- outside 100..999 is not modelled.
pub record Reply : Type 0 where
  pub status : ℤ
  pub headers : Header
  pub body : Text

-- textproto.CanonicalMIMEHeaderKey, int(v) of a number, base64 and models.MarshalBody.
pub record Writer : Type 0 where
  pub canonical : Text → Text
  pub to_int : Value → ℤ
  pub decode_base64 : Text → Option Text
  pub marshal_body : Value → Option Text

unfoldable pub put_values : Text → List Text → Header → Header
put_values key values [] = (key, values) ∷ []
put_values key values ((k, vs) ∷ h) =
    let later = put_values key values h in
    if text_eq k key then (key, values) ∷ h else (k, vs) ∷ later

abbrev pub values_of : Text → Header → List Text
values_of key h = elim (lookup key h) [ none ↦ [] | some vs ↦ vs ]

module _ (writer : Writer) where
  -- Header.Set, Header.Add and Header.Get
  unfoldable pub set_value : Text → Text → Header → Header
  unfolding put_values
  set_value key value h = put_values (writer.canonical key) (value ∷ []) h

  unfoldable pub add_value : Text → Text → Header → Header
  unfolding put_values
  add_value key value h =
      put_values (writer.canonical key) (values_of (writer.canonical key) h ++ value ∷ []) h

  unfoldable pub get_value : Text → Header → Text
  get_value key h = elim (values_of (writer.canonical key) h) [ [] ↦ [] | v ∷ vs ↦ v ]

  unfoldable pub add_items : Text → Items → Header → Header
  unfolding add_value
  add_items key no_items h = h
  add_items key (item (text t) xs) h = add_items key xs (add_value key t h)
  add_items key (item v xs) h = add_items key xs h

  -- The loop over the headers of the response.
  unfoldable pub write_headers : Fields → Header → Header
  unfolding set_value add_items
  write_headers no_fields h = h
  write_headers (field k (text t) fs) h = write_headers fs (set_value k t h)
  write_headers (field k (array xs) fs) h = write_headers fs (add_items k xs h)
  write_headers (field k v fs) h = write_headers fs h

  -- The status code, 200 unless it is a number, or the text of a number, that is not 0.
  unfoldable pub status_of : Value → ℤ
  status_of (number n) = if float_eq n 0 then pos 200 else writer.to_int (number n)
  status_of (text t) = elim (atoi t) [
    | none ↦ pos 200
    | some n ↦ if int_eq n (pos 0) then pos 200 else n
  ]
  status_of v = pos 200

  -- The bytes of the body.
  unfoldable pub body_of : Text → Value → Text
  body_of mode nil = []
  body_of mode (text t) =
      if text_eq mode (codes "binary")
      then elim (writer.decode_base64 t) [ some decoded ↦ decoded | none ↦ t ]
      else t
  body_of mode v = elim (writer.marshal_body v) [ some t ↦ t | none ↦ [] ]

  -- Connection: close, unless that header has a value.
  unfoldable pub close_unless_set : Header → Header
  unfolding get_value set_value
  close_unless_set h =
      if is_blank (get_value (codes "Connection") h)
      then set_value (codes "Connection") (codes "close") h
      else h

  -- writeResponse
  unfoldable pub write_response : Option IsResponse → Header → Reply
  unfolding write_headers status_of body_of close_unless_set
  write_response none h = record { status = pos 200; headers = close_unless_set h; body = [] }
  write_response (some resp) h = record {
    status = status_of resp.status_code;
    headers = close_unless_set (elim resp.headers [ none ↦ h | some fs ↦ write_headers fs h ]);
    body = body_of resp.mode resp.body;
  }

  -- handleCORSPreflight, of the headers of the request; `none` if it is no preflight request.
  unfoldable pub handle_cors_preflight : Header → Header → Option Reply
  unfolding get_value set_value
  handle_cors_preflight request h =
      let origin = get_value (codes "Origin") request in
      let method = get_value (codes "Access-Control-Request-Method") request in
      let requested = get_value (codes "Access-Control-Request-Headers") request in
      let answered =
        set_value (codes "Access-Control-Allow-Methods") method
          (set_value (codes "Access-Control-Allow-Origin") origin h) in
      if is_blank origin
      then none
      else if is_blank method
      then none
      else some (record {
        status = pos 200;
        headers =
            if is_blank requested
            then answered
            else set_value (codes "Access-Control-Allow-Headers") requested answered;
        body = [];
      })
