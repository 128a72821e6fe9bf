-- ===== src/Behaviors/Replace.antt =====
-- internal/imposter/behaviors.go: `replaceTokens` and `replaceRowTokens`.
pub mod Absent
use go_tartuffe.Prelude.{
  ℕ, ◌+◌, Text, Assoc, codes, text_eq, is_blank, replace_all, decimal_text, atoi, Bool, true, false,
  ◌||◌, Option, none, some, List, [], ◌∷◌, ◌++◌, if◌then◌else◌, ℤ, pos,
}
use go_tartuffe.Value.{
  Value, nil, boolean, number, text, array, object, text_map, no_items, Fields, no_fields, field,
}
use go_tartuffe.Models.Stub.{IsResponse}
use go_tartuffe.Behaviors.{Tools}

-- The entries of a map of headers, of which a nil map has none.
abbrev pub or_no_fields : Option Fields → Fields
or_no_fields none = no_fields
or_no_fields (some fs) = fs

-- &models.IsResponse{StatusCode: …, Mode: …, Data: …}, its other fields unset.
unfoldable pub fresh_response : IsResponse → IsResponse
fresh_response resp = record {
  status_code = resp.status_code;
  status_message = [];
  headers = none;
  body = nil;
  payload = resp.payload;
  mode = resp.mode;
  proxy_response_time = pos 0;
  stream = no_items;
}

-- fmt.Sprintf("%s[%d]", into, i)
unfoldable pub indexed_token : Text → ℕ → Text
indexed_token into i = into ++ (codes "[" ++ (decimal_text i ++ codes "]"))

-- The loop over the values, from index `i` on.
unfoldable pub replace_indexed : Text → ℕ → List Text → Text → Text
unfolding indexed_token
replace_indexed into i [] s = s
replace_indexed into i (v ∷ vs) s =
    replace_indexed into (i + 1) vs (replace_all s (indexed_token into i) v)

-- The indexed tokens, then the token itself.
unfoldable pub replace_values : Text → Text → List Text → Text → Text
unfolding replace_indexed
replace_values into first values s = replace_all (replace_indexed into 0 values s) into first

-- The string values of a map of headers.
unfoldable pub map_texts : (Text → Text) → Fields → Fields
map_texts f no_fields = no_fields
map_texts f (field k (text t) fs) = field k (text (f t)) (map_texts f fs)
map_texts f (field k v fs) = field k v (map_texts f fs)

abbrev pub map_text : (Text → Text) → Value → Value
map_text f (text t) = text (f t)
map_text f v = v

module _ (tools : Tools) where
  -- The int that a text stands for, or the text.
  unfoldable pub as_status : Text → Value
  as_status t = elim (atoi t) [ some n ↦ tools.int_value n | none ↦ text t ]

  -- replaceTokens
  unfoldable pub replace_tokens : IsResponse → Text → List Text → IsResponse
  unfolding as_status fresh_response replace_values map_texts
  replace_tokens resp into [] = resp
  replace_tokens resp into (first ∷ values) =
      let replaced = replace_values into first (first ∷ values) in
      record (fresh_response resp) {
        status_code =
            if text_eq into (codes "${code}") || text_eq into (codes "${statusCode}")
            then as_status first
            else resp.status_code;
        body = map_text replaced resp.body;
        payload = if is_blank resp.payload then [] else replaced resp.payload;
        headers = some (map_texts replaced (or_no_fields resp.headers));
      }

  -- The three spellings of the token of one column.
  unfoldable pub replace_column : Text → Text → Text → Text → Text
  replace_column token key value s =
      let quoted = replace_all s (token ++ (codes "[\"" ++ (key ++ codes "\"]"))) value in
      let single = replace_all quoted (token ++ (codes "['" ++ (key ++ codes "']"))) value in
      replace_all single (token ++ (codes "[" ++ (key ++ codes "]"))) value

  unfoldable pub replace_row : Text → Assoc Text → Text → Text
  unfolding replace_column
  replace_row token [] s = s
  replace_row token ((key, value) ∷ row) s =
      replace_row token row (replace_column token key value s)

  -- A body that is neither nil nor a string is replaced in as JSON.
  unfoldable pub replaced_body : (Text → Text) → Value → Value
  replaced_body f nil = nil
  replaced_body f (text t) = text (f t)
  replaced_body f v = elim (tools.marshal v) [
    | none ↦ v
    | some json ↦ elim (tools.unmarshal (f json)) [ some parsed ↦ parsed | none ↦ text (f json) ]
  ]

  -- replaceRowTokens
  unfoldable pub replace_row_tokens : IsResponse → Text → Assoc Text → IsResponse
  unfolding fresh_response replace_row replaced_body map_texts
  replace_row_tokens resp token row =
      let replaced = replace_row token row in
      record (fresh_response resp) {
        status_code = elim resp.status_code [ text t ↦ as_status (replaced t) | v ↦ v ];
        headers = some (map_texts replaced (or_no_fields resp.headers));
        body = replaced_body replaced resp.body;
      }
