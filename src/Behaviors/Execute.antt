-- ===== src/Behaviors/Execute.antt =====
-- internal/imposter/behaviors.go: `Execute` and one function for each behavior. The time slept is
-- part of the result.
pub mod Refusal
pub mod Rows
use go_tartuffe.Prelude.{
  ℕ, ◌+◌, ◌==◌, ltb, Text, Assoc, codes, text_eq, atoi, is_blank, lookup, length, get_elem?, Bool,
  true, false, Option, none, some, List, [], ◌∷◌, if◌then◌else◌, ℤ, pos, negsuc,
}
use go_tartuffe.Value.{
  Value, nil, boolean, number, text, array, object, text_map, Fields, no_fields, field, entries,
}
use go_tartuffe.Models.Request.{Request}
use go_tartuffe.Models.Stub.{IsResponse, Behavior, Copy, CsvSource, Lookup, Using}
use go_tartuffe.Behaviors.{
  Outcome, done, failed, panicked, and_then, invalid_wait, negative_wait, script_failed,
  shell_not_supported, Tools,
}
use go_tartuffe.Behaviors.Extract.{get_from_value, extract_values, parse_using}
use go_tartuffe.Behaviors.Replace.{replace_tokens, replace_row_tokens}
use go_tartuffe.Behaviors.Decorate.{execute_decorate}

abbrev pub is_nil : Value → Bool
is_nil nil = true
is_nil v = false

-- row[key] = value
unfoldable pub set_column : Text → Text → Assoc Text → Assoc Text
set_column key value [] = (key, value) ∷ []
set_column key value ((k, v) ∷ row) =
    let later = set_column key value row in
    if text_eq k key then (key, value) ∷ row else (k, v) ∷ later

-- The columns that the record has.
unfoldable pub row_of : List Text → List Text → Assoc Text → Assoc Text
unfolding set_column
row_of [] rec row = row
row_of (h ∷ headers) [] row = row
row_of (h ∷ headers) (v ∷ rec) row = row_of headers rec (set_column h v row)

unfoldable pub column_index : Text → List Text → Option ℕ
column_index key [] = none
column_index key (h ∷ headers) =
    let later = column_index key headers in
    if text_eq h key then some 0 else elim later [ none ↦ none | some i ↦ some (i + 1) ]

-- The first record that has the value in the column, as a row; an empty row if there is none.
unfoldable pub find_row : List Text → ℕ → Text → List (List Text) → Assoc Text
unfolding row_of
find_row headers i value [] = []
find_row headers i value (rec ∷ records) =
    let later = find_row headers i value records in
    elim (get_elem? rec i) [
      | none ↦ later
      | some v ↦ if text_eq v value then row_of headers rec [] else later
    ]

abbrev delimiter_of : CsvSource → ℕ
delimiter_of csv = elim csv.delimiter [ [] ↦ b',' | c ∷ s ↦ c ]

abbrev value_at : List Text → Text → ℤ → Outcome Text
value_at values default (negsuc i) = panicked
value_at values default (pos i) = elim (get_elem? values i) [
  | some v ↦ done v
  | none ↦ done default
]

module _ (tools : Tools) (req : Request) where
  -- The milliseconds of a `wait`.
  unfoldable pub wait_time : Value → Outcome ℤ
  wait_time (number n) = elim (tools.to_int (number n)) [
    | some ms ↦ done ms
    | none ↦ failed invalid_wait
  ]
  wait_time (text t) = elim (atoi t) [
    | some ms ↦ done ms
    | none ↦ elim (tools.run_wait t req) [ some ms ↦ done ms | none ↦ failed script_failed ]
  ]
  wait_time v = failed invalid_wait

  -- executeWait: the time slept.
  unfoldable pub execute_wait : Value → Outcome ℕ
  unfolding wait_time
  execute_wait wait = and_then (wait_time wait) λ (ms : ℤ). elim ms as (λ _. Outcome ℕ) [
    | pos n ↦ done n
    | negsuc n ↦ failed (negative_wait (negsuc n))
  ]

  -- executeCopy
  unfoldable pub execute_copy : Copy → IsResponse → Outcome IsResponse
  execute_copy copy resp = and_then (get_from_value tools req copy.from) λ source.
      if is_blank source
      then done resp
      else and_then
          (elim copy.using [
            | none ↦ done (source ∷ [])
            | some using ↦ extract_values tools source using
          ])
          (λ values. done (replace_tokens tools resp copy.into values))

  -- The index of a lookup's key, 0 if there is none.
  unfoldable pub lookup_index : Fields → ℤ
  lookup_index key = elim (lookup (codes "index") (entries key)) [
    | some (number n) ↦ elim (tools.to_int (number n)) [ some i ↦ i | none ↦ pos 0 ]
    | _ ↦ pos 0
  ]

  -- The value at the index, the first one if the index is too large; an error, or no value, leaves the
  -- key.
  unfoldable pub selected : Fields → Text → Outcome (List Text) → Outcome Text
  unfolding lookup_index
  selected key source (done []) = done source
  selected key source (done (v ∷ vs)) = value_at (v ∷ vs) v (lookup_index key)
  selected key source (failed e) = done source
  selected key source panicked = panicked

  -- The value that a lookup looks for.
  unfoldable pub lookup_key : Value → Outcome Text
  unfolding selected
  lookup_key (object key) =
      and_then
        (elim (lookup (codes "from") (entries key)) [
          | none ↦ done []
          | some from ↦ get_from_value tools req from
        ])
        (λ source. elim (lookup (codes "using") (entries key)) [
          | some (object using) ↦
              selected key source (extract_values tools source (parse_using using))
          | _ ↦ done source
        ])
  lookup_key v = done []

  -- lookupCSV; `none` is an error.
  unfoldable pub lookup_csv : CsvSource → Text → Option (Assoc Text)
  unfolding column_index find_row
  lookup_csv csv value = elim (tools.read_csv csv.path (delimiter_of csv)) [
    | none ↦ none
    | some [] ↦ none
    | some (headers ∷ records) ↦ elim (column_index csv.key_column headers) [
      | none ↦ none
      | some i ↦ some (find_row headers i value records)
    ]
  ]

  -- executeLookup
  unfoldable pub execute_lookup : Lookup → IsResponse → Outcome IsResponse
  unfolding lookup_key lookup_csv
  execute_lookup op resp = elim op.from_data_source [
    | none ↦ done resp
    | some none ↦ done resp
    | some (some csv) ↦ and_then (lookup_key op.key) λ value.
        if is_blank value then done resp else elim (lookup_csv csv value) [
          | none ↦ done resp
          | some row ↦ done (replace_row_tokens tools resp op.into row)
        ]
  ]

  unfoldable pub execute_copies : List Copy → IsResponse → Outcome IsResponse
  unfolding execute_copy
  execute_copies [] resp = done resp
  execute_copies (op ∷ ops) resp = and_then (execute_copy op resp) (execute_copies ops)

  unfoldable pub execute_lookups : List Lookup → IsResponse → Outcome IsResponse
  unfolding execute_lookup
  execute_lookups [] resp = done resp
  execute_lookups (op ∷ ops) resp = and_then (execute_lookup op resp) (execute_lookups ops)

  unfoldable pub execute_decorates : Text → IsResponse → Outcome IsResponse
  unfolding execute_decorate
  execute_decorates script resp =
      if is_blank script then done resp else execute_decorate tools req resp script

  -- One behavior: what its `wait`, `copy`, `lookup`, `decorate` and `shellTransform` do, in this order.
  unfoldable pub execute_one : Behavior → IsResponse → Outcome (ℕ × IsResponse)
  unfolding execute_wait execute_copies execute_lookups execute_decorates
  execute_one b resp = and_then (if is_nil b.wait then done 0 else execute_wait b.wait) λ slept.
      and_then (execute_copies b.copy resp) λ copied.
        and_then (execute_lookups b.lookup copied) λ found.
          and_then (execute_decorates b.decorate found) λ decorated.
            if is_nil b.shell_transform then done (slept, decorated) else failed shell_not_supported

  -- Execute: the milliseconds slept and the response.
  unfoldable pub execute : List Behavior → IsResponse → Outcome (ℕ × IsResponse)
  unfolding execute_one
  execute [] resp = done (0, resp)
  execute (b ∷ bs) resp =
      and_then (execute_one b resp) λ r. and_then (execute bs r.1) λ r'. done (r.0 + r'.0, r'.1)
