-- ===== src/Behaviors/Execute/Rows.antt =====
-- internal/imposter/behaviors.go: the row that `lookupCSV` finds.
use go_tartuffe.Prelude.{
  ℕ, suc, ◌⊎◌, Text, Assoc, text_eq, text_eq_iff, lookup, get_elem?, any, Bool, true, false, not,
  ◌&&◌, Option, none, some, List, [], ◌∷◌, if◌then◌else◌, is_some, and-eq_true, Bool-cases,
  Option-cases, inl, inr, ◌≡◌, refl, sym, ap, ◌∙◌, subst, arith,
}
use go_tartuffe.Models.Request.{Request}
use go_tartuffe.Models.Stub.{CsvSource}
use go_tartuffe.Behaviors.{Tools}
use go_tartuffe.Behaviors.Execute.{
  set_column, row_of, column_index, find_row, lookup_csv, delimiter_of,
}

if-if_same :
    (b : Bool) (v w : Text) (o : Option Text)
    → (if b then some v else o) ≡ (if b then some v else if b then some w else o)
if-if_same true v w o = refl
if-if_same false v w o = refl

text_eq-both : (h k key : Text) → text_eq k h ≡ false → text_eq h key ≡ true → text_eq k key ≡ false
text_eq-both h k key n e = subst (λ x. text_eq k x ≡ false) ((text_eq_iff h key).0 e) n

lookup-set_column :
    (key h v : Text) (row : Assoc Text)
    → lookup key (set_column h v row) ≡ (if text_eq h key then some v else lookup key row)
unfolding lookup set_column
lookup-set_column key h v [] = refl
lookup-set_column key h v ((k, w) ∷ row) = elim (Bool-cases (text_eq k h)) [
  | inl e ↦ rw e (
      subst
        (λ x.
          lookup key ((h, v) ∷ row) ≡ (if text_eq h key then some v else lookup key ((x, w) ∷ row)))
        (sym ((text_eq_iff k h).0 e)) (if-if_same (text_eq h key) v w (lookup key row)))
  | inr e ↦ elim (Bool-cases (text_eq h key)) [
    | inl f ↦ rw (e, lookup-set_column key h v row, f, text_eq-both h k key e f) refl
    | inr f ↦ rw (e, lookup-set_column key h v row, f) refl
  ]
]

-- The columns have different names.
unfoldable pub distinct : List Text → Bool
distinct [] = true
distinct (h ∷ headers) = not (is_some (column_index h headers)) && distinct headers

column_index-none :
    (key h : Text) (headers : List Text)
    → column_index key (h ∷ headers) ≡ none
    → (text_eq h key ≡ false) × (column_index key headers ≡ none)
unfolding column_index
column_index-none key h headers e = elim (Option-cases (column_index key headers)) [
  | inl q ↦ (ground (arith, e, q), q)
  | inr (i, q) ↦ absurd (ground (arith, e, q))
]

-- A column that the headers lack stays.
row_of-lookup :
    (key : Text) (headers rec : List Text) (row : Assoc Text)
    → column_index key headers ≡ none
    → lookup key (row_of headers rec row) ≡ lookup key row
unfolding row_of
row_of-lookup key [] rec row h = refl
row_of-lookup key (c ∷ headers) [] row h = refl
row_of-lookup key (c ∷ headers) (v ∷ rec) row h =
    let (a, b) = column_index-none key c headers h in
    row_of-lookup key headers rec (set_column c v row) b
    ∙ (lookup-set_column key c v row ∙ rw a refl)

not_some : (o : Option ℕ) → not (is_some o) ≡ true → o ≡ none
not_some none h = refl
not_some (some i) h = absurd (ground arith)

column_index-some :
    (key h : Text) (headers : List Text) (i : ℕ)
    → column_index key (h ∷ headers) ≡ some i
    → ((text_eq h key ≡ true) × (i ≡ 0))
      ⊎ ((j : ℕ) × (text_eq h key ≡ false) × (column_index key headers ≡ some j) × (i ≡ suc j))
unfolding column_index
column_index-some key h headers i e = elim (Bool-cases (text_eq h key)) [
  | inl q ↦ inl (q, ground (arith, e, q))
  | inr q ↦ elim (Option-cases (column_index key headers)) [
    | inl n ↦ absurd (ground (arith, e, q, n))
    | inr (j, n) ↦ inr (j, q, n, ground (arith, e, q, n))
  ]
]

-- A column of the headers has the value that stands at its index.
row_of-column :
    (key : Text) (headers rec : List Text) (row : Assoc Text) (i : ℕ) (v : Text)
    → distinct headers ≡ true
    → column_index key headers ≡ some i
    → get_elem? rec i ≡ some v
    → lookup key (row_of headers rec row) ≡ some v
unfolding row_of column_index distinct
row_of-column key [] rec row i v d c e = absurd (ground arith)
row_of-column key (h ∷ headers) [] row i v d c e = absurd (ground arith)
row_of-column key (h ∷ headers) (w ∷ rec) row i v d c e =
    let (lacks, d') = and-eq_true (not (is_some (column_index h headers))) (distinct headers) d in
    elim (column_index-some key h headers i c) [
      | inl (q, z) ↦
          row_of-lookup key headers rec (set_column h w row) (
            subst (λ x. column_index x headers ≡ none) ((text_eq_iff h key).0 q) (not_some _ lacks))
          ∙ (lookup-set_column key h w row ∙ rw q (subst (λ n. get_elem? (w ∷ rec) n ≡ some v) z e))
      | inr (j, q, c', z) ↦
          row_of-column key headers rec (set_column h w row) j v d' c'
            (subst (λ n. get_elem? (w ∷ rec) n ≡ some v) z e)
    ]

-- The record has the value in the column.
unfoldable pub holds : ℕ → Text → List Text → Bool
holds i value rec = elim (get_elem? rec i) [ none ↦ false | some v ↦ text_eq v value ]

find_row-column :
    (key : Text) (headers : List Text) (i : ℕ) (value : Text) (records : List (List Text))
    → distinct headers ≡ true
    → column_index key headers ≡ some i
    → lookup key (find_row headers i value records)
      ≡ (if any (holds i value) records then some value else none)
unfolding find_row holds lookup
find_row-column key headers i value [] d c = refl
find_row-column key headers i value (rec ∷ records) d c = elim (Option-cases (get_elem? rec i)) [
  | inl e ↦ rw (find_row, holds, e) (find_row-column key headers i value records d c)
  | inr (v, e) ↦ elim (Bool-cases (text_eq v value)) [
    | inl q ↦
        rw (find_row, holds, e, q)
          (row_of-column key headers rec [] i value d c (e ∙ ap some ((text_eq_iff v value).0 q)))
    | inr q ↦ rw (find_row, holds, e, q) (find_row-column key headers i value records d c)
  ]
]

-- The lookup in a file that can be read, whose columns have different names and among them the key
-- column, gives a row: its key column has the value looked for if some record has it there, and the
-- row has no such column otherwise.
pub lookup_csv-column :
    (tools : Tools) (req : Request) (csv : CsvSource) (value : Text) (headers : List Text)
    (records : List (List Text)) (i : ℕ)
    → tools.read_csv csv.path (delimiter_of csv) ≡ some (headers ∷ records)
    → distinct headers ≡ true
    → column_index csv.key_column headers ≡ some i
    → (row : Assoc Text) × (lookup_csv tools req csv value ≡ some row)
      × (lookup csv.key_column row ≡ (if any (holds i value) records then some value else none))
unfolding lookup_csv
lookup_csv-column tools req csv value headers records i r d c = (
  find_row headers i value records,
  rw (lookup_csv, r, c) refl,
  find_row-column csv.key_column headers i value records d c,
)
