-- ===== src/Matcher/Exists/Paths.antt =====
-- internal/imposter/matcher.go: `splitJSONPath` reads back the segments that a path is written from.
use go_tartuffe.Prelude.{
  ℕ, Text, true, none, some, List, [], ◌∷◌, ◌++◌, map, ◌≡◌, ◌≢◌, refl, sym, ◌∙◌, append_assoc,
  append-nil, arith,
}
use go_tartuffe.Matcher.Exists.{flush, has_close, split_loop, split_json_path}

pub data Segment : Type 0 where
  key : Text → Segment
  index : Text → Segment

abbrev pub segment_text : Segment → Text
segment_text (key k) = k
segment_text (index i) = b'[' ∷ (i ++ b']' ∷ [])

-- Segments behind others: a dot before a key, nothing before an index.
abbrev pub path_rest : List Segment → Text
path_rest [] = []
path_rest (key k ∷ rest) = b'.' ∷ (k ++ path_rest rest)
path_rest (index i ∷ rest) = b'[' ∷ (i ++ b']' ∷ path_rest rest)

abbrev pub path_text : List Segment → Text
path_text (key k ∷ rest) = k ++ path_rest rest
path_text segments = path_rest segments

abbrev pub NoneOf : (ℕ → Type 0) → Text → Type 0
NoneOf P [] = Unit
NoneOf P (c ∷ s) = P c × NoneOf P s

-- A key is not empty and holds no dot and no opening bracket; an index holds no closing bracket.
abbrev pub IsSegment : Segment → Type 0
IsSegment (key k) = (k ≢ []) × NoneOf (λ c. (c ≢ b'.') × (c ≢ b'[')) k
IsSegment (index i) = NoneOf (λ c. c ≢ b']') i

abbrev pub AreSegments : List Segment → Type 0
AreSegments [] = Unit
AreSegments (x ∷ xs) = IsSegment x × AreSegments xs

flush-ne_nil : (parts : List Text) (k : Text) → k ≢ [] → flush parts k ≡ parts ++ k ∷ []
unfolding flush
flush-ne_nil parts [] h = absurd (h refl)
flush-ne_nil parts (c ∷ k) h = refl

split-key :
    (k s : Text) (parts : List Text) (current : Text)
    → NoneOf (λ c. (c ≢ b'.') × (c ≢ b'[')) k
    → split_loop (k ++ s) parts current none ≡ split_loop s parts (current ++ k) none
unfolding split_loop
split-key [] s parts current h = rw append-nil refl
split-key (c ∷ k) s parts current h =
    ground
      (arith, h.0, split-key k s parts (current ++ c ∷ []) h.1, append_assoc current (c ∷ []) k)

split-index :
    (i s : Text) (parts : List Text) (current b : Text)
    → NoneOf (λ c. c ≢ b']') i
    → split_loop (i ++ b']' ∷ s) parts current (some b)
      ≡ split_loop s (parts ++ (b ++ (i ++ b']' ∷ [])) ∷ []) [] none
unfolding split_loop
split-index [] s parts current b h = refl
split-index (c ∷ i) s parts current b h = ground (
  arith,
  h.0,
  split-index i s parts current (b ++ c ∷ []) h.1,
  append_assoc b (c ∷ []) (i ++ b']' ∷ []),
)

has_close-append : (i s : Text) → has_close (i ++ b']' ∷ s) ≡ true
unfolding has_close
has_close-append [] s = refl
has_close-append (c ∷ i) s = ground (arith, has_close-append i s)

split-dot :
    (s : Text) (parts : List Text) (current : Text)
    → split_loop (b'.' ∷ s) parts current none ≡ split_loop s (flush parts current) [] none
unfolding split_loop
split-dot s parts current = refl

split-open :
    (i s : Text) (parts : List Text) (current : Text)
    → split_loop (b'[' ∷ (i ++ b']' ∷ s)) parts current none
      ≡ split_loop (i ++ b']' ∷ s) (flush parts current) [] (some (b'[' ∷ []))
unfolding split_loop
split-open i s parts current = rw (has_close-append i s, split_loop) refl

split-rest :
    (segments : List Segment) (parts : List Text) (current : Text)
    → AreSegments segments
    → split_loop (path_rest segments) parts current none
      ≡ flush parts current ++ map segment_text segments
split-rest [] parts current h = unfold split_loop in sym (append-nil (flush parts current))
split-rest (key k ∷ rest) parts current h =
    split-dot (k ++ path_rest rest) parts current
    ∙ split-key k (path_rest rest) (flush parts current) [] h.0.1
    ∙ split-rest rest (flush parts current) k h.1
    ∙ rw (flush-ne_nil (flush parts current) k h.0.0)
        (append_assoc (flush parts current) (k ∷ []) (map segment_text rest))
split-rest (index i ∷ rest) parts current h =
    split-open i (path_rest rest) parts current
    ∙ split-index i (path_rest rest) (flush parts current) [] (b'[' ∷ []) h.0
    ∙ split-rest rest (flush parts current ++ segment_text (index i) ∷ []) [] h.1
    ∙ unfold flush in
      append_assoc (flush parts current) (segment_text (index i) ∷ []) (map segment_text rest)

-- A path that is written from keys and indices is split into them again: keys are joined by dots,
-- indices stand in brackets, no key is empty or holds a dot or an opening bracket, and no index holds
-- a closing bracket.
pub split_json_path-path_text :
    (segments : List Segment)
    → AreSegments segments
    → split_json_path (path_text segments) ≡ map segment_text segments
unfolding split_json_path
split_json_path-path_text [] h = split-rest [] [] [] h
split_json_path-path_text (index i ∷ rest) h = split-rest (index i ∷ rest) [] [] h
split_json_path-path_text (key k ∷ rest) h =
    split-key k (path_rest rest) [] [] h.0.1
    ∙ split-rest rest [] k h.1
    ∙ rw (flush-ne_nil [] k h.0.0) refl
