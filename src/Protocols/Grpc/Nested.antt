-- ===== src/Protocols/Grpc/Nested.antt =====
-- internal/imposter/grpc_matcher.go: the fields of a message by a path with dots.
use go_tartuffe.Prelude.{
  Text, codes, join, split, split_from, has_prefix, index_byte, index_byte-cons, none, List, [],
  ◌∷◌, ◌++◌, ◌≡◌, refl, sym, ap, ◌∙◌, append-nil, append_assoc,
}
use go_tartuffe.Value.{Value, object, Fields}
use go_tartuffe.Selectors.Descent.{Reads, here, inside}
use go_tartuffe.Protocols.Grpc.{nested_from, get_nested_value}

-- A part without dots is added to the current one.
split_from-undotted :
    (k rest current : Text)
    → index_byte b'.' k ≡ none
    → split_from (codes ".") (k ++ rest) 0 current ≡ split_from (codes ".") rest 0 (current ++ k)
unfolding split_from has_prefix
split_from-undotted [] rest current h =
    ap (split_from (codes ".") rest 0) (sym (append-nil current))
split_from-undotted (c ∷ k) rest current h =
    let (a, b) = index_byte-cons b'.' c k h in
    rw a (
      split_from-undotted k rest (current ++ c ∷ []) b
      ∙ ap (split_from (codes ".") rest 0) (append_assoc current (c ∷ []) k))

nested_from-Reads : {v w : Value} {keys : List Text} → Reads v keys w → nested_from v keys ≡ w
unfolding nested_from
nested_from-Reads (here {v = v}) = refl
nested_from-Reads (inside {fs = fs} {k = k} {keys = keys} h name reads) =
    rw (nested_from, h) (nested_from-Reads reads)

-- The parts of a path that is written from keys are the keys.
split-join :
    {v w : Value} {k : Text} {keys : List Text}
    → Reads v (k ∷ keys) w
    → split (join (codes ".") (k ∷ keys)) (codes ".") ≡ k ∷ keys
unfolding split join split_from has_prefix
split-join (inside {k = k} {keys = []} h name reads) =
    ap (λ t. split_from (codes ".") t 0 []) (sym (append-nil k))
    ∙ split_from-undotted k [] [] name.1
split-join (inside {k = k} {keys = k' ∷ keys} h name reads) =
    split_from-undotted k (b'.' ∷ join (codes ".") (k' ∷ keys)) [] name.1
    ∙ ap (◌∷◌ k) (split-join reads)

-- A path of names with dots between them that leads from the message to a value through nested
-- objects gives that value; a name is a text that is not empty and has neither a dot nor an opening
-- bracket.
pub get_nested_value-Reads :
    (message : Fields) {w : Value} {k : Text} {keys : List Text}
    → Reads (object message) (k ∷ keys) w
    → get_nested_value message (join (codes ".") (k ∷ keys)) ≡ w
unfolding get_nested_value
get_nested_value-Reads message reads =
    ap (nested_from (object message)) (split-join reads) ∙ nested_from-Reads reads
