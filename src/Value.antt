-- ===== src/Value.antt =====
-- The dynamic values (`interface{}`) that predicates and parsed JSON bodies are made of, and what
-- the source asks of the Go runtime about them: `==` on float64, `reflect.DeepEqual`, `toString`.
use go_tartuffe.Prelude.{
  ℕ, ◌%◌, ◌^◌, Text, text_eq, Assoc, lookup, length, Bool, true, false, not, ◌&&◌, ◌||◌, Option,
  none, some, List, [], ◌∷◌, ◌==◌, ltb,
}

-- `number` holds the bit pattern of a float64; `text_map` is a map[string]string, which may be nil;
-- `object` is a map[string]interface{}, its entries in the order of a `range` loop.
mutual
  pub data Value : Type 0 where
    nil : Value
    boolean : Bool → Value
    number : ℕ → Value
    text : Text → Value
    array : Items → Value
    object : Fields → Value
    text_map : Option (Assoc Text) → Value

  pub data Items : Type 0 where
    no_items : Items
    item : Value → Items → Items

  pub data Fields : Type 0 where
    no_fields : Fields
    field : Text → Value → Fields → Fields

unfoldable pub items : Items → List Value
items no_items = []
items (item v vs) = v ∷ items vs

unfoldable pub entries : Fields → Assoc Value
entries no_fields = []
entries (field k v fs) = (k, v) ∷ entries fs

-- m[k] of a map whose missing keys read as "".
unfoldable pub text_or_empty : Option Text → Text
text_or_empty none = []
text_or_empty (some t) = t

-- a == b on float64: NaN differs from itself, and the two zeros are equal.
abbrev magnitude : ℕ → ℕ
magnitude b = b % 2 ^ 63

unfoldable pub is_nan : ℕ → Bool
is_nan b = ltb 0x7ff0000000000000 (magnitude b)

unfoldable pub float_eq : ℕ → ℕ → Bool
float_eq a b =
    not (is_nan a) && not (is_nan b) && (a == b || (magnitude a == 0 && magnitude b == 0))

unfoldable pub bool_eq : Bool → Bool → Bool
bool_eq true b = b
bool_eq false b = not b

-- Every entry of the first map is in the second, with an equal text.
unfoldable pub texts_within : Assoc Text → Assoc Text → Bool
texts_within [] m = true
texts_within ((k, v) ∷ rest) m =
    elim (lookup k m) [ none ↦ false | some w ↦ text_eq v w ] && texts_within rest m

-- reflect.DeepEqual on two map[string]string: both nil or neither, and the same entries.
unfoldable pub text_map_eq : Option (Assoc Text) → Option (Assoc Text) → Bool
text_map_eq none none = true
text_map_eq (some m) (some n) = (length m == length n) && texts_within m n
text_map_eq _ _ = false

-- reflect.DeepEqual(a, b)
unfoldable mutual
  pub deep_equal : Value → Value → Bool
  deep_equal nil nil = true
  deep_equal (boolean a) (boolean b) = bool_eq a b
  deep_equal (number a) (number b) = float_eq a b
  deep_equal (text a) (text b) = text_eq a b
  deep_equal (array a) (array b) = deep_equal_items a b
  deep_equal (object a) (object b) =
      (length (entries a) == length (entries b)) && deep_equal_fields a (entries b)
  deep_equal (text_map a) (text_map b) = text_map_eq a b
  deep_equal _ _ = false

  pub deep_equal_items : Items → Items → Bool
  deep_equal_items no_items no_items = true
  deep_equal_items (item a as') (item b bs) = deep_equal a b && deep_equal_items as' bs
  deep_equal_items _ _ = false

  pub deep_equal_fields : Fields → Assoc Value → Bool
  deep_equal_fields no_fields m = true
  deep_equal_fields (field k v fs) m =
      elim (lookup k m) [ none ↦ false | some w ↦ deep_equal v w ] && deep_equal_fields fs m

-- toString: the text of a value, if it has one; nil reads as "".
unfoldable pub to_string : Value → Option Text
to_string (text t) = some t
to_string nil = some []
to_string _ = none

-- `s, _ := toString(v)`: the text alone, which is "" for a value that is no string.
unfoldable pub string_of : Value → Text
unfolding to_string text_or_empty
string_of v = text_or_empty (to_string v)
