-- ===== src/Models/Stub.antt =====
-- internal/models/stub.go: responses, stubs, and the cycle of a stub's responses.
pub mod Schedule
pub mod Cycle
use go_tartuffe.Prelude.{
  ℕ, zero, suc, ◌+◌, ◌-◌, ◌%◌, ◌^◌, Text, Assoc, Bool, true, false, Option, none, some, List, [],
  ◌∷◌, length, get_elem?, any, ◌==◌, ltb, leb, if◌then◌else◌, ℤ, pos, negsuc, is_some,
}
use go_tartuffe.Value.{Value, Items, Fields}
use go_tartuffe.Models.Predicate.{Predicate, Selector}

-- `Is`: a static response. A header value is a string or a list of them, so a `Value`; the map
-- of the headers may be nil.
pub record IsResponse : Type 0 where
  pub status_code : Value
  pub status_message : Text
  pub headers : Option Fields
  pub body : Value
  pub payload : Text
  pub mode : Text
  pub proxy_response_time : ℤ
  pub stream : Items

pub record PredicateGen : Type 0 where
  pub matches : Value
  pub inject : Text
  pub case_sensitive : Bool
  pub xpath : Option Selector
  pub jsonpath : Option Selector

pub record ProxyResponse : Type 0 where
  pub to : Text
  pub mode : Text
  pub predicate_generators : List PredicateGen
  pub add_wait_behavior : Bool
  pub add_decorate_behavior : Text
  pub inject_headers : Assoc Text
  pub cert : Text
  pub key : Text
  pub ciphers : Text
  pub secure_protocol : Text

pub record UsingOptions : Type 0 where
  pub ignore_case : Bool
  pub multiline : Bool

pub record Using : Type 0 where
  pub method : Text
  pub selector : Text
  pub ns : Assoc Text
  pub options : Option UsingOptions

pub record Copy : Type 0 where
  pub from : Value
  pub into : Text
  pub using : Option Using

pub record CsvSource : Type 0 where
  pub path : Text
  pub key_column : Text
  pub delimiter : Text

pub record Lookup : Type 0 where
  pub key : Value
  pub from_data_source : Option (Option CsvSource)
  pub into : Text
  pub using : Option Using

pub record Behavior : Type 0 where
  pub wait : Value
  pub repeat : ℤ
  pub copy : List Copy
  pub lookup : List Lookup
  pub decorate : Text
  pub shell_transform : Value

pub record Response : Type 0 where
  pub is : Option IsResponse
  pub proxy : Option ProxyResponse
  pub inject : Text
  pub fault : Text
  pub repeat : ℤ
  pub behaviors : List Behavior
  pub is_shorthand : Bool

-- The two counters are the bit patterns of an int64.
pub record Stub : Type 0 where
  pub predicates : List Predicate
  pub responses : List Response
  pub links : Option Text
  pub response_index : ℕ
  pub repeat_count : ℕ
  pub is_proxy_generated : Bool

-- IsProxyStub
unfoldable pub is_proxy_stub : Stub → Bool
is_proxy_stub s = any (λ r. is_some r.proxy) s.responses

-- atomic.AddInt64(&x, 1)
unfoldable pub increment_64 : ℕ → ℕ
increment_64 x = (x + 1) % 2 ^ 64

abbrev pub is_negative_64 : ℕ → Bool
is_negative_64 x = leb (2 ^ 63) x

-- The `repeat` of a response, 1 if it is not set.
unfoldable pub effective_repeat : ℤ → ℤ
effective_repeat (pos zero) = pos 1
effective_repeat r = r

-- count >= repeat, on int64.
unfoldable pub reached : ℕ → ℤ → Bool
reached count (pos r) = if is_negative_64 count then false else leb r count
reached count (negsuc r) = if is_negative_64 count then leb (2 ^ 64 - count) (r + 1) else true

-- What a call gives: no response, a response, or a panic on an index out of range.
pub data Next : Type 0 where
  no_response : Next
  response : Response → Next
  out_of_range : Next

-- s.responseIndex % int64(len(s.Responses)): Go's remainder has the sign of the dividend, so the
-- index of a negative counter is in range only if it is 0.
unfoldable pub response_position : ℕ → ℕ → Option ℕ
response_position index len =
    if is_negative_64 index
    then (if (2 ^ 64 - index) % len == 0 then some 0 else none)
    else some (index % len)

unfoldable pub response_at : List Response → ℕ → Option Response
unfolding response_position
response_at responses index = elim (response_position index (length responses)) [
  | none ↦ none
  | some i ↦ get_elem? responses i
]

-- The counters after a call that returned a response with this `repeat`.
unfoldable pub advance : Stub → ℤ → Stub
unfolding increment_64 effective_repeat reached
advance s repeat =
    if reached (increment_64 s.repeat_count) (effective_repeat repeat)
    then record s { response_index = increment_64 s.response_index; repeat_count = 0 }
    else record s { repeat_count = increment_64 s.repeat_count }

-- NextResponse
unfoldable pub next_response : Stub → Next × Stub
unfolding advance response_at
next_response s = elim s.responses [
  | [] ↦ (no_response, s)
  | _ ∷ _ ↦ elim (response_at s.responses s.response_index) [
    | none ↦ (out_of_range, s)
    | some r ↦ (response r, advance s r.repeat)
  ]
]
