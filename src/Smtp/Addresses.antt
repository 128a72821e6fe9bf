-- ===== src/Smtp/Addresses.antt =====
-- internal/imposter/smtp_server.go: `parseEmailAddress`, `parseEmailAddresses` and `splitAddresses`. A
-- rune is read as a byte, which comes to the same in valid UTF-8.
pub mod Lists
use go_tartuffe.Prelude.{
  is_blank, ℕ, ◌+◌, ◌==◌, Text, index_byte, slice, take, trim_space, reverse, ltb, Bool, true,
  false, not, ◌||◌, Option, none, some, List, [], ◌∷◌, ◌++◌, map, if◌then◌else◌,
}
use go_tartuffe.Models.Smtp.{EmailAddress}

unfoldable pub drop_quotes : Text → Text
drop_quotes [] = []
drop_quotes (c ∷ s) = let rest = drop_quotes s in if c == b'"' then rest else c ∷ s

-- strings.Trim(s, "\"")
unfoldable pub trim_quotes : Text → Text
unfolding drop_quotes
trim_quotes s = reverse (drop_quotes (reverse (drop_quotes s)))

abbrev pub bare_address : Text → EmailAddress
bare_address s = record { address = s; name = [] }

-- parseEmailAddress
unfoldable pub parse_email_address : Text → EmailAddress
unfolding trim_quotes
parse_email_address text =
    let addr = trim_space text in
    elim (index_byte b'<' addr) [
      | none ↦ bare_address addr
      | some start ↦ elim (index_byte b'>' addr) [
        | none ↦ bare_address addr
        | some end ↦
            if ltb start end
            then record {
              address = slice (start + 1) end addr;
              name = trim_quotes (trim_space (take start addr));
            }
            else bare_address addr
      ]
    ]

-- The variables of the loop of `splitAddresses`.
pub record Splitting : Type 0 where
  pub result : List Text
  pub current : Text
  pub in_quotes : Bool
  pub in_angle : Bool

-- What is gathered is an element, unless it is empty.
unfoldable pub flushed : Splitting → List Text
flushed p = if is_blank p.current then p.result else p.result ++ trim_space p.current ∷ []

-- One round of the loop.
unfoldable pub split_step : ℕ → Splitting → Splitting
unfolding flushed
split_step c p =
    let kept = p.current ++ c ∷ [] in
    if c == b'"'
    then record p { in_quotes = not p.in_quotes; current = kept }
    else if c == b'<'
    then record p { in_angle = true; current = kept }
    else if c == b'>'
    then record p { in_angle = false; current = kept }
    else if c == b','
    then if p.in_quotes || p.in_angle
      then record p { current = kept }
      else record p { result = flushed p; current = [] }
    else record p { current = kept }

unfoldable pub split_all : Text → Splitting → Splitting
split_all [] p = p
split_all (c ∷ s) p = split_all s (split_step c p)

-- splitAddresses
unfoldable pub split_addresses : Text → List Text
unfolding split_all flushed
split_addresses s =
    flushed
      (split_all s (record { result = []; current = []; in_quotes = false; in_angle = false }))

-- parseEmailAddresses
unfoldable pub parse_email_addresses : Text → List EmailAddress
unfolding parse_email_address split_addresses
parse_email_addresses addrs = map parse_email_address (split_addresses addrs)
