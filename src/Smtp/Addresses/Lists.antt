-- ===== src/Smtp/Addresses/Lists.antt =====
-- internal/imposter/smtp_server.go: lists of addresses, written and split again.
use go_tartuffe.Prelude.{
  ℕ, ◌==◌, Text, trim_space, Bool, true, false, List, [], ◌∷◌, ◌++◌, map, append_assoc, append-nil,
  ◌≡◌, ◌≢◌, refl, ap, ◌∙◌, arith, not, ◌||◌, ◌&&◌, if◌then◌else◌, subst,
}
use go_tartuffe.Smtp.Addresses.{Splitting, flushed, split_step, split_all, split_addresses}

abbrev pub quotes_after : ℕ → Bool → Bool
quotes_after c q = if c == b'"' then not q else q

abbrev pub angle_after : ℕ → Bool → Bool
angle_after c a = if c == b'<' then true else if c == b'>' then false else a

-- From inside quotes or not, and angle brackets or not, the text has no comma outside both and ends
-- outside both.
abbrev pub ends_whole : Text → Bool → Bool → Bool
ends_whole [] q a = not q && not a
ends_whole (c ∷ t) q a =
    (not (c == b',') || (q || a)) && ends_whole t (quotes_after c q) (angle_after c a)

-- An element of a list of addresses: not empty, its commas inside quotes or angle brackets.
abbrev pub IsElement : Text → Type 0
IsElement t = (t ≢ []) × (ends_whole t false false ≡ true)

abbrev pub AreElements : List Text → Type 0
AreElements [] = Unit {0}
AreElements (t ∷ ts) = IsElement t × AreElements ts

-- The elements with commas between them.
abbrev pub joined : List Text → Text
joined [] = []
joined (t ∷ []) = t
joined (t ∷ u ∷ ts) = t ++ b',' ∷ joined (u ∷ ts)

abbrev splitting : List Text → Text → Bool → Bool → Splitting
splitting r cur q a = record { result = r; current = cur; in_quotes = q; in_angle = a }

split_step-kept :
    (c : ℕ) (r : List Text) (cur : Text) (q a : Bool)
    → (not (c == b',') || (q || a)) ≡ true
    → split_step c (splitting r cur q a)
      ≡ splitting r (cur ++ c ∷ []) (quotes_after c q) (angle_after c a)
unfolding split_step
split_step-kept c r cur q a h = ground arith

split_all-element :
    (t s : Text) (r : List Text) (cur : Text) (q a : Bool)
    → ends_whole t q a ≡ true
    → split_all (t ++ s) (splitting r cur q a) ≡ split_all s (splitting r (cur ++ t) false false)
unfolding split_all
split_all-element [] s r cur q a h =
    let outside : (q ≡ false) × (a ≡ false) = ground arith in
    rw (append-nil cur, outside.0, outside.1) refl
split_all-element (c ∷ t) s r cur q a h =
    ap (split_all (t ++ s)) (split_step-kept c r cur q a (ground arith))
    ∙ split_all-element t s r (cur ++ c ∷ []) (quotes_after c q) (angle_after c a) (ground arith)
    ∙ rw (append_assoc cur (c ∷ []) t) refl

flushed-nonempty :
    (r : List Text) (t : Text)
    → t ≢ []
    → flushed (splitting r t false false) ≡ r ++ trim_space t ∷ []
unfolding flushed
flushed-nonempty r [] h = absurd (h refl)
flushed-nonempty r (c ∷ t) h = refl

split_step-comma :
    (r : List Text) (t : Text)
    → t ≢ []
    → split_step b',' (splitting r t false false)
      ≡ splitting (r ++ trim_space t ∷ []) [] false false
unfolding split_step
split_step-comma r t h = rw (flushed-nonempty r t h) refl

split_all-joined :
    (t : Text) (ts : List Text) (r : List Text)
    → AreElements (t ∷ ts)
    → flushed (split_all (joined (t ∷ ts)) (splitting r [] false false))
      ≡ r ++ map trim_space (t ∷ ts)
unfolding split_all
split_all-joined t [] r ((n, w), hs) =
    subst (λ x. flushed (split_all x (splitting r [] false false)) ≡ r ++ trim_space t ∷ [])
      (append-nil t)
      (ap flushed (split_all-element t [] r [] false false w) ∙ flushed-nonempty r t n)
split_all-joined t (u ∷ ts) r ((n, w), hs) =
    ap flushed (
      split_all-element t (b',' ∷ joined (u ∷ ts)) r [] false false w
      ∙ ap (split_all (joined (u ∷ ts))) (split_step-comma r t n))
    ∙ split_all-joined u ts (r ++ trim_space t ∷ []) hs
    ∙ append_assoc r (trim_space t ∷ []) (map trim_space (u ∷ ts))

-- A list of addresses, written with commas between them, is split into the addresses again, each
-- without the space around it. No address is empty, and its own commas stand inside quotes or angle
-- brackets that it closes.
pub split_addresses-joined :
    (ts : List Text) → AreElements ts → split_addresses (joined ts) ≡ map trim_space ts
unfolding split_addresses
split_addresses-joined [] h = refl
split_addresses-joined (t ∷ ts) h = split_all-joined t ts [] h
