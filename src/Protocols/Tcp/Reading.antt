-- ===== src/Protocols/Tcp/Reading.antt =====
-- internal/imposter/tcp_server.go: `readRequest` and `readRequestPackets`. What a connection delivers
-- is a list of reads; once it delivers no more, a read runs into its deadline.
use go_tartuffe.Prelude.{
  Text, is_blank, Bool, true, false, Option, none, some, List, [], ◌∷◌, ◌++◌, if◌then◌else◌,
}

-- The error of a read: the end of the stream, the deadline, or another one.
pub data Ending : Type 0 where
  eof : Ending
  timeout : Ending
  broken : Ending

pub record Read : Type 0 where
  pub bytes : Text
  pub ending : Option Ending

-- n, err := conn.Read(buffer)
abbrev pub chunk : Text → Read
chunk bytes = record { bytes = bytes; ending = none }

-- Whether the bytes so far are a complete request; `none` is an error of the resolver.
abbrev pub Resolver : Type 0
Resolver = Text → Option Bool

-- A resolver that fails ends the request too.
abbrev is_complete : Resolver → Text → Bool
is_complete resolver bytes = elim (resolver bytes) [ none ↦ true | some b ↦ b ]

-- readRequest with a resolver: the bytes, and whether there is an error.
unfoldable pub read_request : Resolver → List Read → Text → Text × Bool
read_request resolver [] accumulated = (accumulated, is_blank accumulated)
read_request resolver (r ∷ rs) accumulated =
    let bytes = accumulated ++ r.bytes in
    let later = read_request resolver rs bytes in
    let ended : Text × Bool = elim r.ending [
      | none ↦ later
      | some eof ↦ (bytes, false)
      | some timeout ↦ (bytes, is_blank bytes)
      | some broken ↦ (bytes, true)
    ] in
    if is_blank r.bytes then ended else if is_complete resolver bytes then (bytes, false) else ended

abbrev packet : Text → List Text → List Text
packet [] packets = packets
packet (c ∷ s) packets = (c ∷ s) ∷ packets

-- The reads after the first one, up to one with an error.
unfoldable pub more_packets : List Read → List Text
more_packets [] = []
more_packets (r ∷ rs) =
    let later = more_packets rs in packet r.bytes (elim r.ending [ none ↦ later | some e ↦ [] ])

-- readRequestPackets; no packets if there is an error.
unfoldable pub read_request_packets : Option Resolver → List Read → List Text
unfolding read_request more_packets
read_request_packets (some resolver) rs =
    let (bytes, failed) = read_request resolver rs [] in if failed then [] else packet bytes []
read_request_packets none [] = []
read_request_packets none (r ∷ rs) = elim r.ending [
  | none ↦ packet r.bytes (more_packets rs)
  | some eof ↦ packet r.bytes []
  | some e ↦ []
]
