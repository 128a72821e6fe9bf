-- ===== src/Protocols/Tcp/Connection/Framing.antt =====
-- internal/imposter/tcp_server.go: how a request is cut into packets, where no resolver says where it
-- ends.
use go_tartuffe.Prelude.{
  Text, is_blank, map, all, Bool, true, not, none, List, [], ◌∷◌, ◌≡◌, refl, sym, ap, ◌∙◌, arith,
}
use go_tartuffe.Models.Stub.{Stub}
use go_tartuffe.Models.Imposter.{Imposter}
use go_tartuffe.Protocols.Tcp.Reading.{chunk, more_packets, read_request_packets}
use go_tartuffe.Protocols.Tcp.Connection.{
  Library, Reply, concat, record_packets, respond, handle_connection,
}

abbrev pub is_filled : Text → Bool
is_filled t = not (is_blank t)

-- Packets that are not empty.
abbrev pub filled : List Text → Bool
filled ps = all is_filled ps

more_packets-chunks : (ps : List Text) → filled ps ≡ true → more_packets (map chunk ps) ≡ ps
unfolding more_packets
more_packets-chunks [] h = refl
more_packets-chunks ([] ∷ ps) h = absurd (ground arith)
more_packets-chunks ((c ∷ p) ∷ ps) h = ap (◌∷◌ (c ∷ p)) (more_packets-chunks ps h)

read_request_packets-chunks :
    (ps : List Text) → filled ps ≡ true → read_request_packets none (map chunk ps) ≡ ps
unfolding read_request_packets
read_request_packets-chunks [] h = refl
read_request_packets-chunks ([] ∷ ps) h = absurd (ground arith)
read_request_packets-chunks ((c ∷ p) ∷ ps) h = ap (◌∷◌ (c ∷ p)) (more_packets-chunks ps h)

module _ {S : Type 0} (lib : Library S) (address now : Text) (imp : Imposter) (s : S) where
  -- What the client and the next connection see: the reply, the stubs and the script state.
  abbrev pub seen : Reply × Imposter × S → Reply × List Stub × S
  seen r = (r.0, r.1.stubs, r.2)

  abbrev pub responded : Text → Reply × List Stub × S
  responded bytes = respond lib imp.mode imp.stubs imp.default_response bytes s

  handle_connection-packets :
      (p : Text) (ps : List Text)
      → filled (p ∷ ps) ≡ true
      → seen (handle_connection lib none address now (map chunk (p ∷ ps)) imp s)
        ≡ responded (concat (p ∷ ps))
  unfolding handle_connection record_packets
  handle_connection-packets p ps h =
      rw (handle_connection, read_request_packets-chunks (p ∷ ps) h) refl

  -- Two connections that deliver the same bytes, cut into packets in two ways, none of them empty, get
  -- the same reply, and leave the stubs and the state of the scripts in the same way.
  pub handle_connection-framing :
      (p q : Text) (ps qs : List Text)
      → filled (p ∷ ps) ≡ true
      → filled (q ∷ qs) ≡ true
      → concat (p ∷ ps) ≡ concat (q ∷ qs)
      → seen (handle_connection lib none address now (map chunk (p ∷ ps)) imp s)
        ≡ seen (handle_connection lib none address now (map chunk (q ∷ qs)) imp s)
  handle_connection-framing p q ps qs h k e =
      handle_connection-packets p ps h ∙ ap responded e ∙ sym (handle_connection-packets q qs k)
