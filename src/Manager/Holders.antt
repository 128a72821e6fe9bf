-- ===== src/Manager/Holders.antt =====
-- internal/imposter/manager.go: how many of the maps have a port, and a server that is entered.
use go_tartuffe.Prelude.{
  ℕ, ◌+◌, ◌≤◌, Bool, true, false, some, if◌then◌else◌, is_some, ℤ, pos, int_eq, int_eq_iff, IntMap,
  find, put, without, find-put, find-without, ◌≡◌, ◌≢◌, arith, Bool-cases, inl, inr, ◌⊎◌, subst,
  sym, ◌∙◌,
}
use go_tartuffe.Models.Imposter.{Imposter}
use go_tartuffe.Manager.{
  Server, Manager, Kind, http, https, tcp, smtp, grpc, Surroundings, listening, enter, is_running,
}

abbrev pub one : Bool → ℕ
one true = 1
one false = 0

abbrev pub has : ℤ → IntMap Server → ℕ
has port servers = one (is_some (find port servers))

-- The number of maps that have the port.
abbrev pub holders : ℤ → Manager → ℕ
holders port m =
    has port m.servers + has port m.tcp_servers + has port m.smtp_servers + has port m.grpc_servers

-- A listener's port is not 0, and no server of the manager has it.
abbrev pub IsFresh : Surroundings → Manager → Type 0
IsFresh out m = (port : ℤ) → out.listen ≡ some port → (port ≢ pos 0) × (is_running port m ≡ false)

-- Port 0 is in no map but that of gRPC, where port 0 stays.
abbrev pub IsValid : Manager → Type 0
IsValid m =
    ((port : ℤ) → holders port m ≤ 1)
    × (has (pos 0) m.servers + has (pos 0) m.tcp_servers + has (pos 0) m.smtp_servers ≡ 0)

pub has-put :
    (port j : ℤ) (srv : Server) (m : IntMap Server)
    → has j (put port srv m) ≡ (if int_eq port j then 1 else has j m)
has-put port j srv m = rw (find-put port j srv m) (ground arith)

has-without :
    (port j : ℤ) (m : IntMap Server)
    → has j (without port m) ≡ (if int_eq port j then 0 else has j m)
has-without port j m = rw (find-without port j m) (ground arith)

pub idle : (port : ℤ) (m : Manager) → is_running port m ≡ false → holders port m ≡ 0
unfolding is_running
idle port m h = ground arith

pub used : (port j : ℤ) (m : Manager) → holders port m ≡ 0 → int_eq port j ≡ true → holders j m ≡ 0
used port j m f e = subst (λ p. holders p m ≡ 0) ((int_eq_iff port j).0 e) f

-- A server that comes into one of the maps, under a port that no map has.
enter-holders :
    (k : Kind) (srv : Server) (m : Manager)
    → holders srv.imposter.port m ≡ 0
    → (j : ℤ) → holders j m ≤ 1
    → holders j (enter k srv m) ≤ 1
unfolding enter
enter-holders http srv m f j h =
    rw (has-put srv.imposter.port j srv m.servers) (ground (arith, used srv.imposter.port j m f))
enter-holders https srv m f j h =
    rw (has-put srv.imposter.port j srv m.servers) (ground (arith, used srv.imposter.port j m f))
enter-holders tcp srv m f j h =
    rw (has-put srv.imposter.port j srv m.tcp_servers)
      (ground (arith, used srv.imposter.port j m f))
enter-holders smtp srv m f j h =
    rw (has-put srv.imposter.port j srv m.smtp_servers)
      (ground (arith, used srv.imposter.port j m f))
enter-holders grpc srv m f j h =
    rw (has-put srv.imposter.port j srv m.grpc_servers)
      (ground (arith, used srv.imposter.port j m f))

abbrev pub zeros : Manager → ℕ
zeros m = has (pos 0) m.servers + has (pos 0) m.tcp_servers + has (pos 0) m.smtp_servers

enter-zeros :
    (k : Kind) (srv : Server) (m : Manager)
    → int_eq srv.imposter.port (pos 0) ≡ false
    → zeros m ≡ 0
    → zeros (enter k srv m) ≡ 0
unfolding enter
enter-zeros http srv m n z = rw (has-put srv.imposter.port (pos 0) srv m.servers) (ground arith)
enter-zeros https srv m n z = rw (has-put srv.imposter.port (pos 0) srv m.servers) (ground arith)
enter-zeros tcp srv m n z = rw (has-put srv.imposter.port (pos 0) srv m.tcp_servers) (ground arith)
enter-zeros smtp srv m n z =
    rw (has-put srv.imposter.port (pos 0) srv m.smtp_servers) (ground arith)
enter-zeros grpc srv m n z = z

enter-IsValid :
    (k : Kind) (srv : Server) (m : Manager)
    → int_eq srv.imposter.port (pos 0) ≡ false
    → holders srv.imposter.port m ≡ 0
    → IsValid m
    → IsValid (enter k srv m)
enter-IsValid k srv m n f (h, z) = (λ j. enter-holders k srv m f j (h j), enter-zeros k srv m n z)

zeros_at :
    (port j : ℤ) (m : Manager)
    → int_eq port (pos 0) ≡ true
    → int_eq port j ≡ true
    → zeros m ≡ 0
    → has j m.servers + has j m.tcp_servers + has j m.smtp_servers ≡ 0
zeros_at port j m e e' z =
    subst (λ p. has p m.servers + has p m.tcp_servers + has p m.smtp_servers ≡ 0)
      (sym ((int_eq_iff port (pos 0)).0 e) ∙ (int_eq_iff port j).0 e') z

-- gRPC at port 0: no other map has port 0.
enter_grpc-IsValid :
    (srv : Server) (m : Manager)
    → int_eq srv.imposter.port (pos 0) ≡ true
    → IsValid m
    → IsValid (enter grpc srv m)
unfolding enter
enter_grpc-IsValid srv m e (h, z) = (
  λ j.
      rw (has-put srv.imposter.port j srv m.grpc_servers)
        (ground (arith, h j, zeros_at srv.imposter.port j m e)),
  z,
)

abbrev pub assigned : ℤ → Imposter → Imposter
assigned port imp = if int_eq imp.port (pos 0) then record imp { port = port } else imp

pub not_zero : (port : ℤ) → port ≢ pos 0 → int_eq port (pos 0) ≡ false
not_zero port n = elim (Bool-cases (int_eq port (pos 0))) [
  | inl e ↦ absurd (n ((int_eq_iff port (pos 0)).0 e))
  | inr e ↦ e
]

-- The port of the new server, if it is not 0, is free.
abbrev pub IsFree : Imposter → Manager → Type 0
IsFree imp m = (int_eq imp.port (pos 0) ≡ true) ⊎ (is_running imp.port m ≡ false)

enter-assigned-IsValid :
    (k : Kind) (imp : Imposter) (m : Manager) (port : ℤ)
    → port ≢ pos 0
    → is_running port m ≡ false
    → IsFree imp m
    → IsValid m
    → IsValid (enter k (record { imposter = assigned port imp; started = true }) m)
enter-assigned-IsValid k imp m port n f free v = elim (Bool-cases (int_eq imp.port (pos 0))) [
  | inl e ↦ rw e (enter-IsValid k _ m (not_zero port n) (idle port m f) v)
  | inr e ↦ rw e (enter-IsValid k _ m e (idle imp.port m (ground arith)) v)
]

pub entered-IsValid :
    (k : Kind) (imp : Imposter) (m : Manager) (port : ℤ)
    → port ≢ pos 0
    → is_running port m ≡ false
    → IsFree imp m
    → IsValid m
    → IsValid (enter k (record { imposter = listening k port imp; started = true }) m)
unfolding listening
entered-IsValid http imp m port n f free v = enter-assigned-IsValid http imp m port n f free v
entered-IsValid https imp m port n f free v = enter-assigned-IsValid https imp m port n f free v
entered-IsValid tcp imp m port n f free v = enter-assigned-IsValid tcp imp m port n f free v
entered-IsValid smtp imp m port n f free v = enter-assigned-IsValid smtp imp m port n f free v
entered-IsValid grpc imp m port n f (inl e) v = enter_grpc-IsValid _ m e v
entered-IsValid grpc imp m port n f (inr r) v = elim (Bool-cases (int_eq imp.port (pos 0))) [
  | inl e ↦ enter_grpc-IsValid _ m e v
  | inr e ↦ enter-IsValid grpc _ m e (idle imp.port m r) v
]
