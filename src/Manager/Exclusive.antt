-- ===== src/Manager/Exclusive.antt =====
-- internal/imposter/manager.go: a port is in one of the manager's maps at most.
use go_tartuffe.Prelude.{
  ◌≤◌, Bool, true, Option, none, some, [], ◌∷◌, ℤ, pos, int_eq, int_eq_iff, IntMap, find, find-put,
  find-without, ◌≡◌, refl, arith, Option-cases, Bool-cases, inl, inr, subst, sym,
}
use go_tartuffe.Models.Imposter.{Imposter}
use go_tartuffe.Manager.{
  ManagerError, Server, Manager, new_manager, Kind, Surroundings, is_running, launch, start,
  kind_of, stop_server, stop_in, stop, stop_each, stop_all,
}
use go_tartuffe.Manager.Holders.{has, holders, IsFresh, IsValid, IsFree, entered-IsValid}
use go_tartuffe.Manager.Outcomes.{launch-outcome}

-- The managers that operations lead to, one after the other.
pub data Reached : Manager → Type 0 where
  created : Reached new_manager
  starting :
      {m : Manager} (out : Surroundings) (imp : Imposter)
      → Reached m
      → IsFresh out m
      → Reached (start out imp m).1
  stopping : {m : Manager} (port : ℤ) (in_time : Bool) → Reached m → Reached (stop port in_time m).1
  stopping_all :
      {m : Manager} (in_time : Server → Bool) → Reached m → Reached (stop_all in_time m).1

launch-IsValid :
    (k : Kind) (out : Surroundings) (imp : Imposter) (m : Manager)
    → IsFresh out m
    → IsFree imp m
    → IsValid m
    → IsValid (launch k out imp m).1
launch-IsValid k out imp m f free v = elim (launch-outcome k out imp m) [
  | inl (e, q, h) ↦ subst (λ r. IsValid r.1) (sym q) v
  | inr (port, l, q, c) ↦
      let (n, r) = f port l in
      subst (λ r. IsValid r.1) (sym q) (entered-IsValid k imp m port n r free v)
]

start-IsValid :
    (out : Surroundings) (imp : Imposter) (m : Manager)
    → IsFresh out m
    → IsValid m
    → IsValid (start out imp m).1
unfolding start
start-IsValid out imp m f v = elim (Bool-cases (int_eq imp.port (pos 0))) [
  | inl e ↦ rw e (launch-IsValid (kind_of imp.protocol) out imp m f (inl e) v)
  | inr e ↦ elim (Bool-cases (is_running imp.port m)) [
    | inl r ↦ rw (e, r) v
    | inr r ↦ rw (e, r) (launch-IsValid (kind_of imp.protocol) out imp m f (inr r) v)
  ]
]

found :
    (port j : ℤ) (srv : Server) (servers : IntMap Server)
    → find port servers ≡ some srv
    → int_eq port j ≡ true
    → has j servers ≡ 1
found port j srv servers e q = subst (λ p. has p servers ≡ 1) ((int_eq_iff port j).0 q) (rw e refl)

-- What Stop leaves of a map has no port that was not in it.
stop_in-has :
    (port j : ℤ) (in_time : Bool) (srv : Server) (servers : IntMap Server)
    → find port servers ≡ some srv
    → has j (stop_in port in_time srv servers).1 ≤ has j servers
unfolding stop_in
stop_in-has port j in_time srv servers e = elim (Bool-cases (stop_server in_time srv).0) [
  | inl t ↦ rw (stop_in, t, find-without port j servers) (ground arith)
  | inr t ↦
      rw (stop_in, t, find-put port j (stop_server in_time srv).1 servers)
        (ground (arith, found port j srv servers e))
]

-- No map gets a port that it did not have.
abbrev Shrinks : Manager → Manager → Type 0
Shrinks m m' =
    (j : ℤ)
    → (has j m'.servers ≤ has j m.servers)
      × (has j m'.tcp_servers ≤ has j m.tcp_servers)
      × (has j m'.smtp_servers ≤ has j m.smtp_servers)
      × (has j m'.grpc_servers ≤ has j m.grpc_servers)

stop-Shrinks : (port : ℤ) (in_time : Bool) (m : Manager) → Shrinks m (stop port in_time m).1
unfolding stop
stop-Shrinks port in_time m j = elim (Option-cases (find port m.servers)) [
  | inr (srv, e) ↦ rw (stop, e) (ground (arith, stop_in-has port j in_time srv m.servers e))
  | inl a ↦ elim (Option-cases (find port m.tcp_servers)) [
    | inr (srv, e) ↦
        rw (stop, a, e) (ground (arith, stop_in-has port j in_time srv m.tcp_servers e))
    | inl b ↦ elim (Option-cases (find port m.smtp_servers)) [
      | inr (srv, e) ↦
          rw (stop, a, b, e) (ground (arith, stop_in-has port j in_time srv m.smtp_servers e))
      | inl c ↦ elim (Option-cases (find port m.grpc_servers)) [
        | inr (srv, e) ↦
            rw (stop, a, b, c, e) (ground (arith, stop_in-has port j in_time srv m.grpc_servers e))
        | inl d ↦ rw (stop, a, b, c, d) (ground arith)
      ]
    ]
  ]
]

Shrinks-IsValid : (m m' : Manager) → Shrinks m m' → IsValid m → IsValid m'
Shrinks-IsValid m m' s (h, z) = (λ j. omega (arith, s j, h j), omega (arith, s (pos 0), z))

pub stop_each-empty :
    (in_time : Server → Bool) (servers : IntMap Server) (last : Option ManagerError)
    → (stop_each in_time servers last).1 ≡ []
unfolding stop_each
stop_each-empty in_time [] last = refl
stop_each-empty in_time ((port, srv) ∷ servers) last = stop_each-empty in_time servers _

-- StopAll leaves no server in any map, whatever their stops return.
pub stop_all-empty : (in_time : Server → Bool) (m : Manager) → (stop_all in_time m).1 ≡ new_manager
unfolding stop_all
stop_all-empty in_time m =
    rw
      (
        stop_each-empty in_time m.servers none,
        stop_each-empty in_time m.tcp_servers,
        stop_each-empty in_time m.smtp_servers,
        stop_each-empty in_time m.grpc_servers,
      )
      refl

new-IsValid : IsValid new_manager
unfolding find
new-IsValid = (λ j. omega arith, refl)

Reached-IsValid : {m : Manager} → Reached m → IsValid m
Reached-IsValid created = new-IsValid
Reached-IsValid (starting out imp r f) = start-IsValid out imp _ f (Reached-IsValid r)
Reached-IsValid (stopping port in_time r) =
    Shrinks-IsValid _ _ (stop-Shrinks port in_time _) (Reached-IsValid r)
Reached-IsValid (stopping_all in_time r) =
    subst IsValid (sym (stop_all-empty in_time _)) new-IsValid

-- In every manager that starts and stops lead to, a port is in one of the four maps at most. The
-- listener that a start gets is given a port that is not 0 and that no server of the manager has.
pub Reached-exclusive : {m : Manager} → Reached m → (port : ℤ) → holders port m ≤ 1
Reached-exclusive r port = (Reached-IsValid r).0 port
