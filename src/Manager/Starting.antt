-- ===== src/Manager/Starting.antt =====
-- internal/imposter/manager.go: what Start does to the servers that run.
use go_tartuffe.Prelude.{
  Text, codes, text_eq, Bool, true, false, not, ◌&&◌, ◌||◌, Option, none, some, is_some,
  if◌then◌else◌, ℤ, pos, int_eq, int_eq_iff, put, put-put, ◌≡◌, refl, inl, inr, ◌⊎◌, sym, ap, arith,
  ◌∙◌,
}
use go_tartuffe.Models.Imposter.{Imposter}
use go_tartuffe.Manager.{
  Server, Manager, ManagerError, Kind, http, https, tcp, smtp, grpc, kind_of, Surroundings,
  listening, can_create, start_server, entered, enter, launch, start, is_running, get_server,
}
use go_tartuffe.Manager.Outcomes.{start_server-outcome}

-- The maps are one for HTTP and HTTPS.
abbrev pub same_map : Kind → Kind → Bool
same_map http http = true
same_map http https = true
same_map https http = true
same_map https https = true
same_map tcp tcp = true
same_map smtp smtp = true
same_map grpc grpc = true
same_map _ _ = false

-- No server of the manager has the port that is asked for, a server of the kind can be created, and it
-- gets a listener.
abbrev pub is_startable : Surroundings → Imposter → Manager → Bool
is_startable out imp m =
    (int_eq imp.port (pos 0) || not (is_running imp.port m))
    && (can_create (kind_of imp.protocol) out && is_some out.listen)

-- A start fails and changes nothing, or one server more is in the map of its protocol, under the port
-- of its imposter.
abbrev pub Started :
    Surroundings → Imposter → Manager → Kind → ℤ → Option ManagerError × Manager → Type 0
Started out imp m k j r =
    ((e : ManagerError) × (r ≡ (some e, m)) × (is_startable out imp m ≡ false))
    ⊎ ((srv : Server) × (port : ℤ) × (r.0 ≡ none)
        × (is_startable out imp m ≡ true)
        × (out.listen ≡ some port)
        × (srv ≡ record { imposter = listening (kind_of imp.protocol) port imp; started = true })
        × (get_server k j r.1 ≡ (
            if same_map (kind_of imp.protocol) k && int_eq srv.imposter.port j
            then some srv
            else get_server k j m)))

abbrev is_free : Imposter → Manager → Bool
is_free imp m = int_eq imp.port (pos 0) || not (is_running imp.port m)

kind_of_grpc : (protocol : Text) → protocol ≡ codes "grpc" → kind_of protocol ≡ grpc
unfolding kind_of text_eq
kind_of_grpc protocol p = rw p refl

start-grpc :
    (out : Surroundings) (imp : Imposter) (m : Manager)
    → imp.port ≡ pos 0
    → imp.protocol ≡ codes "grpc"
    → start out imp m ≡ launch grpc out imp m
unfolding start
start-grpc out imp m e p =
    let zero : int_eq imp.port (pos 0) ≡ true = (int_eq_iff imp.port (pos 0)).1 e in
    rw (start, zero) (ap (λ k. launch k out imp m) (kind_of_grpc imp.protocol p))

enter-enter :
    (srv srv' : Server) (m : Manager)
    → srv.imposter.port ≡ srv'.imposter.port
    → enter grpc srv' (enter grpc srv m) ≡ enter grpc srv' m
unfolding enter
enter-enter srv srv' m e =
    ap (λ x. record m { grpc_servers = x })
      (ap (λ port. put srv'.imposter.port srv' (put port srv m.grpc_servers)) e
        ∙ put-put srv'.imposter.port srv' srv m.grpc_servers)

grpc_server : Imposter → Server
grpc_server imp = record { imposter = imp; started = true }

none-some : (e : ManagerError) → ¬ (none ≡ some e)
none-some e q = ground arith

entered-error :
    (k : Kind) (r : Option ManagerError × Server) (m : Manager) → (entered k r m).0 ≡ r.0
entered-error k (none, srv) m = refl
entered-error k (some e, srv) m = refl

launch-grpc :
    (out : Surroundings) (imp : Imposter) (m m' : Manager)
    → (launch grpc out imp m).0 ≡ none
    → launch grpc out imp m' ≡ (none, enter grpc (grpc_server imp) m')
unfolding grpc_server listening launch
launch-grpc out imp m m' h = elim (start_server-outcome grpc out imp) [
  | inl (e, q, cannot) ↦
      absurd (none-some e (sym h ∙ entered-error grpc (start_server grpc out imp) m ∙ q))
  | inr (port, l, q, c) ↦ ap (λ r. entered grpc r m') q
]

-- A gRPC imposter with port 0 that starts after another one takes its place: the manager is as if the
-- first one had never been started, though its server listens. Both start without an error.
pub start-unassigned_grpc :
    (out out' : Surroundings) (imp imp' : Imposter) (m : Manager)
    → imp.port ≡ pos 0
    → imp'.port ≡ pos 0
    → imp.protocol ≡ codes "grpc"
    → imp'.protocol ≡ codes "grpc"
    → (start out imp m).0 ≡ none
    → (start out' imp' m).0 ≡ none
    → start out' imp' (start out imp m).1 ≡ start out' imp' m
unfolding grpc_server
start-unassigned_grpc out out' imp imp' m e e' p p' h h' =
    let first =
      start-grpc out imp m e p
      ∙ launch-grpc out imp m m (ap (λ r. r.0) (sym (start-grpc out imp m e p)) ∙ h) in
    let second : (m' : Manager) → start out' imp' m' ≡ (none, enter grpc (grpc_server imp') m') =
      λ m'.
        start-grpc out' imp' m' e' p'
        ∙ launch-grpc out' imp' m m' (ap (λ r. r.0) (sym (start-grpc out' imp' m e' p')) ∙ h') in
    ap (λ r. start out' imp' r.1) first
    ∙ second (enter grpc (grpc_server imp) m)
    ∙ ap (λ x. (none, x)) (enter-enter (grpc_server imp) (grpc_server imp') m (e ∙ sym e'))
    ∙ sym (second m)
