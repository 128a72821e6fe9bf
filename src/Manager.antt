-- ===== src/Manager.antt =====
-- internal/imposter/manager.go: the servers that run, by protocol and port. The mutex makes each
-- operation one step. Of a server, its imposter and its `started` flag are kept; a pointer to it
-- stands in one map, so a change through it is a change of that map's entry.
pub mod Holders
pub mod Outcomes
pub mod Exclusive
pub mod Stopping
pub mod Starting
use go_tartuffe.Prelude.{
  Text, codes, text_eq, Bool, true, false, not, ◌&&◌, ◌||◌, Option, none, some, List, [], ◌∷◌,
  if◌then◌else◌, is_some, ℤ, pos, int_eq, IntMap, find, put, without,
}
use go_tartuffe.Models.Imposter.{Imposter}

pub record Server : Type 0 where
  pub imposter : Imposter
  pub started : Bool

pub record Manager : Type 0 where
  pub servers : IntMap Server
  pub tcp_servers : IntMap Server
  pub smtp_servers : IntMap Server
  pub grpc_servers : IntMap Server

-- NewManager
abbrev pub new_manager : Manager
new_manager = record { servers = []; tcp_servers = []; smtp_servers = []; grpc_servers = [] }

pub data ManagerError : Type 0 where
  already_running : ℤ → ManagerError
  not_created : ManagerError
  not_listening : ManagerError
  not_stopped : ManagerError

pub data Kind : Type 0 where
  http : Kind
  https : Kind
  tcp : Kind
  smtp : Kind
  grpc : Kind

-- switch imp.Protocol
unfoldable pub kind_of : Text → Kind
kind_of protocol =
    if text_eq protocol (codes "tcp")
    then tcp
    else if text_eq protocol (codes "https")
    then https
    else if text_eq protocol (codes "smtp")
    then smtp
    else if text_eq protocol (codes "grpc")
    then grpc
    else http

-- What the calls outside this repository give while a server starts: whether the certificate can be
-- made, whether the proto files load, and the port of the listener, `none` if listening fails.
pub record Surroundings : Type 0 where
  pub tls_ready : Bool
  pub protos_load : Bool
  pub listen : Option ℤ

-- The error of NewServer, NewTCPServer, NewSMTPServer and NewGRPCServer.
unfoldable pub can_create : Kind → Surroundings → Bool
can_create https out = out.tls_ready
can_create grpc out = out.protos_load
can_create _ out = true

-- The imposter once its server listens: port 0 becomes the port of the listener, but not for gRPC.
unfoldable pub listening : Kind → ℤ → Imposter → Imposter
listening grpc port imp = imp
listening _ port imp = if int_eq imp.port (pos 0) then record imp { port = port } else imp

-- Start of a server: it exists, or could not be created or not listen.
unfoldable pub start_server : Kind → Surroundings → Imposter → Option ManagerError × Server
unfolding can_create listening
start_server kind out imp =
    if can_create kind out
    then elim out.listen [
      | none ↦ (some not_listening, record { imposter = imp; started = false })
      | some port ↦ (none, record { imposter = listening kind port imp; started = true })
    ]
    else (some not_created, record { imposter = imp; started = false })

-- m.servers[imp.Port] = srv, in the map of the kind.
unfoldable pub enter : Kind → Server → Manager → Manager
enter http srv m = record m { servers = put srv.imposter.port srv m.servers }
enter https srv m = record m { servers = put srv.imposter.port srv m.servers }
enter tcp srv m = record m { tcp_servers = put srv.imposter.port srv m.tcp_servers }
enter smtp srv m = record m { smtp_servers = put srv.imposter.port srv m.smtp_servers }
enter grpc srv m = record m { grpc_servers = put srv.imposter.port srv m.grpc_servers }

-- IsRunning
unfoldable pub is_running : ℤ → Manager → Bool
is_running port m =
    is_some (find port m.servers)
    || (is_some (find port m.tcp_servers)
        || (is_some (find port m.smtp_servers) || is_some (find port m.grpc_servers)))

abbrev pub entered : Kind → Option ManagerError × Server → Manager → Option ManagerError × Manager
entered kind (none, srv) m = (none, enter kind srv m)
entered kind (some e, srv) m = (some e, m)

-- startHTTPServer, startHTTPSServer, startTCPServer, startSMTPServer and startGRPCServer.
unfoldable pub launch : Kind → Surroundings → Imposter → Manager → Option ManagerError × Manager
unfolding start_server enter
launch kind out imp m = entered kind (start_server kind out imp) m

-- Start
unfoldable pub start : Surroundings → Imposter → Manager → Option ManagerError × Manager
unfolding launch kind_of is_running
start out imp m =
    if not (int_eq imp.port (pos 0)) && is_running imp.port m
    then (some (already_running imp.port), m)
    else launch (kind_of imp.protocol) out imp m

-- Stop of a server: a second one has nothing to do. `in_time` says whether it finished before the
-- deadline of its context.
unfoldable pub stop_server : Bool → Server → Bool × Server
stop_server in_time srv =
    if srv.started then (in_time, record srv { started = false }) else (true, srv)

-- One of the four cases of Stop: the map without the server, or with it, stopped, after an error.
unfoldable pub stop_in : ℤ → Bool → Server → IntMap Server → Option ManagerError × IntMap Server
unfolding stop_server
stop_in port in_time srv servers =
    let (stopped, srv') = stop_server in_time srv in
    if stopped then (none, without port servers) else (some not_stopped, put port srv' servers)

-- Stop
unfoldable pub stop : ℤ → Bool → Manager → Option ManagerError × Manager
unfolding stop_in
stop port in_time m = elim (find port m.servers) [
  | some srv ↦
      let (e, left) = stop_in port in_time srv m.servers in (e, record m { servers = left })
  | none ↦ elim (find port m.tcp_servers) [
    | some srv ↦
        let (e, left) = stop_in port in_time srv m.tcp_servers in
        (e, record m { tcp_servers = left })
    | none ↦ elim (find port m.smtp_servers) [
      | some srv ↦
          let (e, left) = stop_in port in_time srv m.smtp_servers in
          (e, record m { smtp_servers = left })
      | none ↦ elim (find port m.grpc_servers) [
        | some srv ↦
            let (e, left) = stop_in port in_time srv m.grpc_servers in
            (e, record m { grpc_servers = left })
        | none ↦ (none, m)
      ]
    ]
  ]
]

-- One of the four loops of StopAll, with the last error so far; it deletes every entry.
unfoldable pub stop_each :
    (Server → Bool) → IntMap Server → Option ManagerError → Option ManagerError × IntMap Server
unfolding stop_server
stop_each in_time [] last = (last, [])
stop_each in_time ((port, srv) ∷ servers) last =
    stop_each in_time servers (if (stop_server (in_time srv) srv).0 then last else some not_stopped)

-- StopAll
unfoldable pub stop_all : (Server → Bool) → Manager → Option ManagerError × Manager
unfolding stop_each
stop_all in_time m =
    let (e, servers) = stop_each in_time m.servers none in
    let (e', tcp_servers) = stop_each in_time m.tcp_servers e in
    let (e'', smtp_servers) = stop_each in_time m.smtp_servers e' in
    let (e''', grpc_servers) = stop_each in_time m.grpc_servers e'' in
    (
      e''',
      record {
        servers = servers;
        tcp_servers = tcp_servers;
        smtp_servers = smtp_servers;
        grpc_servers = grpc_servers;
      },
    )

-- GetServer, GetTCPServer, GetSMTPServer and GetGRPCServer.
unfoldable pub get_server : Kind → ℤ → Manager → Option Server
get_server http port m = find port m.servers
get_server https port m = find port m.servers
get_server tcp port m = find port m.tcp_servers
get_server smtp port m = find port m.smtp_servers
get_server grpc port m = find port m.grpc_servers

abbrev pub or_find : Option Server → Option Server → Option Server
or_find (some srv) later = some srv
or_find none later = later

-- GetImposterServer
unfoldable pub get_imposter_server : ℤ → Manager → Option Server
get_imposter_server port m = or_find (find port m.servers) (
    or_find (find port m.tcp_servers)
      (or_find (find port m.smtp_servers) (find port m.grpc_servers)))
