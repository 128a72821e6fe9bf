-- ===== src/Manager/Stopping.antt =====
-- internal/imposter/manager.go: what Stop does to the server of a port.
use go_tartuffe.Prelude.{false, Option, none, ℤ, IntMap, ◌≡◌}
use go_tartuffe.Manager.{Server, Manager, ManagerError, is_running}

-- The four maps.
data Slot : Type 0 where
  on_http : Slot
  on_tcp : Slot
  on_smtp : Slot
  on_grpc : Slot

abbrev entries_of : Slot → Manager → IntMap Server
entries_of on_http m = m.servers
entries_of on_tcp m = m.tcp_servers
entries_of on_smtp m = m.smtp_servers
entries_of on_grpc m = m.grpc_servers

abbrev with_entries : Slot → IntMap Server → Manager → Manager
with_entries on_http x m = record m { servers = x }
with_entries on_tcp x m = record m { tcp_servers = x }
with_entries on_smtp x m = record m { smtp_servers = x }
with_entries on_grpc x m = record m { grpc_servers = x }

abbrev Gone : ℤ → Option ManagerError × Manager → Type 0
Gone port r = (r.0 ≡ none) × (is_running port r.1 ≡ false)
