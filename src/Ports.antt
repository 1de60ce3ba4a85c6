-- ===== src/Ports.antt =====
-- The ports of a host: pkg/model/normalizer.go (normalizeHostPorts, hostApplyHostTemplate and what
-- they call) and the port settings of type_settings.go. An `int32` is an integer; sums and
-- conversions wrap.
pub mod Numbers
pub mod Laws
pub mod HostNetwork
mod Tests
use radondb_clickhouse_opera.Base.{
  ℕ, zero, suc, String, Bool, true, false, not, ◌||◌, Option, none, some, List, [], ◌∷◌, ◌==◌,
}
use radondb_clickhouse_opera.Base.Tests.{if◌then◌else◌}
use radondb_clickhouse_opera.Base.Int.{ℤ, pos, negsuc, is_zero, ltb_ℤ}
use radondb_clickhouse_opera.Ports.Numbers.{add_int32, atoi, to_int32}
use radondb_clickhouse_opera.Settings.{Settings, get_value_as_scalar}

abbrev pub must_be_assigned_later : ℤ
must_be_assigned_later = pos 0

abbrev pub default_tcp_port : ℤ
default_tcp_port = pos 9000

abbrev pub default_http_port : ℤ
default_http_port = pos 8123

abbrev pub default_interserver_http_port : ℤ
default_interserver_http_port = pos 9009

-- the port fields of `ChiHost`; `port` is the deprecated one
pub record Ports : Type 0 where
  pub port : ℤ
  pub tcp_port : ℤ
  pub http_port : ℤ
  pub interserver_http_port : ℤ

-- a port outside 1 .. 65534 counts as not given
normalize_port : ℤ → ℤ
normalize_port port =
    if not (ltb_ℤ (pos 0) port) || not (ltb_ℤ port (pos 65535))
    then must_be_assigned_later
    else port

unfoldable pub normalize_host_ports : Ports → Ports
unfolding normalize_port
normalize_host_ports host = record {
  port = normalize_port host.port;
  tcp_port = normalize_port host.tcp_port;
  http_port = normalize_port host.http_port;
  interserver_http_port = normalize_port host.interserver_http_port;
}

abbrev pub port_distribution_unspecified : String
port_distribution_unspecified = "Unspecified"

abbrev pub port_distribution_cluster_scope_index : String
port_distribution_cluster_scope_index = "ClusterScopeIndex"

-- one port under one entry of the template's port distribution
distribute_port : String → ℕ → ℤ → ℤ → ℤ → ℤ
distribute_port distribution index template default port =
    if not (is_zero port)
    then port
    else if distribution == port_distribution_unspecified
    then template
    else if distribution == port_distribution_cluster_scope_index
    then add_int32 (if not (is_zero template) then template else default) (to_int32 (pos index))
    else port

distribute_ports : String → ℕ → Ports → Ports → Ports
unfolding distribute_port
distribute_ports distribution index template host = record {
  port = host.port;
  tcp_port = distribute_port distribution index template.tcp_port default_tcp_port host.tcp_port;
  http_port =
      distribute_port distribution index template.http_port default_http_port host.http_port;
  interserver_http_port =
      distribute_port distribution index template.interserver_http_port
        default_interserver_http_port host.interserver_http_port;
}

-- the loop over `template.PortDistribution`
distribution_loop : List String → ℕ → Ports → Ports → Ports
unfolding distribute_ports
distribution_loop [] index template host = host
distribution_loop (d ∷ ds) index template host =
    distribution_loop ds index template (distribute_ports d index template host)

unfoldable pub get_value_as_int : Settings → String → ℤ
get_value_as_int settings name = elim (get_value_as_scalar settings name) [
  | none ↦ pos 0
  | some value ↦ elim (atoi value) [ none ↦ pos 0 | some i ↦ i ]
]

unfoldable pub fetch_port : Settings → String → ℤ
unfolding get_value_as_int
fetch_port settings name = to_int32 (get_value_as_int settings name)

unfoldable pub get_tcp_port : Settings → ℤ
unfolding fetch_port
get_tcp_port settings = fetch_port settings "tcp_port"

unfoldable pub get_http_port : Settings → ℤ
unfolding fetch_port
get_http_port settings = fetch_port settings "http_port"

unfoldable pub get_interserver_http_port : Settings → ℤ
unfolding fetch_port
get_interserver_http_port settings = fetch_port settings "interserver_http_port"

ensure_port_value : ℤ → ℤ → ℤ → ℤ
ensure_port_value port value default =
    if not (is_zero port) then port else if not (is_zero value) then value else default

abbrev fallback : Bool → ℤ → ℤ
fallback finalize default = if finalize then default else must_be_assigned_later

ensure_port_values_from_settings : Ports → Settings → Bool → Ports
unfolding ensure_port_value
ensure_port_values_from_settings host settings finalize = record {
  port = host.port;
  tcp_port =
      ensure_port_value host.tcp_port (get_tcp_port settings) (fallback finalize default_tcp_port);
  http_port =
      ensure_port_value host.http_port (get_http_port settings)
        (fallback finalize default_http_port);
  interserver_http_port =
      ensure_port_value host.interserver_http_port (get_interserver_http_port settings)
        (fallback finalize default_interserver_http_port);
}

-- the host's own settings first, then the common ones
host_apply_ports_from_settings : Ports → Settings → Settings → Ports
unfolding ensure_port_values_from_settings
host_apply_ports_from_settings host settings common =
    ensure_port_values_from_settings (ensure_port_values_from_settings host settings false) common
      true

-- the port part of `hostApplyHostTemplate`, for a host with the given cluster scope index
unfoldable pub host_apply_host_template :
    Ports → ℕ → List String → Ports → Settings → Settings → Ports
unfolding distribution_loop host_apply_ports_from_settings
host_apply_host_template host index distributions template settings common =
    host_apply_ports_from_settings (distribution_loop distributions index template host) settings
      common
