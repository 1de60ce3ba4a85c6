-- ===== src/Ports/Tests.antt =====
-- A host with an explicit TCP port, a distribution by index, and a common setting.
use radondb_clickhouse_opera.Base.{◌≡◌, none, some, [], ◌∷◌, arith}
use radondb_clickhouse_opera.Base.Int.{pos}
use radondb_clickhouse_opera.Settings.{Settings, new_setting_scalar}
use radondb_clickhouse_opera.Ports.{
  Ports, get_tcp_port, get_http_port, get_interserver_http_port, host_apply_host_template,
  default_tcp_port, default_http_port, default_interserver_http_port,
}
use radondb_clickhouse_opera.Ports.Laws.{
  distributed, first_assigned, host_apply_host_template-first,
}
use radondb_clickhouse_opera.Ports.HostNetwork.{host_network_ports, host_network_ports-by_index}

abbrev host : Ports
host = record {
  port = pos 0;
  tcp_port = pos 9500;
  http_port = pos 0;
  interserver_http_port = pos 0;
}

abbrev template : Ports
template = record {
  port = pos 0;
  tcp_port = pos 0;
  http_port = pos 7000;
  interserver_http_port = pos 0;
}

abbrev common : Settings
common = some (("interserver_http_port", new_setting_scalar "9100") ∷ [])

host_apply_host_template-first_example :
    let r = host_apply_host_template host 3 ("ClusterScopeIndex" ∷ []) template none common in
    (r.port ≡ pos 0)
    × (r.tcp_port
        ≡ first_assigned (
            pos 9500
            ∷ distributed ("ClusterScopeIndex" ∷ []) 3 (pos 0) default_tcp_port
            ∷ get_tcp_port none
            ∷ get_tcp_port common
            ∷ default_tcp_port
            ∷ []))
    × (r.http_port
        ≡ first_assigned (
            pos 0
            ∷ distributed ("ClusterScopeIndex" ∷ []) 3 (pos 7000) default_http_port
            ∷ get_http_port none
            ∷ get_http_port common
            ∷ default_http_port
            ∷ []))
    × (r.interserver_http_port
        ≡ first_assigned (
            pos 0
            ∷ distributed ("ClusterScopeIndex" ∷ []) 3 (pos 0) default_interserver_http_port
            ∷ get_interserver_http_port none
            ∷ get_interserver_http_port common
            ∷ default_interserver_http_port
            ∷ []))
host_apply_host_template-first_example =
    host_apply_host_template-first host 3 ("ClusterScopeIndex" ∷ []) template none common

host_network_ports-by_index_example :
    let r = host_network_ports 2 none common in
    (r.tcp_port ≡ pos 9002)
    × (r.http_port ≡ pos 8125)
    × (r.interserver_http_port ≡ pos 9011)
    × (r.interserver_http_port ≡ (host_network_ports 11 none common).tcp_port)
host_network_ports-by_index_example = host_network_ports-by_index 2 none common (omega arith)
