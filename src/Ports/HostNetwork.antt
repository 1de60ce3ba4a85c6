-- ===== src/Ports/HostNetwork.antt =====
-- The default host template for host networks (ClusterScopeIndex) in pkg/model/normalizer.go and
-- the ports that it gives to the hosts of a cluster.
use radondb_clickhouse_opera.Base.{ℕ, ◌+◌, ◌<◌, ◌≡◌, refl, ap, sym, ◌∙◌, false, [], ◌∷◌, arith}
use radondb_clickhouse_opera.Base.Int.{ℤ, pos, is_zero}
use radondb_clickhouse_opera.Ports.Numbers.{add_int32, to_int32, signed, int32_half}
use radondb_clickhouse_opera.Settings.{Settings}
use radondb_clickhouse_opera.Ports.{
  Ports, port_distribution_cluster_scope_index, get_tcp_port, get_http_port,
  get_interserver_http_port, host_apply_host_template,
}
use radondb_clickhouse_opera.Ports.Laws.{
  distributed, first_assigned, host_apply_host_template-first,
}

-- sums of small numbers do not wrap
add_int32-small :
    (a b : ℕ) → a + b < int32_half → add_int32 (pos a) (to_int32 (pos b)) ≡ pos (a + b)
unfolding add_int32 to_int32 signed
add_int32-small a b h = ground arith

-- a host without ports, as normalisation leaves it
abbrev pub no_ports : Ports
no_ports = record {
  port = pos 0;
  tcp_port = pos 0;
  http_port = pos 0;
  interserver_http_port = pos 0;
}

-- the ports of the host with index `i` under the default template for host networks
abbrev pub host_network_ports : ℕ → Settings → Settings → Ports
host_network_ports i settings common =
    host_apply_host_template no_ports i (port_distribution_cluster_scope_index ∷ []) no_ports
      settings common

port_by_index :
    (e i : ℕ) (v w : ℤ)
    → is_zero (pos e) ≡ false
    → e + i < int32_half
    → first_assigned (
        pos 0
        ∷ distributed (port_distribution_cluster_scope_index ∷ []) i (pos 0) (pos e)
        ∷ v
        ∷ w
        ∷ pos e
        ∷ [])
      ≡ pos (e + i)
port_by_index e i v w h k = ground (arith, add_int32-small e i k)

-- Under the default host-network template, for indexes below 2000000000, the ports of a host
-- without ports are the defaults plus its index in the cluster, and its interserver port is the
-- TCP port of the host nine places on.
pub host_network_ports-by_index :
    (i : ℕ) (settings common : Settings)
    → i < 2000000000
    → let r = host_network_ports i settings common in
      (r.tcp_port ≡ pos (9000 + i))
      × (r.http_port ≡ pos (8123 + i))
      × (r.interserver_http_port ≡ pos (9009 + i))
      × (r.interserver_http_port ≡ (host_network_ports (9 + i) settings common).tcp_port)
host_network_ports-by_index i settings common h =
    let (o, tcp, http, inter) =
      host_apply_host_template-first no_ports i (port_distribution_cluster_scope_index ∷ [])
        no_ports settings common in
    let (p, tcp9, http9, inter9) =
      host_apply_host_template-first no_ports (9 + i) (port_distribution_cluster_scope_index ∷ [])
        no_ports settings common in
    let here =
      inter
      ∙ port_by_index 9009 i (get_interserver_http_port settings) (get_interserver_http_port common)
          refl (omega (arith, h)) in
    (
      tcp
          ∙ port_by_index 9000 i (get_tcp_port settings) (get_tcp_port common) refl
              (omega (arith, h)),
      http
          ∙ port_by_index 8123 i (get_http_port settings) (get_http_port common) refl
              (omega (arith, h)),
      here,
      here
          ∙ ap pos (omega arith)
          ∙ sym (
              tcp9
              ∙ port_by_index 9000 (9 + i) (get_tcp_port settings) (get_tcp_port common) refl
                  (omega (arith, h))),
    )
