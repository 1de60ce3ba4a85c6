-- ===== src/Ports/Laws.antt =====
-- The ports of a host after it is normalised, and where they come from.
use radondb_clickhouse_opera.Base.{
  ℕ, zero, suc, String, ◌≡◌, refl, ◌∙◌, true, false, List, [], ◌∷◌, arith, ◌==◌,
}
use radondb_clickhouse_opera.Base.Tests.{if◌then◌else◌}
use radondb_clickhouse_opera.Base.Int.{ℤ, pos, negsuc, is_zero}
use radondb_clickhouse_opera.Ports.Numbers.{add_int32, to_int32}
use radondb_clickhouse_opera.Settings.{Settings}
use radondb_clickhouse_opera.Ports.{
  Ports, default_tcp_port, default_http_port, default_interserver_http_port, distribute_port,
  distribute_ports, distribution_loop, get_tcp_port, get_http_port, get_interserver_http_port,
  ensure_port_value, host_apply_host_template,
}

-- what an entry of a template's port distribution offers to a host without a port
abbrev pub offered : String → ℕ → ℤ → ℤ → ℤ
offered d index template default =
    if d == "Unspecified"
    then template
    else if d == "ClusterScopeIndex"
    then add_int32 (if is_zero template then default else template) (to_int32 (pos index))
    else pos 0

-- the first offer that is a port
abbrev pub distributed : List String → ℕ → ℤ → ℤ → ℤ
distributed [] index template default = pos 0
distributed (d ∷ ds) index template default =
    let rest = distributed ds index template default in
    if is_zero (offered d index template default) then rest else offered d index template default

-- the first of the ports that is assigned
abbrev pub first_assigned : List ℤ → ℤ
first_assigned [] = pos 0
first_assigned (p ∷ ps) = let rest = first_assigned ps in if is_zero p then rest else p

is_zero-eq : (p : ℤ) → is_zero p ≡ true → p ≡ pos 0
is_zero-eq (pos zero) h = refl
is_zero-eq (pos (suc n)) h = cc
is_zero-eq (negsuc n) h = cc

distribute_port-assigned :
    (d : String) (i : ℕ) (t e p : ℤ) → is_zero p ≡ false → distribute_port d i t e p ≡ p
unfolding distribute_port
distribute_port-assigned d i t e p h = rw h

distribute_port-offered :
    (d : String) (i : ℕ) (t e p : ℤ)
    → is_zero p ≡ true
    → distribute_port d i t e p ≡ offered d i t e
unfolding distribute_port
distribute_port-offered d i t e p h = ground (arith, is_zero-eq p h)

-- the loop over the distribution, for one port
port_loop : List String → ℕ → ℤ → ℤ → ℤ → ℤ
port_loop [] i t e p = p
port_loop (d ∷ ds) i t e p = port_loop ds i t e (distribute_port d i t e p)

port_loop-eq :
    (ds : List String) (i : ℕ) (t e p : ℤ)
    → port_loop ds i t e p ≡ (if is_zero p then distributed ds i t e else p)
unfolding port_loop
port_loop-eq [] i t e p = ground (arith, is_zero-eq p)
port_loop-eq (d ∷ ds) i t e p = ground (
  arith,
  port_loop-eq ds i t e (distribute_port d i t e p),
  is_zero-eq p,
  distribute_port-assigned d i t e p,
  distribute_port-offered d i t e p,
)

distribution_loop-eq :
    (ds : List String) (i : ℕ) (t h : Ports)
    → distribution_loop ds i t h ≡ record {
      port = h.port;
      tcp_port = port_loop ds i t.tcp_port default_tcp_port h.tcp_port;
      http_port = port_loop ds i t.http_port default_http_port h.http_port;
      interserver_http_port =
          port_loop ds i t.interserver_http_port default_interserver_http_port
            h.interserver_http_port;
    }
unfolding distribution_loop port_loop
distribution_loop-eq [] i t h = refl
distribution_loop-eq (d ∷ ds) i t h = distribution_loop-eq ds i t (distribute_ports d i t h)

one_port :
    (ds : List String) (i : ℕ) (t e p v w : ℤ)
    → ensure_port_value (ensure_port_value (port_loop ds i t e p) v (pos 0)) w e
      ≡ first_assigned (p ∷ distributed ds i t e ∷ v ∷ w ∷ e ∷ [])
unfolding ensure_port_value
one_port ds i t e p v w = ground (arith, is_zero-eq e, port_loop-eq ds i t e p)

-- Each port of a host becomes the first assigned one of its explicit port, the offer of the
-- template's distribution, the host's own setting, the common setting and the default; the
-- deprecated port stays.
pub host_apply_host_template-first :
    (host : Ports) (i : ℕ) (ds : List String) (t : Ports) (settings common : Settings)
    → let r = host_apply_host_template host i ds t settings common in
      (r.port ≡ host.port)
      × (r.tcp_port
          ≡ first_assigned (
              host.tcp_port
              ∷ distributed ds i t.tcp_port default_tcp_port
              ∷ get_tcp_port settings
              ∷ get_tcp_port common
              ∷ default_tcp_port
              ∷ []))
      × (r.http_port
          ≡ first_assigned (
              host.http_port
              ∷ distributed ds i t.http_port default_http_port
              ∷ get_http_port settings
              ∷ get_http_port common
              ∷ default_http_port
              ∷ []))
      × (r.interserver_http_port
          ≡ first_assigned (
              host.interserver_http_port
              ∷ distributed ds i t.interserver_http_port default_interserver_http_port
              ∷ get_interserver_http_port settings
              ∷ get_interserver_http_port common
              ∷ default_interserver_http_port
              ∷ []))
unfolding host_apply_host_template
host_apply_host_template-first host i ds t settings common = rw distribution_loop-eq (
  refl,
  one_port ds i t.tcp_port default_tcp_port host.tcp_port (get_tcp_port settings)
      (get_tcp_port common),
  one_port ds i t.http_port default_http_port host.http_port (get_http_port settings)
      (get_http_port common),
  one_port ds i t.interserver_http_port default_interserver_http_port host.interserver_http_port
      (get_interserver_http_port settings) (get_interserver_http_port common),
)

first_assigned-nonzero :
    (a b c d e : ℤ) → is_zero e ≡ false → is_zero (first_assigned (a ∷ b ∷ c ∷ d ∷ e ∷ [])) ≡ false
first_assigned-nonzero a b c d e h = ground arith

-- A host leaves its template with all three ports assigned, and keeps every port that it had.
pub host_apply_host_template-assigned :
    (host : Ports) (i : ℕ) (ds : List String) (t : Ports) (settings common : Settings)
    → let r = host_apply_host_template host i ds t settings common in
      ((is_zero r.tcp_port ≡ false)
        × (is_zero r.http_port ≡ false)
        × (is_zero r.interserver_http_port ≡ false))
      × ((is_zero host.tcp_port ≡ false → r.tcp_port ≡ host.tcp_port)
          × (is_zero host.http_port ≡ false → r.http_port ≡ host.http_port)
          × (is_zero host.interserver_http_port ≡ false
              → r.interserver_http_port ≡ host.interserver_http_port))
host_apply_host_template-assigned host i ds t settings common =
    let (o, tcp, http, inter) = host_apply_host_template-first host i ds t settings common in
    (
      (
        rw tcp (
            first_assigned-nonzero host.tcp_port (distributed ds i t.tcp_port default_tcp_port)
              (get_tcp_port settings) (get_tcp_port common) default_tcp_port refl),
        rw http (
            first_assigned-nonzero host.http_port (distributed ds i t.http_port default_http_port)
              (get_http_port settings) (get_http_port common) default_http_port refl),
        rw inter (
            first_assigned-nonzero host.interserver_http_port
              (distributed ds i t.interserver_http_port default_interserver_http_port)
              (get_interserver_http_port settings) (get_interserver_http_port common)
              default_interserver_http_port refl),
      ),
      (λ h. tcp ∙ rw h refl, λ h. http ∙ rw h refl, λ h. inter ∙ rw h refl),
    )
