-- ===== src/Layout.antt =====
-- The layout of a cluster: counting shards and replicas, and the field of hosts that both share
-- (pkg/model/normalizer.go, type_cluster.go and type_hosts_field.go below
-- pkg/apis/clickhouse.radondb.com/v1). Hosts are pointers into a store; `none` in place of a result
-- is a panic.
pub mod HostsField
pub mod Panics
pub mod Counts
pub mod Total
pub mod Normalize
pub mod Shared
pub mod Returns
pub mod Safe
mod Tests
use radondb_clickhouse_opera.Base.{
  ℕ, zero, suc, ◌-◌, String, Bool, true, false, Option, none, some, List, [], ◌∷◌, ◌++◌,
}
use radondb_clickhouse_opera.Base.Tests.{ltb, eqb, if◌then◌else◌, is_some}
use radondb_clickhouse_opera.Base.Int.{ℤ, pos, negsuc, pos_part, is_zero, ltb_ℤ}
use radondb_clickhouse_opera.Base.Lists.{length, get_elem?, replicate}
use radondb_clickhouse_opera.Ports.{Ports}
use radondb_clickhouse_opera.TemplateNames.{ChiTemplateNames, inherit_templates_from}
use radondb_clickhouse_opera.Layout.HostsField.{Field, HostPointer, at, put_host, new_field, put}

-- the fields of `ChiHost` that merging reads and writes
pub record ChiHost : Type 0 where
  pub name : String
  pub ports : Ports
  pub templates : Option ChiTemplateNames

pub record ChiShard : Type 0 where
  pub replicas_count : ℤ
  pub hosts : List HostPointer

pub record ChiReplica : Type 0 where
  pub shards_count : ℤ
  pub hosts : List HostPointer

pub record ChiClusterLayout : Type 0 where
  pub shards_count : ℤ
  pub replicas_count : ℤ
  pub shards : List ChiShard
  pub replicas : List ChiReplica

-- `if n > count { count = n }`
abbrev pub raise : ℤ → ℤ → ℤ
raise count n = if ltb_ℤ count n then n else count

raise_by_replicas : List ChiReplica → ℤ → ℤ
raise_by_replicas [] count = count
raise_by_replicas (r ∷ replicas) count =
    raise_by_replicas replicas (raise (raise count r.shards_count) (pos (length r.hosts)))

raise_by_shards : List ChiShard → ℤ → ℤ
raise_by_shards [] count = count
raise_by_shards (s ∷ shards) count =
    raise_by_shards shards (raise (raise count s.replicas_count) (pos (length s.hosts)))

-- `normalizeClusterLayoutShardsCountAndReplicasCount`
unfoldable pub normalize_counts : ChiClusterLayout → ChiClusterLayout
unfolding raise_by_replicas raise_by_shards
normalize_counts layout = record {
  shards_count =
      if is_zero layout.shards_count
      then raise_by_replicas layout.replicas (raise (pos 1) (pos (length layout.shards)))
      else layout.shards_count;
  replicas_count =
      if is_zero layout.replicas_count
      then raise (raise_by_shards layout.shards (pos 1)) (pos (length layout.replicas))
      else layout.replicas_count;
  shards = layout.shards;
  replicas = layout.replicas;
}

abbrev pub new_shard : ChiShard
new_shard = record { replicas_count = pos 0; hosts = [] }

abbrev pub new_replica : ChiReplica
new_replica = record { shards_count = pos 0; hosts = [] }

-- appends empty shards while the slice is shorter than the count
unfoldable pub ensure_cluster_layout_shards : ChiClusterLayout → List ChiShard
ensure_cluster_layout_shards layout =
    layout.shards ++ replicate (pos_part layout.shards_count - length layout.shards) new_shard

unfoldable pub ensure_cluster_layout_replicas : ChiClusterLayout → List ChiReplica
ensure_cluster_layout_replicas layout =
    layout.replicas
    ++ replicate (pos_part layout.replicas_count - length layout.replicas) new_replica

-- the field, and the hosts that pointers lead to
pub record Hosts : Type 0 where
  pub field : Field
  pub store : List ChiHost

-- `make` panics for a negative length; an inner slice is made only if there is a shard
unfoldable pub new_hosts_field : ℤ → ℤ → Option Field
new_hosts_field (negsuc n) replicas = none
new_hosts_field (pos zero) replicas = some []
new_hosts_field (pos (suc n)) (negsuc r) = none
new_hosts_field (pos (suc n)) (pos r) = some (new_field (suc n) r)

fill_port : ℤ → ℤ → ℤ
fill_port port from = if is_zero port then from else port

-- `ChiHost.MergeFrom`
unfoldable pub host_merge_from : ChiHost → ChiHost → ChiHost
unfolding fill_port
host_merge_from host from = record {
  name = host.name;
  ports = record {
    port = fill_port host.ports.port from.ports.port;
    tcp_port = fill_port host.ports.tcp_port from.ports.tcp_port;
    http_port = fill_port host.ports.http_port from.ports.http_port;
    interserver_http_port =
        fill_port host.ports.interserver_http_port from.ports.interserver_http_port;
  };
  templates = inherit_templates_from host.templates from.templates;
}

merge_found : Option ChiHost → Option ChiHost → ℕ → List ChiHost → List ChiHost
merge_found (some host) (some from) cur store = put store cur (host_merge_from host from)
merge_found (some host) none cur store = store
merge_found none from cur store = store

-- `curHost.MergeFrom(host)`, which a nil host leaves as it is
merge_into : ℕ → HostPointer → List ChiHost → List ChiHost
unfolding merge_found
merge_into cur none store = store
merge_into cur (some p) store = merge_found (get_elem? store cur) (get_elem? store p) cur store

-- a call of the callback of a walk
pub record Placement : Type 0 where
  pub shard : ℕ
  pub replica : ℕ
  pub host : HostPointer

place_at : Option HostPointer → Placement → Hosts → Option Hosts
unfolding merge_into
place_at none p hosts = none
place_at (some none) p hosts =
    some record { field = put_host hosts.field p.shard p.replica p.host; store = hosts.store }
place_at (some (some cur)) p hosts =
    some record { field = hosts.field; store = merge_into cur p.host hosts.store }

-- `hostMergeFunc` of `createHostsField`
unfoldable pub host_merge_func : Placement → Hosts → Option Hosts
unfolding place_at
host_merge_func p hosts = place_at (at hosts.field p.shard p.replica) p hosts

and_then : Option Hosts → (Hosts → Option Hosts) → Option Hosts
and_then none f = none
and_then (some hosts) f = f hosts

unfoldable pub place_all : List Placement → Hosts → Option Hosts
unfolding and_then
place_all [] hosts = some hosts
place_all (p ∷ placements) hosts = and_then (host_merge_func p hosts) (place_all placements)

-- the inner loops of the walks
row_placements : List HostPointer → ℕ → ℕ → List Placement
row_placements [] shard replica = []
row_placements (h ∷ hosts) shard replica =
    record { shard = shard; replica = replica; host = h } ∷ row_placements hosts shard (suc replica)

column_placements : List HostPointer → ℕ → ℕ → List Placement
column_placements [] shard replica = []
column_placements (h ∷ hosts) shard replica =
    record { shard = shard; replica = replica; host = h }
    ∷ column_placements hosts (suc shard) replica

-- the calls of `WalkHostsByShards` and of `WalkHostsByReplicas`
unfoldable pub hosts_by_shards : List ChiShard → ℕ → List Placement
unfolding row_placements
hosts_by_shards [] shard = []
hosts_by_shards (s ∷ shards) shard =
    row_placements s.hosts shard 0 ++ hosts_by_shards shards (suc shard)

unfoldable pub hosts_by_replicas : List ChiReplica → ℕ → List Placement
unfolding column_placements
hosts_by_replicas [] replica = []
hosts_by_replicas (r ∷ replicas) replica =
    column_placements r.hosts 0 replica ++ hosts_by_replicas replicas (suc replica)

abbrev pub placements : ChiClusterLayout → List Placement
placements layout = hosts_by_shards layout.shards 0 ++ hosts_by_replicas layout.replicas 0

create_in : Option Field → List Placement → List ChiHost → Option Hosts
create_in none ps store = none
create_in (some field) ps store = place_all ps record { field = field; store = store }

unfoldable pub create_hosts_field : ChiClusterLayout → List ChiHost → Option Hosts
unfolding create_in
create_hosts_field layout store =
    create_in (new_hosts_field layout.shards_count layout.replicas_count) (placements layout) store
