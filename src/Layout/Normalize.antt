-- ===== src/Layout/Normalize.antt =====
-- Normalising the shards and the replicas of a layout: each takes its hosts from the shared field,
-- which gets the missing ones (pkg/model/normalizer.go).
use radondb_clickhouse_opera.Base.{ℕ, zero, suc, Option, none, some, List, [], ◌∷◌, ◌++◌}
use radondb_clickhouse_opera.Base.Tests.{ltb, if◌then◌else◌}
use radondb_clickhouse_opera.Base.Int.{ℤ, pos, pos_part, ltb_ℤ}
use radondb_clickhouse_opera.Base.Lists.{length}
use radondb_clickhouse_opera.Layout.HostsField.{HostPointer, at, put_host}
use radondb_clickhouse_opera.Layout.{
  ChiHost, ChiShard, ChiReplica, ChiClusterLayout, Hosts, normalize_counts,
  ensure_cluster_layout_shards, ensure_cluster_layout_replicas, create_hosts_field,
}

-- `new(ChiHost)`
abbrev pub new_host : ChiHost
new_host = record {
  name = "";
  ports = record {
    port = pos 0;
    tcp_port = pos 0;
    http_port = pos 0;
    interserver_http_port = pos 0;
  };
  templates = none;
}

unfoldable pub normalize_shard_replicas_count : ChiShard → ℤ → ℤ
normalize_shard_replicas_count shard layout_replicas_count =
    if ltb_ℤ (pos 0) shard.replicas_count
    then shard.replicas_count
    else if ltb 0 (length shard.hosts)
    then pos (length shard.hosts)
    else layout_replicas_count

unfoldable pub normalize_replica_shards_count : ChiReplica → ℤ → ℤ
normalize_replica_shards_count replica layout_shards_count =
    if ltb_ℤ (pos 0) replica.shards_count
    then replica.shards_count
    else if ltb 0 (length replica.hosts)
    then pos (length replica.hosts)
    else layout_shards_count

-- the rest of a computation that may panic
unfoldable pub bind {ℓ κ} : {A : Type ℓ} {B : Type κ} → Option A → (A → Option B) → Option B
bind none f = none
bind (some a) f = f a

unfoldable pub found_or_new : Option HostPointer → ℕ → ℕ → Hosts → Option (ℕ × Hosts)
found_or_new none shard replica hosts = none
found_or_new (some (some p)) shard replica hosts = some (p, hosts)
found_or_new (some none) shard replica hosts = some (
  length hosts.store,
  record {
    field = put_host hosts.field shard replica (some (length hosts.store));
    store = hosts.store ++ (new_host ∷ []);
  },
)

unfoldable pub get_or_create : ℕ → ℕ → Hosts → Option (ℕ × Hosts)
unfolding found_or_new
get_or_create shard replica hosts = found_or_new (at hosts.field shard replica) shard replica hosts

-- The loop that appends `n` hosts, the next one with index `i`; `place` gives the coordinates of
-- the host with an index: those of a shard run along its row, those of a replica along its column.
unfoldable pub fill_hosts : (ℕ → ℕ × ℕ) → ℕ → ℕ → Hosts → Option (List ℕ × Hosts)
unfolding bind
fill_hosts place zero i hosts = some ([], hosts)
fill_hosts place (suc n) i hosts =
    bind (get_or_create (place i).0 (place i).1 hosts)
      (λ (p, next). bind (fill_hosts place n (suc i) next) (λ (ps, last). some (p ∷ ps, last)))

unfoldable pub normalize_shard_hosts : ℕ → ℕ → Hosts → Option (List ℕ × Hosts)
normalize_shard_hosts shard replicas_count hosts =
    fill_hosts (λ replica. (shard, replica)) replicas_count 0 hosts

unfoldable pub normalize_replica_hosts : ℕ → ℕ → Hosts → Option (List ℕ × Hosts)
normalize_replica_hosts replica shards_count hosts =
    fill_hosts (λ shard. (shard, replica)) shards_count 0 hosts

-- the walk over the shards; the result lists the hosts of each
unfoldable pub normalize_shards : List ChiShard → ℕ → ℤ → Hosts → Option (List (List ℕ) × Hosts)
unfolding bind
normalize_shards [] shard replicas hosts = some ([], hosts)
normalize_shards (s ∷ shards) shard replicas hosts =
    bind (normalize_shard_hosts shard (pos_part (normalize_shard_replicas_count s replicas)) hosts)
      (λ (row, next).
        bind (normalize_shards shards (suc shard) replicas next)
          (λ (rows, last). some (row ∷ rows, last)))

unfoldable pub normalize_replicas : List ChiReplica → ℕ → ℤ → Hosts → Option (List (List ℕ) × Hosts)
unfolding bind
normalize_replicas [] replica shards hosts = some ([], hosts)
normalize_replicas (r ∷ replicas) replica shards hosts =
    bind
      (normalize_replica_hosts replica (pos_part (normalize_replica_shards_count r shards)) hosts)
      (λ (column, next).
        bind (normalize_replicas replicas (suc replica) shards next)
          (λ (columns, last). some (column ∷ columns, last)))

-- the hosts of the shards, those of the replicas, and the field and the store behind both
pub record NormalLayout : Type 0 where
  pub shard_hosts : List (List ℕ)
  pub replica_hosts : List (List ℕ)
  pub hosts : Hosts

-- the walks of `normalizeCluster` over a field that is there
unfoldable pub normalize_hosts : ChiClusterLayout → Option Hosts → Option NormalLayout
unfolding bind
normalize_hosts counted created = bind created (λ hosts.
    bind (normalize_shards (ensure_cluster_layout_shards counted) 0 counted.replicas_count hosts)
      (λ (rows, next).
        bind
          (normalize_replicas (ensure_cluster_layout_replicas counted) 0 counted.shards_count next)
          (λ (columns, last).
            some record { shard_hosts = rows; replica_hosts = columns; hosts = last })))

-- the part of `normalizeCluster` from the counts to the hosts of shards and replicas
unfoldable pub normalize_layout : ChiClusterLayout → List ChiHost → Option NormalLayout
unfolding normalize_hosts
normalize_layout layout store =
    let counted = normalize_counts layout in
    normalize_hosts counted (create_hosts_field counted store)
