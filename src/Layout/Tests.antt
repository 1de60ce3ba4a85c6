-- ===== src/Layout/Tests.antt =====
-- A layout with a shard that lists one host and a replica that lists two.
use radondb_clickhouse_opera.Base.{ℕ, ◌≡◌, refl, true, ◌&&◌, none, some, List, [], ◌∷◌}
use radondb_clickhouse_opera.Base.Tests.{is_some}
use radondb_clickhouse_opera.Base.Int.{ℤ, pos}
use radondb_clickhouse_opera.Layout.HostsField.{at, put_host, new_field}
use radondb_clickhouse_opera.Layout.{
  ChiHost, ChiClusterLayout, normalize_counts, create_hosts_field, new_hosts_field, place_all,
  host_merge_func, hosts_by_shards, hosts_by_replicas, ensure_cluster_layout_shards,
  ensure_cluster_layout_replicas, host_merge_from,
}
use radondb_clickhouse_opera.TemplateNames.{
  inherit_templates_from, handle_deprecated_fields, merge_from,
}
use radondb_clickhouse_opera.Layout.Panics.{shards_fit, replicas_fit, create_hosts_field-panics}
use radondb_clickhouse_opera.Layout.Counts.{
  CoversShards, CoversReplicas, Counted, normalize_counts-least,
}
use radondb_clickhouse_opera.Layout.Normalize.{
  NormalLayout, new_host, normalize_layout, normalize_shards, normalize_shard_hosts,
  normalize_shard_replicas_count, normalize_replicas, normalize_replica_hosts,
  normalize_replica_shards_count, fill_hosts, get_or_create, found_or_new, bind,
}
use radondb_clickhouse_opera.Layout.Safe.{normalize_layout-returns}
use radondb_clickhouse_opera.Layout.Shared.{normalize_layout-shared}

abbrev store : List ChiHost
store = new_host ∷ new_host ∷ []

abbrev layout_of : ℤ → ChiClusterLayout
layout_of count = record {
  shards_count = count;
  replicas_count = count;
  shards = record { replicas_count = pos 0; hosts = some 0 ∷ [] } ∷ [];
  replicas = record { shards_count = pos 2; hosts = some 1 ∷ none ∷ [] } ∷ [];
}

create_hosts_field-panics_example : is_some (create_hosts_field (layout_of (pos 1)) store) ≡ (
    shards_fit (layout_of (pos 1)).shards 0 1 1 && replicas_fit (layout_of (pos 1)).replicas 0 1 1)
create_hosts_field-panics_example =
    create_hosts_field-panics (layout_of (pos 1)) store 1 1 refl refl

normalize_counts-least_example :
    Counted
      (CoversShards (layout_of (pos 0)))
      (pos 0)
      (normalize_counts (layout_of (pos 0))).shards_count
    × Counted
        (CoversReplicas (layout_of (pos 0)))
        (pos 0)
        (normalize_counts (layout_of (pos 0))).replicas_count
normalize_counts-least_example = normalize_counts-least (layout_of (pos 0))

-- the hosts after normalisation: a third one is made
abbrev normalized : NormalLayout
normalized = record {
  shard_hosts = (0 ∷ []) ∷ (2 ∷ []) ∷ [];
  replica_hosts = (0 ∷ 2 ∷ []) ∷ [];
  hosts = record {
    field = (some 0 ∷ []) ∷ (some 2 ∷ []) ∷ [];
    store = new_host ∷ new_host ∷ new_host ∷ [];
  };
}

abbrev new_pointer : ℕ
new_pointer = 2

normalize_layout-shared_example :
    (new_pointer ≡ new_pointer) × (at normalized.hosts.field 1 0 ≡ some (some 2))
unfolding normalize_layout normalize_counts create_hosts_field new_hosts_field place_all
    host_merge_func hosts_by_shards hosts_by_replicas at put_host new_field
    ensure_cluster_layout_shards ensure_cluster_layout_replicas normalize_shards
    normalize_shard_hosts normalize_shard_replicas_count normalize_replicas normalize_replica_hosts
    normalize_replica_shards_count fill_hosts get_or_create found_or_new bind host_merge_from
    inherit_templates_from handle_deprecated_fields merge_from
normalize_layout-shared_example =
    normalize_layout-shared (layout_of (pos 0)) store normalized 1 0 2 2 refl refl refl

normalize_layout-returns_example : is_some (normalize_layout (layout_of (pos 0)) store) ≡ true
normalize_layout-returns_example = normalize_layout-returns (layout_of (pos 0)) store refl refl
