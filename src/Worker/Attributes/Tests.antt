-- ===== src/Worker/Attributes/Tests.antt =====
-- Hosts of a plan with an added shard and a modified host.
use radondb_clickhouse_opera.Base.{◌≡◌, true, false, none, some, [], ◌∷◌}
use radondb_clickhouse_opera.Base.Int.{pos}
use radondb_clickhouse_opera.Worker.Attributes.{
  new_chi_host_reconcile_attributes, Attributes, a_shard, a_host, walk_hosts,
}
use radondb_clickhouse_opera.Worker.Attributes.Marks.{walk_hosts-marks}
use radondb_clickhouse_opera.Worker.Attributes.Decisions.{
  Host, WaitConfig, should_wait_exclude_host, should_wait_include_host,
}
use radondb_clickhouse_opera.Worker.Attributes.Waits.{normalized, waits-normalize}

abbrev fresh : Attributes
fresh h = new_chi_host_reconcile_attributes

-- a host that the plan does not name is unclear
walk_hosts-marks_example :
    walk_hosts (a_shard (1 ∷ 2 ∷ []) ∷ []) (a_host 3 ∷ []) (1 ∷ 2 ∷ 3 ∷ 4 ∷ []) fresh 4
    ≡ record new_chi_host_reconcile_attributes { unclear = true }
walk_hosts-marks_example =
    walk_hosts-marks (a_shard (1 ∷ 2 ∷ []) ∷ []) (a_host 3 ∷ []) (1 ∷ 2 ∷ 3 ∷ 4 ∷ []) fresh 4

abbrev config : WaitConfig
config = record { reconcile_wait_exclude = false; reconcile_wait_include = false }

abbrev changed : Host
changed = record {
  status = "modified";
  stop = "";
  restart = "";
  reconciling =
      some (record { policy = "WAIT"; config_map_propagation_timeout = pos 60; cleanup = none });
  shard_hosts_count = 2;
}

waits-normalize_example :
    (should_wait_exclude_host config (normalized changed) ≡ should_wait_exclude_host config changed)
    × (should_wait_include_host config (normalized changed)
        ≡ should_wait_include_host config changed)
waits-normalize_example = waits-normalize config changed
