-- ===== src/Walk/Tests.antt =====
-- Walks over a cluster of two shards.
use radondb_clickhouse_opera.Base.{ℕ, ◌<◌, ◌≡◌, String, none, some, List, [], ◌∷◌, ◌==◌, arith}
use radondb_clickhouse_opera.Base.Tests.{if◌then◌else◌}
use radondb_clickhouse_opera.Base.Lists.{AllOf}
use radondb_clickhouse_opera.Walk.{
  ChiCluster, walk_hosts_full_path, walk_hosts, hosts_of_shards, hosts_count, cluster_cycle_size,
}
use radondb_clickhouse_opera.Walk.Scopes.{IsCounted, counters, walk_hosts_full_path-IsCounted}
use radondb_clickhouse_opera.Walk.Order.{numbered, numbered-walk_hosts_full_path}
use radondb_clickhouse_opera.Walk.Cycles.{cycle_index_bound}
use radondb_clickhouse_opera.Walk.Till.{Action, walk_till_error, walk_hosts_till_error, schedule}
use radondb_clickhouse_opera.Walk.Till.Laws.{walk_till_error-run, walk_hosts_till_error-run}

abbrev two_shards : List (ChiCluster String)
two_shards =
    record {
      name = "k";
      shards =
          record { name = "0"; hosts = "a" ∷ "b" ∷ [] }
          ∷ record { name = "1"; hosts = "c" ∷ "d" ∷ [] }
          ∷ [];
      replicas = "0" ∷ "1" ∷ [];
    }
    ∷ []

walk_hosts_full_path-IsCounted_example :
    AllOf (λ v. IsCounted 0 3 (counters v)) (walk_hosts_full_path 0 3 two_shards)
walk_hosts_full_path-IsCounted_example = walk_hosts_full_path-IsCounted 0 3 two_shards

numbered-walk_hosts_full_path_example :
    numbered (walk_hosts_full_path 0 3 two_shards) ≡ (0, "a") ∷ (1, "b") ∷ (2, "c") ∷ (3, "d") ∷ []
unfolding walk_hosts hosts_of_shards
numbered-walk_hosts_full_path_example = numbered-walk_hosts_full_path 0 3 two_shards

cycle_index_bound_example :
    AllOf
      (λ v. v.cluster_scope.cycle_index < 2)
      (walk_hosts_full_path 0 (cluster_cycle_size (hosts_count two_shards) 2) two_shards)
cycle_index_bound_example = cycle_index_bound 2 two_shards (omega arith)

-- log the calls, and fail at the host `c`
abbrev log : String → Action (List String) ℕ
log x s = (none, x ∷ s)

abbrev visit_host : String → Action (List String) ℕ
visit_host x s = if x == "c" then (some 7, s) else (none, x ∷ s)

walk_till_error-run_example :
    walk_till_error
      (log "zk")
      (log "pre")
      (λ k. log k.name)
      (λ x. log x.name)
      visit_host
      (log "chi")
      two_shards
      []
    ≡ (some 7, "1" ∷ "b" ∷ "a" ∷ "0" ∷ "k" ∷ "pre" ∷ "zk" ∷ [])
unfolding schedule
walk_till_error-run_example =
    walk_till_error-run (log "zk") (log "pre") (λ k. log k.name) (λ x. log x.name) visit_host
      (log "chi") two_shards []

walk_hosts_till_error-run_example :
    walk_hosts_till_error visit_host two_shards [] ≡ (some 7, "b" ∷ "a" ∷ [])
unfolding walk_hosts hosts_of_shards
walk_hosts_till_error-run_example = walk_hosts_till_error-run visit_host two_shards []
