-- ===== src/Walk.antt =====
-- The walks of pkg/apis/clickhouse.radondb.com/v1/type_chi.go over the hosts of an installation,
-- and the addresses that FillSelfCalculatedAddressInfo calculates. A walk is the list of its calls
-- of the callback, in their order; the type of a host is a parameter.
pub mod Till
pub mod Scopes
pub mod Order
pub mod Cycles
mod Tests
use radondb_clickhouse_opera.Base.{
  ℕ, zero, suc, ◌+◌, ◌-◌, ◌/◌, String, Bool, Option, none, some, List, [], ◌∷◌, ◌++◌, ◌&&◌, ◌==◌,
}
use radondb_clickhouse_opera.Base.Tests.{ltb, leb, eqb, if◌then◌else◌}
use radondb_clickhouse_opera.Base.Lists.{length, get_elem?}
use radondb_clickhouse_opera.Base.Int.{ℤ, pos, negsuc}

-- the counters of one scope
pub record Scope : Type 0 where
  pub index : ℕ
  pub cycle_index : ℕ
  pub cycle_offset : ℕ

abbrev pub start : Scope
start = record { index = 0; cycle_index = 0; cycle_offset = 0 }

-- the increments after a host, for the given size of a cycle
unfoldable pub advance : ℕ → Scope → Scope
advance cycle_size s =
    if ltb 0 cycle_size && leb cycle_size (suc s.cycle_offset)
    then record { index = suc s.index; cycle_index = suc s.cycle_index; cycle_offset = 0 }
    else record {
      index = suc s.index;
      cycle_index = s.cycle_index;
      cycle_offset = suc s.cycle_offset;
    }

pub record Counters : Type 0 where
  pub of_chi : Scope
  pub of_cluster : Scope

abbrev pub advance_both : ℕ → ℕ → Counters → Counters
advance_both chi_scope_cycle_size cluster_scope_cycle_size c = record {
  of_chi = advance chi_scope_cycle_size c.of_chi;
  of_cluster = advance cluster_scope_cycle_size c.of_cluster;
}

pub record Named {ℓ} (H : Type ℓ) : Type ℓ where
  pub name : String
  pub hosts : List H

-- A shard has its hosts, and a replica is only asked for its name here.
pub record ChiCluster {ℓ} (H : Type ℓ) : Type ℓ where
  pub name : String
  pub shards : List (Named H)
  pub replicas : List String

-- the arguments of one call of the callback; `GetReplica` panics if there is no such replica
pub record Visit {ℓ} (H : Type ℓ) : Type ℓ where
  pub chi_scope : Scope
  pub cluster_scope : Scope
  pub cluster_index : ℕ
  pub cluster : ChiCluster H
  pub shard_index : ℕ
  pub shard : Named H
  pub replica_index : ℕ
  pub replica : Option String
  pub host : H

module _ {ℓ} {H : Type ℓ} (chi_scope_cycle_size cluster_scope_cycle_size : ℕ) where
  module _ (cluster_index : ℕ) (cluster : ChiCluster H) where
    -- the loop over the hosts of a shard
    unfoldable pub walk_hosts_of : ℕ → Named H → ℕ → Counters → List H → List (Visit H) × Counters
    walk_hosts_of shard_index shard replica_index c [] = ([], c)
    walk_hosts_of shard_index shard replica_index c (h ∷ hs) =
        let rest =
          walk_hosts_of shard_index shard (suc replica_index)
            (advance_both chi_scope_cycle_size cluster_scope_cycle_size c) hs in
        (
          record {
            chi_scope = c.of_chi;
            cluster_scope = c.of_cluster;
            cluster_index = cluster_index;
            cluster = cluster;
            shard_index = shard_index;
            shard = shard;
            replica_index = replica_index;
            replica = get_elem? cluster.replicas replica_index;
            host = h;
          }
              ∷ rest.0,
          rest.1,
        )

    -- the loop over the shards of a cluster
    unfoldable pub walk_shards_of : ℕ → Counters → List (Named H) → List (Visit H) × Counters
    walk_shards_of shard_index c [] = ([], c)
    walk_shards_of shard_index c (s ∷ ss) =
        let here = walk_hosts_of shard_index s 0 c s.hosts in
        let rest = walk_shards_of (suc shard_index) here.1 ss in (here.0 ++ rest.0, rest.1)

  -- the loop over the clusters, which resets the counters of the cluster scope
  unfoldable pub walk_clusters_of : ℕ → Scope → List (ChiCluster H) → List (Visit H)
  walk_clusters_of cluster chi [] = []
  walk_clusters_of cluster chi (k ∷ ks) =
      let here =
        walk_shards_of cluster k 0 (record { of_chi = chi; of_cluster = start }) k.shards in
      here.0 ++ walk_clusters_of (suc cluster) here.1.of_chi ks

  unfoldable pub walk_hosts_full_path : List (ChiCluster H) → List (Visit H)
  walk_hosts_full_path clusters = walk_clusters_of 0 start clusters

module _ {ℓ} {H : Type ℓ} where
  unfoldable pub hosts_of_shards : List (Named H) → List H
  hosts_of_shards [] = []
  hosts_of_shards (s ∷ ss) = s.hosts ++ hosts_of_shards ss

  -- the hosts in the order of `WalkHosts`
  unfoldable pub walk_hosts : List (ChiCluster H) → List H
  walk_hosts [] = []
  walk_hosts (k ∷ ks) = hosts_of_shards k.shards ++ walk_hosts ks

  unfoldable pub hosts_count : List (ChiCluster H) → ℕ
  hosts_count clusters = length (walk_hosts clusters)

  unfoldable pub clusters_count : List (ChiCluster H) → ℕ
  clusters_count clusters = length clusters

  unfoldable pub shards_count : List (ChiCluster H) → ℕ
  shards_count [] = 0
  shards_count (k ∷ ks) = length k.shards + shards_count ks

  abbrev find_loop : String → List (ChiCluster H) → Option (ChiCluster H) → Option (ChiCluster H)
  find_loop needle [] found = found
  find_loop needle (k ∷ ks) found = find_loop needle ks (if k.name == needle then some k else found)

  -- `FindCluster` by a name: the last one of that name
  unfoldable pub find_cluster : List (ChiCluster H) → String → Option (ChiCluster H)
  find_cluster clusters needle = find_loop needle clusters none

  -- `FindCluster` by an index
  unfoldable pub find_cluster_at : List (ChiCluster H) → ℕ → Option (ChiCluster H)
  find_cluster_at clusters needle = get_elem? clusters needle

abbrev pub pod_distribution_max_number_per_node : String
pod_distribution_max_number_per_node = "MaxNumberPerNode"

pub record PodDistribution : Type 0 where
  pub distribution_type : String
  pub number : ℤ

-- `maxNumberOfPodsPerNode` after the walk over the distributions of all pod templates
unfoldable pub max_pods_per_node : List PodDistribution → ℤ → ℤ
max_pods_per_node [] n = n
max_pods_per_node (d ∷ ds) n =
    max_pods_per_node ds
      (if d.distribution_type == pod_distribution_max_number_per_node then d.number else n)

-- at least one
unfoldable pub requested_cycles : ℤ → ℕ
requested_cycles (pos zero) = 1
requested_cycles (pos (suc n)) = suc n
requested_cycles (negsuc n) = 1

-- `ceil(hosts / cycles)`, and 0 stands for an unlimited cycle
unfoldable pub cluster_cycle_size : ℕ → ℕ → ℕ
cluster_cycle_size hosts cycles = if eqb cycles 1 then 0 else (hosts + (cycles - 1)) / cycles

pub record ChiHostAddress : Type 0 where
  pub namespace : String
  pub chi_name : String
  pub cluster_name : String
  pub cluster_index : ℕ
  pub shard_name : String
  pub shard_index : ℕ
  pub replica_name : String
  pub replica_index : ℕ
  pub host_name : String
  pub chi_scope_index : ℕ
  pub chi_scope_cycle_size : ℕ
  pub chi_scope_cycle_index : ℕ
  pub chi_scope_cycle_offset : ℕ
  pub cluster_scope_index : ℕ
  pub cluster_scope_cycle_size : ℕ
  pub cluster_scope_cycle_index : ℕ
  pub cluster_scope_cycle_offset : ℕ
  pub shard_scope_index : ℕ
  pub replica_scope_index : ℕ

put_first : ChiHostAddress → Option (List ChiHostAddress) → Option (List ChiHostAddress)
put_first a none = none
put_first a (some rest) = some (a ∷ rest)

module _ {ℓ} {H : Type ℓ} (host_name : H → String) (namespace chi_name : String) where
  address_at : ℕ → ℕ → Visit H → String → ChiHostAddress
  address_at chi_size cluster_size v replica = record {
    namespace = namespace;
    chi_name = chi_name;
    cluster_name = v.cluster.name;
    cluster_index = v.cluster_index;
    shard_name = v.shard.name;
    shard_index = v.shard_index;
    replica_name = replica;
    replica_index = v.replica_index;
    host_name = host_name v.host;
    chi_scope_index = v.chi_scope.index;
    chi_scope_cycle_size = chi_size;
    chi_scope_cycle_index = v.chi_scope.cycle_index;
    chi_scope_cycle_offset = v.chi_scope.cycle_offset;
    cluster_scope_index = v.cluster_scope.index;
    cluster_scope_cycle_size = cluster_size;
    cluster_scope_cycle_index = v.cluster_scope.cycle_index;
    cluster_scope_cycle_offset = v.cluster_scope.cycle_offset;
    shard_scope_index = v.replica_index;
    replica_scope_index = v.shard_index;
  }

  addresses : ℕ → ℕ → List (Visit H) → Option (List ChiHostAddress)
  unfolding address_at put_first
  addresses chi_size cluster_size [] = some []
  addresses chi_size cluster_size (v ∷ vs) = elim v.replica [
    | none ↦ none
    | some replica ↦
        put_first (address_at chi_size cluster_size v replica) (addresses chi_size cluster_size vs)
  ]

  -- the addresses of the hosts in the order of the walk; `none` is a panic
  unfoldable pub fill_self_calculated_address_info :
      List PodDistribution → List (ChiCluster H) → Option (List ChiHostAddress)
  unfolding addresses
  fill_self_calculated_address_info distributions clusters =
      let size =
        cluster_cycle_size (hosts_count clusters)
          (requested_cycles (max_pods_per_node distributions (pos 0))) in
      addresses 0 size (walk_hosts_full_path 0 size clusters)
