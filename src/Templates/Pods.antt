-- ===== src/Templates/Pods.antt =====
-- normalizePodDistribution and the loop of normalizePodTemplate that calls it, in
-- pkg/model/normalizer.go. The replicas of the first cluster are an argument.
use radondb_clickhouse_opera.Base.{String, List, [], ◌∷◌, ◌++◌, ◌==◌}
use radondb_clickhouse_opera.Base.Tests.{if◌then◌else◌}
use radondb_clickhouse_opera.Base.Lists.{contains}
use radondb_clickhouse_opera.Base.Int.{ℤ, pos, ltb_ℤ}

pub record ChiPodDistribution : Type 0 where
  pub type_name : String
  pub scope : String
  pub number : ℤ
  pub topology_key : String

abbrev pub default_topology_key : String
default_topology_key = "kubernetes.io/hostname"

abbrev pub pod_distribution_unspecified : String
pod_distribution_unspecified = "Unspecified"

abbrev pub pod_distribution_scope_cluster : String
pod_distribution_scope_cluster = "Cluster"

abbrev pub pod_distribution_max_number_per_node : String
pod_distribution_max_number_per_node = "MaxNumberPerNode"

abbrev pub pod_distribution_circular_replication : String
pod_distribution_circular_replication = "CircularReplication"

-- the types whose scope is set
abbrev pub scoped_types : List String
scoped_types =
    pod_distribution_unspecified ∷ "ClickHouseAntiAffinity" ∷ "ShardAntiAffinity"
    ∷ "ReplicaAntiAffinity" ∷ []

-- the types that are known, with nothing to do
abbrev pub plain_types : List String
plain_types =
    "AnotherNamespaceAntiAffinity" ∷ "AnotherClickHouseInstallationAntiAffinity"
    ∷ "AnotherClusterAntiAffinity" ∷ "NamespaceAffinity" ∷ "ClickHouseInstallationAffinity"
    ∷ "ClusterAffinity" ∷ "ShardAffinity" ∷ "ReplicaAffinity" ∷ "PreviousTailAffinity" ∷ []

abbrev pub default_text : String → String → String
default_text text default = if text == "" then default else text

-- a distribution of which the literal gives the type and the scope
abbrev pub of_type : String → String → ChiPodDistribution
of_type type_name scope = record {
  type_name = type_name;
  scope = scope;
  number = pos 0;
  topology_key = "";
}

-- what the shortcut stands for
unfoldable pub expand_circular_replication : ℤ → String → List ChiPodDistribution
expand_circular_replication replicas scope =
    of_type "ShardAntiAffinity" scope
    ∷ of_type "ReplicaAntiAffinity" scope
    ∷ record (of_type pod_distribution_max_number_per_node scope) { number = replicas }
    ∷ of_type "PreviousTailAffinity" ""
    ∷ of_type "NamespaceAffinity" ""
    ∷ of_type "ClickHouseInstallationAffinity" ""
    ∷ of_type "ClusterAffinity" ""
    ∷ []

-- The distribution that is written, and the ones that are returned
unfoldable pub normalize_pod_distribution :
    ℤ → ChiPodDistribution → ChiPodDistribution × List ChiPodDistribution
normalize_pod_distribution replicas d =
    let k : ChiPodDistribution = record d {
      topology_key = default_text d.topology_key default_topology_key;
    } in
    let scope = default_text d.scope pod_distribution_scope_cluster in
    if contains scoped_types d.type_name
    then (record k { scope = scope }, [])
    else if contains plain_types d.type_name
    then (k, [])
    else if d.type_name == pod_distribution_max_number_per_node
    then (record k { number = if ltb_ℤ d.number (pos 0) then pos 0 else d.number }, [])
    else if d.type_name == pod_distribution_circular_replication
    then (record k { scope = scope }, expand_circular_replication replicas scope)
    else (record k { type_name = pod_distribution_unspecified }, [])

-- the written and the returned distributions of a slice
unfoldable pub normalize_each :
    ℤ → List ChiPodDistribution → List ChiPodDistribution × List ChiPodDistribution
normalize_each replicas [] = ([], [])
normalize_each replicas (d ∷ ds) =
    let r = normalize_pod_distribution replicas d in
    let rest = normalize_each replicas ds in (r.0 ∷ rest.0, r.1 ++ rest.1)

-- The range is fixed when the loop begins, and what is returned is appended behind the slice.
unfoldable pub normalize_pod_distributions : ℤ → List ChiPodDistribution → List ChiPodDistribution
normalize_pod_distributions replicas ds = let r = normalize_each replicas ds in r.0 ++ r.1
