-- ===== src/Zookeeper.antt =====
-- The ZooKeeper configuration of an installation or a cluster: normalizeConfigurationZookeeper of
-- pkg/model/normalizer.go, and merging in pkg/apis/clickhouse.radondb.com/v1/type_zookeeper.go.
pub mod Normal
pub mod Merge
mod Tests
use radondb_clickhouse_opera.Base.{
  ℕ, zero, suc, ◌%◌, String, Bool, true, false, not, ◌&&◌, ◌||◌, Option, none, some, List, [], ◌∷◌,
  ◌++◌, ◌==◌,
}
use radondb_clickhouse_opera.Base.Tests.{eqb, if◌then◌else◌}
use radondb_clickhouse_opera.Base.Int.{ℤ, pos, negsuc, is_zero, ltb_ℤ}
use radondb_clickhouse_opera.TemplateNames.{MergeType, merge_type_fill_empty_values}

pub record ChiZookeeperNode : Type 0 where
  pub host : String
  pub port : ℤ

pub record ChiZookeeperConfig : Type 0 where
  pub nodes : List ChiZookeeperNode
  pub session_timeout_ms : ℤ
  pub operation_timeout_ms : ℤ
  pub root : String
  pub identity : String
  pub install : Bool
  pub replica : ℤ
  pub image : String
  pub image_pull_policy : String
  pub port : ℤ

abbrev pub default_client_port : ℤ
default_client_port = pos 2181

abbrev pub default_docker_image : String
default_docker_image = "radondb/zookeeper:3.6.1"

abbrev pub new_chi_zookeeper_config : ChiZookeeperConfig
new_chi_zookeeper_config = record {
  nodes = [];
  session_timeout_ms = pos 0;
  operation_timeout_ms = pos 0;
  root = "";
  identity = "";
  install = false;
  replica = pos 0;
  image = "";
  image_pull_policy = "";
  port = pos 0;
}

abbrev pub is_positive : ℤ → Bool
is_positive z = ltb_ℤ (pos 0) z

is_even : ℤ → Bool
is_even (pos n) = eqb (n % 2) 0
is_even (negsuc n) = eqb (suc n % 2) 0

-- `z--`
decrement : ℤ → ℤ
decrement (pos zero) = negsuc 0
decrement (pos (suc n)) = pos n
decrement (negsuc n) = negsuc (suc n)

-- the number of replicas is positive and odd if ZooKeeper is to be installed
unfoldable pub normalize_replica : Bool → ℤ → ℤ
unfolding is_even decrement
normalize_replica install replica =
    if install && not (is_positive replica)
    then pos 1
    else if install && is_even replica
    then decrement replica
    else replica

abbrev pub default_port : ℤ → ℤ
default_port port = if is_zero port then default_client_port else port

abbrev pub default_text : String → String → String
default_text text default = if text == "" then default else text

normalize_nodes : List ChiZookeeperNode → List ChiZookeeperNode
normalize_nodes [] = []
normalize_nodes (n ∷ nodes) =
    record { host = n.host; port = default_port n.port } ∷ normalize_nodes nodes

normalize_found : ChiZookeeperConfig → ChiZookeeperConfig
unfolding normalize_nodes
normalize_found zk = record {
  nodes = normalize_nodes zk.nodes;
  session_timeout_ms = zk.session_timeout_ms;
  operation_timeout_ms = zk.operation_timeout_ms;
  root = zk.root;
  identity = zk.identity;
  install = zk.install;
  replica = normalize_replica zk.install zk.replica;
  image = default_text zk.image default_docker_image;
  image_pull_policy = default_text zk.image_pull_policy "IfNotPresent";
  port = default_port zk.port;
}

unfoldable pub normalize_configuration_zookeeper :
    Option ChiZookeeperConfig → Option ChiZookeeperConfig
unfolding normalize_found
normalize_configuration_zookeeper none = none
normalize_configuration_zookeeper (some zk) = some (normalize_found zk)

unfoldable pub is_empty : Option ChiZookeeperConfig → Bool
is_empty none = true
is_empty (some zk) = elim zk.nodes [ [] ↦ true | _ ∷ _ ↦ false ]

unfoldable pub equal_ports : ℤ → ℤ → Bool
equal_ports (pos m) (pos n) = eqb m n
equal_ports (pos m) (negsuc n) = false
equal_ports (negsuc m) (pos n) = false
equal_ports (negsuc m) (negsuc n) = eqb m n

unfoldable pub equal : ChiZookeeperNode → ChiZookeeperNode → Bool
equal a b = a.host == b.host && equal_ports a.port b.port

-- "received already have such a node"
unfoldable pub has_node : List ChiZookeeperNode → ChiZookeeperNode → Bool
has_node [] node = false
has_node (to_node ∷ nodes) node =
    let rest = has_node nodes node in if equal to_node node then true else rest

unfoldable pub merge_nodes : List ChiZookeeperNode → List ChiZookeeperNode → List ChiZookeeperNode
merge_nodes nodes [] = nodes
merge_nodes nodes (node ∷ from) =
    merge_nodes (if has_node nodes node then nodes else nodes ++ (node ∷ [])) from

abbrev pub positive_or : ℤ → ℤ → ℤ
positive_or from own = if is_positive from then from else own

abbrev pub text_or : String → String → String
text_or from own = if not (from == "") then from else own

is_policy : String → Bool
is_policy policy = policy == "Always" || (policy == "IfNotPresent" || policy == "Never")

-- a nil receiver becomes an empty configuration
abbrev pub ensure : Option ChiZookeeperConfig → ChiZookeeperConfig
ensure none = new_chi_zookeeper_config
ensure (some zk) = zk

merge_found : ChiZookeeperConfig → ChiZookeeperConfig → ChiZookeeperConfig
unfolding is_policy
merge_found zk from = record {
  nodes = merge_nodes zk.nodes from.nodes;
  session_timeout_ms = positive_or from.session_timeout_ms zk.session_timeout_ms;
  operation_timeout_ms = positive_or from.operation_timeout_ms zk.operation_timeout_ms;
  root = text_or from.root zk.root;
  identity = text_or from.identity zk.identity;
  install = from.install;
  replica = positive_or from.replica zk.replica;
  image = text_or from.image zk.image;
  image_pull_policy =
      if is_policy from.image_pull_policy then from.image_pull_policy else zk.image_pull_policy;
  port = positive_or from.port zk.port;
}

-- the type of the merge is not used
unfoldable pub merge_from :
    Option ChiZookeeperConfig → Option ChiZookeeperConfig → MergeType → Option ChiZookeeperConfig
unfolding merge_found
merge_from zk none t = zk
merge_from zk (some from) t = some (merge_found (ensure zk) from)

-- `InheritZookeeperFrom`: the source is that of the installation's configuration, if there is one
unfoldable pub inherit_zookeeper_from :
    Option ChiZookeeperConfig → Option ChiZookeeperConfig → Option ChiZookeeperConfig
inherit_zookeeper_from zk chi =
    if not (is_empty zk) then zk else merge_from zk chi merge_type_fill_empty_values
