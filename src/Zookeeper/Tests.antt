-- ===== src/Zookeeper/Tests.antt =====
-- A cluster without nodes and with a root, and the configuration of its installation.
use radondb_clickhouse_opera.Base.{String, true, Option, some, List}
use radondb_clickhouse_opera.Base.Int.{pos}
use radondb_clickhouse_opera.Zookeeper.{ChiZookeeperNode, ChiZookeeperConfig}

abbrev node : ChiZookeeperNode
node = record { host = "zk-0"; port = pos 2181 }

abbrev of : String → List ChiZookeeperNode → Option ChiZookeeperConfig
of root nodes = some record {
  nodes = nodes;
  session_timeout_ms = pos 0;
  operation_timeout_ms = pos 0;
  root = root;
  identity = "";
  install = true;
  replica = pos 4;
  image = "";
  image_pull_policy = "";
  port = pos 0;
}
