-- ===== src/Zookeeper/Merge.antt =====
-- Merged and inherited ZooKeeper configurations.
use radondb_clickhouse_opera.Base.{
  ◌≡◌, refl, ap, ◌∙◌, true, ◌||◌, Option, none, some, List, [], ◌∷◌, ◌++◌, arith, eq_iff, inl, inr,
}
use radondb_clickhouse_opera.Base.Tests.{Bool-cases}
use radondb_clickhouse_opera.Base.Int.{ℤ, pos, negsuc}
use radondb_clickhouse_opera.TemplateNames.{MergeType}
use radondb_clickhouse_opera.Zookeeper.{
  ChiZookeeperNode, ChiZookeeperConfig, equal_ports, equal, has_node, merge_nodes, ensure,
  merge_found, merge_from,
}

-- the nodes of a configuration that may be nil
abbrev pub nodes_of : Option ChiZookeeperConfig → List ChiZookeeperNode
nodes_of zk = (ensure zk).nodes

equal_ports-eq : (p q : ℤ) → equal_ports p q ≡ true → p ≡ q
unfolding equal_ports
equal_ports-eq (pos m) (pos n) h = let e : m ≡ n = ground arith in ap pos e
equal_ports-eq (pos m) (negsuc n) h = cc
equal_ports-eq (negsuc m) (pos n) h = cc
equal_ports-eq (negsuc m) (negsuc n) h = let e : m ≡ n = ground arith in ap negsuc e

equal-cong : (a b c : ChiZookeeperNode) → equal a b ≡ true → equal a c ≡ equal b c
unfolding equal
equal-cong a b c h = ground (arith, equal_ports-eq a.port b.port, eq_iff a.host b.host)

equal_ports_refl : (p : ℤ) → equal_ports p p ≡ true
unfolding equal_ports
equal_ports_refl (pos n) = ground arith
equal_ports_refl (negsuc n) = ground arith

has_node-snoc :
    (ns : List ChiZookeeperNode) (a n : ChiZookeeperNode)
    → has_node (ns ++ a ∷ []) n ≡ (has_node ns n || equal a n)
unfolding has_node
has_node-snoc [] a n = ground arith
has_node-snoc (x ∷ ns) a n = ground (arith, has_node-snoc ns a n)

-- a node that is there stands for every equal one
has_node-cong :
    (ns : List ChiZookeeperNode) (a n : ChiZookeeperNode)
    → has_node ns a ≡ true
    → equal a n ≡ true
    → has_node ns n ≡ true
unfolding has_node
has_node-cong [] a n h e = h
has_node-cong (x ∷ ns) a n h e = ground (arith, has_node-cong ns a n, equal-cong x a n)

has_node-merge_nodes :
    (from ns : List ChiZookeeperNode) (n : ChiZookeeperNode)
    → has_node (merge_nodes ns from) n ≡ (has_node ns n || has_node from n)
unfolding merge_nodes
has_node-merge_nodes [] ns n = unfold has_node in ground arith
has_node-merge_nodes (a ∷ from) ns n = elim (Bool-cases (has_node ns a)) [
  | inl h ↦
      rw h
        (has_node-merge_nodes from ns n ∙ unfold has_node in ground (arith, has_node-cong ns a n))
  | inr h ↦ rw h (
      has_node-merge_nodes from (ns ++ a ∷ []) n
      ∙ unfold has_node in ground (arith, has_node-snoc ns a n))
]

-- A merge of ZooKeeper configurations has the nodes of both, up to equality of host and port, and
-- does not depend on the type of the merge.
pub merge_from-nodes :
    (zk from : Option ChiZookeeperConfig) (t u : MergeType) (n : ChiZookeeperNode)
    → (has_node (nodes_of (merge_from zk from t)) n
        ≡ (has_node (nodes_of zk) n || has_node (nodes_of from) n))
      × (merge_from zk from t ≡ merge_from zk from u)
unfolding merge_from merge_found
merge_from-nodes zk none t u n = (unfold has_node in ground arith, refl)
merge_from-nodes zk (some from) t u n = (has_node-merge_nodes from.nodes (nodes_of zk) n, refl)
