-- ===== src/Zookeeper/Normal.antt =====
-- Normalised ZooKeeper configurations.
use radondb_clickhouse_opera.Base.{
  ℕ, zero, suc, ◌%◌, String, ◌≡◌, refl, ◌⊎◌, inl, inr, Bool, true, false, Option, none, some, List,
  [], ◌∷◌, arith,
}
use radondb_clickhouse_opera.Base.Tests.{eqb, Bool-cases}
use radondb_clickhouse_opera.Base.Int.{ℤ, pos, negsuc, pos_part}
use radondb_clickhouse_opera.Zookeeper.{
  ChiZookeeperNode, ChiZookeeperConfig, default_port, default_text, normalize_replica,
  normalize_nodes, normalize_found, normalize_configuration_zookeeper,
}

-- the largest odd number up to `n`, and one for zero
abbrev pub IsQuorum : ℕ → ℕ → Type 0
IsQuorum n m = (m % 2 ≡ 1) × ((m ≡ n) ⊎ (suc m ≡ n) ⊎ ((m ≡ 1) × (n ≡ 0)))

-- An installation of ZooKeeper has an odd number of replicas: the given one if that is odd, one
-- less if it is even and positive, and a single one if none or a negative number is given.
pub normalize_replica-IsQuorum :
    (replica : ℤ)
    → (m : ℕ) × (normalize_replica true replica ≡ pos m) × IsQuorum (pos_part replica) m
unfolding normalize_replica
normalize_replica-IsQuorum (pos zero) = (1, refl, (refl, inr (inr (refl, refl))))
normalize_replica-IsQuorum (pos (suc n)) = elim (Bool-cases (eqb (suc n % 2) 0)) [
  | inl even ↦ (n, ground arith, (ground arith, inr (inl refl)))
  | inr odd ↦ (suc n, ground arith, (ground arith, inl refl))
]
normalize_replica-IsQuorum (negsuc n) = (1, ground arith, (refl, inr (inr (refl, refl))))

normalize_replica_idem :
    (install : Bool) (z : ℤ)
    → normalize_replica install (normalize_replica install z) ≡ normalize_replica install z
normalize_replica_idem false z = unfold normalize_replica in refl
normalize_replica_idem true z =
    let (m, e, (odd, q)) = normalize_replica-IsQuorum z in rw e (odd_stays m odd)
  where
    odd_stays : (m : ℕ) → m % 2 ≡ 1 → normalize_replica true (pos m) ≡ pos m
    odd_stays m h = unfold normalize_replica in ground arith

default_port_idem : (p : ℤ) → default_port (default_port p) ≡ default_port p
default_port_idem p = ground arith

default_text_idem : (t d : String) → default_text (default_text t d) d ≡ default_text t d
default_text_idem t d = ground arith

normalize_nodes_idem :
    (ns : List ChiZookeeperNode) → normalize_nodes (normalize_nodes ns) ≡ normalize_nodes ns
unfolding normalize_nodes
normalize_nodes_idem [] = refl
normalize_nodes_idem (n ∷ ns) = rw (default_port_idem n.port, normalize_nodes_idem ns) refl

-- Normalising a ZooKeeper configuration again changes nothing.
pub normalize_configuration_zookeeper_idem :
    (zk : Option ChiZookeeperConfig)
    → normalize_configuration_zookeeper (normalize_configuration_zookeeper zk)
      ≡ normalize_configuration_zookeeper zk
unfolding normalize_configuration_zookeeper normalize_found
normalize_configuration_zookeeper_idem none = refl
normalize_configuration_zookeeper_idem (some zk) =
    rw
      (
        normalize_nodes_idem zk.nodes,
        normalize_replica_idem zk.install zk.replica,
        default_port_idem zk.port,
        default_text_idem zk.image "radondb/zookeeper:3.6.1",
        default_text_idem zk.image_pull_policy "IfNotPresent",
      )
      refl
