-- ===== src/Walk/Till.antt =====
-- WalkTillError and WalkHostsTillError of type_chi.go: callbacks that may fail, called in order
-- until one fails. A callback acts on a state, and its error is an `Option`.
pub mod Laws
use radondb_clickhouse_opera.Base.{◌≡◌, refl, sym, ap, ◌∙◌, Option, none, some, List, [], ◌∷◌, ◌++◌}
use radondb_clickhouse_opera.Walk.{Named, ChiCluster, hosts_of_shards, walk_hosts}

abbrev pub Action {ℓ κ} : Type ℓ → Type κ → Type (ℓ ⊔ κ)
Action S E = S → Option E × S

module _ {ℓ κ} {S : Type ℓ} {E : Type κ} where
  -- `if err != nil { return err }`
  abbrev pub continue : Option E × S → Action S E → Option E × S
  continue (some e, s) next = (some e, s)
  continue (none, s) next = next s

  -- perform the items of a list until one fails
  abbrev pub run_till {μ} : {I : Type μ} → (I → Action S E) → List I → Action S E
  run_till act [] s = (none, s)
  run_till act (i ∷ items) s = continue (act i s) (run_till act items)

pub data Item {ℓ} (H : Type ℓ) : Type ℓ where
  of_zookeeper of_preliminary of_final : Item H
  of_cluster : ChiCluster H → Item H
  of_shard : Named H → Item H
  of_host : H → Item H

module _ {ℓ κ μ} {H : Type ℓ} {S : Type κ} {E : Type μ} where
  hosts_loop : (H → Action S E) → List H → Action S E
  hosts_loop f [] s = (none, s)
  hosts_loop f (h ∷ hs) s = continue (f h s) (hosts_loop f hs)

  shards_hosts_loop : (H → Action S E) → List (Named H) → Action S E
  unfolding hosts_loop
  shards_hosts_loop f [] s = (none, s)
  shards_hosts_loop f (x ∷ xs) s = continue (hosts_loop f x.hosts s) (shards_hosts_loop f xs)

  unfoldable pub walk_hosts_till_error : (H → Action S E) → List (ChiCluster H) → Action S E
  unfolding shards_hosts_loop
  walk_hosts_till_error f [] s = (none, s)
  walk_hosts_till_error f (k ∷ ks) s =
      continue (shards_hosts_loop f k.shards s) (walk_hosts_till_error f ks)

  module _ (f_zookeeper f_preliminary : Action S E) (f_cluster : ChiCluster H → Action S E)
      (f_shard : Named H → Action S E) (f_host : H → Action S E) (f_chi : Action S E) where
    shards_loop : List (Named H) → Action S E
    unfolding hosts_loop
    shards_loop [] s = (none, s)
    shards_loop (x ∷ xs) s =
        continue (f_shard x s) (λ t. continue (hosts_loop f_host x.hosts t) (shards_loop xs))

    clusters_loop : List (ChiCluster H) → Action S E
    unfolding shards_loop
    clusters_loop [] s = (none, s)
    clusters_loop (k ∷ ks) s =
        continue (f_cluster k s) (λ t. continue (shards_loop k.shards t) (clusters_loop ks))

    unfoldable pub walk_till_error : List (ChiCluster H) → Action S E
    unfolding clusters_loop
    walk_till_error clusters s =
        continue (f_zookeeper s)
          (λ t. continue (f_preliminary t) (λ u. continue (clusters_loop clusters u) f_chi))

    -- the callback for an item
    abbrev pub act : Item H → Action S E
    act of_zookeeper = f_zookeeper
    act of_preliminary = f_preliminary
    act of_final = f_chi
    act (of_cluster k) = f_cluster k
    act (of_shard x) = f_shard x
    act (of_host h) = f_host h

module _ {ℓ} {H : Type ℓ} where
  host_items : List H → List (Item H)
  host_items [] = []
  host_items (h ∷ hs) = of_host h ∷ host_items hs

  shard_items : List (Named H) → List (Item H)
  unfolding host_items
  shard_items [] = []
  shard_items (x ∷ xs) = of_shard x ∷ host_items x.hosts ++ shard_items xs

  cluster_items : List (ChiCluster H) → List (Item H)
  unfolding shard_items
  cluster_items [] = []
  cluster_items (k ∷ ks) = of_cluster k ∷ shard_items k.shards ++ cluster_items ks

  -- all items of an installation, in the order in which they are reconciled
  unfoldable pub schedule : List (ChiCluster H) → List (Item H)
  unfolding cluster_items
  schedule clusters = of_zookeeper ∷ of_preliminary ∷ cluster_items clusters ++ (of_final ∷ [])
