-- ===== src/Walk/Till/Laws.antt =====
-- The walk that stops at an error beside a run over the list of all its items.
use radondb_clickhouse_opera.Base.{◌≡◌, refl, sym, ap, ◌∙◌, Option, none, some, List, [], ◌∷◌, ◌++◌}
use radondb_clickhouse_opera.Walk.{Named, ChiCluster, hosts_of_shards, walk_hosts}
use radondb_clickhouse_opera.Walk.Till.{
  Action, continue, run_till, Item, of_final, act, hosts_loop, shards_hosts_loop,
  walk_hosts_till_error, shards_loop, clusters_loop, walk_till_error, host_items, shard_items,
  cluster_items, schedule,
}

module _ {ℓ κ} {S : Type ℓ} {E : Type κ} where
  continue_ext :
      (r : Option E × S) (g h : Action S E) → ((s : S) → g s ≡ h s) → continue r g ≡ continue r h
  continue_ext (none, s) g h e = e s
  continue_ext (some x, s) g h e = refl

  continue-none : (r : Option E × S) → r ≡ continue r (λ s. (none, s))
  continue-none (none, s) = refl
  continue-none (some e, s) = refl

  continue_assoc :
      (r : Option E × S) (g h : Action S E)
      → continue (continue r g) h ≡ continue r (λ s. continue (g s) h)
  continue_assoc (none, s) g h = refl
  continue_assoc (some e, s) g h = refl

  run_till-append {μ} :
      {I : Type μ} (f : I → Action S E) (xs ys : List I) (s : S)
      → run_till f (xs ++ ys) s ≡ continue (run_till f xs s) (run_till f ys)
  run_till-append f [] ys s = refl
  run_till-append f (x ∷ xs) ys s =
      continue_ext (f x s) (run_till f (xs ++ ys)) (λ t. continue (run_till f xs t) (run_till f ys))
        (run_till-append f xs ys)
      ∙ sym (continue_assoc (f x s) (run_till f xs) (run_till f ys))

  -- two loops in sequence
  run_both {μ} :
      {I : Type μ} (f : I → Action S E) (g h : Action S E) (xs ys : List I)
      → ((s : S) → g s ≡ run_till f xs s)
      → ((s : S) → h s ≡ run_till f ys s)
      → (s : S) → continue (g s) h ≡ run_till f (xs ++ ys) s
  run_both f g h xs ys a b s =
      ap (λ r. continue r h) (a s)
      ∙ continue_ext (run_till f xs s) h (run_till f ys) b
      ∙ sym (run_till-append f xs ys s)

module _ {ℓ κ μ} {H : Type ℓ} {S : Type κ} {E : Type μ} where
  hosts_loop-run : (f : H → Action S E) (hs : List H) (s : S) → hosts_loop f hs s ≡ run_till f hs s
  unfolding hosts_loop
  hosts_loop-run f [] s = refl
  hosts_loop-run f (h ∷ hs) s =
      continue_ext (f h s) (hosts_loop f hs) (run_till f hs) (hosts_loop-run f hs)

  shards_hosts_loop-run :
      (f : H → Action S E) (xs : List (Named H)) (s : S)
      → shards_hosts_loop f xs s ≡ run_till f (hosts_of_shards xs) s
  unfolding shards_hosts_loop hosts_of_shards
  shards_hosts_loop-run f [] s = refl
  shards_hosts_loop-run f (x ∷ xs) s =
      run_both f (hosts_loop f x.hosts) (shards_hosts_loop f xs) x.hosts (hosts_of_shards xs)
        (hosts_loop-run f x.hosts) (shards_hosts_loop-run f xs) s

  -- WalkHostsTillError
  pub walk_hosts_till_error-run :
      (f : H → Action S E) (clusters : List (ChiCluster H)) (s : S)
      → walk_hosts_till_error f clusters s ≡ run_till f (walk_hosts clusters) s
  unfolding walk_hosts_till_error walk_hosts
  walk_hosts_till_error-run f [] s = refl
  walk_hosts_till_error-run f (k ∷ ks) s =
      run_both f (shards_hosts_loop f k.shards) (walk_hosts_till_error f ks)
        (hosts_of_shards k.shards) (walk_hosts ks) (shards_hosts_loop-run f k.shards)
        (walk_hosts_till_error-run f ks) s

  module _ (f_zookeeper f_preliminary : Action S E) (f_cluster : ChiCluster H → Action S E)
      (f_shard : Named H → Action S E) (f_host : H → Action S E) (f_chi : Action S E) where
    abbrev perform : Item H → Action S E
    perform = act f_zookeeper f_preliminary f_cluster f_shard f_host f_chi

    host_items-run :
        (hs : List H) (s : S) → hosts_loop f_host hs s ≡ run_till perform (host_items hs) s
    unfolding hosts_loop host_items
    host_items-run [] s = refl
    host_items-run (h ∷ hs) s =
        continue_ext (f_host h s) (hosts_loop f_host hs) (run_till perform (host_items hs))
          (host_items-run hs)

    shard_items-run :
        (xs : List (Named H)) (s : S)
        → shards_loop f_zookeeper f_preliminary f_cluster f_shard f_host f_chi xs s
          ≡ run_till perform (shard_items xs) s
    unfolding shards_loop shard_items
    shard_items-run [] s = refl
    shard_items-run (x ∷ xs) s =
        continue_ext (f_shard x s) _ (run_till perform (host_items x.hosts ++ shard_items xs)) (
          run_both perform (hosts_loop f_host x.hosts) _ (host_items x.hosts) (shard_items xs)
            (host_items-run x.hosts) (shard_items-run xs))

    cluster_items-run :
        (ks : List (ChiCluster H)) (s : S)
        → clusters_loop f_zookeeper f_preliminary f_cluster f_shard f_host f_chi ks s
          ≡ run_till perform (cluster_items ks) s
    unfolding clusters_loop cluster_items
    cluster_items-run [] s = refl
    cluster_items-run (k ∷ ks) s =
        continue_ext (f_cluster k s) _ (run_till perform (shard_items k.shards ++ cluster_items ks))
          (run_both perform _ _ (shard_items k.shards) (cluster_items ks) (shard_items-run k.shards)
            (cluster_items-run ks))

    -- continuing with the last item
    last_item : (s : S) → f_chi s ≡ run_till perform (of_final ∷ []) s
    last_item s = continue-none (f_chi s)

    -- WalkTillError performs the items of the installation in the order of the schedule until one
    -- fails, and returns its error.
    pub walk_till_error-run :
        (clusters : List (ChiCluster H)) (s : S)
        → walk_till_error f_zookeeper f_preliminary f_cluster f_shard f_host f_chi clusters s
          ≡ run_till perform (schedule clusters) s
    unfolding walk_till_error schedule
    walk_till_error-run clusters s =
        continue_ext (f_zookeeper s) _
          (λ t.
            continue (f_preliminary t)
              (run_till perform (cluster_items clusters ++ (of_final ∷ []))))
          (λ t.
            continue_ext (f_preliminary t) _
              (run_till perform (cluster_items clusters ++ (of_final ∷ [])))
              (run_both perform _ f_chi (cluster_items clusters) (of_final ∷ [])
                (cluster_items-run clusters) last_item))
