-- ===== src/Walk/Order.antt =====
-- The hosts that the walk visits, in their order and with their numbers.
use radondb_clickhouse_opera.Base.{ℕ, suc, ◌+◌, ◌≡◌, refl, sym, ap, ◌∙◌, List, [], ◌∷◌, ◌++◌, arith}
use radondb_clickhouse_opera.Base.Lists.{length, length-append}
use radondb_clickhouse_opera.Walk.{
  Scope, start, Counters, advance_both, Named, ChiCluster, Visit, walk_hosts_of, walk_shards_of,
  walk_clusters_of, walk_hosts_full_path, walk_hosts, hosts_of_shards,
}
use radondb_clickhouse_opera.Walk.Scopes.{index-advance}

module _ {ℓ} {H : Type ℓ} where
  abbrev pub number_from : ℕ → List H → List (ℕ × H)
  number_from n [] = []
  number_from n (h ∷ hs) = (n, h) ∷ number_from (suc n) hs

  -- what each call sees of its index and its host
  abbrev pub numbered : List (Visit H) → List (ℕ × H)
  numbered [] = []
  numbered (v ∷ vs) = (v.chi_scope.index, v.host) ∷ numbered vs

  numbered-append : (vs ws : List (Visit H)) → numbered (vs ++ ws) ≡ numbered vs ++ numbered ws
  numbered-append [] ws = refl
  numbered-append (v ∷ vs) ws =
      ap (λ rest. (v.chi_scope.index, v.host) ∷ rest) (numbered-append vs ws)

  number_from-append :
      (n : ℕ) (xs ys : List H)
      → number_from n (xs ++ ys) ≡ number_from n xs ++ number_from (n + length xs) ys
  number_from-append n [] ys = ap (λ m. number_from m ys) (omega arith)
  number_from-append n (x ∷ xs) ys =
      ap (λ rest. (n, x) ∷ rest)
        (number_from-append (suc n) xs ys
          ∙ ap (λ m. number_from (suc n) xs ++ number_from m ys) (omega arith))

  -- the calls number these hosts from the index at which they begin
  abbrev Numbers : ℕ → List H → List (Visit H) × Counters → Type ℓ
  Numbers n hs r = (numbered r.0 ≡ number_from n hs) × (r.1.of_chi.index ≡ n + length hs)

  module _ (chi_size cluster_size i : ℕ) (k : ChiCluster H) where
    walk_hosts_of-Numbers :
        (j : ℕ) (s : Named H) (l : ℕ) (c : Counters) (hs : List H)
        → Numbers c.of_chi.index hs (walk_hosts_of chi_size cluster_size i k j s l c hs)
    unfolding walk_hosts_of
    walk_hosts_of-Numbers j s l c [] = (refl, omega arith)
    walk_hosts_of-Numbers j s l c (h ∷ hs) =
        let (a, b) = walk_hosts_of-Numbers j s (suc l) (advance_both chi_size cluster_size c) hs in
        let e = index-advance chi_size c.of_chi in
        (
          ap (λ rest. (c.of_chi.index, h) ∷ rest) (a ∙ ap (λ n. number_from n hs) e),
          omega (arith, b, e),
        )

    walk_shards_of-Numbers :
        (j : ℕ) (c : Counters) (ss : List (Named H))
        → Numbers c.of_chi.index
            (hosts_of_shards ss)
            (walk_shards_of chi_size cluster_size i k j c ss)
    unfolding walk_shards_of hosts_of_shards
    walk_shards_of-Numbers j c [] = (refl, omega arith)
    walk_shards_of-Numbers j c (s ∷ ss) =
        let here = walk_hosts_of chi_size cluster_size i k j s 0 c s.hosts in
        let rest = walk_shards_of chi_size cluster_size i k (suc j) here.1 ss in
        let (a, b) = walk_hosts_of-Numbers j s 0 c s.hosts in
        let (d, e) = walk_shards_of-Numbers (suc j) here.1 ss in
        (
          numbered-append here.0 rest.0
              ∙ ap (λ xs. xs ++ numbered rest.0) a
              ∙ ap (λ ys. number_from c.of_chi.index s.hosts ++ ys)
                  (d ∙ ap (λ n. number_from n (hosts_of_shards ss)) b)
              ∙ sym (number_from-append c.of_chi.index s.hosts (hosts_of_shards ss)),
          omega (arith, length-append s.hosts (hosts_of_shards ss), b, e),
        )

  numbered-walk_clusters_of :
      (chi_size cluster_size i : ℕ) (chi : Scope) (ks : List (ChiCluster H))
      → numbered (walk_clusters_of chi_size cluster_size i chi ks)
        ≡ number_from chi.index (walk_hosts ks)
  unfolding walk_clusters_of walk_hosts
  numbered-walk_clusters_of chi_size cluster_size i chi [] = refl
  numbered-walk_clusters_of chi_size cluster_size i chi (k ∷ ks) =
      let here =
        walk_shards_of chi_size cluster_size i k 0 (record { of_chi = chi; of_cluster = start })
          k.shards in
      let rest = walk_clusters_of chi_size cluster_size (suc i) here.1.of_chi ks in
      let (a, b) =
        walk_shards_of-Numbers chi_size cluster_size i k 0
          (record { of_chi = chi; of_cluster = start }) k.shards in
      numbered-append here.0 rest
      ∙ ap (λ xs. xs ++ numbered rest) a
      ∙ ap (λ ys. number_from chi.index (hosts_of_shards k.shards) ++ ys)
          (numbered-walk_clusters_of chi_size cluster_size (suc i) here.1.of_chi ks
            ∙ ap (λ n. number_from n (walk_hosts ks)) b)
      ∙ sym (number_from-append chi.index (hosts_of_shards k.shards) (walk_hosts ks))

  -- The walk with full paths visits the hosts in the order of WalkHosts and numbers them from
  -- zero, for all cycle sizes.
  pub numbered-walk_hosts_full_path :
      (chi_size cluster_size : ℕ) (clusters : List (ChiCluster H))
      → numbered (walk_hosts_full_path chi_size cluster_size clusters)
        ≡ number_from 0 (walk_hosts clusters)
  unfolding walk_hosts_full_path
  numbered-walk_hosts_full_path chi_size cluster_size clusters =
      numbered-walk_clusters_of chi_size cluster_size 0 start clusters
