-- ===== src/Walk/Scopes.antt =====
-- The counters of a walk: cycles, offsets in a cycle, and indexes.
use radondb_clickhouse_opera.Base.{
  ℕ, zero, suc, ◌+◌, ◌*◌, ◌≤◌, ◌≡◌, refl, ap, inl, inr, List, [], ◌∷◌, arith, ◌&&◌,
}
use radondb_clickhouse_opera.Base.Tests.{ltb, leb, Bool-cases}
use radondb_clickhouse_opera.Base.Lists.{AllOf, AllOf-append}
use radondb_clickhouse_opera.Walk.{
  Scope, start, advance, Counters, advance_both, Named, ChiCluster, Visit, walk_hosts_of,
  walk_shards_of, walk_clusters_of, walk_hosts_full_path,
}

-- With cycles of a given size the index is split by it, and without one there is a single cycle.
abbrev pub IsSplit : ℕ → Scope → Type 0
IsSplit zero s = (s.cycle_index ≡ 0) × (s.cycle_offset ≡ s.index)
IsSplit (suc n) s = (s.index ≡ s.cycle_index * suc n + s.cycle_offset) × (s.cycle_offset ≤ n)

start-IsSplit : (n : ℕ) → IsSplit n start
start-IsSplit zero = (refl, refl)
start-IsSplit (suc n) = (omega arith, omega arith)

next_cycle : (i c o n : ℕ) → i ≡ c * suc n + o → o ≡ n → suc i ≡ suc c * suc n + 0
next_cycle i c o n e h = grind arith

advance-IsSplit : (n : ℕ) (s : Scope) → IsSplit n s → IsSplit n (advance n s)
unfolding advance
advance-IsSplit zero s (a, b) = (a, ap suc b)
advance-IsSplit (suc n) s (a, b) =
    elim (Bool-cases (ltb 0 (suc n) && leb (suc n) (suc s.cycle_offset))) [
      | inl e ↦
          rw e (next_cycle s.index s.cycle_index s.cycle_offset n a (ground arith), omega arith)
      | inr e ↦ rw e (omega arith, ground arith)
    ]

abbrev pub counters {ℓ} : {H : Type ℓ} → Visit H → Counters
counters v = record { of_chi = v.chi_scope; of_cluster = v.cluster_scope }

abbrev reset : Counters → Counters
reset c = record { of_chi = c.of_chi; of_cluster = start }

-- What the start satisfies, and every step and every reset preserve, holds at every call.
module _ {ℓ} {H : Type ℓ} (chi_size cluster_size : ℕ) (I : Counters → Type 0)
    (step : (c : Counters) → I c → I (advance_both chi_size cluster_size c))
    (at_reset : (c : Counters) → I c → I (reset c)) where
  abbrev Holds : List (Visit H) × Counters → Type 0
  Holds r = AllOf (λ v. I (counters v)) r.0 × I r.1

  walk_hosts_of-Holds :
      (i : ℕ) (k : ChiCluster H) (j : ℕ) (s : Named H) (l : ℕ) (c : Counters) (hs : List H)
      → I c
      → Holds (walk_hosts_of chi_size cluster_size i k j s l c hs)
  unfolding walk_hosts_of
  walk_hosts_of-Holds i k j s l c [] h = (tt, h)
  walk_hosts_of-Holds i k j s l c (x ∷ hs) h =
      let (a, b) =
        walk_hosts_of-Holds i k j s (suc l) (advance_both chi_size cluster_size c) hs (step c h) in
      ((h, a), b)

  walk_shards_of-Holds :
      (i : ℕ) (k : ChiCluster H) (j : ℕ) (c : Counters) (ss : List (Named H))
      → I c
      → Holds (walk_shards_of chi_size cluster_size i k j c ss)
  unfolding walk_shards_of
  walk_shards_of-Holds i k j c [] h = (tt, h)
  walk_shards_of-Holds i k j c (s ∷ ss) h =
      let (a, b) = walk_hosts_of-Holds i k j s 0 c s.hosts h in
      let (d, e) =
        walk_shards_of-Holds i k (suc j) (walk_hosts_of chi_size cluster_size i k j s 0 c s.hosts).1
          ss b in
      (AllOf-append (λ v. I (counters v)) _ _ a d, e)

  walk_clusters_of-Holds :
      (i : ℕ) (c : Counters) (ks : List (ChiCluster H))
      → I c
      → AllOf (λ v. I (counters v)) (walk_clusters_of chi_size cluster_size i c.of_chi ks)
  unfolding walk_clusters_of
  walk_clusters_of-Holds i c [] h = tt
  walk_clusters_of-Holds i c (k ∷ ks) h =
      let (a, b) = walk_shards_of-Holds i k 0 (reset c) k.shards (at_reset c h) in
      AllOf-append (λ v. I (counters v)) _ _ a
        (walk_clusters_of-Holds (suc i)
          (walk_shards_of chi_size cluster_size i k 0 (reset c) k.shards).1 ks b)

-- both scopes are split, and the index in the cluster is at most that in the installation
abbrev pub IsCounted : ℕ → ℕ → Counters → Type 0
IsCounted chi_size cluster_size c =
    IsSplit chi_size c.of_chi
    × IsSplit cluster_size c.of_cluster
    × (c.of_cluster.index ≤ c.of_chi.index)

pub index-advance : (n : ℕ) (s : Scope) → (advance n s).index ≡ suc s.index
unfolding advance
index-advance n s = elim (Bool-cases (ltb 0 n && leb n (suc s.cycle_offset))) [
  | inl e ↦ rw e refl
  | inr e ↦ rw e refl
]

-- At every host the index in each scope is the cycle index times the cycle size plus an offset
-- below that size, with a single cycle for size zero, and the index in the cluster is at most that
-- in the installation.
pub walk_hosts_full_path-IsCounted {ℓ} :
    {H : Type ℓ} (chi_size cluster_size : ℕ) (clusters : List (ChiCluster H))
    → AllOf
        (λ v. IsCounted chi_size cluster_size (counters v))
        (walk_hosts_full_path chi_size cluster_size clusters)
unfolding walk_hosts_full_path
walk_hosts_full_path-IsCounted {H = H} chi_size cluster_size clusters =
    walk_clusters_of-Holds chi_size cluster_size (IsCounted chi_size cluster_size)
      (λ c (a, b, d). (
        advance-IsSplit chi_size c.of_chi a,
        advance-IsSplit cluster_size c.of_cluster b,
        omega (arith, index-advance chi_size c.of_chi, index-advance cluster_size c.of_cluster, d),
      ))
      (λ c (a, b, d). (a, start-IsSplit cluster_size, omega arith)) 0
      (reset (record { of_chi = start; of_cluster = start })) clusters
      (start-IsSplit chi_size, start-IsSplit cluster_size, omega arith)
