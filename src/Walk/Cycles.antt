-- ===== src/Walk/Cycles.antt =====
-- The index of a host's cycle in its cluster, with the size of a cycle that
-- FillSelfCalculatedAddressInfo calculates.
use native.Mathlib.Nat.{lt-div-mul-add, mul-le-mul_right, mul_comm}
use radondb_clickhouse_opera.Base.{
  ℕ, zero, suc, ◌+◌, ◌-◌, ◌*◌, ◌≤◌, ◌<◌, sym, subst, inl, inr, List, [], ◌∷◌, arith,
}
use radondb_clickhouse_opera.Base.Tests.{eqb, Bool-cases, leb, leb→le}
use radondb_clickhouse_opera.Base.Lists.{length, AllOf}
use radondb_clickhouse_opera.Walk.{
  Scope, ChiCluster, Visit, walk_hosts_full_path, walk_hosts, hosts_count, cluster_cycle_size,
}
use radondb_clickhouse_opera.Walk.Scopes.{
  IsSplit, IsCounted, counters, walk_hosts_full_path-IsCounted,
}
use radondb_clickhouse_opera.Walk.Order.{number_from, numbered, numbered-walk_hosts_full_path}

module _ {ℓ} {H : Type ℓ} where
  number_from_bound :
      (n m : ℕ) (hs : List H) → n + length hs ≤ m → AllOf (λ p. p.0 < m) (number_from n hs)
  number_from_bound n m [] h = tt
  number_from_bound n m (x ∷ hs) h = (omega arith, number_from_bound (suc n) m hs (omega arith))

  numbered_bound :
      (m : ℕ) (vs : List (Visit H))
      → AllOf (λ p. p.0 < m) (numbered vs)
      → AllOf (λ v. v.chi_scope.index < m) vs
  numbered_bound m [] h = tt
  numbered_bound m (v ∷ vs) (a, h) = (a, numbered_bound m vs h)

  index_bound :
      (chi_size cluster_size : ℕ) (clusters : List (ChiCluster H))
      → AllOf
          (λ v. v.chi_scope.index < hosts_count clusters)
          (walk_hosts_full_path chi_size cluster_size clusters)
  unfolding hosts_count
  index_bound chi_size cluster_size clusters =
      numbered_bound (length (walk_hosts clusters))
        (walk_hosts_full_path chi_size cluster_size clusters)
        (subst (AllOf (λ p. p.0 < length (walk_hosts clusters)))
          (sym (numbered-walk_hosts_full_path chi_size cluster_size clusters))
          (number_from_bound 0 (length (walk_hosts clusters)) (walk_hosts clusters) (omega arith)))

-- the calculated cycles have room for all hosts
cycle_room : (hosts cycles : ℕ) → 2 ≤ cycles → hosts ≤ cluster_cycle_size hosts cycles * cycles
unfolding cluster_cycle_size
cycle_room hosts cycles h = elim (Bool-cases (eqb cycles 1)) [
  | inl e ↦ ground arith
  | inr e ↦
      rw e (omega (arith, lt-div-mul-add {a = hosts + (cycles - 1)} {b = cycles} (omega arith)))
]

-- a cycle's index at an index for which there is room
cycle_bound :
    (size cycles : ℕ) (s : Scope)
    → IsSplit size s
    → s.index < size * cycles
    → s.cycle_index < cycles
cycle_bound zero cycles s h k = grind arith
cycle_bound (suc n) cycles s (a, b) k = elim (Bool-cases (leb cycles s.cycle_index)) [
  | inl e ↦ grind (
    arith,
    mul-le-mul_right {m = cycles} {n = s.cycle_index} (suc n) (leb→le cycles s.cycle_index e),
    mul_comm (suc n) cycles,
  )
  | inr e ↦ ground arith
]

module _ {ℓ} {H : Type ℓ} (cycles : ℕ) (clusters : List (ChiCluster H)) where
  abbrev size : ℕ
  size = cluster_cycle_size (hosts_count clusters) cycles

  fits :
      (vs : List (Visit H))
      → 2 ≤ cycles
      → AllOf (λ v. IsCounted 0 size (counters v)) vs
      → AllOf (λ v. v.chi_scope.index < hosts_count clusters) vs
      → AllOf (λ v. v.cluster_scope.cycle_index < cycles) vs
  fits [] h c b = tt
  fits (v ∷ vs) h (c, cs) (b, bs) =
      let (p, q, r) = c in
      (
        cycle_bound size cycles v.cluster_scope q
            (omega (arith, cycle_room (hosts_count clusters) cycles h, r, b)),
        fits vs h cs bs,
      )

  -- With the cycle size that is calculated for at least two pods on a node, every cycle index of a
  -- host in its cluster is below that number of pods.
  pub cycle_index_bound :
      2 ≤ cycles
      → AllOf (λ v. v.cluster_scope.cycle_index < cycles) (walk_hosts_full_path 0 size clusters)
  cycle_index_bound h =
      fits (walk_hosts_full_path 0 size clusters) h (walk_hosts_full_path-IsCounted 0 size clusters)
        (index_bound 0 size clusters)
