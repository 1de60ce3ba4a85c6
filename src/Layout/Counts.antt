-- ===== src/Layout/Counts.antt =====
-- The counts that normalisation finds out.
use radondb_clickhouse_opera.Base.{
  true, ℕ, suc, ◌+◌, ◌≤◌, ◌≡◌, refl, inl, inr, List, [], ◌∷◌, arith,
}
use radondb_clickhouse_opera.Base.Tests.{ltb→lt, Bool-cases, if◌then◌else◌}
use radondb_clickhouse_opera.Base.Lists.{length, AllOf}
use radondb_clickhouse_opera.Base.Int.{ℤ, pos, negsuc, ◌≤ℤ◌, is_zero, ltb_ℤ}
use radondb_clickhouse_opera.Layout.{
  ChiShard, ChiReplica, ChiClusterLayout, raise, raise_by_replicas, raise_by_shards,
  normalize_counts,
}

abbrev pub CoversReplica : ℕ → ChiReplica → Type 0
CoversReplica b r = (r.shards_count ≤ℤ pos b) × (length r.hosts ≤ b)

abbrev pub CoversShard : ℕ → ChiShard → Type 0
CoversShard b s = (s.replicas_count ≤ℤ pos b) × (length s.hosts ≤ b)

-- so many shards are enough for all that the layout lists
abbrev pub CoversShards : ChiClusterLayout → ℕ → Type 0
CoversShards layout b =
    (1 ≤ b) × (length layout.shards ≤ b) × AllOf (CoversReplica b) layout.replicas

abbrev pub CoversReplicas : ChiClusterLayout → ℕ → Type 0
CoversReplicas layout b =
    (1 ≤ b) × (length layout.replicas ≤ b) × AllOf (CoversShard b) layout.shards

-- the least bound at or above `c`
abbrev Least : (ℕ → Type 0) → ℕ → ℤ → Type 0
Least P c z = (d : ℕ) × (z ≡ pos d) × (c ≤ d) × P d × ((b : ℕ) → c ≤ b → P b → d ≤ b)

raise-Least : (c : ℕ) (z : ℤ) → Least (λ b. z ≤ℤ pos b) c (raise (pos c) z)
raise-Least c (pos n) = elim (Bool-cases (ltb_ℤ (pos c) (pos n))) [
  | inl h ↦ (
    n,
    rw h refl,
    omega (arith, ltb→lt (c + 0) (n + 0) h),
    omega arith,
    λ b k l. omega (arith, l),
  )
  | inr h ↦ (c, rw h refl, omega arith, ground arith, λ b k l. k)
]
raise-Least c (negsuc n) = elim (Bool-cases (ltb_ℤ (pos c) (negsuc n))) [
  | inl h ↦ absurd (omega (arith, ltb→lt (c + suc n) (0 + 0) h))
  | inr h ↦ (c, rw h refl, omega arith, omega arith, λ b k l. k)
]

-- two raises after each other, for one shard or replica
raise_both-Least :
    (c n : ℕ) (z : ℤ) → Least (λ b. (z ≤ℤ pos b) × (n ≤ b)) c (raise (raise (pos c) z) (pos n))
raise_both-Least c n z =
    let (d, e, up, cov, least) = raise-Least c z in
    let (d', e', up', cov', least') = raise-Least d (pos n) in
    (
      d',
      rw e e',
      omega (arith, up, up'),
      (omega (arith, cov, up'), omega (arith, cov')),
      λ b k l. least' b (least b k l.0) (omega (arith, l.1)),
    )

raise_by_replicas-Least :
    (rs : List ChiReplica) (c : ℕ)
    → Least (λ b. AllOf (CoversReplica b) rs) c (raise_by_replicas rs (pos c))
unfolding raise_by_replicas
raise_by_replicas-Least [] c = (c, refl, omega arith, tt, λ b k l. k)
raise_by_replicas-Least (r ∷ rs) c =
    let (d, e, up, (u, v), least) = raise_both-Least c (length r.hosts) r.shards_count in
    let (d', e', up', cov', least') = raise_by_replicas-Least rs d in
    (
      d',
      rw e e',
      omega (arith, up, up'),
      ((omega (arith, u, up'), omega (arith, v, up')), cov'),
      λ b k l. least' b (least b k l.0) l.1,
    )

raise_by_shards-Least :
    (ss : List ChiShard) (c : ℕ)
    → Least (λ b. AllOf (CoversShard b) ss) c (raise_by_shards ss (pos c))
unfolding raise_by_shards
raise_by_shards-Least [] c = (c, refl, omega arith, tt, λ b k l. k)
raise_by_shards-Least (s ∷ ss) c =
    let (d, e, up, (u, v), least) = raise_both-Least c (length s.hosts) s.replicas_count in
    let (d', e', up', cov', least') = raise_by_shards-Least ss d in
    (
      d',
      rw e e',
      omega (arith, up, up'),
      ((omega (arith, u, up'), omega (arith, v, up')), cov'),
      λ b k l. least' b (least b k l.0) l.1,
    )

AllOf-CoversShard_mono :
    (ss : List ChiShard) (a b : ℕ) → a ≤ b → AllOf (CoversShard a) ss → AllOf (CoversShard b) ss
AllOf-CoversShard_mono [] a b h k = tt
AllOf-CoversShard_mono (s ∷ ss) a b h ((u, v), k) =
    ((omega (arith, u, h), omega (arith, v, h)), AllOf-CoversShard_mono ss a b h k)

-- a count that is not given becomes the least one with the property, and a given one stays
abbrev pub Counted : (ℕ → Type 0) → ℤ → ℤ → Type 0
Counted P given count =
    if is_zero given
    then ((n : ℕ) × (count ≡ pos n) × P n × ((b : ℕ) → P b → n ≤ b))
    else (count ≡ given)

Counted-intro :
    (P : ℕ → Type 0) (given count : ℤ)
    → ((n : ℕ) × (count ≡ pos n) × P n × ((b : ℕ) → P b → n ≤ b))
    → Counted P given (if is_zero given then count else given)
Counted-intro P given count h = elim (Bool-cases (is_zero given)) [
  | inl e ↦ rw e h
  | inr e ↦ rw e refl
]

-- Counts that are not given become the least ones that cover all that the layout lists, and given
-- counts stay.
pub normalize_counts-least :
    (layout : ChiClusterLayout)
    → let counted = normalize_counts layout in
      Counted (CoversShards layout) layout.shards_count counted.shards_count
      × Counted (CoversReplicas layout) layout.replicas_count counted.replicas_count
unfolding normalize_counts
normalize_counts-least layout =
    let (d, e, up, cov, least) = raise-Least 1 (pos (length layout.shards)) in
    let (d', e', up', cov', least') = raise_by_replicas-Least layout.replicas d in
    let (c, f, upc, covc, leastc) = raise_by_shards-Least layout.shards 1 in
    let (c', f', upc', covc', leastc') = raise-Least c (pos (length layout.replicas)) in
    (
      Counted-intro (CoversShards layout) layout.shards_count _ (
        d',
        rw e e',
        (omega (arith, up, up'), omega (arith, cov, up'), cov'),
        λ b (k0, k1, k2). least' b (least b k0 (omega (arith, k1))) k2,
      ),
      Counted-intro (CoversReplicas layout) layout.replicas_count _ (
        c',
        rw f f',
        (
          omega (arith, upc, upc'),
          omega (arith, covc'),
          AllOf-CoversShard_mono layout.shards c c' upc' covc,
        ),
        λ b (k0, k1, k2). leastc' b (leastc b k0 k2) (omega (arith, k1)),
      ),
    )

pub Counted-elim :
    (P : ℕ → Type 0) (given count : ℤ)
    → is_zero given ≡ true
    → Counted P given count
    → ((n : ℕ) × (count ≡ pos n) × P n × ((b : ℕ) → P b → n ≤ b))
Counted-elim P given count z h = rw z at h
