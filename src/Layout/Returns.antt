-- ===== src/Layout/Returns.antt =====
-- Normalising the shards and replicas of a layout: what they find in the field of hosts.
use radondb_clickhouse_opera.Base.{
  ℕ, zero, suc, ◌+◌, ◌≤◌, ◌<◌, ◌≡◌, refl, true, Option, none, some, List, [], ◌∷◌, arith,
}
use radondb_clickhouse_opera.Base.Tests.{is_some}
use radondb_clickhouse_opera.Base.Int.{pos, pos_part}
use radondb_clickhouse_opera.Base.Lists.{length, AllOf}
use radondb_clickhouse_opera.Layout.HostsField.{HostPointer, at, at-put_host}
use radondb_clickhouse_opera.Layout.{ChiShard, ChiReplica, Hosts}
use radondb_clickhouse_opera.Layout.Counts.{CoversReplica, CoversShard}
use radondb_clickhouse_opera.Layout.Normalize.{
  bind, found_or_new, get_or_create, fill_hosts, normalize_shard_hosts, normalize_replica_hosts,
  normalize_shards, normalize_replicas, normalize_shard_replicas_count,
  normalize_replica_shards_count,
}

-- the field has a cell at every crossing of so many shards and replicas
abbrev pub HasCells : ℕ → ℕ → Hosts → Type 0
HasCells s r hosts = (i j : ℕ) → i < s → j < r → is_some (at hosts.field i j) ≡ true

-- the computation returns, with such a result
abbrev pub Returns : {A : Type 0} → (A → Type 0) → Option A → Type 0
Returns P none = ⊥
Returns P (some a) = P a

pub Returns-bind :
    {A B : Type 0} (P : A → Type 0) (Q : B → Type 0) (o : Option A) (f : A → Option B)
    → Returns P o
    → ((a : A) → P a → Returns Q (f a))
    → Returns Q (bind o f)
unfolding bind
Returns-bind P Q none f h k = absurd h
Returns-bind P Q (some a) f h k = k a h

found_or_new-Returns :
    (o : Option HostPointer) (s r i j : ℕ) (hosts : Hosts)
    → at hosts.field i j ≡ o
    → is_some o ≡ true
    → HasCells s r hosts
    → Returns (λ out. HasCells s r out.1) (found_or_new o i j hosts)
unfolding found_or_new
found_or_new-Returns none s r i j hosts e k h = cc
found_or_new-Returns (some (some p)) s r i j hosts e k h = h
found_or_new-Returns (some none) s r i j hosts e k h = λ a b x y.
    ground (arith, h a b x y, at-put_host hosts.field i j a b (some (length hosts.store)))

module _ (s r : ℕ) (place : ℕ → ℕ × ℕ) where
  fill_hosts-Returns :
      (n i : ℕ) (hosts : Hosts)
      → ((k : ℕ) → k < i + n → ((place k).0 < s) × ((place k).1 < r))
      → HasCells s r hosts
      → Returns (λ out. HasCells s r out.1) (fill_hosts place n i hosts)
  unfolding fill_hosts get_or_create
  fill_hosts-Returns zero i hosts inside h = h
  fill_hosts-Returns (suc n) i hosts inside h =
      let (x, y) = inside i (omega arith) in
      Returns-bind _ _ (get_or_create (place i).0 (place i).1 hosts) _
        (found_or_new-Returns (at hosts.field (place i).0 (place i).1) s r (place i).0 (place i).1
          hosts refl (h (place i).0 (place i).1 x y) h)
        (λ (p, next) cells.
          Returns-bind _ _ (fill_hosts place n (suc i) next) _
            (fill_hosts-Returns n (suc i) next (λ k l. inside k (omega (arith, l))) cells)
            (λ (ps, last) done. done))

shard_count :
    (x : ChiShard) (r : ℕ)
    → CoversShard r x
    → pos_part (normalize_shard_replicas_count x (pos r)) ≤ r
unfolding normalize_shard_replicas_count
shard_count x r (a, b) = ground arith

replica_count :
    (x : ChiReplica) (s : ℕ)
    → CoversReplica s x
    → pos_part (normalize_replica_shards_count x (pos s)) ≤ s
unfolding normalize_replica_shards_count
replica_count x s (a, b) = ground arith

pub normalize_shards-Returns :
    (xs : List ChiShard) (i s r : ℕ) (hosts : Hosts)
    → i + length xs ≤ s
    → AllOf (CoversShard r) xs
    → HasCells s r hosts
    → Returns (λ out. HasCells s r out.1) (normalize_shards xs i (pos r) hosts)
unfolding normalize_shards normalize_shard_hosts
normalize_shards-Returns [] i s r hosts l c h = h
normalize_shards-Returns (x ∷ xs) i s r hosts l (c, cs) h =
    Returns-bind _ _
      (normalize_shard_hosts i (pos_part (normalize_shard_replicas_count x (pos r))) hosts) _
      (fill_hosts-Returns s r (λ replica. (i, replica))
        (pos_part (normalize_shard_replicas_count x (pos r))) 0 hosts
        (λ k m. (omega (arith, l), omega (arith, m, shard_count x r c))) h)
      (λ (row, next) cells.
        Returns-bind _ _ (normalize_shards xs (suc i) (pos r) next) _
          (normalize_shards-Returns xs (suc i) s r next (omega (arith, l)) cs cells)
          (λ (rows, last) done. done))

pub normalize_replicas-Returns :
    (xs : List ChiReplica) (i s r : ℕ) (hosts : Hosts)
    → i + length xs ≤ r
    → AllOf (CoversReplica s) xs
    → HasCells s r hosts
    → Returns (λ out. HasCells s r out.1) (normalize_replicas xs i (pos s) hosts)
unfolding normalize_replicas normalize_replica_hosts
normalize_replicas-Returns [] i s r hosts l c h = h
normalize_replicas-Returns (x ∷ xs) i s r hosts l (c, cs) h =
    Returns-bind _ _
      (normalize_replica_hosts i (pos_part (normalize_replica_shards_count x (pos s))) hosts) _
      (fill_hosts-Returns s r (λ shard. (shard, i))
        (pos_part (normalize_replica_shards_count x (pos s))) 0 hosts
        (λ k m. (omega (arith, m, replica_count x s c), omega (arith, l))) h)
      (λ (column, next) cells.
        Returns-bind _ _ (normalize_replicas xs (suc i) (pos s) next) _
          (normalize_replicas-Returns xs (suc i) s r next (omega (arith, l)) cs cells)
          (λ (columns, last) done. done))
