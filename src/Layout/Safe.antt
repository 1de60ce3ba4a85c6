-- ===== src/Layout/Safe.antt =====
-- Normalising a layout without given counts.
use radondb_clickhouse_opera.Base.{
  ℕ, zero, suc, ◌+◌, ◌-◌, ◌≤◌, ◌≡◌, refl, true, Option, none, some, List, [], ◌∷◌, arith,
}
use radondb_clickhouse_opera.Base.Tests.{is_some}
use radondb_clickhouse_opera.Base.Int.{pos, is_zero}
use radondb_clickhouse_opera.Base.Lists.{
  length, AllOf, AllOf-append, replicate, length-append, length-replicate,
}
use radondb_clickhouse_opera.Layout.HostsField.{
  HostPointer, at, new_field, at-put_host, at-new_field,
}
use radondb_clickhouse_opera.Layout.{
  ChiHost, ChiClusterLayout, Hosts, new_hosts_field, Placement, place_at, host_merge_func, and_then,
  place_all, placements, create_in, normalize_counts, new_shard, new_replica,
  ensure_cluster_layout_shards, ensure_cluster_layout_replicas, create_hosts_field,
}
use radondb_clickhouse_opera.Layout.Counts.{
  CoversReplica, CoversShard, CoversShards, CoversReplicas, Counted-elim, normalize_counts-least,
}
use radondb_clickhouse_opera.Layout.Total.{create_hosts_field-total}
use radondb_clickhouse_opera.Layout.Normalize.{
  normalize_shards, normalize_replicas, normalize_hosts, normalize_layout,
}
use radondb_clickhouse_opera.Layout.Returns.{
  HasCells, Returns, Returns-bind, normalize_shards-Returns, normalize_replicas-Returns,
}

new_hosts_field-pos : (m n : ℕ) → new_hosts_field (pos m) (pos n) ≡ some (new_field m n)
unfolding new_hosts_field new_field
new_hosts_field-pos zero n = refl
new_hosts_field-pos (suc m) n = refl

-- filling the field keeps its cells
abbrev Keeps : ℕ → ℕ → Option Hosts → Type 0
Keeps s r none = Unit
Keeps s r (some hosts) = HasCells s r hosts

module _ (s r : ℕ) where
  place_at-Keeps :
      (o : Option HostPointer) (p : Placement) (hosts : Hosts)
      → at hosts.field p.shard p.replica ≡ o
      → HasCells s r hosts
      → Keeps s r (place_at o p hosts)
  unfolding place_at
  place_at-Keeps none p hosts e h = tt
  place_at-Keeps (some none) p hosts e h =
      λ a b x y. ground (arith, h a b x y, e, at-put_host hosts.field p.shard p.replica a b p.host)
  place_at-Keeps (some (some cur)) p hosts e h = h

  and_then-Keeps :
      (o : Option Hosts) (f : Hosts → Option Hosts)
      → Keeps s r o
      → ((hosts : Hosts) → HasCells s r hosts → Keeps s r (f hosts))
      → Keeps s r (and_then o f)
  unfolding and_then
  and_then-Keeps none f h k = tt
  and_then-Keeps (some hosts) f h k = k hosts h

  place_all-Keeps :
      (ps : List Placement) (hosts : Hosts) → HasCells s r hosts → Keeps s r (place_all ps hosts)
  unfolding place_all host_merge_func
  place_all-Keeps [] hosts h = h
  place_all-Keeps (p ∷ ps) hosts h =
      and_then-Keeps (place_at (at hosts.field p.shard p.replica) p hosts) (place_all ps)
        (place_at-Keeps (at hosts.field p.shard p.replica) p hosts refl h) (place_all-Keeps ps)

  Keeps-Returns : (o : Option Hosts) → is_some o ≡ true → Keeps s r o → Returns (HasCells s r) o
  Keeps-Returns none e h = cc
  Keeps-Returns (some hosts) e h = h

create_hosts_field-Keeps :
    (layout : ChiClusterLayout) (store : List ChiHost) (s r : ℕ)
    → layout.shards_count ≡ pos s
    → layout.replicas_count ≡ pos r
    → Keeps s r (create_hosts_field layout store)
unfolding create_hosts_field create_in
create_hosts_field-Keeps layout store s r es er =
    rw (es, er, new_hosts_field-pos s r)
      (place_all-Keeps s r (placements layout) record { field = new_field s r; store = store }
        (λ a b x y. ground (arith, at-new_field s r a b)))

AllOf-replicate : {A : Type 0} (P : A → Type 0) (n : ℕ) (a : A) → P a → AllOf P (replicate n a)
AllOf-replicate P zero a h = tt
AllOf-replicate P (suc n) a h = (h, AllOf-replicate P n a h)

-- the slices of shards and replicas after they are filled up
filled_shards :
    (layout : ChiClusterLayout) (s r : ℕ)
    → layout.shards_count ≡ pos s
    → length layout.shards ≤ s
    → AllOf (CoversShard r) layout.shards
    → (0 + length (ensure_cluster_layout_shards layout) ≤ s)
      × AllOf (CoversShard r) (ensure_cluster_layout_shards layout)
unfolding ensure_cluster_layout_shards
filled_shards layout s r e l c =
    let missing = s - length layout.shards in
    rw e (
      omega (
        arith,
        l,
        length-append layout.shards (replicate missing new_shard),
        length-replicate missing new_shard,
      ),
      AllOf-append (CoversShard r) layout.shards (replicate missing new_shard) c
          (AllOf-replicate (CoversShard r) missing new_shard (omega arith, omega arith)),
    )

filled_replicas :
    (layout : ChiClusterLayout) (s r : ℕ)
    → layout.replicas_count ≡ pos r
    → length layout.replicas ≤ r
    → AllOf (CoversReplica s) layout.replicas
    → (0 + length (ensure_cluster_layout_replicas layout) ≤ r)
      × AllOf (CoversReplica s) (ensure_cluster_layout_replicas layout)
unfolding ensure_cluster_layout_replicas
filled_replicas layout s r e l c =
    let missing = r - length layout.replicas in
    rw e (
      omega (
        arith,
        l,
        length-append layout.replicas (replicate missing new_replica),
        length-replicate missing new_replica,
      ),
      AllOf-append (CoversReplica s) layout.replicas (replicate missing new_replica) c
          (AllOf-replicate (CoversReplica s) missing new_replica (omega arith, omega arith)),
    )

counts-listed :
    (layout : ChiClusterLayout)
    → ((normalize_counts layout).shards ≡ layout.shards)
      × ((normalize_counts layout).replicas ≡ layout.replicas)
unfolding normalize_counts
counts-listed layout = (refl, refl)

is_some-Returns : {A : Type 0} (P : A → Type 0) (o : Option A) → Returns P o → is_some o ≡ true
is_some-Returns P none h = absurd h
is_some-Returns P (some a) h = refl

module _ (layout : ChiClusterLayout) (store : List ChiHost) (s r : ℕ) where
  -- the computation behind the counts
  normalize_hosts-Returns :
      (created : Option Hosts)
      → Returns (HasCells s r) created
      → layout.shards_count ≡ pos s
      → layout.replicas_count ≡ pos r
      → length layout.shards ≤ s
      → length layout.replicas ≤ r
      → AllOf (CoversShard r) layout.shards
      → AllOf (CoversReplica s) layout.replicas
      → Returns (λ n. Unit) (normalize_hosts layout created)
  unfolding normalize_hosts ensure_cluster_layout_shards ensure_cluster_layout_replicas
  normalize_hosts-Returns created h es er ls lr cs cr =
      let (l, c) = filled_shards layout s r es ls cs in
      let (l', c') = filled_replicas layout s r er lr cr in
      Returns-bind (HasCells s r) (λ n. Unit) created _ h
        (λ hosts cells.
          Returns-bind (λ out. HasCells s r out.1) (λ n. Unit)
            (normalize_shards (ensure_cluster_layout_shards layout) 0 layout.replicas_count hosts) _
            (rw er (
              normalize_shards-Returns (ensure_cluster_layout_shards layout) 0 s r hosts l c cells))
            (λ (rows, next) cells'.
              Returns-bind (λ out. HasCells s r out.1) (λ n. Unit)
                (normalize_replicas (ensure_cluster_layout_replicas layout) 0 layout.shards_count
                  next)
                _
                (rw es (
                  normalize_replicas-Returns (ensure_cluster_layout_replicas layout) 0 s r next l'
                    c' cells'))
                (λ (columns, last) done. tt)))

-- A layout without given counts is normalised without a panic, whatever shards, replicas and hosts
-- it lists.
pub normalize_layout-returns :
    (layout : ChiClusterLayout) (store : List ChiHost)
    → is_zero layout.shards_count ≡ true
    → is_zero layout.replicas_count ≡ true
    → is_some (normalize_layout layout store) ≡ true
unfolding normalize_layout
normalize_layout-returns layout store zs zr =
    let counted = normalize_counts layout in
    let (cs, cr) = normalize_counts-least layout in
    let (s, es, (s1, ls, ks), us) =
      Counted-elim (CoversShards layout) layout.shards_count counted.shards_count zs cs in
    let (r, er, (r1, lr, kr), ur) =
      Counted-elim (CoversReplicas layout) layout.replicas_count counted.replicas_count zr cr in
    let (same_shards, same_replicas) = counts-listed layout in
    is_some-Returns (λ n. Unit) (normalize_hosts counted (create_hosts_field counted store))
      (normalize_hosts-Returns counted store s r (create_hosts_field counted store)
        (Keeps-Returns s r (create_hosts_field counted store)
          (create_hosts_field-total layout store zs zr)
          (create_hosts_field-Keeps counted store s r es er))
        es er (rw same_shards ls) (rw same_replicas lr) (rw same_shards kr) (rw same_replicas ks))
