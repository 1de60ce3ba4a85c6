-- ===== src/Layout/Total.antt =====
-- The field of hosts of a layout without given counts, and the places of explicit hosts.
use radondb_clickhouse_opera.Base.{
  ℕ, suc, ◌+◌, ◌≤◌, ◌<◌, ◌≡◌, refl, sym, ◌∙◌, true, List, [], ◌∷◌, arith,
}
use radondb_clickhouse_opera.Base.Tests.{is_some}
use radondb_clickhouse_opera.Base.Lists.{length, AllOf}
use radondb_clickhouse_opera.Base.Int.{is_zero}
use radondb_clickhouse_opera.Layout.HostsField.{HostPointer}
use radondb_clickhouse_opera.Layout.Panics.{
  all_of, all_of-append, fits, create_hosts_field-panics, placements-fit,
}
use radondb_clickhouse_opera.Layout.{
  ChiHost, ChiShard, ChiReplica, ChiClusterLayout, normalize_counts, row_placements,
  column_placements, hosts_by_shards, hosts_by_replicas, placements, create_hosts_field,
}
use radondb_clickhouse_opera.Layout.Counts.{
  CoversReplica, CoversShard, CoversShards, CoversReplicas, Counted-elim, normalize_counts-least,
}

row-fits :
    (hs : List HostPointer) (s r shards replicas : ℕ)
    → s < shards
    → r + length hs ≤ replicas
    → all_of (fits shards replicas) (row_placements hs s r) ≡ true
unfolding row_placements
row-fits [] s r shards replicas h k = refl
row-fits (x ∷ hs) s r shards replicas h k =
    ground (arith, row-fits hs s (suc r) shards replicas h (omega (arith, k)))

column-fits :
    (hs : List HostPointer) (s r shards replicas : ℕ)
    → s + length hs ≤ shards
    → r < replicas
    → all_of (fits shards replicas) (column_placements hs s r) ≡ true
unfolding column_placements
column-fits [] s r shards replicas h k = refl
column-fits (x ∷ hs) s r shards replicas h k =
    ground (arith, column-fits hs (suc s) r shards replicas (omega (arith, h)) k)

by_shards-fits :
    (ss : List ChiShard) (s shards replicas : ℕ)
    → s + length ss ≤ shards
    → AllOf (CoversShard replicas) ss
    → all_of (fits shards replicas) (hosts_by_shards ss s) ≡ true
unfolding hosts_by_shards
by_shards-fits [] s shards replicas h k = refl
by_shards-fits (x ∷ ss) s shards replicas h k =
    all_of-append (fits shards replicas) (row_placements x.hosts s 0) (hosts_by_shards ss (suc s))
    ∙ rw
        (
          row-fits x.hosts s 0 shards replicas (omega (arith, h)) (omega (arith, k.0.1)),
          by_shards-fits ss (suc s) shards replicas (omega (arith, h)) k.1,
        )
        refl

by_replicas-fits :
    (rs : List ChiReplica) (r shards replicas : ℕ)
    → r + length rs ≤ replicas
    → AllOf (CoversReplica shards) rs
    → all_of (fits shards replicas) (hosts_by_replicas rs r) ≡ true
unfolding hosts_by_replicas
by_replicas-fits [] r shards replicas h k = refl
by_replicas-fits (x ∷ rs) r shards replicas h k =
    all_of-append (fits shards replicas) (column_placements x.hosts 0 r)
      (hosts_by_replicas rs (suc r))
    ∙ rw
        (
          column-fits x.hosts 0 r shards replicas (omega (arith, k.0.1)) (omega (arith, h)),
          by_replicas-fits rs (suc r) shards replicas (omega (arith, h)) k.1,
        )
        refl

-- if neither count is given, filling the field does not panic
pub create_hosts_field-total :
    (layout : ChiClusterLayout) (store : List ChiHost)
    → is_zero layout.shards_count ≡ true
    → is_zero layout.replicas_count ≡ true
    → is_some (create_hosts_field (normalize_counts layout) store) ≡ true
create_hosts_field-total layout store zs zr =
    let (cs, cr) = normalize_counts-least layout in
    let (s, es, ks, ls) =
      Counted-elim (CoversShards layout) layout.shards_count (normalize_counts layout).shards_count
        zs cs in
    let (r, er, kr, lr) =
      Counted-elim (CoversReplicas layout) layout.replicas_count
        (normalize_counts layout).replicas_count zr cr in
    create_hosts_field-panics (normalize_counts layout) store s r es er
    ∙ sym (placements-fit (normalize_counts layout) s r)
    ∙ listed s r ks kr
  where
    listed :
        (s r : ℕ)
        → CoversShards layout s
        → CoversReplicas layout r
        → all_of (fits s r) (placements (normalize_counts layout)) ≡ true
    listed s r (one, n, k) (one', n', k') =
        unfold normalize_counts in
        (all_of-append (fits s r) (hosts_by_shards layout.shards 0)
            (hosts_by_replicas layout.replicas 0)
          ∙ rw
              (
                by_shards-fits layout.shards 0 s r (omega (arith, n)) k',
                by_replicas-fits layout.replicas 0 s r (omega (arith, n')) k,
              )
              refl)
