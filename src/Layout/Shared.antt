-- ===== src/Layout/Shared.antt =====
-- The host at the crossing of a shard and a replica.
use radondb_clickhouse_opera.Base.{
  ℕ, zero, suc, ◌+◌, ◌≡◌, refl, ◌∙◌, Option, none, some, List, [], ◌∷◌, arith,
}
use radondb_clickhouse_opera.Base.Int.{ℤ, pos_part}
use radondb_clickhouse_opera.Base.Lists.{length, get_elem?}
use radondb_clickhouse_opera.Layout.HostsField.{Field, HostPointer, at, at-put_host}
use radondb_clickhouse_opera.Layout.Panics.{same_cell}
use radondb_clickhouse_opera.Layout.{
  ChiHost, ChiShard, ChiReplica, ChiClusterLayout, Hosts, normalize_counts,
  ensure_cluster_layout_shards, ensure_cluster_layout_replicas, create_hosts_field,
}
use radondb_clickhouse_opera.Layout.Normalize.{
  bind, found_or_new, get_or_create, fill_hosts, normalize_shard_hosts, normalize_replica_hosts,
  normalize_shards, normalize_replicas, normalize_shard_replicas_count,
  normalize_replica_shards_count, NormalLayout, normalize_hosts, normalize_layout,
}

-- a computation that does not panic ends like this
abbrev Ends : {A : Type 0} → (A → Type 0) → Option A → Type 0
Ends P none = Unit
Ends P (some a) = P a

Ends-bind :
    {A B : Type 0} (P : A → Type 0) (Q : B → Type 0) (o : Option A) (f : A → Option B)
    → Ends P o
    → ((a : A) → P a → Ends Q (f a))
    → Ends Q (bind o f)
unfolding bind
Ends-bind P Q none f h k = tt
Ends-bind P Q (some a) f h k = k a h

Ends-some : {A : Type 0} (P : A → Type 0) (o : Option A) (a : A) → Ends P o → o ≡ some a → P a
Ends-some P none a h e = cc
Ends-some P (some b) a h e = let q : b ≡ a = cc in rw (← q) h

-- a cell that holds a host keeps it
abbrev Extends : Field → Field → Type 0
Extends f g = (i j p : ℕ) → at f i j ≡ some (some p) → at g i j ≡ some (some p)

-- the cell of a pointer that a step returns
abbrev Stands : Hosts → ℕ → ℕ → ℕ × Hosts → Type 0
Stands hosts s r out = Extends hosts.field out.1.field × (at out.1.field s r ≡ some (some out.0))

found_or_new-Stands :
    (o : Option HostPointer) (s r : ℕ) (hosts : Hosts)
    → at hosts.field s r ≡ o
    → Ends (Stands hosts s r) (found_or_new o s r hosts)
unfolding found_or_new
found_or_new-Stands none s r hosts e = tt
found_or_new-Stands (some (some p)) s r hosts e = (λ i j q h. h, e)
found_or_new-Stands (some none) s r hosts e =
    let here = at-put_host hosts.field s r s r (some (length hosts.store)) (rw e refl) in
    (
      λ i j q h. ground (
        arith,
        at-put_host hosts.field s r i j (some (length hosts.store)),
        same_cell hosts.field s r i j (some none) e,
      ),
      here ∙ ground arith,
    )

get_or_create-Stands : (s r : ℕ) (hosts : Hosts) → Ends (Stands hosts s r) (get_or_create s r hosts)
unfolding get_or_create
get_or_create-Stands s r hosts = found_or_new-Stands (at hosts.field s r) s r hosts refl

-- the pointer in a list of lists
abbrev pub cell_of : Option (List ℕ) → ℕ → Option ℕ
cell_of none i = none
cell_of (some ps) i = get_elem? ps i

-- the list of pointers reads the cells from index `i` on
abbrev Reads : (ℕ → ℕ × ℕ) → ℕ → Field → List ℕ → Type 0
Reads place i f ps =
    (k p : ℕ) → get_elem? ps k ≡ some p → at f (place (i + k)).0 (place (i + k)).1 ≡ some (some p)

abbrev Fills : (ℕ → ℕ × ℕ) → ℕ → Hosts → List ℕ × Hosts → Type 0
Fills place i hosts out = Extends hosts.field out.1.field × Reads place i out.1.field out.0

Reads-cons :
    (place : ℕ → ℕ × ℕ) (i p : ℕ) (f : Field) (ps : List ℕ)
    → at f (place i).0 (place i).1 ≡ some (some p)
    → Reads place (suc i) f ps
    → Reads place i f (p ∷ ps)
Reads-cons place i p f ps h k zero q e =
    let at_end : i + 0 ≡ i = omega arith in let same : p ≡ q = cc in rw (at_end, ← same) h
Reads-cons place i p f ps h k (suc n) q e =
    let shift : i + suc n ≡ suc i + n = omega arith in rw shift (k n q e)

fill_hosts-Fills :
    (place : ℕ → ℕ × ℕ) (n i : ℕ) (hosts : Hosts)
    → Ends (Fills place i hosts) (fill_hosts place n i hosts)
unfolding fill_hosts
fill_hosts-Fills place zero i hosts = (λ a b q h. h, λ k p e. cc)
fill_hosts-Fills place (suc n) i hosts =
    Ends-bind _ _ (get_or_create (place i).0 (place i).1 hosts) _
      (get_or_create-Stands (place i).0 (place i).1 hosts)
      (λ (p, next) (ext, cell).
        Ends-bind _ _ (fill_hosts place n (suc i) next) _ (fill_hosts-Fills place n (suc i) next)
          (λ (ps, last) (ext', reads). (
            λ a b q h. ext' a b q (ext a b q h),
            Reads-cons place i p last.field ps (ext' (place i).0 (place i).1 p cell) reads,
          )))

-- all lists read the field from shard or replica `i` on
abbrev Tabulates : (ℕ → ℕ → ℕ × ℕ) → ℕ → Field → List (List ℕ) → Type 0
Tabulates place i f rows =
    (k l p : ℕ)
    → cell_of (get_elem? rows k) l ≡ some p
    → at f (place (i + k) l).0 (place (i + k) l).1 ≡ some (some p)

abbrev Walks : (ℕ → ℕ → ℕ × ℕ) → ℕ → Hosts → List (List ℕ) × Hosts → Type 0
Walks place i hosts out = Extends hosts.field out.1.field × Tabulates place i out.1.field out.0

Tabulates-cons :
    (place : ℕ → ℕ → ℕ × ℕ) (i : ℕ) (f : Field) (row : List ℕ) (rows : List (List ℕ))
    → Reads (place i) 0 f row
    → Tabulates place (suc i) f rows
    → Tabulates place i f (row ∷ rows)
Tabulates-cons place i f row rows h k zero l p e =
    let at_end : i + 0 ≡ i = omega arith in
    let start : 0 + l ≡ l = omega arith in rw (at_end) (rw start at (h l p e))
Tabulates-cons place i f row rows h k (suc n) l p e =
    let shift : i + suc n ≡ suc i + n = omega arith in rw shift (k n l p e)

Extends-Reads :
    (place : ℕ → ℕ × ℕ) (i : ℕ) (f g : Field) (ps : List ℕ)
    → Extends f g
    → Reads place i f ps
    → Reads place i g ps
Extends-Reads place i f g ps ext h k p e = ext (place (i + k)).0 (place (i + k)).1 p (h k p e)

normalize_shards-Walks :
    (shards : List ChiShard) (i : ℕ) (count : ℤ) (hosts : Hosts)
    → Ends
        (Walks (λ shard replica. (shard, replica)) i hosts)
        (normalize_shards shards i count hosts)
unfolding normalize_shards normalize_shard_hosts
normalize_shards-Walks [] i count hosts = (λ a b q h. h, λ k l p e. cc)
normalize_shards-Walks (s ∷ shards) i count hosts =
    Ends-bind _ _
      (normalize_shard_hosts i (pos_part (normalize_shard_replicas_count s count)) hosts) _
      (fill_hosts-Fills (λ replica. (i, replica))
        (pos_part (normalize_shard_replicas_count s count)) 0 hosts)
      (λ (row, next) (ext, reads).
        Ends-bind _ _ (normalize_shards shards (suc i) count next) _
          (normalize_shards-Walks shards (suc i) count next)
          (λ (rows, last) (ext', tab). (
            λ a b q h. ext' a b q (ext a b q h),
            Tabulates-cons (λ shard replica. (shard, replica)) i last.field row rows
                (Extends-Reads (λ replica. (i, replica)) 0 next.field last.field row ext' reads)
                tab,
          )))

normalize_replicas-Walks :
    (replicas : List ChiReplica) (i : ℕ) (count : ℤ) (hosts : Hosts)
    → Ends
        (Walks (λ replica shard. (shard, replica)) i hosts)
        (normalize_replicas replicas i count hosts)
unfolding normalize_replicas normalize_replica_hosts
normalize_replicas-Walks [] i count hosts = (λ a b q h. h, λ k l p e. cc)
normalize_replicas-Walks (r ∷ replicas) i count hosts =
    Ends-bind _ _
      (normalize_replica_hosts i (pos_part (normalize_replica_shards_count r count)) hosts) _
      (fill_hosts-Fills (λ shard. (shard, i)) (pos_part (normalize_replica_shards_count r count)) 0
        hosts)
      (λ (column, next) (ext, reads).
        Ends-bind _ _ (normalize_replicas replicas (suc i) count next) _
          (normalize_replicas-Walks replicas (suc i) count next)
          (λ (columns, last) (ext', tab). (
            λ a b q h. ext' a b q (ext a b q h),
            Tabulates-cons (λ replica shard. (shard, replica)) i last.field column columns
                (Extends-Reads (λ shard. (shard, i)) 0 next.field last.field column ext' reads) tab,
          )))

Ends-any : {A : Type 0} (o : Option A) → Ends (λ a. Unit) o
Ends-any none = tt
Ends-any (some a) = tt

-- the pointers of both lists stand in the field
abbrev IsShared : NormalLayout → Type 0
IsShared n =
    ((i j p : ℕ)
      → cell_of (get_elem? n.shard_hosts i) j ≡ some p
      → at n.hosts.field i j ≡ some (some p))
    × ((i j p : ℕ)
        → cell_of (get_elem? n.replica_hosts j) i ≡ some p
        → at n.hosts.field i j ≡ some (some p))

normalize_layout-IsShared :
    (layout : ChiClusterLayout) (store : List ChiHost)
    → Ends IsShared (normalize_layout layout store)
unfolding normalize_layout normalize_hosts
normalize_layout-IsShared layout store =
    let counted = normalize_counts layout in
    Ends-bind (λ c. Unit) _ (create_hosts_field counted store) _
      (Ends-any (create_hosts_field counted store))
      (λ created u.
        Ends-bind _ _
          (normalize_shards (ensure_cluster_layout_shards counted) 0 counted.replicas_count created)
          _
          (normalize_shards-Walks (ensure_cluster_layout_shards counted) 0 counted.replicas_count
            created)
          (λ (rows, next) (ext, tab).
            Ends-bind _ _
              (normalize_replicas (ensure_cluster_layout_replicas counted) 0 counted.shards_count
                next)
              _
              (normalize_replicas-Walks (ensure_cluster_layout_replicas counted) 0
                counted.shards_count next)
              (λ (columns, last) (ext', tab'). (
                λ i j p e. ext' i j p (let z : 0 + i ≡ i = omega arith in rw z at (tab i j p e)),
                λ i j p e. let z : 0 + j ≡ j = omega arith in rw z at (tab' j i p e),
              ))))

-- After normalisation of a layout a shard and a replica that both have a host at their crossing
-- hold the same pointer, which is the one in the field.
pub normalize_layout-shared :
    (layout : ChiClusterLayout) (store : List ChiHost) (n : NormalLayout) (i j p q : ℕ)
    → normalize_layout layout store ≡ some n
    → cell_of (get_elem? n.shard_hosts i) j ≡ some p
    → cell_of (get_elem? n.replica_hosts j) i ≡ some q
    → (p ≡ q) × (at n.hosts.field i j ≡ some (some p))
normalize_layout-shared layout store n i j p q e h k =
    let shared =
      Ends-some IsShared (normalize_layout layout store) n (normalize_layout-IsShared layout store)
        e in
    let a = shared.0 i j p h in let b = shared.1 i j q k in (cc, a)
