-- ===== src/Layout/Panics.antt =====
-- When the field of hosts can be filled.
use radondb_clickhouse_opera.Base.{
  ◌||◌, ◌+◌, ℕ, zero, suc, ◌≡◌, refl, ◌∙◌, Bool, true, false, ◌&&◌, Option, none, some, List, [],
  ◌∷◌, ◌++◌, arith,
}
use radondb_clickhouse_opera.Base.Tests.{leb, ltb, eqb, is_some}
use radondb_clickhouse_opera.Base.Lists.{length}
use radondb_clickhouse_opera.Base.Int.{pos}
use radondb_clickhouse_opera.Layout.HostsField.{
  Field, HostPointer, at, new_field, at-new_field, at-put_host,
}
use radondb_clickhouse_opera.Layout.{
  ChiHost, ChiShard, ChiReplica, row_placements, column_placements, hosts_by_shards,
  hosts_by_replicas, ChiClusterLayout, Hosts, new_hosts_field, Placement, place_at, host_merge_func,
  and_then, place_all, placements, create_in, create_hosts_field,
}

-- do all placements satisfy the test?
abbrev pub all_of : (Placement → Bool) → List Placement → Bool
all_of f [] = true
all_of f (p ∷ ps) = f p && all_of f ps

abbrev pub fits : ℕ → ℕ → Placement → Bool
fits shards replicas p = ltb p.shard shards && ltb p.replica replicas

in_field : Field → Placement → Bool
in_field field p = is_some (at field p.shard p.replica)

all_of-cong :
    (f g : Placement → Bool) (ps : List Placement)
    → ((p : Placement) → f p ≡ g p)
    → all_of f ps ≡ all_of g ps
all_of-cong f g [] h = refl
all_of-cong f g (p ∷ ps) h = rw (h p, all_of-cong f g ps h) refl

pub all_of-append :
    (f : Placement → Bool) (xs ys : List Placement)
    → all_of f (xs ++ ys) ≡ (all_of f xs && all_of f ys)
all_of-append f [] ys = refl
all_of-append f (x ∷ xs) ys = ground (arith, all_of-append f xs ys)

-- a placement succeeds exactly on a cell of the field, and leaves the field's cells
abbrev SameCells : Field → Field → Type 0
SameCells f g = (i j : ℕ) → is_some (at g i j) ≡ is_some (at f i j)

abbrev Placed : Placement → Hosts → Option Hosts → Type 0
Placed p hosts none = in_field hosts.field p ≡ false
Placed p hosts (some after) = (in_field hosts.field p ≡ true) × SameCells hosts.field after.field

pub same_cell :
    (field : Field) (s r i j : ℕ) (o : Option HostPointer)
    → at field s r ≡ o
    → eqb s i && eqb r j ≡ true
    → at field i j ≡ o
same_cell field s r i j o e h =
    let a : s ≡ i = ground arith in let b : r ≡ j = ground arith in rw (← a, ← b) e

place_at-Placed :
    (o : Option HostPointer) (p : Placement) (hosts : Hosts)
    → at hosts.field p.shard p.replica ≡ o
    → Placed p hosts (place_at o p hosts)
unfolding place_at in_field
place_at-Placed none p hosts e = rw e refl
place_at-Placed (some none) p hosts e = (
  rw e refl,
  λ i j. ground (
    arith,
    at-put_host hosts.field p.shard p.replica i j p.host,
    same_cell hosts.field p.shard p.replica i j (some none) e,
  ),
)
place_at-Placed (some (some cur)) p hosts e = (rw e refl, λ i j. refl)

and_then-panics :
    (o : Option Hosts) (p : Placement) (ps : List Placement) (hosts : Hosts)
    → Placed p hosts o
    → ((after : Hosts) → is_some (place_all ps after) ≡ all_of (in_field after.field) ps)
    → is_some (and_then o (place_all ps))
      ≡ (in_field hosts.field p && all_of (in_field hosts.field) ps)
unfolding and_then in_field
and_then-panics none p ps hosts h rest = rw h refl
and_then-panics (some after) p ps hosts (h, same) rest =
    rest after
    ∙ all_of-cong (in_field after.field) (in_field hosts.field) ps (λ q. same q.shard q.replica)
    ∙ rw h refl

place_all-panics :
    (ps : List Placement) (hosts : Hosts)
    → is_some (place_all ps hosts) ≡ all_of (in_field hosts.field) ps
unfolding place_all host_merge_func
place_all-panics [] hosts = refl
place_all-panics (p ∷ ps) hosts =
    and_then-panics (place_at (at hosts.field p.shard p.replica) p hosts) p ps hosts
      (place_at-Placed (at hosts.field p.shard p.replica) p hosts refl) (place_all-panics ps)

-- `n` hosts from index `i` on fit below a bound, in a line that exists
abbrev pub line_fits : Bool → ℕ → ℕ → ℕ → Bool
line_fits exists i n bound = eqb n 0 || exists && leb (i + n) bound

row_placements-fits :
    (hs : List HostPointer) (s r shards replicas : ℕ)
    → all_of (fits shards replicas) (row_placements hs s r)
      ≡ line_fits (ltb s shards) r (length hs) replicas
unfolding row_placements
row_placements-fits [] s r shards replicas = refl
row_placements-fits (h ∷ hs) s r shards replicas =
    ground (arith, row_placements-fits hs s (suc r) shards replicas)

column_placements-fits :
    (hs : List HostPointer) (s r shards replicas : ℕ)
    → all_of (fits shards replicas) (column_placements hs s r)
      ≡ line_fits (ltb r replicas) s (length hs) shards
unfolding column_placements
column_placements-fits [] s r shards replicas = refl
column_placements-fits (h ∷ hs) s r shards replicas =
    ground (arith, column_placements-fits hs (suc s) r shards replicas)

-- the hosts of each shard, from shard `s` on, lie within the counts
abbrev pub shards_fit : List ChiShard → ℕ → ℕ → ℕ → Bool
shards_fit [] s shards replicas = true
shards_fit (x ∷ ss) s shards replicas =
    line_fits (ltb s shards) 0 (length x.hosts) replicas && shards_fit ss (suc s) shards replicas

abbrev pub replicas_fit : List ChiReplica → ℕ → ℕ → ℕ → Bool
replicas_fit [] r shards replicas = true
replicas_fit (x ∷ rs) r shards replicas =
    line_fits (ltb r replicas) 0 (length x.hosts) shards && replicas_fit rs (suc r) shards replicas

hosts_by_shards-fit :
    (ss : List ChiShard) (s shards replicas : ℕ)
    → all_of (fits shards replicas) (hosts_by_shards ss s) ≡ shards_fit ss s shards replicas
unfolding hosts_by_shards
hosts_by_shards-fit [] s shards replicas = refl
hosts_by_shards-fit (x ∷ ss) s shards replicas =
    all_of-append (fits shards replicas) (row_placements x.hosts s 0) (hosts_by_shards ss (suc s))
    ∙ rw
        (
          row_placements-fits x.hosts s 0 shards replicas,
          hosts_by_shards-fit ss (suc s) shards replicas,
        )
        refl

hosts_by_replicas-fit :
    (rs : List ChiReplica) (r shards replicas : ℕ)
    → all_of (fits shards replicas) (hosts_by_replicas rs r) ≡ replicas_fit rs r shards replicas
unfolding hosts_by_replicas
hosts_by_replicas-fit [] r shards replicas = refl
hosts_by_replicas-fit (x ∷ rs) r shards replicas =
    all_of-append (fits shards replicas) (column_placements x.hosts 0 r)
      (hosts_by_replicas rs (suc r))
    ∙ rw
        (
          column_placements-fits x.hosts 0 r shards replicas,
          hosts_by_replicas-fit rs (suc r) shards replicas,
        )
        refl

pub placements-fit :
    (layout : ChiClusterLayout) (shards replicas : ℕ)
    → all_of (fits shards replicas) (placements layout) ≡ (
        shards_fit layout.shards 0 shards replicas
        && replicas_fit layout.replicas 0 shards replicas)
placements-fit layout shards replicas =
    all_of-append (fits shards replicas) (hosts_by_shards layout.shards 0)
      (hosts_by_replicas layout.replicas 0)
    ∙ rw
        (
          hosts_by_shards-fit layout.shards 0 shards replicas,
          hosts_by_replicas-fit layout.replicas 0 shards replicas,
        )
        refl

-- Filling the field of a layout whose counts are not negative succeeds exactly if every explicit
-- host of a shard or of a replica lies within the counts; otherwise it panics.
pub create_hosts_field-panics :
    (layout : ChiClusterLayout) (store : List ChiHost) (shards replicas : ℕ)
    → layout.shards_count ≡ pos shards
    → layout.replicas_count ≡ pos replicas
    → is_some (create_hosts_field layout store) ≡ (
        shards_fit layout.shards 0 shards replicas
        && replicas_fit layout.replicas 0 shards replicas)
unfolding create_hosts_field in_field
create_hosts_field-panics layout store shards replicas s r =
    rw (s, r, made shards replicas)
      (created (placements layout) ∙ placements-fit layout shards replicas)
  where
    made : (m n : ℕ) → new_hosts_field (pos m) (pos n) ≡ some (new_field m n)
    made zero n = unfold new_hosts_field new_field in refl
    made (suc m) n = unfold new_hosts_field in refl

    created :
        (ps : List Placement)
        → is_some (create_in (some (new_field shards replicas)) ps store)
          ≡ all_of (fits shards replicas) ps
    created ps =
        unfold create_in in
        place_all-panics ps record { field = new_field shards replicas; store = store }
        ∙ all_of-cong _ (fits shards replicas) ps
            (λ p. ground (arith, at-new_field shards replicas p.shard p.replica))
