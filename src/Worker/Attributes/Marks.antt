-- ===== src/Worker/Attributes/Marks.antt =====
-- Which hosts are marked as added, modified or unclear.
use radondb_clickhouse_opera.Base.{
  ℕ, ◌≡◌, refl, ap, ◌∙◌, Bool, true, false, not, inl, inr, ◌&&◌, ◌||◌, List, [], ◌∷◌, arith,
}
use radondb_clickhouse_opera.Base.Tests.{eqb, if◌then◌else◌, Bool-cases}
use radondb_clickhouse_opera.Worker.Attributes.{
  ChiHostReconcileAttributes, Attributes, set_add, set_modify, PlanItem, a_cluster, a_shard, a_host,
  a_host_copy, another, update_at, update_hosts, mark_added, mark_modified, each, mark_unclear,
  walk_hosts,
}

-- is the host one of these?
abbrev pub one_of : List ℕ → ℕ → Bool
one_of [] h = false
one_of (x ∷ xs) h = eqb x h || one_of xs h

-- is the host one that the items lead to, and is it one of the items itself?
abbrev pub reached : List PlanItem → ℕ → Bool
reached [] h = false
reached (a_cluster hosts ∷ items) h = one_of hosts h || reached items h
reached (a_shard hosts ∷ items) h = one_of hosts h || reached items h
reached (a_host host ∷ items) h = eqb host h || reached items h
reached (a_host_copy ∷ items) h = reached items h
reached (another ∷ items) h = reached items h

abbrev pub listed : List PlanItem → ℕ → Bool
listed [] h = false
listed (a_host host ∷ items) h = eqb host h || listed items h
listed (a_cluster hosts ∷ items) h = listed items h
listed (a_shard hosts ∷ items) h = listed items h
listed (a_host_copy ∷ items) h = listed items h
listed (another ∷ items) h = listed items h

abbrev pub or_add : Bool → ChiHostReconcileAttributes → ChiHostReconcileAttributes
or_add b s = record s { add = b || s.add }

abbrev pub or_modify : Bool → ChiHostReconcileAttributes → ChiHostReconcileAttributes
or_modify b s = record s { modify = b || s.modify }

or_add_or :
    (b c : Bool) (s : ChiHostReconcileAttributes) → or_add c (or_add b s) ≡ or_add (b || c) s
or_add_or true true s = refl
or_add_or true false s = refl
or_add_or false c s = refl

or_modify_or :
    (b c : Bool) (s : ChiHostReconcileAttributes)
    → or_modify c (or_modify b s) ≡ or_modify (b || c) s
or_modify_or true true s = refl
or_modify_or true false s = refl
or_modify_or false c s = refl

set_add-or : (b : Bool) (s : ChiHostReconcileAttributes) → (if b then set_add s else s) ≡ or_add b s
set_add-or true s = refl
set_add-or false s = refl

set_modify-or :
    (b : Bool) (s : ChiHostReconcileAttributes) → (if b then set_modify s else s) ≡ or_modify b s
set_modify-or true s = refl
set_modify-or false s = refl

add_hosts :
    (hosts : List ℕ) (st : Attributes) (h : ℕ)
    → update_hosts set_add hosts st h ≡ or_add (one_of hosts h) (st h)
unfolding update_hosts
add_hosts [] st h = refl
add_hosts (x ∷ hosts) st h =
    add_hosts hosts (update_at set_add x st) h
    ∙ ap (or_add (one_of hosts h)) (set_add-or (eqb x h) (st h))
    ∙ or_add_or (eqb x h) (one_of hosts h) (st h)

each-mark_added :
    (items : List PlanItem) (st : Attributes) (h : ℕ)
    → each mark_added items st h ≡ or_add (reached items h) (st h)
unfolding mark_added
each-mark_added [] st h = refl
each-mark_added (a_cluster hosts ∷ items) st h =
    each-mark_added items (update_hosts set_add hosts st) h
    ∙ ap (or_add (reached items h)) (add_hosts hosts st h)
    ∙ or_add_or (one_of hosts h) (reached items h) (st h)
each-mark_added (a_shard hosts ∷ items) st h =
    each-mark_added items (update_hosts set_add hosts st) h
    ∙ ap (or_add (reached items h)) (add_hosts hosts st h)
    ∙ or_add_or (one_of hosts h) (reached items h) (st h)
each-mark_added (a_host x ∷ items) st h =
    each-mark_added items (update_at set_add x st) h
    ∙ ap (or_add (reached items h)) (set_add-or (eqb x h) (st h))
    ∙ or_add_or (eqb x h) (reached items h) (st h)
each-mark_added (a_host_copy ∷ items) st h = each-mark_added items st h
each-mark_added (another ∷ items) st h = each-mark_added items st h

each-mark_modified :
    (items : List PlanItem) (st : Attributes) (h : ℕ)
    → each mark_modified items st h ≡ or_modify (listed items h) (st h)
unfolding mark_modified
each-mark_modified [] st h = refl
each-mark_modified (a_host x ∷ items) st h =
    each-mark_modified items (update_at set_modify x st) h
    ∙ ap (or_modify (listed items h)) (set_modify-or (eqb x h) (st h))
    ∙ or_modify_or (eqb x h) (listed items h) (st h)
each-mark_modified (a_cluster hosts ∷ items) st h = each-mark_modified items st h
each-mark_modified (a_shard hosts ∷ items) st h = each-mark_modified items st h
each-mark_modified (a_host_copy ∷ items) st h = each-mark_modified items st h
each-mark_modified (another ∷ items) st h = each-mark_modified items st h

abbrev pub or_unclear : Bool → ChiHostReconcileAttributes → ChiHostReconcileAttributes
or_unclear b s = record s { unclear = (b && not s.add && not s.modify) || s.unclear }

or_unclear_or :
    (b c : Bool) (s : ChiHostReconcileAttributes)
    → or_unclear c (or_unclear b s) ≡ or_unclear (b || c) s
or_unclear_or b c s = ap (λ u. record s { unclear = u }) (ground arith)

mark_unclear-or :
    (b : Bool) (s : ChiHostReconcileAttributes) → (if b then mark_unclear s else s) ≡ or_unclear b s
unfolding mark_unclear
mark_unclear-or false s = refl
mark_unclear-or true s = elim (Bool-cases s.add) [
  | inl e ↦ rw e refl
  | inr e ↦ elim (Bool-cases s.modify) [ inl d ↦ rw (e, d) refl | inr d ↦ rw (e, d) refl ]
]

unclear_hosts :
    (hosts : List ℕ) (st : Attributes) (h : ℕ)
    → update_hosts mark_unclear hosts st h ≡ or_unclear (one_of hosts h) (st h)
unfolding update_hosts
unclear_hosts [] st h = refl
unclear_hosts (x ∷ hosts) st h =
    unclear_hosts hosts (update_at mark_unclear x st) h
    ∙ ap (or_unclear (one_of hosts h)) (mark_unclear-or (eqb x h) (st h))
    ∙ or_unclear_or (eqb x h) (one_of hosts h) (st h)

-- The walk over a plan adds three marks to a host and removes none: added if an added cluster,
-- shard or host leads to it, modified if it is a modified host, and unclear if it is a host of the
-- installation that is then neither added nor modified.
pub walk_hosts-marks :
    (added modified : List PlanItem) (hosts : List ℕ) (st : Attributes) (h : ℕ)
    → walk_hosts added modified hosts st h
      ≡ or_unclear
          (one_of hosts h)
          (or_modify (listed modified h) (or_add (reached added h) (st h)))
unfolding walk_hosts
walk_hosts-marks added modified hosts st h =
    unclear_hosts hosts (each mark_modified modified (each mark_added added st)) h
    ∙ ap (or_unclear (one_of hosts h)) (
        each-mark_modified modified (each mark_added added st) h
        ∙ ap (or_modify (listed modified h)) (each-mark_added added st h))
