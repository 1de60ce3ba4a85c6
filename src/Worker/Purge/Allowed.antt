-- ===== src/Worker/Purge/Allowed.antt =====
-- The deletions of clear and the policies, and the deletion of a DNS entry.
use radondb_clickhouse_opera.Base.{
  ℕ, ◌+◌, String, ◌≡◌, refl, sym, ap, subst, Bool, true, false, Option, none, some, List, [], ◌∷◌,
  ◌++◌, arith, ◌==◌,
}
use radondb_clickhouse_opera.Base.Tests.{ltb}
use radondb_clickhouse_opera.Base.Lists.{AllOf, AllOf-append}
use radondb_clickhouse_opera.Registry.{ObjectMeta, Entities, Registry, stateful_set, subtract}
use radondb_clickhouse_opera.Registry.Count.{one_if}
use radondb_clickhouse_opera.Cleanup.Reconciling.{ChiReconciling}
use radondb_clickhouse_opera.Worker.Purge.{
  Purged, purge_object, walk_objects, walk_kinds, nothing, purge, clear,
}
use radondb_clickhouse_opera.Worker.Purge.Step.{allows, added, purge_object-added}

-- how many objects of a kind are deleted
abbrev pub deleted_of : String → List (String × ObjectMeta) → ℕ
deleted_of j [] = 0
deleted_of j ((et, m) ∷ ds) = one_if (et == j) + deleted_of j ds

deleted_of-append :
    (ds es : List (String × ObjectMeta)) (j : String)
    → deleted_of j (ds ++ es) ≡ deleted_of j ds + deleted_of j es
deleted_of-append [] es j = omega arith
deleted_of-append ((et, m) ∷ ds) es j = omega (arith, deleted_of-append ds es j)

module _ (reconciling : Option ChiReconciling) (failed : Registry) where
  -- the deletions are allowed, and StatefulSets among them are counted
  abbrev IsAllowed : Purged → Type 0
  IsAllowed p =
      AllOf (λ d. allows reconciling failed d.0 d.1 ≡ true) p.deletions
      × (p.cnt ≡ deleted_of stateful_set p.deletions)

  added-IsAllowed :
      (b : Bool) (et : String) (m : ObjectMeta) (p : Purged)
      → (b ≡ true → allows reconciling failed et m ≡ true)
      → IsAllowed p
      → IsAllowed (added b et m p)
  added-IsAllowed true et m p h (a, c) = (
    AllOf-append (λ d. allows reconciling failed d.0 d.1 ≡ true) p.deletions ((et, m) ∷ []) a
        (h refl, tt),
    ground (arith, deleted_of-append p.deletions ((et, m) ∷ []) stateful_set),
  )
  added-IsAllowed false et m p h k = k

  purge_object-IsAllowed :
      (et : String) (m : ObjectMeta) (p : Purged)
      → IsAllowed p
      → IsAllowed (purge_object reconciling failed et m p)
  purge_object-IsAllowed et m p h =
      subst IsAllowed (sym (purge_object-added reconciling failed et m p))
        (added-IsAllowed (allows reconciling failed et m) et m p (λ e. e) h)

  walk_objects-IsAllowed :
      (et : String) (ms : List ObjectMeta) (p : Purged)
      → IsAllowed p
      → IsAllowed (walk_objects reconciling failed et ms p)
  unfolding walk_objects
  walk_objects-IsAllowed et [] p h = h
  walk_objects-IsAllowed et (m ∷ ms) p h =
      walk_objects-IsAllowed et ms (purge_object reconciling failed et m p)
        (purge_object-IsAllowed et m p h)

  walk_kinds-IsAllowed :
      (r : Entities) (p : Purged) → IsAllowed p → IsAllowed (walk_kinds reconciling failed r p)
  unfolding walk_kinds
  walk_kinds-IsAllowed [] p h = h
  walk_kinds-IsAllowed ((et, ms) ∷ r) p h =
      walk_kinds-IsAllowed r (walk_objects reconciling failed et ms p)
        (walk_objects-IsAllowed et ms p h)

  purge-IsAllowed : (done : Bool) (reg : Registry) → IsAllowed (purge reconciling failed done reg)
  unfolding purge
  purge-IsAllowed true reg = (tt, refl)
  purge-IsAllowed false none = (tt, refl)
  purge-IsAllowed false (some r) = walk_kinds-IsAllowed r nothing (tt, refl)

  -- Every object that the cleanup deletes is one that the policies allow to delete, and not a
  -- volume claim whose label says Retain, and a DNS entry is dropped exactly if a StatefulSet is
  -- deleted.
  pub clear-allowed :
      (done : Bool) (objs need : Registry)
      → AllOf
          (λ d. allows reconciling failed d.0 d.1 ≡ true)
          (clear reconciling failed done objs need).0
        × ((clear reconciling failed done objs need).1
            ≡ ltb 0 (deleted_of stateful_set (clear reconciling failed done objs need).0))
  unfolding clear
  clear-allowed done objs need =
      let (a, c) = purge-IsAllowed done (subtract objs need) in (a, ap (ltb 0) c)
