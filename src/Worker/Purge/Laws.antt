-- ===== src/Worker/Purge/Laws.antt =====
-- Which objects clear deletes.
use radondb_clickhouse_opera.Base.{
  ℕ, ◌+◌, ◌≤◌, String, ◌≡◌, refl, sym, ap, ◌∙◌, Bool, true, false, not, ◌&&◌, Option, none, some,
  List, [], ◌∷◌, ◌++◌, arith, ◌==◌, eq_iff,
}
use radondb_clickhouse_opera.Base.Tests.{ltb, if◌then◌else◌}
use radondb_clickhouse_opera.Registry.{
  ObjectMeta, Entities, Registry, pvc, at_kind, is_equal, has_entity, subtract,
}
use radondb_clickhouse_opera.Registry.Count.{
  count, number, concerns, one_if, has_entity-number, count-equal,
}
use radondb_clickhouse_opera.Registry.Laws.{
  IsMap, IsSound, occurrences, occurrences-eq-number, number-subtract,
}
use radondb_clickhouse_opera.Registry.Keys.{subtract-IsMap}
use radondb_clickhouse_opera.Cleanup.Reconciling.{ChiReconciling}
use radondb_clickhouse_opera.Cleanup.Laws.{Kind}
use radondb_clickhouse_opera.Worker.Purge.{
  Purged, purge_object, walk_objects, walk_kinds, nothing, purge, clear,
}
use radondb_clickhouse_opera.Worker.Purge.Step.{
  kind_of, kind_allows, allows, added, purge_object-added,
}

-- how often the deletions name the object
abbrev pub deleted : List (String × ObjectMeta) → String → ObjectMeta → ℕ
deleted [] j x = 0
deleted ((et, m) ∷ ds) j x = one_if (concerns et m j x) + deleted ds j x

deleted-append :
    (ds es : List (String × ObjectMeta)) (j : String) (x : ObjectMeta)
    → deleted (ds ++ es) j x ≡ deleted ds j x + deleted es j x
deleted-append [] es j x = omega arith
deleted-append ((et, m) ∷ ds) es j x = omega (arith, deleted-append ds es j x)

has_entity-equal :
    (r : Registry) (j : String) (a b : ObjectMeta)
    → is_equal a b ≡ true
    → has_entity r j a ≡ has_entity r j b
has_entity-equal none j a b h = unfold has_entity in refl
has_entity-equal (some r) j a b h =
    has_entity-number (some r) j a
    ∙ ap (ltb 0) (count-equal (at_kind r j) a b h)
    ∙ sym (has_entity-number (some r) j b)

module _ (reconciling : Option ChiReconciling) (failed : Registry) where
  -- the objects of a slice that are deleted if the policies allow it, counted
  abbrev wanted : String → List ObjectMeta → String → ObjectMeta → ℕ
  wanted et [] j x = 0
  wanted et (m ∷ ms) j x =
      one_if (allows reconciling failed et m && concerns et m j x) + wanted et ms j x

  abbrev wanted_in : Entities → String → ObjectMeta → ℕ
  wanted_in [] j x = 0
  wanted_in ((et, ms) ∷ r) j x = wanted et ms j x + wanted_in r j x

  deleted-added :
      (b : Bool) (et : String) (m : ObjectMeta) (p : Purged) (j : String) (x : ObjectMeta)
      → deleted (added b et m p).deletions j x
        ≡ deleted p.deletions j x + one_if (b && concerns et m j x)
  deleted-added true et m p j x = omega (arith, deleted-append p.deletions ((et, m) ∷ []) j x)
  deleted-added false et m p j x = omega arith

  deleted-purge_object :
      (et : String) (m : ObjectMeta) (p : Purged) (j : String) (x : ObjectMeta)
      → deleted (purge_object reconciling failed et m p).deletions j x
        ≡ deleted p.deletions j x + one_if (allows reconciling failed et m && concerns et m j x)
  deleted-purge_object et m p j x =
      ap (λ q. deleted q.deletions j x) (purge_object-added reconciling failed et m p)
      ∙ deleted-added (allows reconciling failed et m) et m p j x

  deleted-walk_objects :
      (et : String) (ms : List ObjectMeta) (p : Purged) (j : String) (x : ObjectMeta)
      → deleted (walk_objects reconciling failed et ms p).deletions j x
        ≡ deleted p.deletions j x + wanted et ms j x
  unfolding walk_objects
  deleted-walk_objects et [] p j x = omega arith
  deleted-walk_objects et (m ∷ ms) p j x = omega (
    arith,
    deleted-walk_objects et ms (purge_object reconciling failed et m p) j x,
    deleted-purge_object et m p j x,
  )

  deleted-walk_kinds :
      (r : Entities) (p : Purged) (j : String) (x : ObjectMeta)
      → deleted (walk_kinds reconciling failed r p).deletions j x
        ≡ deleted p.deletions j x + wanted_in r j x
  unfolding walk_kinds
  deleted-walk_kinds [] p j x = omega arith
  deleted-walk_kinds ((et, ms) ∷ r) p j x = omega (
    arith,
    deleted-walk_kinds r (walk_objects reconciling failed et ms p) j x,
    deleted-walk_objects et ms p j x,
  )

  wanted_bound :
      (et : String) (ms : List ObjectMeta) (j : String) (x : ObjectMeta)
      → wanted et ms j x ≤ (if et == j then count ms x else 0)
  wanted_bound et [] j x = ground arith
  wanted_bound et (m ∷ ms) j x = ground (arith, wanted_bound et ms j x)

  wanted_in_bound :
      (r : Entities) (j : String) (x : ObjectMeta) → wanted_in r j x ≤ occurrences r j x
  wanted_in_bound [] j x = omega arith
  wanted_in_bound ((et, ms) ∷ r) j x = omega (arith, wanted_bound et ms j x, wanted_in_bound r j x)

  kind_allows_equal :
      (k : Option Kind) (j : String) (m x : ObjectMeta)
      → is_equal m x ≡ true
      → kind_allows reconciling failed k j m ≡ kind_allows reconciling failed k j x
  kind_allows_equal none j m x e = refl
  kind_allows_equal (some k) j m x e = rw (has_entity-equal failed j m x e) refl

  -- For kinds but volume claims the answer is the same for objects of one name.
  allows_equal :
      (j : String) (m x : ObjectMeta)
      → (j == pvc) ≡ false
      → is_equal m x ≡ true
      → allows reconciling failed j m ≡ allows reconciling failed j x
  allows_equal j m x h e = ground (arith, kind_allows_equal (kind_of j) j m x e)

  wanted_all :
      (et : String) (ms : List ObjectMeta) (j : String) (x : ObjectMeta)
      → (j == pvc) ≡ false
      → wanted et ms j x ≡ (if et == j && allows reconciling failed j x then count ms x else 0)
  wanted_all et [] j x h = ground arith
  wanted_all et (m ∷ ms) j x h =
      ground (arith, wanted_all et ms j x h, eq_iff et j, allows_equal j m x h)

  wanted_in_all :
      (r : Entities) (j : String) (x : ObjectMeta)
      → (j == pvc) ≡ false
      → wanted_in r j x ≡ (if allows reconciling failed j x then occurrences r j x else 0)
  wanted_in_all [] j x h = ground arith
  wanted_in_all ((et, ms) ∷ r) j x h = ground (arith, wanted_all et ms j x h, wanted_in_all r j x h)

  deleted-purge :
      (r : Registry) (j : String) (x : ObjectMeta)
      → IsMap r
      → (deleted (purge reconciling failed false r).deletions j x ≤ number r j x)
        × ((j == pvc) ≡ false
            → deleted (purge reconciling failed false r).deletions j x
              ≡ (if allows reconciling failed j x then number r j x else 0))
  unfolding purge
  deleted-purge none j x h = (omega arith, λ e. ground arith)
  deleted-purge (some r) j x h = (
    omega (
      arith,
      deleted-walk_kinds r nothing j x,
      wanted_in_bound r j x,
      occurrences-eq-number r j x h,
    ),
    λ e. ground (
      arith,
      deleted-walk_kinds r nothing j x,
      wanted_in_all r j x e,
      occurrences-eq-number r j x h,
    ),
  )

  -- The cleanup after a reconcile deletes no object that is registered as reconciled, if the
  -- existing objects and the registered ones have each object once at most.
  pub clear-spares :
      (done : Bool) (objs need : Registry) (j : String) (x : ObjectMeta)
      → IsSound objs
      → IsSound need
      → has_entity need j x ≡ true
      → deleted (clear reconciling failed done objs need).0 j x ≡ 0
  unfolding clear
  clear-spares true objs need j x h k e = unfold purge in refl
  clear-spares false objs need j x h k e = ground (
    arith,
    (deleted-purge (subtract objs need) j x (subtract-IsMap objs need h.is_map)).0,
    number-subtract objs need j x k.is_map,
    h.single j x,
    has_entity-number need j x,
  )

  -- While the context is not done, and no object stands twice, the cleanup deletes an object of a
  -- kind other than that of volume claims exactly if it exists, is not registered as reconciled
  -- and the policies allow it, and deletes it once.
  pub clear-all :
      (objs need : Registry) (j : String) (x : ObjectMeta)
      → IsSound objs
      → IsSound need
      → (j == pvc) ≡ false
      → deleted (clear reconciling failed false objs need).0 j x
        ≡ one_if (has_entity objs j x && not (has_entity need j x) && allows reconciling failed j x)
  unfolding clear
  clear-all objs need j x h k e = ground (
    arith,
    (deleted-purge (subtract objs need) j x (subtract-IsMap objs need h.is_map)).1 e,
    number-subtract objs need j x k.is_map,
    h.single j x,
    k.single j x,
    has_entity-number need j x,
    has_entity-number objs j x,
  )
