-- ===== src/Registry/Keys.antt =====
-- The kinds of a registry when objects are subtracted.
use radondb_clickhouse_opera.Base.{ℕ, zero, String, Option, none, some, List, [], ◌∷◌}
use radondb_clickhouse_opera.Base.Dict.{insert-NodupKeys}
use radondb_clickhouse_opera.Registry.{
  ObjectMeta, Entities, Registry, at_kind, find_index, delete_at, swap_remove, delete_entity,
  delete_all, walk_delete, subtract,
}
use radondb_clickhouse_opera.Registry.Laws.{IsMap}

delete_at-IsMap :
    (r : Entities) (et : String) (o : Option ℕ) → IsMap (some r) → IsMap (delete_at r et o).0
unfolding delete_at
delete_at-IsMap r et none h = h
delete_at-IsMap r et (some i) h = insert-NodupKeys r et (swap_remove (at_kind r et) i) h

delete-IsMap :
    (r : Registry) (et : String) (m : ObjectMeta) → IsMap r → IsMap (delete_entity r et m).0
unfolding delete_entity
delete-IsMap none et m h = tt
delete-IsMap (some r) et m h = delete_at-IsMap r et (find_index (at_kind r et) m zero) h

delete_all-IsMap :
    (ms : List ObjectMeta) (et : String) (r : Registry) → IsMap r → IsMap (delete_all ms et r)
unfolding delete_all
delete_all-IsMap [] et r h = h
delete_all-IsMap (m ∷ ms) et r h =
    delete_all-IsMap ms et (delete_entity r et m).0 (delete-IsMap r et m h)

walk_delete-IsMap : (sub : Entities) (r : Registry) → IsMap r → IsMap (walk_delete sub r)
unfolding walk_delete
walk_delete-IsMap [] r h = h
walk_delete-IsMap ((et, ms) ∷ sub) r h =
    walk_delete-IsMap sub (delete_all ms et r) (delete_all-IsMap ms et r h)

pub subtract-IsMap : (r s : Registry) → IsMap r → IsMap (subtract r s)
unfolding subtract
subtract-IsMap r none h = h
subtract-IsMap r (some []) h = h
subtract-IsMap none (some (e ∷ sub)) h = tt
subtract-IsMap (some []) (some (e ∷ sub)) h = h
subtract-IsMap (some (b ∷ r)) (some (e ∷ sub)) h = walk_delete-IsMap (e ∷ sub) (some (b ∷ r)) h
