-- ===== src/Registry/Tests.antt =====
-- The registry at concrete objects.
use radondb_clickhouse_opera.Base.{String, ◌≡◌, refl, true, none, some, [], ◌∷◌, arith}
use radondb_clickhouse_opera.Base.Dict.{lookup, insert}
use radondb_clickhouse_opera.Registry.{
  ObjectMeta, Entities, stateful_set, at_kind, len, is_equal, delete_entity, subtract,
}
use radondb_clickhouse_opera.Registry.Count.{number}
use radondb_clickhouse_opera.Registry.Laws.{IsSound, number-subtract}

abbrev object : String → ObjectMeta
object name = record {
  namespace = "prod";
  name = name;
  labels = none;
  annotations = none;
  resource_version = "7";
  finalizers = [];
  deletion_timestamp = none;
}

abbrev two_sets : Entities
two_sets = (stateful_set, object "a" ∷ object "b" ∷ []) ∷ []

abbrev one_set : Entities
one_set = (stateful_set, object "a" ∷ []) ∷ []

delete_run :
    delete_entity (some two_sets) stateful_set (object "a")
    ≡ (some ((stateful_set, object "b" ∷ []) ∷ []), true)
unfolding delete_entity at_kind is_equal lookup insert
delete_run = refl

len_after_delete : len (delete_entity (some one_set) stateful_set (object "a")).0 none ≡ 1
unfolding delete_entity at_kind is_equal lookup insert len
len_after_delete = refl

number-subtract_example :
    number (subtract (some two_sets) (some one_set)) stateful_set (object "b") ≡ 1
unfolding at_kind is_equal lookup
number-subtract_example =
    number-subtract (some two_sets) (some one_set) stateful_set (object "b") (refl, tt)

empty-IsSound : IsSound (some [])
unfolding at_kind lookup
empty-IsSound = record { single = λ j x. omega arith; is_map = tt }
