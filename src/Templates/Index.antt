-- ===== src/Templates/Index.antt =====
-- The indexes of templates by name. An index that is nil, and one without a map, are `none`s.
use radondb_clickhouse_opera.Base.{String, Bool, false, Option, none, some, List, [], ◌∷◌}
use radondb_clickhouse_opera.Base.Tests.{is_some}
use radondb_clickhouse_opera.Base.Dict.{Dict, lookup, insert}
use radondb_clickhouse_opera.Templates.{Kind}

abbrev pub Index {ℓ} : Type ℓ → Type ℓ
Index T = Option (Option (Dict T))

module _ {ℓ} {T : Type ℓ} where
  abbrev pub new_index : Index T
  new_index = some (some [])

  unfoldable pub has : Index T → String → Bool
  has none name = false
  has (some none) name = false
  has (some (some v)) name = is_some (lookup v name)

  unfoldable pub get : Index T → String → Option T
  get none name = none
  get (some none) name = none
  get (some (some v)) name = lookup v name

  unfoldable pub set : Index T → String → T → Index T
  set none name entry = none
  set (some none) name entry = some none
  set (some (some v)) name entry = some (some (insert v name entry))

  -- the entries in the order of the walk
  values : Dict T → List T
  values [] = []
  values ((k, t) ∷ v) = t ∷ values v

  unfoldable pub walk : Index T → List T
  unfolding values
  walk none = []
  walk (some none) = []
  walk (some (some v)) = values v

  -- a getter that makes the index if it is nil
  unfoldable pub ensure_index : Index T → Index T
  ensure_index none = new_index
  ensure_index (some v) = some v

  -- the normalizer introduces every template into the index
  unfoldable pub introduce : Kind T → List T → Index T → Index T
  introduce kind [] index = index
  introduce kind (t ∷ ts) index = introduce kind ts (set (ensure_index index) (kind.name t) t)
