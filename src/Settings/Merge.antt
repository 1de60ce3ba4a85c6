-- ===== src/Settings/Merge.antt =====
-- Reading merged settings, by inheritance or by the filtered merge.
use radondb_clickhouse_opera.Base.{
  String, ◌≡◌, refl, ◌∙◌, inl, inr, Bool, true, false, Option, none, some, [], ◌∷◌, arith, ◌==◌,
  eq_iff,
}
use radondb_clickhouse_opera.Base.Tests.{if◌then◌else◌, is_some, Bool-cases}
use radondb_clickhouse_opera.Base.Dict.{
  Dict, lookup, insert, lookup-nil, lookup-cons, lookup-insert, NodupKeys, insert-NodupKeys,
}
use radondb_clickhouse_opera.Util.Maps.Laws.{or_else}
use radondb_clickhouse_opera.Settings.{
  Setting, Settings, has, get, set, set_if_not_exists, merge_loop, merge_from, merge_cb_loop,
  merge_from_cb,
}

-- the names of settings are the keys of a Go map
abbrev pub IsMap : Settings → Type 0
IsMap none = Unit
IsMap (some m) = NodupKeys m

pub get-set :
    (m : Dict Setting) (j k : String) (v : Setting)
    → get (set (some m) j v) k ≡ (if j == k then some v else get (some m) k)
unfolding get set
get-set m j k v = lookup-insert m j k v

get-set_if_not_exists :
    (m : Dict Setting) (j k : String) (v : Setting)
    → get (set_if_not_exists (some m) j v) k
      ≡ or_else (get (some m) k) (if j == k then some v else none)
unfolding set_if_not_exists has get set
get-set_if_not_exists m j k v = ground (arith, lookup-insert m j k v, eq_iff j k)

set_if_not_exists-some :
    (m : Dict Setting) (j : String) (v : Setting)
    → (r : Dict Setting) × (set_if_not_exists (some m) j v ≡ some r) × (NodupKeys m → NodupKeys r)
unfolding set_if_not_exists has set
set_if_not_exists-some m j v = elim (Bool-cases (is_some (lookup m j))) [
  | inl e ↦ (m, rw e, λ h. h)
  | inr e ↦ (insert m j v, rw e, insert-NodupKeys m j v)
]

get-merge_loop :
    (src m : Dict Setting) (k : String)
    → get (merge_loop src (some m)) k ≡ or_else (get (some m) k) (lookup src k)
unfolding merge_loop
get-merge_loop [] m k = ground (arith, lookup-nil {V = Setting} k)
get-merge_loop ((j, v) ∷ src) m k =
    let (r, e, _) = set_if_not_exists-some m j v in
    rw e (
      get-merge_loop src r k ∙ ground (arith, get-set_if_not_exists m j k v, lookup-cons src j k v))

merge_loop-IsMap : (src m : Dict Setting) → NodupKeys m → IsMap (merge_loop src (some m))
unfolding merge_loop
merge_loop-IsMap [] m h = h
merge_loop-IsMap ((j, v) ∷ src) m h =
    let (r, e, keep) = set_if_not_exists-some m j v in rw e (merge_loop-IsMap src r (keep h))

-- Inheriting settings keeps the values that the receiver has, fills in those of the source, and
-- leaves every name once in a map that has every name once.
pub get-merge_from :
    (settings src : Settings) (k : String)
    → (get (merge_from settings src) k ≡ or_else (get settings k) (get src k))
      × (IsMap settings → IsMap (merge_from settings src))
unfolding merge_from get
get-merge_from settings none k = (ground arith, λ h. h)
get-merge_from settings (some []) k = (ground (arith, lookup-nil {V = Setting} k), λ h. h)
get-merge_from none (some (e ∷ src)) k =
    (get-merge_loop (e ∷ src) [] k ∙ rw lookup-nil, λ h. merge_loop-IsMap (e ∷ src) [] tt)
get-merge_from (some m) (some (e ∷ src)) k =
    (get-merge_loop (e ∷ src) m k, merge_loop-IsMap (e ∷ src) m)

-- A host that inherits from its shard, which inherits from its cluster, reads the nearest value of
-- a name, in whichever order the three settings are merged.
pub merge_from-chain :
    (host shard cluster : Settings) (k : String)
    → (get (merge_from host (merge_from shard cluster)) k
        ≡ or_else (get host k) (or_else (get shard k) (get cluster k)))
      × (get (merge_from (merge_from host shard) cluster) k
          ≡ get (merge_from host (merge_from shard cluster)) k)
merge_from-chain host shard cluster k = (
  ground (
    arith,
    (get-merge_from host (merge_from shard cluster) k).0,
    (get-merge_from shard cluster k).0,
  ),
  ground (
    arith,
    (get-merge_from host (merge_from shard cluster) k).0,
    (get-merge_from shard cluster k).0,
    (get-merge_from (merge_from host shard) cluster k).0,
    (get-merge_from host shard k).0,
  ),
)

-- what the filtered merge takes from its source
abbrev pub accepted : (String → Setting → Bool) → String → Option Setting → Option Setting
accepted accept k none = none
accepted accept k (some v) = if accept k v then some v else none

module _ (accept : String → Setting → Bool) where
  module _ (src m : Dict Setting) (j k : String) (v : Setting) where
    -- one round of the loop, seen under the name `k`
    take_entry :
        lookup src j ≡ none
        → accept j v ≡ true
        → or_else (accepted accept k (lookup src k)) (get (set (some m) j v) k)
          ≡ or_else (accepted accept k (lookup ((j, v) ∷ src) k)) (get (some m) k)
    take_entry h e = ground (arith, lookup-cons src j k v, get-set m j k v, eq_iff j k)

    skip_entry :
        lookup src j ≡ none
        → accept j v ≡ false
        → or_else (accepted accept k (lookup src k)) (get (some m) k)
          ≡ or_else (accepted accept k (lookup ((j, v) ∷ src) k)) (get (some m) k)
    skip_entry h e = ground (arith, lookup-cons src j k v, eq_iff j k)

  pub get-merge_cb_loop :
      (src m : Dict Setting) (k : String)
      → NodupKeys src
      → get (merge_cb_loop src accept (some m)) k
        ≡ or_else (accepted accept k (lookup src k)) (get (some m) k)
  unfolding merge_cb_loop set
  get-merge_cb_loop [] m k h = ground (arith, lookup-nil {V = Setting} k)
  get-merge_cb_loop ((j, v) ∷ src) m k h = elim (Bool-cases (accept j v)) [
    | inl e ↦ rw e (get-merge_cb_loop src (insert m j v) k h.1 ∙ take_entry src m j k v h.0 e)
    | inr e ↦ rw e (get-merge_cb_loop src m k h.1 ∙ skip_entry src m j k v h.0 e)
  ]

  -- A filtered merge overwrites by the accepted entries of its source, which has every name once,
  -- and by nothing else.
  pub get-merge_from_cb :
      (settings src : Settings) (k : String)
      → IsMap src
      → get (merge_from_cb settings src accept) k
        ≡ or_else (accepted accept k (get src k)) (get settings k)
  unfolding merge_from_cb get
  get-merge_from_cb settings none k h = refl
  get-merge_from_cb settings (some []) k h = ground (arith, lookup-nil {V = Setting} k)
  get-merge_from_cb none (some (e ∷ src)) k h = get-merge_cb_loop (e ∷ src) [] k h ∙ rw lookup-nil
  get-merge_from_cb (some m) (some (e ∷ src)) k h = get-merge_cb_loop (e ∷ src) m k h
