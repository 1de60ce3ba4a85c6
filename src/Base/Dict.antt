-- ===== src/Base/Dict.antt =====
-- A Go map with text keys: an association list, in the order in which a `range` over the map
-- delivers the entries. Go leaves that order open, so the theorems are about every order.
use Prim.Native.String.{String}
use mathlib.Core.Path.{◌≡◌, refl}
use mathlib.Core.Bool.{Bool}
use mathlib.Core.Option.{Option, none, some}
use mathlib.Core.List.{List, [], ◌∷◌}
use native.Mathlib.Omega.{arith}
use text.Mathlib.Text.{◌==◌}
use text.Mathlib.TextEquality.{eq_iff}
use radondb_clickhouse_opera.Base.Tests.{if◌then◌else◌, is_some}
use radondb_clickhouse_opera.Base.Lists.{contains}

abbrev pub Dict {ℓ} : Type ℓ → Type ℓ
Dict V = List (String × V)

module _ {ℓ} {V : Type ℓ} where
  -- `m[k]` with the found flag
  unfoldable pub lookup : Dict V → String → Option V
  lookup [] k = none
  lookup ((j, v) ∷ m) k = if j == k then some v else lookup m k

  -- `m[k] = v`
  unfoldable pub insert : Dict V → String → V → Dict V
  insert [] k v = (k, v) ∷ []
  insert ((j, w) ∷ m) k v = if j == k then (j, v) ∷ m else (j, w) ∷ insert m k v

  -- `delete(m, k)`; every entry of the key goes, and a Go map has at most one
  unfoldable pub erase : Dict V → String → Dict V
  erase [] k = []
  erase ((j, w) ∷ m) k = let rest = erase m k in if j == k then rest else (j, w) ∷ rest

  -- the keys in the order of the walk
  abbrev pub keys : Dict V → List String
  keys [] = []
  keys ((k, v) ∷ m) = k ∷ keys m

  abbrev pub has : Dict V → String → Bool
  has m k = is_some (lookup m k)

  -- no key stands twice, as in every Go map
  abbrev pub NodupKeys : Dict V → Type ℓ
  NodupKeys [] = Unit
  NodupKeys ((k, v) ∷ m) = (lookup m k ≡ none) × NodupKeys m

  pub lookup-cons :
      (m : Dict V) (j k : String) (v : V)
      → lookup ((j, v) ∷ m) k ≡ (if j == k then some v else lookup m k)
  unfolding lookup
  lookup-cons m j k v = refl

  pub lookup-nil : (k : String) → lookup [] k ≡ none
  unfolding lookup
  lookup-nil k = refl

  pub lookup-insert :
      (m : Dict V) (k j : String) (v : V)
      → lookup (insert m k v) j ≡ (if k == j then some v else lookup m j)
  unfolding lookup insert
  lookup-insert [] k j v = refl
  lookup-insert ((i, w) ∷ m) k j v =
      ground (arith, eq_iff k j, eq_iff i k, eq_iff i j, lookup-insert m k j v)

  pub lookup-erase :
      (m : Dict V) (k j : String) → lookup (erase m k) j ≡ (if k == j then none else lookup m j)
  unfolding lookup erase
  lookup-erase [] k j = ground arith
  lookup-erase ((i, w) ∷ m) k j =
      ground (arith, eq_iff k j, eq_iff i k, eq_iff i j, lookup-erase m k j)

  pub insert-NodupKeys : (m : Dict V) (k : String) (v : V) → NodupKeys m → NodupKeys (insert m k v)
  unfolding insert
  insert-NodupKeys [] k v h = (lookup-nil k, tt)
  insert-NodupKeys ((j, w) ∷ m) k v (fresh, u) =
      ground (arith, insert-NodupKeys m k v u, lookup-insert m k j v, eq_iff j k, eq_iff k j)

  pub erase-NodupKeys : (m : Dict V) (k : String) → NodupKeys m → NodupKeys (erase m k)
  unfolding erase
  erase-NodupKeys [] k h = tt
  erase-NodupKeys ((j, w) ∷ m) k (fresh, u) =
      ground (arith, erase-NodupKeys m k u, lookup-erase m k j, eq_iff j k, eq_iff k j)

  pub contains-keys : (m : Dict V) (k : String) → contains (keys m) k ≡ has m k
  unfolding lookup
  contains-keys [] k = refl
  contains-keys ((j, v) ∷ m) k = ground (arith, contains-keys m k, eq_iff j k, eq_iff k j)
