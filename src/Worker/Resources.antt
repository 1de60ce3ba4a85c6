-- ===== src/Worker/Resources.antt =====
-- The resources that a volume claim requests: applyPVCResourcesRequests, applyResourcesList and
-- applyResource of pkg/controller/chi/worker.go. Quantities with their equality and the
-- intersection of lists come from libraries, and are parameters. A nil list is
-- `none`.
pub mod Laws
mod Tests
use radondb_clickhouse_opera.Base.{String, Bool, true, false, Option, none, some, List, [], ◌∷◌}
use radondb_clickhouse_opera.Base.Tests.{if◌then◌else◌}
use radondb_clickhouse_opera.Base.Dict.{Dict, lookup, insert, keys}

-- the names of a list, which a nil list does not have
abbrev pub names_of {ℓ} : {Q : Type ℓ} → Option (Dict Q) → List String
names_of none = []
names_of (some m) = keys m

module _ {ℓ} {Q : Type ℓ} (equal : Q → Q → Bool) where
  -- the second result says whether the list was written
  apply_found : Dict Q → String → Option Q → Option Q → Dict Q × Bool
  apply_found cur name none d = (cur, false)
  apply_found cur name (some c) none = (cur, false)
  apply_found cur name (some c) (some d) =
      if equal c d then (cur, false) else (insert cur name d, true)

  unfoldable pub apply_resource :
      Option (Dict Q) → Option (Dict Q) → String → Option (Dict Q) × Bool
  unfolding apply_found
  apply_resource none desired name = (none, false)
  apply_resource (some cur) none name = (some cur, false)
  apply_resource (some cur) (some desired) name =
      let r = apply_found cur name (lookup cur name) (lookup desired name) in (some r.0, r.1)

  -- `updated = updated || applyResource(…)`: the call is made only while nothing was updated
  unfoldable pub apply_loop :
      List String → Option (Dict Q) → Option (Dict Q) → Bool → Option (Dict Q) × Bool
  apply_loop [] cur desired updated = (cur, updated)
  apply_loop (name ∷ names) cur desired true = apply_loop names cur desired true
  apply_loop (name ∷ names) cur desired false =
      let r = apply_resource cur desired name in apply_loop names r.0 desired r.1

  -- `intersect.Simple` is the last argument
  unfoldable pub apply_resources_list :
      Option (Dict Q)
      → Option (Dict Q)
      → (List String → List String → List String)
      → Option (Dict Q) × Bool
  apply_resources_list cur desired simple =
      apply_loop (simple (names_of cur) (names_of desired)) cur desired false

  -- the requests of a claim and of its template
  unfoldable pub apply_pvc_resources_requests :
      Option (Dict Q)
      → Option (Dict Q)
      → (List String → List String → List String)
      → Option (Dict Q) × Bool
  apply_pvc_resources_requests pvc template simple = apply_resources_list pvc template simple
