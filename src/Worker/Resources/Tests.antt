-- ===== src/Worker/Resources/Tests.antt =====
-- A claim whose template asks for other requests.
use radondb_clickhouse_opera.Base.{ℕ, ◌≡◌, String, Option, some, List, [], ◌∷◌}
use radondb_clickhouse_opera.Base.Tests.{eqb}
use radondb_clickhouse_opera.Base.Lists.{contains, filter}
use radondb_clickhouse_opera.Base.Dict.{Dict, lookup}
use radondb_clickhouse_opera.Worker.Resources.{apply_pvc_resources_requests}
use radondb_clickhouse_opera.Worker.Resources.Laws.{get, get-apply_pvc_resources_requests}

-- an intersection of two lists
abbrev intersect : List String → List String → List String
intersect xs ys = filter (contains ys) xs

abbrev requests : ℕ → ℕ → Option (Dict ℕ)
requests storage cpu = some (("storage", storage) ∷ ("cpu", cpu) ∷ [])

-- both requests differ, and the second one is not applied
get-apply_pvc_resources_requests_example :
    get (apply_pvc_resources_requests eqb (requests 1 1) (requests 2 2) intersect).0 "cpu" ≡ some 1
unfolding lookup
get-apply_pvc_resources_requests_example =
    get-apply_pvc_resources_requests eqb (requests 1 1) (requests 2 2) intersect "cpu"
