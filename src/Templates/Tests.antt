-- ===== src/Templates/Tests.antt =====
-- Templates that are names with numbers, of which a merge keeps the larger one.
use radondb_clickhouse_opera.Base.{ℕ, ◌≡◌, refl, String, some, List, [], ◌∷◌, ◌++◌}
use radondb_clickhouse_opera.Base.Tests.{if◌then◌else◌, leb}
use radondb_clickhouse_opera.Base.Dict.{lookup}
use radondb_clickhouse_opera.Base.Int.{pos}
use radondb_clickhouse_opera.Templates.Pods.{ChiPodDistribution, normalize_pod_distributions}
use radondb_clickhouse_opera.Templates.Distributions.{
  AllNormalOf, expansions, normalize_pod_distributions-parts,
}
use radondb_clickhouse_opera.Templates.{Kind, merge_loop}
use radondb_clickhouse_opera.Templates.Index.{get, introduce}
use radondb_clickhouse_opera.Templates.Laws.{find, KeepsName, find-merge_loop, get-introduce}

pub record Pod : Type 0 where
  pub name : String
  pub replicas : ℕ

-- a number that is given overrides
abbrev pods : Kind Pod
pods = record {
  name = λ p. p.name;
  merge = λ to from. record {
    name = to.name;
    replicas = if leb from.replicas 0 then to.replicas else from.replicas;
  };
}

pods-KeepsName : KeepsName pods
pods-KeepsName t f e = refl

abbrev pod : String → ℕ → Pod
pod name replicas = record { name = name; replicas = replicas }

find-merge_loop_example :
    find pods "a" (merge_loop pods (pod "a" 2 ∷ pod "b" 3 ∷ []) (pod "a" 1 ∷ [])) ≡ some (pod "a" 2)
find-merge_loop_example =
    find-merge_loop pods (pod "a" 2 ∷ pod "b" 3 ∷ []) (pod "a" 1 ∷ []) "a" pods-KeepsName
      (refl, (refl, tt))

get-introduce_example :
    get (introduce pods (pod "a" 1 ∷ pod "a" 2 ∷ []) (some (some []))) "a" ≡ some (pod "a" 2)
unfolding lookup
get-introduce_example = get-introduce pods (pod "a" 1 ∷ pod "a" 2 ∷ []) [] "a"

abbrev circular : ChiPodDistribution
circular = record {
  type_name = "CircularReplication";
  scope = "";
  number = pos 0;
  topology_key = "";
}

-- the shortcut is kept with a key, and its expansion has none
normalize_pod_distributions-parts_example :
    (kept : List ChiPodDistribution) × (normalize_pod_distributions (pos 2) (circular ∷ [])
      ≡ kept ++ expansions (pos 2) (circular ∷ []))
    × AllNormalOf (circular ∷ []) kept
normalize_pod_distributions-parts_example =
    normalize_pod_distributions-parts (pos 2) (circular ∷ [])
