-- ===== src/Templates/Distributions.antt =====
-- The distributions after normalisation, and those that a shortcut expands to, which have no
-- topology key.
use radondb_clickhouse_opera.Base.{
  eq_iff, ◌≡◌, refl, sym, ap, ◌∙◌, String, Bool, true, false, inl, inr, List, [], ◌∷◌, ◌++◌, ◌==◌,
  ◌||◌, ◌&&◌, arith,
}
use radondb_clickhouse_opera.Base.Tests.{if◌then◌else◌, Bool-cases, by_test}
use radondb_clickhouse_opera.Base.Lists.{contains}
use radondb_clickhouse_opera.Base.Int.{ℤ, pos, ltb_ℤ}
use radondb_clickhouse_opera.Templates.Pods.{
  ChiPodDistribution, scoped_types, plain_types, pod_distribution_max_number_per_node,
  pod_distribution_circular_replication, expand_circular_replication, normalize_pod_distribution,
  normalize_each, normalize_pod_distributions,
}

-- the types that have a scope, and all types
abbrev pub has_scope : String → Bool
has_scope t =
    contains
      ("Unspecified" ∷ "ClickHouseAntiAffinity" ∷ "ShardAntiAffinity" ∷ "ReplicaAntiAffinity" ∷ [])
      t
    || t == "CircularReplication"

abbrev pub is_known : String → Bool
is_known t =
    has_scope t
    || t == "MaxNumberPerNode"
    || contains
        ("AnotherNamespaceAntiAffinity" ∷ "AnotherClickHouseInstallationAntiAffinity"
          ∷ "AnotherClusterAntiAffinity" ∷ "NamespaceAffinity" ∷ "ClickHouseInstallationAffinity"
          ∷ "ClusterAffinity" ∷ "ShardAffinity" ∷ "ReplicaAffinity" ∷ "PreviousTailAffinity" ∷ [])
        t

-- a text, or another one for the empty text
abbrev pub or_text : String → String → String
or_text t u = if t == "" then u else t

-- A normalised distribution has the type if that is known, and Unspecified otherwise, and a topology
-- key. The scope of the types that have one is the cluster unless it is given, a number of pods is
-- not negative, and nothing else changes.
abbrev pub IsNormalOf : ChiPodDistribution → ChiPodDistribution → Type 0
IsNormalOf d k =
    (k.type_name ≡ (if is_known d.type_name then d.type_name else "Unspecified"))
    × (k.topology_key ≡ or_text d.topology_key "kubernetes.io/hostname")
    × (k.scope ≡ (if has_scope d.type_name then or_text d.scope "Cluster" else d.scope))
    × (k.number
        ≡ (if d.type_name == "MaxNumberPerNode" && ltb_ℤ d.number (pos 0) then pos 0 else d.number))

-- the two lists hold related distributions, one for one
abbrev pub AllNormalOf : List ChiPodDistribution → List ChiPodDistribution → Type 0
AllNormalOf [] [] = Unit
AllNormalOf [] (k ∷ ks) = ⊥
AllNormalOf (d ∷ ds) [] = ⊥
AllNormalOf (d ∷ ds) (k ∷ ks) = IsNormalOf d k × AllNormalOf ds ks

-- a distribution without a topology key
abbrev pub keyless : String → String → ℤ → ChiPodDistribution
keyless type_name scope number = record {
  type_name = type_name;
  scope = scope;
  number = number;
  topology_key = "";
}

-- the seven distributions that circular replication stands for
abbrev pub circular_parts : ℤ → String → List ChiPodDistribution
circular_parts replicas scope =
    keyless "ShardAntiAffinity" scope (pos 0)
    ∷ keyless "ReplicaAntiAffinity" scope (pos 0)
    ∷ keyless "MaxNumberPerNode" scope replicas
    ∷ keyless "PreviousTailAffinity" "" (pos 0)
    ∷ keyless "NamespaceAffinity" "" (pos 0)
    ∷ keyless "ClickHouseInstallationAffinity" "" (pos 0)
    ∷ keyless "ClusterAffinity" "" (pos 0)
    ∷ []

-- what the distributions of this type, in their order, add
abbrev pub expansions : ℤ → List ChiPodDistribution → List ChiPodDistribution
expansions replicas [] = []
expansions replicas (d ∷ ds) =
    (if d.type_name == "CircularReplication"
      then circular_parts replicas (or_text d.scope "Cluster")
      else [])
    ++ expansions replicas ds

expansion_of : ℤ → ChiPodDistribution → List ChiPodDistribution
expansion_of replicas d =
    if d.type_name == "CircularReplication"
    then circular_parts replicas (or_text d.scope "Cluster")
    else []

IsResult : ℤ → ChiPodDistribution → ChiPodDistribution × List ChiPodDistribution → Type 0
unfolding expansion_of
IsResult replicas d r = IsNormalOf d r.0 × (r.1 ≡ expansion_of replicas d)

pick {ℓ} : {A : Type ℓ} (b v : Bool) (x y : A) → b ≡ v → (if v then x else y) ≡ (if b then x else y)
pick b v x y h = ap (λ c. if c then x else y) (sym h)

-- a type of the list is not one that is not listed
clash : (b : Bool) → b ≡ false → b ≡ true → ⊥
clash b h k = cc

unlisted :
    (ts : List String) (u t : String)
    → contains ts u ≡ false
    → contains ts t ≡ true
    → (t == u) ≡ false
unlisted ts u t h k = elim (Bool-cases (t == u)) [
  | inl e ↦ absurd (clash (contains ts u) h (ap (contains ts) (sym ((eq_iff t u).0 e)) ∙ k))
  | inr e ↦ e
]

-- the parts of a result, from what the tests on the type say
parts-IsResult :
    (replicas : ℤ) (d : ChiPodDistribution) (known scoped circular counted : Bool)
    → is_known d.type_name ≡ known
    → has_scope d.type_name ≡ scoped
    → (d.type_name == "CircularReplication") ≡ circular
    → (d.type_name == "MaxNumberPerNode") ≡ counted
    → IsResult replicas d (
      record {
        type_name = if known then d.type_name else "Unspecified";
        scope = if scoped then or_text d.scope "Cluster" else d.scope;
        number = if counted && ltb_ℤ d.number (pos 0) then pos 0 else d.number;
        topology_key = or_text d.topology_key "kubernetes.io/hostname";
      },
      if circular then circular_parts replicas (or_text d.scope "Cluster") else [],
    )
unfolding IsResult expansion_of
parts-IsResult replicas d known scoped circular counted k s c m = (
  (
    pick (is_known d.type_name) known d.type_name "Unspecified" k,
    refl,
    pick (has_scope d.type_name) scoped (or_text d.scope "Cluster") d.scope s,
    pick (d.type_name == "MaxNumberPerNode" && ltb_ℤ d.number (pos 0))
        (counted && ltb_ℤ d.number (pos 0)) (pos 0) d.number
        (ap (λ b. b && ltb_ℤ d.number (pos 0)) m),
  ),
  pick (d.type_name == "CircularReplication") circular
      (circular_parts replicas (or_text d.scope "Cluster")) [] c,
)

normalize-IsResult :
    (replicas : ℤ) (d : ChiPodDistribution)
    → IsResult replicas d (normalize_pod_distribution replicas d)
unfolding normalize_pod_distribution expand_circular_replication
normalize-IsResult replicas d =
    let t = d.type_name in
    let P = IsResult replicas d in
    by_test P (contains scoped_types t)
      (λ e.
        parts-IsResult replicas d true true false false (ground (arith, e)) (ground (arith, e))
          (unlisted scoped_types "CircularReplication" t refl e)
          (unlisted scoped_types "MaxNumberPerNode" t refl e))
      (λ e.
        by_test P (contains plain_types t)
          (λ a.
            let c = unlisted plain_types "CircularReplication" t refl a in
            parts-IsResult replicas d true false false false (ground (arith, a))
              (ground (arith, e, c)) c (unlisted plain_types "MaxNumberPerNode" t refl a))
          (λ a.
            by_test P (t == pod_distribution_max_number_per_node)
              (λ b.
                let c =
                  unlisted (pod_distribution_max_number_per_node ∷ []) "CircularReplication" t refl
                    (ground (arith, b)) in
                parts-IsResult replicas d true false false true (ground (arith, b))
                  (ground (arith, e, c)) c b)
              (λ b.
                by_test P (t == pod_distribution_circular_replication)
                  (λ c.
                    parts-IsResult replicas d true true true false (ground (arith, c))
                      (ground (arith, c)) c b)
                  (λ c.
                    parts-IsResult replicas d false false false false (ground (arith, e, a, b, c))
                      (ground (arith, e, c)) c b))))

normalize_each-parts :
    (replicas : ℤ) (ds : List ChiPodDistribution)
    → AllNormalOf ds (normalize_each replicas ds).0
      × ((normalize_each replicas ds).1 ≡ expansions replicas ds)
unfolding normalize_each IsResult expansion_of
normalize_each-parts replicas [] = (tt, refl)
normalize_each-parts replicas (d ∷ ds) =
    let (a, b) = normalize-IsResult replicas d in
    let (x, y) = normalize_each-parts replicas ds in
    (
      (a, x),
      ap (λ ks. ks ++ (normalize_each replicas ds).1) b
          ∙ ap (λ ks. expansion_of replicas d ++ ks) y,
    )

-- Normalising pod distributions keeps each of them in its place, with its type if that is known
-- and Unspecified otherwise, with a topology key, with a scope if its type has one, and with a
-- number that is not negative if it is one of pods on a node; it appends, for each circular
-- replication, the seven distributions that this stands for, none of which has a topology key.
pub normalize_pod_distributions-parts :
    (replicas : ℤ) (ds : List ChiPodDistribution)
    → (kept : List ChiPodDistribution) × (normalize_pod_distributions replicas ds
        ≡ kept ++ expansions replicas ds)
      × AllNormalOf ds kept
unfolding normalize_pod_distributions
normalize_pod_distributions-parts replicas ds =
    let r = normalize_each replicas ds in
    let (a, b) = normalize_each-parts replicas ds in (r.0, ap (λ ks. r.0 ++ ks) b, a)
