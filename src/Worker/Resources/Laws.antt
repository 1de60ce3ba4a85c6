-- ===== src/Worker/Resources/Laws.antt =====
-- The requests of a volume claim after those of its template are applied.
use radondb_clickhouse_opera.Base.{
  ◌≡◌, refl, ap, ◌∙◌, String, Bool, true, false, inl, inr, Option, none, some, List, [], ◌∷◌, ◌==◌,
  eq_iff, arith,
}
use radondb_clickhouse_opera.Base.Tests.{if◌then◌else◌, Bool-cases}
use radondb_clickhouse_opera.Base.Dict.{Dict, lookup, lookup-insert}
use radondb_clickhouse_opera.Worker.Resources.{
  apply_found, apply_resource, apply_loop, apply_resources_list, apply_pvc_resources_requests,
  names_of,
}

abbrev pub get {ℓ} : {Q : Type ℓ} → Option (Dict Q) → String → Option Q
get none k = none
get (some m) k = lookup m k

abbrev pub is_it : Option String → String → Bool
is_it none k = false
is_it (some name) k = name == k

module _ {ℓ} {Q : Type ℓ} (equal : Q → Q → Bool) where
  -- do both lists have the resource, with different quantities?
  abbrev pub differ : Option Q → Option Q → Bool
  differ none d = false
  differ (some c) none = false
  differ (some c) (some d) = if equal c d then false else true

  -- the first of the names at which the lists differ
  abbrev pub first_different : List String → Option (Dict Q) → Option (Dict Q) → Option String
  first_different [] cur desired = none
  first_different (name ∷ names) cur desired =
      let rest = first_different names cur desired in
      if differ (get cur name) (get desired name) then some name else rest

  updated_loop :
      (names : List String) (cur desired : Option (Dict Q))
      → apply_loop equal names cur desired true ≡ (cur, true)
  unfolding apply_loop
  updated_loop [] cur desired = refl
  updated_loop (name ∷ names) cur desired = updated_loop names cur desired

  get-apply_found :
      (cur : Dict Q) (name : String) (c d : Option Q) (k : String)
      → lookup (apply_found equal cur name c d).0 k
        ≡ (if differ c d then (if name == k then d else lookup cur k) else lookup cur k)
  unfolding apply_found
  get-apply_found cur name none d k = refl
  get-apply_found cur name (some c) none k = refl
  get-apply_found cur name (some c) (some d) k = elim (Bool-cases (equal c d)) [
    | inl e ↦ rw e refl
    | inr e ↦ rw e (lookup-insert cur name k d)
  ]

  -- a call without a difference leaves the list, and one with a difference writes the resource
  apply_found-same :
      (cur : Dict Q) (name : String) (c d : Option Q)
      → differ c d ≡ false
      → apply_found equal cur name c d ≡ (cur, false)
  unfolding apply_found
  apply_found-same cur name none d h = refl
  apply_found-same cur name (some c) none h = refl
  apply_found-same cur name (some c) (some d) h = elim (Bool-cases (equal c d)) [
    | inl e ↦ rw e refl
    | inr e ↦ ground (arith, h, e)
  ]

  apply_found-updated :
      (cur : Dict Q) (name : String) (c d : Option Q)
      → differ c d ≡ true
      → (apply_found equal cur name c d).1 ≡ true
  unfolding apply_found
  apply_found-updated cur name none d h = cc
  apply_found-updated cur name (some c) none h = cc
  apply_found-updated cur name (some c) (some d) h = elim (Bool-cases (equal c d)) [
    | inl e ↦ ground (arith, h, e)
    | inr e ↦ rw e refl
  ]

  apply_resource-same :
      (cur desired : Option (Dict Q)) (name : String)
      → differ (get cur name) (get desired name) ≡ false
      → apply_resource equal cur desired name ≡ (cur, false)
  unfolding apply_resource
  apply_resource-same none desired name h = refl
  apply_resource-same (some cur) none name h = refl
  apply_resource-same (some cur) (some desired) name h =
      ap (λ r. (some r.0, r.1))
        (apply_found-same cur name (lookup cur name) (lookup desired name) h)

  apply_resource-updated :
      (cur desired : Option (Dict Q)) (name k : String)
      → differ (get cur name) (get desired name) ≡ true
      → ((apply_resource equal cur desired name).1 ≡ true)
        × (get (apply_resource equal cur desired name).0 k
            ≡ (if name == k then get desired name else get cur k))
  unfolding apply_resource
  apply_resource-updated none desired name k h = cc
  apply_resource-updated (some cur) none name k h = absurd_differ (lookup cur name) h
    where
      absurd_differ :
          (c : Option Q)
          → differ c none ≡ true
          → (false ≡ true) × (lookup cur k ≡ (if name == k then none else lookup cur k))
      absurd_differ none e = cc
      absurd_differ (some c) e = cc
  apply_resource-updated (some cur) (some desired) name k h = (
    apply_found-updated cur name (lookup cur name) (lookup desired name) h,
    rw h at (get-apply_found cur name (lookup cur name) (lookup desired name) k),
  )

  at_name :
      (desired : Option (Dict Q)) (c : Option Q) (name k : String)
      → (if name == k then get desired name else c) ≡ (if name == k then get desired k else c)
  at_name desired c name k = elim (Bool-cases (name == k)) [
    | inl e ↦ ap (λ x. if name == k then get desired x else c) ((eq_iff name k).0 e)
    | inr e ↦ rw e refl
  ]

  get-apply_loop :
      (names : List String) (cur desired : Option (Dict Q)) (k : String)
      → get (apply_loop equal names cur desired false).0 k
        ≡ (if is_it (first_different names cur desired) k then get desired k else get cur k)
  unfolding apply_loop
  get-apply_loop [] cur desired k = refl
  get-apply_loop (name ∷ names) cur desired k =
      elim (Bool-cases (differ (get cur name) (get desired name))) [
        | inl e ↦
            let r = apply_resource equal cur desired name in
            let (u, g) = apply_resource-updated cur desired name k e in
            rw e (
              ap (λ b. get (apply_loop equal names r.0 desired b).0 k) u
              ∙ ap (λ q. get q.0 k) (updated_loop names r.0 desired)
              ∙ g
              ∙ at_name desired (get cur k) name k)
        | inr e ↦ rw e (
            ap (λ r. get (apply_loop equal names r.0 desired r.1).0 k)
              (apply_resource-same cur desired name e)
            ∙ get-apply_loop names cur desired k)
      ]

  -- Of the requests of a volume claim only the first one that differs from its template takes the
  -- value of the template, and all others stay.
  pub get-apply_pvc_resources_requests :
      (pvc template : Option (Dict Q)) (simple : List String → List String → List String)
      (k : String)
      → get (apply_pvc_resources_requests equal pvc template simple).0 k ≡ (
          if is_it (first_different (simple (names_of pvc) (names_of template)) pvc template) k
          then get template k
          else get pvc k)
  unfolding apply_pvc_resources_requests apply_resources_list
  get-apply_pvc_resources_requests pvc template simple k =
      get-apply_loop (simple (names_of pvc) (names_of template)) pvc template k
