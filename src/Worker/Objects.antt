-- ===== src/Worker/Objects.antt =====
-- How the worker reconciles a ConfigMap, a Service and a disruption budget
-- (pkg/controller/chi/worker.go), with the getters of pkg/controller/chi/getter.go. The Kubernetes
-- API is a parameter that answers each call, and so is the context, which is asked at each check;
-- a call or a check takes one unit of time, so that answers may change. The world logs the calls
-- with their errors, the newest first, and has the two registries of the worker.
pub mod Laws
pub mod Registered
mod Tests
use radondb_clickhouse_opera.Base.{
  ℕ, zero, suc, String, Bool, true, false, Option, none, some, List, [], ◌∷◌, ◌==◌, ◌++◌,
}
use radondb_clickhouse_opera.Base.Tests.{eqb, if◌then◌else◌}
use radondb_clickhouse_opera.Registry.{ObjectMeta, Registry, config_map, service, register_entity}

-- `apierrors.IsNotFound` tells one error from the others
pub data Error : Type 0 where
  not_found other_error : Error

pub data Call : Type 0 where
  get_call list_call update_call create_call delete_call : String → ObjectMeta → Call

-- the error of a call, and the number of objects that a list has
pub record Reply : Type 0 where
  pub error : Option Error
  pub objects : ℕ

pub record World : Type 0 where
  pub time : ℕ
  pub log : List (Call × Option Error)
  pub reconciled : Registry
  pub failed : Registry

pub data Got : Type 0 where
  found : Got
  missing : Error → Got

abbrev pub pod_disruption_budget : String
pod_disruption_budget = "PodDisruptionBudget"

module _ (done : ℕ → Bool) (api : Call → ℕ → Reply)
    (selector_error : ObjectMeta → Option Error) where
  -- `util.IsContextDone(ctx)`
  abbrev pub is_context_done : World → Bool × World
  is_context_done w = (done w.time, record w { time = suc w.time })

  abbrev pub call : Call → World → Reply × World
  call c w = let r = api c w.time in (r, record w { time = suc w.time; log = (c, r.error) ∷ w.log })

  -- the objects that a list found
  listed : Reply → Got
  listed r = elim r.error [
    | some e ↦ missing e
    | none ↦
        if eqb r.objects 0
        then missing not_found
        else if eqb r.objects 1
        then found
        else missing other_error
  ]

  list_found : String → ObjectMeta → Option Error → World → Got × World
  unfolding listed
  list_found et meta (some e) w = (missing e, w)
  list_found et meta none w = let r = call (list_call et meta) w in (listed r.0, r.1)

  -- after the search by name
  search_found : String → ObjectMeta → Option Error → World → Got × World
  unfolding list_found
  search_found et meta none w = (found, w)
  search_found et meta (some other_error) w = (missing other_error, w)
  search_found et meta (some not_found) w = list_found et meta (selector_error meta) w

  -- `getConfigMap`, `getService` and `getPodDisruptionBudget`, not by name only
  unfoldable pub get_object : String → ObjectMeta → World → Got × World
  unfolding search_found
  get_object et meta w = let r = call (get_call et meta) w in search_found et meta r.0.error r.1

  -- the update and create functions: check the context, and make the call
  unfoldable pub write : Call → World → Option Error × World
  write c w =
      let b = is_context_done w in
      if b.0 then (none, b.1) else (let r = call c b.1 in (r.0.error, r.1))

  -- `if cur != nil { err = update }`
  unfoldable pub update_if_found : String → ObjectMeta → Got × World → Option Error × World
  update_if_found et meta (found, w) = write (update_call et meta) w
  update_if_found et meta (missing e, w) = (some e, w)

  -- `if IsNotFound(err) { err = create }`
  unfoldable pub create_if_not_found :
      String → ObjectMeta → Option Error × World → Option Error × World
  create_if_not_found et meta (none, w) = (none, w)
  create_if_not_found et meta (some other_error, w) = (some other_error, w)
  create_if_not_found et meta (some not_found, w) = write (create_call et meta) w

  unfoldable pub reconcile_config_map : ObjectMeta → World → Option Error × World
  reconcile_config_map meta w =
      let b = is_context_done w in
      if b.0
      then (none, b.1)
      else create_if_not_found config_map meta
          (update_if_found config_map meta (get_object config_map meta b.1))

  -- the service is looked up, and deleted if it is there
  delete_found : ObjectMeta → Option Error → World → World
  delete_found meta (some e) w = w
  delete_found meta none w = (call (delete_call service meta) w).1

  unfoldable pub delete_service_if_exists : ObjectMeta → World → World
  unfolding delete_found
  delete_service_if_exists meta w =
      let b = is_context_done w in
      if b.0
      then b.1
      else (let r = call (get_call service meta) b.1 in delete_found meta r.0.error r.1)

  -- `if err != nil { delete; err = create }`
  unfoldable pub recreate_if_failed : ObjectMeta → Option Error × World → Option Error × World
  recreate_if_failed meta (none, w) = (none, w)
  recreate_if_failed meta (some e, w) =
      write (create_call service meta) (delete_service_if_exists meta w)

  -- `updateService` checks the context, merges the found service into the new one, and checks again;
  -- the merge changes no call and no error, and is left out.
  unfoldable pub update_service_if_found : ObjectMeta → Got × World → Option Error × World
  update_service_if_found meta (missing e, w) = (some e, w)
  update_service_if_found meta (found, w) =
      let b = is_context_done w in if b.0 then (none, b.1) else write (update_call service meta) b.1

  unfoldable pub reconcile_service : ObjectMeta → World → Option Error × World
  reconcile_service meta w =
      let b = is_context_done w in
      if b.0
      then (none, b.1)
      else recreate_if_failed meta (update_service_if_found meta (get_object service meta b.1))

  -- Only creation is handled.
  create_if_missing : ObjectMeta → Got × World → Option Error × World
  create_if_missing meta (found, w) = (none, w)
  create_if_missing meta (missing other_error, w) = (some other_error, w)
  create_if_missing meta (missing not_found, w) = write (create_call pod_disruption_budget meta) w

  unfoldable pub reconcile_pdb : ObjectMeta → World → Option Error × World
  unfolding create_if_missing
  reconcile_pdb meta w =
      let b = is_context_done w in
      if b.0
      then (none, b.1)
      else create_if_missing meta (get_object pod_disruption_budget meta b.1)

-- The object goes to one of the registries.
unfoldable pub register_result : String → ObjectMeta → Option Error × World → Option Error × World
register_result et meta (none, w) =
    (none, record w { reconciled = register_entity w.reconciled et meta })
register_result et meta (some e, w) =
    (some e, record w { failed = register_entity w.failed et meta })

module _ (done : ℕ → Bool) (api : Call → ℕ → Reply)
    (selector_error : ObjectMeta → Option Error) where
  -- The ConfigMaps of the installation, of its users and of a host are made by the creator.
  unfoldable pub reconcile_host_config_map : ObjectMeta → World → Option Error × World
  reconcile_host_config_map meta w =
      let b = is_context_done done api selector_error w in
      if b.0
      then (none, b.1)
      else register_result config_map meta (reconcile_config_map done api selector_error meta b.1)

  -- a host, a cluster and a shard may have no service
  unfoldable pub reconcile_host_service : Option ObjectMeta → World → Option Error × World
  reconcile_host_service none w = let b = is_context_done done api selector_error w in (none, b.1)
  reconcile_host_service (some meta) w =
      let b = is_context_done done api selector_error w in
      if b.0
      then (none, b.1)
      else register_result service meta (reconcile_service done api selector_error meta b.1)
