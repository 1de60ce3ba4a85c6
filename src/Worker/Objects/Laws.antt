-- ===== src/Worker/Objects/Laws.antt =====
-- The last call before a reconcile returns without an error.
use radondb_clickhouse_opera.Base.{
  ℕ, suc, ◌≡◌, refl, String, Bool, false, Option, none, some, List, [], ◌∷◌,
}
use radondb_clickhouse_opera.Registry.{ObjectMeta, config_map, service}
use radondb_clickhouse_opera.Worker.Objects.{
  Error, not_found, other_error, Call, get_call, list_call, update_call, create_call, delete_call,
  Reply, World, Got, found, missing, write, update_if_found, update_service_if_found,
  create_if_not_found, reconcile_config_map, recreate_if_failed, delete_service_if_exists,
  reconcile_service,
}

-- what a call writes
abbrev pub target : Call → Option (String × ObjectMeta)
target (update_call et meta) = some (et, meta)
target (create_call et meta) = some (et, meta)
target (get_call et meta) = none
target (list_call et meta) = none
target (delete_call et meta) = none

-- what the last call wrote, if it had no error
abbrev pub last_write : List (Call × Option Error) → Option (String × ObjectMeta)
last_write [] = none
last_write ((c, none) ∷ log) = target c
last_write ((c, some e) ∷ log) = none

-- without an error the last call wrote the object
abbrev pub IsWritten : String → ObjectMeta → Option Error × World → Type 0
IsWritten et meta r = r.0 ≡ none → last_write r.1.log ≡ some (et, meta)

logged :
    (c : Call) (e : Option Error) (log : List (Call × Option Error))
    → e ≡ none
    → last_write ((c, e) ∷ log) ≡ target c
logged c none log h = refl
logged c (some e) log h = cc

module _ (done : ℕ → Bool) (api : Call → ℕ → Reply) (selector_error : ObjectMeta → Option Error)
    (live : (n : ℕ) → done n ≡ false) where
  write-target :
      (c : Call) (w : World)
      → (write done api selector_error c w).0 ≡ none
      → last_write (write done api selector_error c w).1.log ≡ target c
  unfolding write
  write-target c w = rw (live w.time) (logged c (api c (suc w.time)).error w.log)

  update-IsWritten :
      (et : String) (meta : ObjectMeta) (g : Got × World)
      → IsWritten et meta (update_if_found done api selector_error et meta g)
  unfolding update_if_found
  update-IsWritten et meta (found, w) = write-target (update_call et meta) w
  update-IsWritten et meta (missing e, w) = λ h. cc

  update_service-IsWritten :
      (meta : ObjectMeta) (g : Got × World)
      → IsWritten service meta (update_service_if_found done api selector_error meta g)
  unfolding update_service_if_found
  update_service-IsWritten meta (missing e, w) = λ h. cc
  update_service-IsWritten meta (found, w) =
      rw (live w.time) (write-target (update_call service meta) _)

  create-IsWritten :
      (et : String) (meta : ObjectMeta) (r : Option Error × World)
      → IsWritten et meta r
      → IsWritten et meta (create_if_not_found done api selector_error et meta r)
  unfolding create_if_not_found
  create-IsWritten et meta (none, w) h = h
  create-IsWritten et meta (some not_found, w) h = write-target (create_call et meta) w
  create-IsWritten et meta (some other_error, w) h = λ e. cc

  recreate-IsWritten :
      (meta : ObjectMeta) (r : Option Error × World)
      → IsWritten service meta r
      → IsWritten service meta (recreate_if_failed done api selector_error meta r)
  unfolding recreate_if_failed
  recreate-IsWritten meta (none, w) h = h
  recreate-IsWritten meta (some e, w) h =
      write-target (create_call service meta)
        (delete_service_if_exists done api selector_error meta w)

  -- While the context is not done, reconciling a ConfigMap returns no error only right after a call
  -- that wrote it without an error.
  pub reconcile_config_map-IsWritten :
      (meta : ObjectMeta) (w : World)
      → IsWritten config_map meta (reconcile_config_map done api selector_error meta w)
  unfolding reconcile_config_map
  reconcile_config_map-IsWritten meta w =
      rw (live w.time) (create-IsWritten config_map meta _ (update-IsWritten config_map meta _))

  -- While the context is not done, reconciling a service returns no error only right after a call
  -- that wrote the service without an error.
  pub reconcile_service-IsWritten :
      (meta : ObjectMeta) (w : World)
      → IsWritten service meta (reconcile_service done api selector_error meta w)
  unfolding reconcile_service
  reconcile_service-IsWritten meta w =
      rw (live w.time) (recreate-IsWritten meta _ (update_service-IsWritten meta _))
