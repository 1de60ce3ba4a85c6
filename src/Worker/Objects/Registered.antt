-- ===== src/Worker/Objects/Registered.antt =====
-- Which registry has an object after its reconcile.
use radondb_clickhouse_opera.Base.{
  ℕ, suc, ◌≡◌, refl, sym, subst, ◌∙◌, String, Bool, true, false, inl, inr, Option, none, some,
  arith, eq_refl,
}
use radondb_clickhouse_opera.Base.Tests.{Bool-cases}
use radondb_clickhouse_opera.Registry.{
  ObjectMeta, Registry, config_map, register_entity, has_entity,
}
use radondb_clickhouse_opera.Registry.Count.{is_equal_refl}
use radondb_clickhouse_opera.Registry.Laws.{has-register}
use radondb_clickhouse_opera.Worker.Objects.{
  Error, not_found, other_error, Call, get_call, update_call, create_call, Reply, World, Got, found,
  missing, write, update_if_found, create_if_not_found, get_object, list_found, search_found, call,
  is_context_done, reconcile_config_map, register_result, reconcile_host_config_map,
}
use radondb_clickhouse_opera.Worker.Objects.Laws.{
  IsWritten, last_write, reconcile_config_map-IsWritten,
}

-- the registry is not nil
abbrev pub IsMade : Registry → Type 0
IsMade none = ⊥
IsMade (some r) = Unit

register-has :
    (r : Registry) (et : String) (m : ObjectMeta)
    → IsMade r
    → has_entity (register_entity r et m) et m ≡ true
register-has none et m h = absurd h
register-has (some r) et m h = ground (arith, has-register r et m et m, eq_refl et, is_equal_refl m)

-- a step leaves the registries
abbrev Keeps : World → World → Type 0
Keeps w v = (v.reconciled ≡ w.reconciled) × (v.failed ≡ w.failed)

Keeps-trans : (u v w : World) → Keeps u v → Keeps v w → Keeps u w
Keeps-trans u v w (a, b) (c, d) = (c ∙ a, d ∙ b)

-- Of the two registries one has the object now, and the other one is as at the start: that of the
-- reconciled objects has it with the last call having written it, that of the failed ones otherwise.
abbrev pub IsRecorded : String → ObjectMeta → World → Option Error × World → Type 0
IsRecorded et meta start (none, w) =
    (has_entity w.reconciled et meta ≡ true)
    × (last_write w.log ≡ some (et, meta))
    × (w.failed ≡ start.failed)
IsRecorded et meta start (some e, w) =
    (has_entity w.failed et meta ≡ true) × (w.reconciled ≡ start.reconciled)

register_result-IsRecorded :
    (et : String) (meta : ObjectMeta) (start : World) (r : Option Error × World)
    → IsWritten et meta r
    → Keeps start r.1
    → IsMade start.reconciled
    → IsMade start.failed
    → IsRecorded et meta start (register_result et meta r)
unfolding register_result
register_result-IsRecorded et meta start (none, w) h (x, y) a b =
    (register-has w.reconciled et meta (subst IsMade (sym x) a), h refl, y)
register_result-IsRecorded et meta start (some e, w) h (x, y) a b =
    (register-has w.failed et meta (subst IsMade (sym y) b), x)

module _ (done : ℕ → Bool) (api : Call → ℕ → Reply)
    (selector_error : ObjectMeta → Option Error) where
  write-Keeps : (c : Call) (w : World) → Keeps w (write done api selector_error c w).1
  unfolding write
  write-Keeps c w = elim (Bool-cases (done w.time)) [
    | inl e ↦ rw e (refl, refl)
    | inr e ↦ rw e (refl, refl)
  ]

  list_found-Keeps :
      (et : String) (meta : ObjectMeta) (e : Option Error) (w : World)
      → Keeps w (list_found done api selector_error et meta e w).1
  unfolding list_found
  list_found-Keeps et meta (some e) w = (refl, refl)
  list_found-Keeps et meta none w = (refl, refl)

  search_found-Keeps :
      (et : String) (meta : ObjectMeta) (e : Option Error) (w : World)
      → Keeps w (search_found done api selector_error et meta e w).1
  unfolding search_found
  search_found-Keeps et meta none w = (refl, refl)
  search_found-Keeps et meta (some other_error) w = (refl, refl)
  search_found-Keeps et meta (some not_found) w = list_found-Keeps et meta (selector_error meta) w

  get_object-Keeps :
      (et : String) (meta : ObjectMeta) (w : World)
      → Keeps w (get_object done api selector_error et meta w).1
  unfolding get_object
  get_object-Keeps et meta w =
      search_found-Keeps et meta (api (get_call et meta) w.time).error
        (call done api selector_error (get_call et meta) w).1

  update-Keeps :
      (et : String) (meta : ObjectMeta) (g : Got × World)
      → Keeps g.1 (update_if_found done api selector_error et meta g).1
  unfolding update_if_found
  update-Keeps et meta (found, w) = write-Keeps (update_call et meta) w
  update-Keeps et meta (missing e, w) = (refl, refl)

  create-Keeps :
      (et : String) (meta : ObjectMeta) (r : Option Error × World)
      → Keeps r.1 (create_if_not_found done api selector_error et meta r).1
  unfolding create_if_not_found
  create-Keeps et meta (none, w) = (refl, refl)
  create-Keeps et meta (some other_error, w) = (refl, refl)
  create-Keeps et meta (some not_found, w) = write-Keeps (create_call et meta) w

  reconcile_config_map-Keeps :
      (meta : ObjectMeta) (w : World)
      → Keeps w (reconcile_config_map done api selector_error meta w).1
  unfolding reconcile_config_map
  reconcile_config_map-Keeps meta w = elim (Bool-cases (done w.time)) [
    | inl e ↦ rw e (refl, refl)
    | inr e ↦
        let v : World = (is_context_done done api selector_error w).1 in
        let g : Got × World = get_object done api selector_error config_map meta v in
        let u : Option Error × World = update_if_found done api selector_error config_map meta g in
        let c : Option Error × World =
          create_if_not_found done api selector_error config_map meta u in
        rw e (
          Keeps-trans w g.1 c.1 (get_object-Keeps config_map meta v) (
            Keeps-trans g.1 u.1 c.1 (update-Keeps config_map meta g)
              (create-Keeps config_map meta u)))
  ]

  -- While the context is not done, and with both registries made, reconciling a ConfigMap without
  -- an error registers it as reconciled, right after a call that wrote it without an error, and
  -- leaves the registry of failed objects; with an error it registers it as failed and leaves the
  -- registry of reconciled objects.
  pub reconcile_host_config_map-IsRecorded :
      (meta : ObjectMeta) (w : World)
      → ((n : ℕ) → done n ≡ false)
      → IsMade w.reconciled
      → IsMade w.failed
      → IsRecorded config_map meta w (reconcile_host_config_map done api selector_error meta w)
  unfolding reconcile_host_config_map
  reconcile_host_config_map-IsRecorded meta w live a b =
      let v : World = (is_context_done done api selector_error w).1 in
      let r : Option Error × World = reconcile_config_map done api selector_error meta v in
      rw (live w.time) (
        register_result-IsRecorded config_map meta w r
          (reconcile_config_map-IsWritten done api selector_error live meta v)
          (reconcile_config_map-Keeps meta v) a b)

  -- If the context ends between the first two checks of a reconcile, and the registry is made, the
  -- ConfigMap is registered as reconciled although no call was made.
  pub reconcile_host_config_map-ended :
      (meta : ObjectMeta) (w : World)
      → done w.time ≡ false
      → done (suc w.time) ≡ true
      → IsMade w.reconciled
      → (has_entity
            (reconcile_host_config_map done api selector_error meta w).1.reconciled
            config_map
            meta
          ≡ true)
        × ((reconcile_host_config_map done api selector_error meta w).1.log ≡ w.log)
  unfolding reconcile_host_config_map reconcile_config_map register_result
  reconcile_host_config_map-ended meta w e d h =
      rw (e, d) (register-has w.reconciled config_map meta h, refl)
