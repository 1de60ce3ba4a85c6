-- ===== src/Registry/Kinds.antt =====
-- The operations of pkg/model/registry.go for each kind of object.
use radondb_clickhouse_opera.Base.{ℕ, Bool, some}
use radondb_clickhouse_opera.Registry.{
  ObjectMeta, Registry, stateful_set, config_map, service, pvc, pv, len, has_entity,
  register_entity,
}

unfoldable pub register_stateful_set : Registry → ObjectMeta → Registry
register_stateful_set r meta = register_entity r stateful_set meta

unfoldable pub has_stateful_set : Registry → ObjectMeta → Bool
has_stateful_set r meta = has_entity r stateful_set meta

unfoldable pub num_stateful_set : Registry → ℕ
num_stateful_set r = len r (some stateful_set)

unfoldable pub register_config_map : Registry → ObjectMeta → Registry
register_config_map r meta = register_entity r config_map meta

unfoldable pub has_config_map : Registry → ObjectMeta → Bool
has_config_map r meta = has_entity r config_map meta

unfoldable pub num_config_map : Registry → ℕ
num_config_map r = len r (some config_map)

unfoldable pub register_service : Registry → ObjectMeta → Registry
register_service r meta = register_entity r service meta

unfoldable pub has_service : Registry → ObjectMeta → Bool
has_service r meta = has_entity r service meta

unfoldable pub num_service : Registry → ℕ
num_service r = len r (some service)

unfoldable pub register_pvc : Registry → ObjectMeta → Registry
register_pvc r meta = register_entity r pvc meta

unfoldable pub has_pvc : Registry → ObjectMeta → Bool
has_pvc r meta = has_entity r pvc meta

unfoldable pub num_pvc : Registry → ℕ
num_pvc r = len r (some pvc)

unfoldable pub register_pv : Registry → ObjectMeta → Registry
register_pv r meta = register_entity r pv meta

unfoldable pub has_pv : Registry → ObjectMeta → Bool
has_pv r meta = has_entity r pv meta

unfoldable pub num_pv : Registry → ℕ
num_pv r = len r (some pv)
