-- ===== src/TemplateNames.antt =====
-- pkg/apis/clickhouse.radondb.com/v1/type_template_names.go: the names of the templates that an
-- installation, a cluster, a shard or a host uses, and how a part inherits them from the part that
-- contains it. A `*ChiTemplateNames` is an `Option`.
pub mod Laws
mod Tests
use radondb_clickhouse_opera.Base.{String, Bool, true, false, not, Option, none, some, ◌==◌}
use radondb_clickhouse_opera.Base.Tests.{if◌then◌else◌}

pub record ChiTemplateNames : Type 0 where
  pub host_template : String
  pub pod_template : String
  pub data_volume_claim_template : String
  pub log_volume_claim_template : String
  pub service_template : String
  pub cluster_service_template : String
  pub shard_service_template : String
  pub replica_service_template : String
  pub volume_claim_template : String

pub data MergeType : Type 0 where
  merge_type_fill_empty_values merge_type_override_by_non_empty_values : MergeType

abbrev pub new_chi_template_names : ChiTemplateNames
new_chi_template_names = record {
  host_template = "";
  pod_template = "";
  data_volume_claim_template = "";
  log_volume_claim_template = "";
  service_template = "";
  cluster_service_template = "";
  shard_service_template = "";
  replica_service_template = "";
  volume_claim_template = "";
}

unfoldable pub has_host_template : Option ChiTemplateNames → Bool
has_host_template none = false
has_host_template (some names) = not (names.host_template == "")

unfoldable pub get_host_template : Option ChiTemplateNames → String
get_host_template none = ""
get_host_template (some names) = names.host_template

unfoldable pub has_pod_template : Option ChiTemplateNames → Bool
has_pod_template none = false
has_pod_template (some names) = not (names.pod_template == "")

unfoldable pub get_pod_template : Option ChiTemplateNames → String
get_pod_template none = ""
get_pod_template (some names) = names.pod_template

unfoldable pub has_data_volume_claim_template : Option ChiTemplateNames → Bool
has_data_volume_claim_template none = false
has_data_volume_claim_template (some names) = not (names.data_volume_claim_template == "")

unfoldable pub get_data_volume_claim_template : Option ChiTemplateNames → String
get_data_volume_claim_template none = ""
get_data_volume_claim_template (some names) = names.data_volume_claim_template

unfoldable pub has_log_volume_claim_template : Option ChiTemplateNames → Bool
has_log_volume_claim_template none = false
has_log_volume_claim_template (some names) = not (names.log_volume_claim_template == "")

unfoldable pub get_log_volume_claim_template : Option ChiTemplateNames → String
get_log_volume_claim_template none = ""
get_log_volume_claim_template (some names) = names.log_volume_claim_template

unfoldable pub has_service_template : Option ChiTemplateNames → Bool
has_service_template none = false
has_service_template (some names) = not (names.service_template == "")

unfoldable pub get_service_template : Option ChiTemplateNames → String
get_service_template none = ""
get_service_template (some names) = names.service_template

unfoldable pub has_cluster_service_template : Option ChiTemplateNames → Bool
has_cluster_service_template none = false
has_cluster_service_template (some names) = not (names.cluster_service_template == "")

unfoldable pub get_cluster_service_template : Option ChiTemplateNames → String
get_cluster_service_template none = ""
get_cluster_service_template (some names) = names.cluster_service_template

unfoldable pub has_shard_service_template : Option ChiTemplateNames → Bool
has_shard_service_template none = false
has_shard_service_template (some names) = not (names.shard_service_template == "")

unfoldable pub get_shard_service_template : Option ChiTemplateNames → String
get_shard_service_template none = ""
get_shard_service_template (some names) = names.shard_service_template

unfoldable pub has_replica_service_template : Option ChiTemplateNames → Bool
has_replica_service_template none = false
has_replica_service_template (some names) = not (names.replica_service_template == "")

unfoldable pub get_replica_service_template : Option ChiTemplateNames → String
get_replica_service_template none = ""
get_replica_service_template (some names) = names.replica_service_template

-- an empty name takes the other one
abbrev pub fill : String → String → String
fill to from = if to == "" then from else to

-- a name that is not empty replaces the other one
abbrev pub overwrite : String → String → String
overwrite to from = if not (from == "") then from else to

unfoldable pub handle_deprecated_fields : Option ChiTemplateNames → Option ChiTemplateNames
handle_deprecated_fields none = none
handle_deprecated_fields (some names) = some record {
  host_template = names.host_template;
  pod_template = names.pod_template;
  data_volume_claim_template = fill names.data_volume_claim_template names.volume_claim_template;
  log_volume_claim_template = names.log_volume_claim_template;
  service_template = names.service_template;
  cluster_service_template = names.cluster_service_template;
  shard_service_template = names.shard_service_template;
  replica_service_template = names.replica_service_template;
  volume_claim_template = names.volume_claim_template;
}

merge_from_fill_empty_values : ChiTemplateNames → ChiTemplateNames → ChiTemplateNames
merge_from_fill_empty_values names from = record {
  host_template = fill names.host_template from.host_template;
  pod_template = fill names.pod_template from.pod_template;
  data_volume_claim_template =
      fill names.data_volume_claim_template from.data_volume_claim_template;
  log_volume_claim_template = fill names.log_volume_claim_template from.log_volume_claim_template;
  service_template = fill names.service_template from.service_template;
  cluster_service_template = fill names.cluster_service_template from.cluster_service_template;
  shard_service_template = fill names.shard_service_template from.shard_service_template;
  replica_service_template = fill names.replica_service_template from.replica_service_template;
  volume_claim_template = fill names.volume_claim_template from.volume_claim_template;
}

merge_from_overwrite_by_non_empty_values : ChiTemplateNames → ChiTemplateNames → ChiTemplateNames
merge_from_overwrite_by_non_empty_values names from = record {
  host_template = overwrite names.host_template from.host_template;
  pod_template = overwrite names.pod_template from.pod_template;
  data_volume_claim_template =
      overwrite names.data_volume_claim_template from.data_volume_claim_template;
  log_volume_claim_template =
      overwrite names.log_volume_claim_template from.log_volume_claim_template;
  service_template = overwrite names.service_template from.service_template;
  cluster_service_template = overwrite names.cluster_service_template from.cluster_service_template;
  shard_service_template = overwrite names.shard_service_template from.shard_service_template;
  replica_service_template = overwrite names.replica_service_template from.replica_service_template;
  volume_claim_template = overwrite names.volume_claim_template from.volume_claim_template;
}

merge_by : MergeType → ChiTemplateNames → ChiTemplateNames → ChiTemplateNames
unfolding merge_from_fill_empty_values merge_from_overwrite_by_non_empty_values
merge_by merge_type_fill_empty_values names from = merge_from_fill_empty_values names from
merge_by merge_type_override_by_non_empty_values names from =
    merge_from_overwrite_by_non_empty_values names from

-- a nil receiver becomes an object without names
abbrev pub ensure : Option ChiTemplateNames → ChiTemplateNames
ensure none = new_chi_template_names
ensure (some names) = names

unfoldable pub merge_from :
    Option ChiTemplateNames → Option ChiTemplateNames → MergeType → Option ChiTemplateNames
unfolding merge_by
merge_from names none t = names
merge_from names (some from) t = some (merge_by t (ensure names) from)

-- a cluster inherits from `.spec.defaults.templates` of its installation; without defaults, or
-- without templates there, its names stay as they are, the deprecated one too
unfoldable pub cluster_inherit_templates_from :
    Option ChiTemplateNames → Option (Option ChiTemplateNames) → Option ChiTemplateNames
cluster_inherit_templates_from names none = names
cluster_inherit_templates_from names (some none) = names
cluster_inherit_templates_from names (some (some from)) =
    handle_deprecated_fields (merge_from names (some from) merge_type_fill_empty_values)

-- a shard or a replica inherits from its cluster
unfoldable pub inherit_templates_from :
    Option ChiTemplateNames → Option ChiTemplateNames → Option ChiTemplateNames
inherit_templates_from names from =
    handle_deprecated_fields (merge_from names from merge_type_fill_empty_values)

-- an absent shard, replica or template is skipped
merge_part : Option ChiTemplateNames → Option (Option ChiTemplateNames) → Option ChiTemplateNames
merge_part names none = names
merge_part names (some from) = merge_from names from merge_type_fill_empty_values

unfoldable pub host_inherit_templates_from :
    Option ChiTemplateNames
    → Option (Option ChiTemplateNames)
    → Option (Option ChiTemplateNames)
    → Option (Option ChiTemplateNames)
    → Option ChiTemplateNames
unfolding merge_part
host_inherit_templates_from host shard replica template =
    handle_deprecated_fields (merge_part (merge_part (merge_part host shard) replica) template)
