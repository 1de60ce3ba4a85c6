-- ===== src/TemplateNames/Laws.antt =====
-- Merging template names field by field, and the deprecated name for volume claims in parts that
-- inherit.
use radondb_clickhouse_opera.Base.{String, ◌≡◌, refl, Option, none, some, arith, eq_iff}
use radondb_clickhouse_opera.TemplateNames.{
  ChiTemplateNames, MergeType, merge_type_fill_empty_values,
  merge_type_override_by_non_empty_values, new_chi_template_names, fill, overwrite,
  handle_deprecated_fields, merge_from, merge_by, merge_from_fill_empty_values,
  merge_from_overwrite_by_non_empty_values, ensure, cluster_inherit_templates_from,
  inherit_templates_from, merge_part, host_inherit_templates_from, get_data_volume_claim_template,
}

pub data Field : Type 0 where
  at_host_template at_pod_template at_data_volume_claim_template at_log_volume_claim_template
        at_service_template at_cluster_service_template at_shard_service_template
        at_replica_service_template at_volume_claim_template :
      Field

abbrev pub field : Field → ChiTemplateNames → String
field at_host_template names = names.host_template
field at_pod_template names = names.pod_template
field at_data_volume_claim_template names = names.data_volume_claim_template
field at_log_volume_claim_template names = names.log_volume_claim_template
field at_service_template names = names.service_template
field at_cluster_service_template names = names.cluster_service_template
field at_shard_service_template names = names.shard_service_template
field at_replica_service_template names = names.replica_service_template
field at_volume_claim_template names = names.volume_claim_template

-- the name in a field, empty for a nil object
abbrev pub named : Field → Option ChiTemplateNames → String
named f names = field f (ensure names)

abbrev pub by_type : MergeType → String → String → String
by_type merge_type_fill_empty_values to from = fill to from
by_type merge_type_override_by_non_empty_values to from = overwrite to from

field-merge_by :
    (f : Field) (t : MergeType) (a b : ChiTemplateNames)
    → field f (merge_by t a b) ≡ by_type t (field f a) (field f b)
unfolding merge_by merge_from_fill_empty_values merge_from_overwrite_by_non_empty_values
field-merge_by at_host_template merge_type_fill_empty_values a b = refl
field-merge_by at_host_template merge_type_override_by_non_empty_values a b = refl
field-merge_by at_pod_template merge_type_fill_empty_values a b = refl
field-merge_by at_pod_template merge_type_override_by_non_empty_values a b = refl
field-merge_by at_data_volume_claim_template merge_type_fill_empty_values a b = refl
field-merge_by at_data_volume_claim_template merge_type_override_by_non_empty_values a b = refl
field-merge_by at_log_volume_claim_template merge_type_fill_empty_values a b = refl
field-merge_by at_log_volume_claim_template merge_type_override_by_non_empty_values a b = refl
field-merge_by at_service_template merge_type_fill_empty_values a b = refl
field-merge_by at_service_template merge_type_override_by_non_empty_values a b = refl
field-merge_by at_cluster_service_template merge_type_fill_empty_values a b = refl
field-merge_by at_cluster_service_template merge_type_override_by_non_empty_values a b = refl
field-merge_by at_shard_service_template merge_type_fill_empty_values a b = refl
field-merge_by at_shard_service_template merge_type_override_by_non_empty_values a b = refl
field-merge_by at_replica_service_template merge_type_fill_empty_values a b = refl
field-merge_by at_replica_service_template merge_type_override_by_non_empty_values a b = refl
field-merge_by at_volume_claim_template merge_type_fill_empty_values a b = refl
field-merge_by at_volume_claim_template merge_type_override_by_non_empty_values a b = refl

field-empty : (f : Field) → field f new_chi_template_names ≡ ""
field-empty at_host_template = refl
field-empty at_pod_template = refl
field-empty at_data_volume_claim_template = refl
field-empty at_log_volume_claim_template = refl
field-empty at_service_template = refl
field-empty at_cluster_service_template = refl
field-empty at_shard_service_template = refl
field-empty at_replica_service_template = refl
field-empty at_volume_claim_template = refl

-- A merge of template names works field by field, by filling or by overwriting, and a nil source
-- changes nothing.
pub named-merge_from :
    (f : Field) (t : MergeType) (a b : Option ChiTemplateNames)
    → named f (merge_from a b t) ≡ by_type t (named f a) (named f b)
unfolding merge_from
named-merge_from f merge_type_fill_empty_values a none =
    rw field-empty (ground (arith, eq_iff (named f a) ""))
named-merge_from f merge_type_override_by_non_empty_values a none = rw field-empty refl
named-merge_from f t a (some b) = field-merge_by f t (ensure a) b

-- Merging is associative, for each type of merge and in every field.
pub merge_from_assoc :
    (f : Field) (t : MergeType) (a b c : Option ChiTemplateNames)
    → named f (merge_from (merge_from a b t) c t) ≡ named f (merge_from a (merge_from b c t) t)
merge_from_assoc f merge_type_fill_empty_values a b c = ground (
  arith,
  named-merge_from f merge_type_fill_empty_values (merge_from a b merge_type_fill_empty_values) c,
  named-merge_from f merge_type_fill_empty_values a b,
  named-merge_from f merge_type_fill_empty_values a (merge_from b c merge_type_fill_empty_values),
  named-merge_from f merge_type_fill_empty_values b c,
  eq_iff (named f a) "",
)
merge_from_assoc f merge_type_override_by_non_empty_values a b c = ground (
  arith,
  named-merge_from f merge_type_override_by_non_empty_values
      (merge_from a b merge_type_override_by_non_empty_values) c,
  named-merge_from f merge_type_override_by_non_empty_values a b,
  named-merge_from f merge_type_override_by_non_empty_values a
      (merge_from b c merge_type_override_by_non_empty_values),
  named-merge_from f merge_type_override_by_non_empty_values b c,
  eq_iff (named f c) "",
)

data_claim-handle :
    (a : Option ChiTemplateNames)
    → named at_data_volume_claim_template (handle_deprecated_fields a)
      ≡ fill (named at_data_volume_claim_template a) (named at_volume_claim_template a)
unfolding handle_deprecated_fields
data_claim-handle none = refl
data_claim-handle (some a) = refl

data_claim-get :
    (c : Option ChiTemplateNames)
    → get_data_volume_claim_template c ≡ named at_data_volume_claim_template c
unfolding get_data_volume_claim_template
data_claim-get none = refl
data_claim-get (some c) = refl

-- the first name given of a part's own one, its container's one, and then the deprecated ones
abbrev pub first_claim : Option ChiTemplateNames → Option ChiTemplateNames → String
first_claim a b = fill (get_data_volume_claim_template a) (
    fill (get_data_volume_claim_template b)
      (fill (named at_volume_claim_template a) (named at_volume_claim_template b)))

handled-data_claim :
    (a b : Option ChiTemplateNames)
    → get_data_volume_claim_template
        (handle_deprecated_fields (merge_from a b merge_type_fill_empty_values))
      ≡ first_claim a b
handled-data_claim a b = ground (
  arith,
  data_claim-get (handle_deprecated_fields (merge_from a b merge_type_fill_empty_values)),
  data_claim-get a,
  data_claim-get b,
  data_claim-handle (merge_from a b merge_type_fill_empty_values),
  named-merge_from at_data_volume_claim_template merge_type_fill_empty_values a b,
  named-merge_from at_volume_claim_template merge_type_fill_empty_values a b,
  eq_iff (named at_data_volume_claim_template a) "",
)

-- what a cluster gets from the defaults
abbrev pub cluster_claim : Option ChiTemplateNames → Option (Option ChiTemplateNames) → String
cluster_claim a none = get_data_volume_claim_template a
cluster_claim a (some none) = get_data_volume_claim_template a
cluster_claim a (some (some b)) = first_claim a (some b)

-- After a shard or a replica inherited from its cluster, its data volume claim template is the
-- first name given of its own one, the cluster's one, its deprecated one and the cluster's
-- deprecated one. The same holds of a cluster and the default templates of its installation if
-- there are any, and otherwise a cluster keeps its own name, even if that is empty and it has a
-- deprecated one.
pub inherit_templates_from-data_claim :
    (part cluster : Option ChiTemplateNames) (defaults : Option (Option ChiTemplateNames))
    → (get_data_volume_claim_template (inherit_templates_from part cluster)
        ≡ first_claim part cluster)
      × (get_data_volume_claim_template (cluster_inherit_templates_from cluster defaults)
          ≡ cluster_claim cluster defaults)
unfolding inherit_templates_from cluster_inherit_templates_from
inherit_templates_from-data_claim part cluster none = (handled-data_claim part cluster, refl)
inherit_templates_from-data_claim part cluster (some none) = (handled-data_claim part cluster, refl)
inherit_templates_from-data_claim part cluster (some (some b)) =
    (handled-data_claim part cluster, handled-data_claim cluster (some b))

pod_template-handle :
    (a : Option ChiTemplateNames)
    → named at_pod_template (handle_deprecated_fields a) ≡ named at_pod_template a
unfolding handle_deprecated_fields
pod_template-handle none = refl
pod_template-handle (some a) = refl

-- the names of a part that may be absent
abbrev pub of_part : Option (Option ChiTemplateNames) → Option ChiTemplateNames
of_part none = none
of_part (some names) = names

named-merge_part :
    (f : Field) (a : Option ChiTemplateNames) (part : Option (Option ChiTemplateNames))
    → named f (merge_part a part) ≡ fill (named f a) (named f (of_part part))
unfolding merge_part
named-merge_part f a none = rw field-empty (ground (arith, eq_iff (named f a) ""))
named-merge_part f a (some b) = named-merge_from f merge_type_fill_empty_values a b

-- A host's pod template is the first one given of its own, its shard's, its replica's and its host
-- template's.
pub host_inherit_templates_from-pod_template :
    (host : Option ChiTemplateNames) (shard replica template : Option (Option ChiTemplateNames))
    → named at_pod_template (host_inherit_templates_from host shard replica template)
      ≡ fill (named at_pod_template host) (
          fill (named at_pod_template (of_part shard)) (
            fill
              (named at_pod_template (of_part replica))
              (named at_pod_template (of_part template))))
unfolding host_inherit_templates_from
host_inherit_templates_from-pod_template host shard replica template = ground (
  arith,
  pod_template-handle (merge_part (merge_part (merge_part host shard) replica) template),
  named-merge_part at_pod_template (merge_part (merge_part host shard) replica) template,
  named-merge_part at_pod_template (merge_part host shard) replica,
  named-merge_part at_pod_template host shard,
  eq_iff (named at_pod_template host) "",
)
