-- ===== src/TemplateNames/Tests.antt =====
-- A part with a deprecated name for its volume claims, and the part that contains it.
use radondb_clickhouse_opera.Base.{String, ◌≡◌, Option, none, some}
use radondb_clickhouse_opera.TemplateNames.{
  ChiTemplateNames, cluster_inherit_templates_from, inherit_templates_from,
  get_data_volume_claim_template,
}
use radondb_clickhouse_opera.TemplateNames.Laws.{inherit_templates_from-data_claim}

abbrev of : String → String → String → Option ChiTemplateNames
of pod claim deprecated = some record {
  host_template = "";
  pod_template = pod;
  data_volume_claim_template = claim;
  log_volume_claim_template = "";
  service_template = "";
  cluster_service_template = "";
  shard_service_template = "";
  replica_service_template = "";
  volume_claim_template = deprecated;
}

inherit_templates_from-data_claim_example :
    (get_data_volume_claim_template (inherit_templates_from (of "" "" "mine") (of "" "default" ""))
      ≡ "default")
    × (get_data_volume_claim_template (cluster_inherit_templates_from (of "" "default" "") none)
        ≡ "default")
unfolding get_data_volume_claim_template
inherit_templates_from-data_claim_example =
    inherit_templates_from-data_claim (of "" "" "mine") (of "" "default" "") none
