-- ===== src/Templates.antt =====
-- pkg/apis/clickhouse.radondb.com/v1/type_templates.go: the lists of templates of an installation,
-- their merge, and their indexes by name. The four kinds of templates are parameters, with the name
-- of a template; a merge of two templates is that of the library mergo, and a parameter as well.
pub mod Index
pub mod Pods
pub mod Distributions
pub mod Laws
mod Tests
use radondb_clickhouse_opera.Base.{
  ℕ, ◌+◌, String, Bool, true, false, Option, none, some, List, [], ◌∷◌, ◌++◌, ◌==◌,
}
use radondb_clickhouse_opera.Base.Tests.{if◌then◌else◌, eqb}
use radondb_clickhouse_opera.Base.Lists.{length}

-- a kind of template: the name, and mergo's merge into the first argument
pub record Kind {ℓ} (T : Type ℓ) : Type ℓ where
  pub name : T → String
  pub merge : T → T → T

module _ {ℓ} {T : Type ℓ} (kind : Kind T) where
  -- the loop over the receiver's templates, which stops at the first one of that name
  override_first : T → List T → List T × Bool
  override_first from [] = ([], false)
  override_first from (to ∷ rest) =
      let r = override_first from rest in
      if kind.name to == kind.name from then (kind.merge to from ∷ rest, true) else (to ∷ r.0, r.1)

  -- the template is merged, or appended if the name is new
  merge_template : T → List T → List T
  unfolding override_first
  merge_template from to = let r = override_first from to in if r.1 then r.0 else to ++ (from ∷ [])

  unfoldable pub merge_loop : List T → List T → List T
  unfolding merge_template
  merge_loop [] to = to
  merge_loop (from ∷ froms) to = merge_loop froms (merge_template from to)

pub record ChiTemplates {ℓ} (H P V S : Type ℓ) : Type ℓ where
  pub host_templates : List H
  pub pod_templates : List P
  pub volume_claim_templates : List V
  pub service_templates : List S

module _ {ℓ} {H P V S : Type ℓ} where
  abbrev pub new_chi_templates : ChiTemplates H P V S
  new_chi_templates = record {
    host_templates = [];
    pod_templates = [];
    volume_claim_templates = [];
    service_templates = [];
  }

  unfoldable pub len : Option (ChiTemplates H P V S) → ℕ
  len none = 0
  len (some t) =
      0
      + length t.host_templates
      + length t.pod_templates
      + length t.volume_claim_templates
      + length t.service_templates

  abbrev pub ensure : Option (ChiTemplates H P V S) → ChiTemplates H P V S
  ensure none = new_chi_templates
  ensure (some t) = t

  module _ (host : Kind H) (pod : Kind P) (volume_claim : Kind V) (service : Kind S) where
    unfoldable pub merge_host_templates :
        ChiTemplates H P V S → ChiTemplates H P V S → ChiTemplates H P V S
    merge_host_templates t from = record t {
      host_templates = merge_loop host from.host_templates t.host_templates;
    }

    unfoldable pub merge_pod_templates :
        ChiTemplates H P V S → ChiTemplates H P V S → ChiTemplates H P V S
    merge_pod_templates t from = record t {
      pod_templates = merge_loop pod from.pod_templates t.pod_templates;
    }

    unfoldable pub merge_volume_claim_templates :
        ChiTemplates H P V S → ChiTemplates H P V S → ChiTemplates H P V S
    merge_volume_claim_templates t from = record t {
      volume_claim_templates =
          merge_loop volume_claim from.volume_claim_templates t.volume_claim_templates;
    }

    unfoldable pub merge_service_templates :
        ChiTemplates H P V S → ChiTemplates H P V S → ChiTemplates H P V S
    merge_service_templates t from = record t {
      service_templates = merge_loop service from.service_templates t.service_templates;
    }

    merge_all : ChiTemplates H P V S → ChiTemplates H P V S → ChiTemplates H P V S
    merge_all t from =
        merge_service_templates
          (merge_volume_claim_templates (merge_pod_templates (merge_host_templates t from) from)
            from)
          from

    -- the type of a merge is not read
    unfoldable pub merge_from :
        Option (ChiTemplates H P V S)
        → Option (ChiTemplates H P V S)
        → Option (ChiTemplates H P V S)
    unfolding merge_all
    merge_from t none = t
    merge_from t (some from) =
        if eqb (len (some from)) 0 then t else some (merge_all (ensure t) from)
