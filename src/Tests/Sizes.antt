-- ===== src/Tests/Sizes.antt =====
-- Resolving and merging sizes, and what admission promises, at concrete specs.
use project_onboarding_opera.Base.{
  String, ◌≡◌, refl, true, false, none, some, List, [], ◌∷◌, Outcome, ok, fail, Reason, api,
  Succeeds, if◌then◌else◌, ◌==◌, is_some, ◌↔◌, ◌⊎◌,
}
use project_onboarding_opera.Base.Text.{pos, trim_space, trim_left, trim_right, is_space}
use project_onboarding_opera.Base.Lists.{All, member}
use project_onboarding_opera.Api.{
  StorageClassQuota, LimitRangeSpec, ResourceQuotaSpec, TShirtSizeSpec, NamespaceSpec,
  ProjectOnboarding,
}
use project_onboarding_opera.Sizing.Merge.{
  merge_limit_range_spec, merge_resource_quota_spec, merge_storage_classes,
}
use project_onboarding_opera.Sizing.Resolve.{
  apply_tshirt, quota_switch, limit_switch, is_overwrite_tshirt,
}
use project_onboarding_opera.Sizing.Fields.{LimitPath, Amount, limit_value, limit_value-merge}
use project_onboarding_opera.Sizing.QuotaFields.{
  QuotaName, CountName, quota_value, count_value, quota_value-merge, count_value-merge,
}
use project_onboarding_opera.Sizing.StorageClasses.{last_value, last_value-merge_storage_classes}
use project_onboarding_opera.Sizing.Laws.{
  apply_tshirt-inline, apply_tshirt-quota_iff, apply_tshirt-limit_iff,
}
use project_onboarding_opera.Sizing.Catalogue.{
  resolve_namespace_spec, validate_project_onboarding, validate_namespace_specs,
  validate_namespace_spec, check_tshirt,
}
use project_onboarding_opera.Validation.Resources.{
  validate_unique_namespace_names, validate_unique_onto, validate_git_ops_requirements,
  is_enabled_ptr, has_projects, tshirt_size_spec_has_sizing, resource_quota_spec_has_values,
  limit_range_spec_has_values,
}
use project_onboarding_opera.Validation.Quantity.{
  validate_resource_quota_spec, validate_limit_range_spec, validate_cpu_quantity,
  validate_byte_quantity, validate_resource_quota_limit_spec, validate_resource_quota_request_spec,
  validate_storage_classes, validate_resource_amount_spec,
}
use project_onboarding_opera.Tests.Parsers.{spaceless_error}
use project_onboarding_opera.Sizing.Catalogue.Admitted.{validate_project_onboarding-resolves}
use project_onboarding_opera.Tests.Samples.{
  as_added, teams, team_a, empty_quota, empty_limits, small,
}

abbrev pod_cpu : String → LimitRangeSpec
pod_cpu v = record empty_limits {
  pod = some (record { max = some (record { cpu = some v; memory = none }); min = none });
}

limit_value-merge_example :
    limit_value
      (LimitPath.pod_max Amount.cpu)
      (merge_limit_range_spec (some (pod_cpu "4")) (some (pod_cpu "2")))
    ≡ some "2"
unfolding limit_value
limit_value-merge_example =
    limit_value-merge (LimitPath.pod_max Amount.cpu) (some (pod_cpu "4")) (some (pod_cpu "2"))

abbrev own_quota : ResourceQuotaSpec
own_quota = record empty_quota { cpu = some "1"; pods = some (pos 7) }

quota_value-merge_example :
    quota_value QuotaName.memory
      (merge_resource_quota_spec as_added small.resource_quotas (some own_quota))
    ≡ some "4Gi"
unfolding quota_value
quota_value-merge_example =
    quota_value-merge as_added QuotaName.memory small.resource_quotas (some own_quota)

count_value-merge_example :
    count_value CountName.pods
      (merge_resource_quota_spec as_added small.resource_quotas (some own_quota))
    ≡ some (pos 7)
unfolding count_value
count_value-merge_example =
    count_value-merge as_added CountName.pods small.resource_quotas (some own_quota)

abbrev gold : String → List StorageClassQuota
gold v = (record { key = "gold"; value = v }) ∷ []

last_value-merge_storage_classes_example :
    last_value "gold" (merge_storage_classes as_added (gold "1Gi") (gold "5Gi")) ≡ some "5Gi"
unfolding last_value
last_value-merge_storage_classes_example =
    last_value-merge_storage_classes as_added "gold" (gold "1Gi") (gold "5Gi") refl

-- A tenant of the small size.
abbrev sized : NamespaceSpec
sized = record team_a {
  project_size = "small";
  resource_quotas = some own_quota;
  limit_ranges = some (pod_cpu "2");
}

plain : is_overwrite_tshirt none ≡ false
unfolding is_overwrite_tshirt
plain = refl

apply_tshirt-inline_example :
    ((apply_tshirt as_added small (record sized {
      resource_quotas = some own_quota;
      limit_ranges = some (pod_cpu "2");
    })).resource_quotas
      ≡ (apply_tshirt as_added small (record sized {
        resource_quotas = some empty_quota;
        limit_ranges = some (pod_cpu "9");
      })).resource_quotas)
    × ((apply_tshirt as_added small (record sized {
      resource_quotas = some own_quota;
      limit_ranges = some (pod_cpu "2");
    })).limit_ranges
        ≡ (apply_tshirt as_added small (record sized {
          resource_quotas = some empty_quota;
          limit_ranges = some (pod_cpu "9");
        })).limit_ranges)
apply_tshirt-inline_example =
    apply_tshirt-inline as_added small sized own_quota empty_quota (pod_cpu "2") (pod_cpu "9") plain
      refl refl

apply_tshirt-quota_iff_example :
    (is_some (apply_tshirt as_added small sized).resource_quotas ≡ true) ↔ (
      (quota_switch sized.resource_quotas ≡ some true)
      × ((is_some small.resource_quotas ≡ true) ⊎ (sized.overwrite_tshirt ≡ some true)))
apply_tshirt-quota_iff_example = apply_tshirt-quota_iff as_added small sized refl

apply_tshirt-limit_iff_example :
    (is_some (apply_tshirt as_added small sized).limit_ranges ≡ true) ↔ (
      (limit_switch sized.limit_ranges ≡ some true)
      × ((is_some small.limit_ranges ≡ true) ⊎ (sized.overwrite_tshirt ≡ some true)))
apply_tshirt-limit_iff_example = apply_tshirt-limit_iff as_added small sized refl

-- A catalogue with the small size alone.
abbrev catalogue : String → Outcome TShirtSizeSpec
catalogue name = if name == "small" then ok small else fail (api Reason.not_found "not found")

abbrev sized_teams : ProjectOnboarding
sized_teams = record teams { namespaces = sized ∷ [] }

sized_admitted : validate_project_onboarding catalogue spaceless_error sized_teams ≡ ok tt
unfolding validate_project_onboarding validate_namespace_specs validate_namespace_spec check_tshirt
    validate_unique_namespace_names validate_unique_onto validate_git_ops_requirements
    is_enabled_ptr has_projects member tshirt_size_spec_has_sizing resource_quota_spec_has_values
    limit_range_spec_has_values validate_resource_quota_spec validate_limit_range_spec
    validate_cpu_quantity validate_byte_quantity validate_resource_quota_limit_spec
    validate_resource_quota_request_spec validate_storage_classes validate_resource_amount_spec
    spaceless_error trim_space trim_left trim_right is_space
sized_admitted = refl

validate_project_onboarding-resolves_example :
    All (λ ns. Succeeds (resolve_namespace_spec catalogue as_added ns)) sized_teams.namespaces
validate_project_onboarding-resolves_example =
    validate_project_onboarding-resolves catalogue as_added spaceless_error sized_teams
      sized_admitted
