-- ===== src/Sizing/Merge.antt =====
-- internal/onboarding/tshirt_merge.go: the field by field merge of quotas and limit ranges.
-- `base` comes from the catalogue and `override` from the namespace entry.
use project_onboarding_opera.Base.{Bool, true, Option, none, some, List, [], ◌∷◌, or_else}
use project_onboarding_opera.Helpers.Maps.{
  MapOrder, add_storage_classes, storage_class_quotas_to_map, storage_class_quotas_from_map,
}
use project_onboarding_opera.Api.{
  StorageClassQuota, ResourceQuotaLimitSpec, ResourceQuotaRequestSpec, ResourceQuotaSpec,
  ResourceAmountSpec, StorageAmountSpec, LimitRangePodSpec, LimitRangeContainerSpec,
  LimitRangePvcSpec, LimitRangeSpec,
}

abbrev enabled_or_true : Option Bool → Option Bool
enabled_or_true none = some true
enabled_or_true (some b) = some b

unfoldable pub ensure_quota_enabled : Option ResourceQuotaSpec → Option ResourceQuotaSpec
ensure_quota_enabled none = none
ensure_quota_enabled (some q) = some (record q { enabled = enabled_or_true q.enabled })

unfoldable pub ensure_limit_range_enabled : Option LimitRangeSpec → Option LimitRangeSpec
ensure_limit_range_enabled none = none
ensure_limit_range_enabled (some lr) = some (record lr { enabled = enabled_or_true lr.enabled })

abbrev no_limits : ResourceQuotaLimitSpec
no_limits = record { cpu = none; memory = none; ephemeral_storage = none }

abbrev lay_limits : ResourceQuotaLimitSpec → ResourceQuotaLimitSpec → ResourceQuotaLimitSpec
lay_limits out over = record {
  cpu = or_else over.cpu out.cpu;
  memory = or_else over.memory out.memory;
  ephemeral_storage = or_else over.ephemeral_storage out.ephemeral_storage;
}

unfoldable pub merge_resource_quota_limits :
    Option ResourceQuotaLimitSpec → Option ResourceQuotaLimitSpec → Option ResourceQuotaLimitSpec
merge_resource_quota_limits none none = none
merge_resource_quota_limits (some base) none = some base
merge_resource_quota_limits none (some over) = some (lay_limits no_limits over)
merge_resource_quota_limits (some base) (some over) = some (lay_limits base over)

abbrev no_requests : ResourceQuotaRequestSpec
no_requests = record { cpu = none; memory = none; storage = none; ephemeral_storage = none }

abbrev lay_requests : ResourceQuotaRequestSpec → ResourceQuotaRequestSpec → ResourceQuotaRequestSpec
lay_requests out over = record {
  cpu = or_else over.cpu out.cpu;
  memory = or_else over.memory out.memory;
  storage = or_else over.storage out.storage;
  ephemeral_storage = or_else over.ephemeral_storage out.ephemeral_storage;
}

unfoldable pub merge_resource_quota_requests :
    Option ResourceQuotaRequestSpec
    → Option ResourceQuotaRequestSpec
    → Option ResourceQuotaRequestSpec
merge_resource_quota_requests none none = none
merge_resource_quota_requests (some base) none = some base
merge_resource_quota_requests none (some over) = some (lay_requests no_requests over)
merge_resource_quota_requests (some base) (some over) = some (lay_requests base over)

-- `if len(override.StorageClasses) > 0 { … }`
unfoldable pub merge_storage_classes :
    MapOrder → List StorageClassQuota → List StorageClassQuota → List StorageClassQuota
merge_storage_classes order base [] = base
merge_storage_classes order base (entry ∷ over) =
    storage_class_quotas_from_map order
      (add_storage_classes (storage_class_quotas_to_map base) (entry ∷ over))

abbrev no_quota : ResourceQuotaSpec
no_quota = record {
  enabled = none;
  cpu = none;
  memory = none;
  ephemeral_storage = none;
  pods = none;
  replication_controllers = none;
  resource_quotas = none;
  services = none;
  secrets = none;
  config_maps = none;
  persistent_volume_claims = none;
  limits = none;
  requests = none;
  storage_classes = [];
}

unfoldable pub lay_quota : MapOrder → ResourceQuotaSpec → ResourceQuotaSpec → ResourceQuotaSpec
unfolding merge_resource_quota_limits merge_resource_quota_requests merge_storage_classes
lay_quota order out over = record {
  enabled = or_else over.enabled out.enabled;
  cpu = or_else over.cpu out.cpu;
  memory = or_else over.memory out.memory;
  ephemeral_storage = or_else over.ephemeral_storage out.ephemeral_storage;
  pods = or_else over.pods out.pods;
  replication_controllers = or_else over.replication_controllers out.replication_controllers;
  resource_quotas = or_else over.resource_quotas out.resource_quotas;
  services = or_else over.services out.services;
  secrets = or_else over.secrets out.secrets;
  config_maps = or_else over.config_maps out.config_maps;
  persistent_volume_claims = or_else over.persistent_volume_claims out.persistent_volume_claims;
  limits = merge_resource_quota_limits out.limits over.limits;
  requests = merge_resource_quota_requests out.requests over.requests;
  storage_classes = merge_storage_classes order out.storage_classes over.storage_classes;
}

unfoldable pub merge_resource_quota_spec :
    MapOrder → Option ResourceQuotaSpec → Option ResourceQuotaSpec → Option ResourceQuotaSpec
unfolding ensure_quota_enabled lay_quota
merge_resource_quota_spec order none none = none
merge_resource_quota_spec order (some base) none = ensure_quota_enabled (some base)
merge_resource_quota_spec order none (some over) =
    ensure_quota_enabled (some (lay_quota order no_quota over))
merge_resource_quota_spec order (some base) (some over) =
    ensure_quota_enabled (some (lay_quota order base over))

abbrev lay_amount : ResourceAmountSpec → ResourceAmountSpec → ResourceAmountSpec
lay_amount out over = record {
  cpu = or_else over.cpu out.cpu;
  memory = or_else over.memory out.memory;
}

unfoldable pub merge_resource_amount :
    Option ResourceAmountSpec → Option ResourceAmountSpec → Option ResourceAmountSpec
merge_resource_amount none none = none
merge_resource_amount (some base) none = some base
merge_resource_amount none (some over) =
    some (lay_amount (record { cpu = none; memory = none }) over)
merge_resource_amount (some base) (some over) = some (lay_amount base over)

abbrev lay_pod : LimitRangePodSpec → LimitRangePodSpec → LimitRangePodSpec
unfolding merge_resource_amount
lay_pod out over = record {
  max = merge_resource_amount out.max over.max;
  min = merge_resource_amount out.min over.min;
}

unfoldable pub merge_limit_range_pod :
    Option LimitRangePodSpec → Option LimitRangePodSpec → Option LimitRangePodSpec
unfolding merge_resource_amount
merge_limit_range_pod none none = none
merge_limit_range_pod (some base) none = some base
merge_limit_range_pod none (some over) = some (lay_pod (record { max = none; min = none }) over)
merge_limit_range_pod (some base) (some over) = some (lay_pod base over)

abbrev lay_container : LimitRangeContainerSpec → LimitRangeContainerSpec → LimitRangeContainerSpec
unfolding merge_resource_amount
lay_container out over = record {
  max = merge_resource_amount out.max over.max;
  min = merge_resource_amount out.min over.min;
  default = merge_resource_amount out.default over.default;
  default_request = merge_resource_amount out.default_request over.default_request;
}

unfoldable pub merge_limit_range_container :
    Option LimitRangeContainerSpec → Option LimitRangeContainerSpec → Option LimitRangeContainerSpec
unfolding merge_resource_amount
merge_limit_range_container none none = none
merge_limit_range_container (some base) none = some base
merge_limit_range_container none (some over) =
    let out : LimitRangeContainerSpec = record {
      max = none;
      min = none;
      default = none;
      default_request = none;
    } in
    some (lay_container out over)
merge_limit_range_container (some base) (some over) = some (lay_container base over)

-- One bound of a persistent volume claim: the nested `if`s on `override.Min` and `override.Max`.
unfoldable pub lay_storage :
    Option StorageAmountSpec → Option StorageAmountSpec → Option StorageAmountSpec
lay_storage out none = out
lay_storage none (some over) = some (record { storage = or_else over.storage none })
lay_storage (some out) (some over) = some (record { storage = or_else over.storage out.storage })

abbrev lay_pvc : LimitRangePvcSpec → LimitRangePvcSpec → LimitRangePvcSpec
unfolding lay_storage
lay_pvc out over = record { min = lay_storage out.min over.min; max = lay_storage out.max over.max }

unfoldable pub merge_limit_range_pvc :
    Option LimitRangePvcSpec → Option LimitRangePvcSpec → Option LimitRangePvcSpec
unfolding lay_storage
merge_limit_range_pvc none none = none
merge_limit_range_pvc (some base) none = some base
merge_limit_range_pvc none (some over) = some (lay_pvc (record { min = none; max = none }) over)
merge_limit_range_pvc (some base) (some over) = some (lay_pvc base over)

abbrev no_limit_range : LimitRangeSpec
no_limit_range = record { enabled = none; pod = none; container = none; pvc = none }

unfoldable pub lay_limit_range : LimitRangeSpec → LimitRangeSpec → LimitRangeSpec
lay_limit_range out over = record {
  enabled = or_else over.enabled out.enabled;
  pod = merge_limit_range_pod out.pod over.pod;
  container = merge_limit_range_container out.container over.container;
  pvc = merge_limit_range_pvc out.pvc over.pvc;
}

unfoldable pub merge_limit_range_spec :
    Option LimitRangeSpec → Option LimitRangeSpec → Option LimitRangeSpec
unfolding ensure_limit_range_enabled lay_limit_range
merge_limit_range_spec none none = none
merge_limit_range_spec (some base) none = ensure_limit_range_enabled (some base)
merge_limit_range_spec none (some over) =
    ensure_limit_range_enabled (some (lay_limit_range no_limit_range over))
merge_limit_range_spec (some base) (some over) =
    ensure_limit_range_enabled (some (lay_limit_range base over))
