-- ===== src/Api/Sizing.antt =====
-- api/v1beta1: quotas, limit ranges and the T-shirt sizes that hold presets of both.
use project_onboarding_opera.Base.{String, Bool, Option, List}
use project_onboarding_opera.Base.Text.{ℤ}

pub record StorageClassQuota : Type 0 where
  pub key : String
  pub value : String

pub record ResourceQuotaLimitSpec : Type 0 where
  pub cpu : Option String
  pub memory : Option String
  pub ephemeral_storage : Option String

pub record ResourceQuotaRequestSpec : Type 0 where
  pub cpu : Option String
  pub memory : Option String
  pub storage : Option String
  pub ephemeral_storage : Option String

pub record ResourceQuotaSpec : Type 0 where
  pub enabled : Option Bool
  pub cpu : Option String
  pub memory : Option String
  pub ephemeral_storage : Option String
  pub pods : Option ℤ
  pub replication_controllers : Option ℤ
  pub resource_quotas : Option ℤ
  pub services : Option ℤ
  pub secrets : Option ℤ
  pub config_maps : Option ℤ
  pub persistent_volume_claims : Option ℤ
  pub limits : Option ResourceQuotaLimitSpec
  pub requests : Option ResourceQuotaRequestSpec
  pub storage_classes : List StorageClassQuota

pub record ResourceAmountSpec : Type 0 where
  pub cpu : Option String
  pub memory : Option String

pub record StorageAmountSpec : Type 0 where
  pub storage : Option String

pub record LimitRangePodSpec : Type 0 where
  pub max : Option ResourceAmountSpec
  pub min : Option ResourceAmountSpec

pub record LimitRangeContainerSpec : Type 0 where
  pub max : Option ResourceAmountSpec
  pub min : Option ResourceAmountSpec
  pub default : Option ResourceAmountSpec
  pub default_request : Option ResourceAmountSpec

pub record LimitRangePvcSpec : Type 0 where
  pub min : Option StorageAmountSpec
  pub max : Option StorageAmountSpec

pub record LimitRangeSpec : Type 0 where
  pub enabled : Option Bool
  pub pod : Option LimitRangePodSpec
  pub container : Option LimitRangeContainerSpec
  pub pvc : Option LimitRangePvcSpec

pub record TShirtSizeSpec : Type 0 where
  pub description : String
  pub resource_quotas : Option ResourceQuotaSpec
  pub limit_ranges : Option LimitRangeSpec
