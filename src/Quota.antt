-- ===== src/Quota.antt =====
-- internal/onboarding/reconcile_quota.go: the quota and the limit range that a resolved entry asks
-- for. `resource.MustParse` panics where `resource.ParseQuantity`, the parameter `parse_error`,
-- reports an error. A quantity is kept as the text that it was parsed from.
mod Parsing
pub mod Panics
pub mod Blanks
use project_onboarding_opera.Base.{
  String, ◌<>◌, Bool, Option, none, some, List, [], ◌∷◌, ◌++◌, Outcome, ok, panic, ◌>>=◌,
  if◌then◌else◌,
}
use project_onboarding_opera.Base.Dict.{Dict, insert}
use project_onboarding_opera.Base.Text.{ℤ, is_empty, trim_space, decimal_signed}
use project_onboarding_opera.Helpers.Names.{normalize_quantity}
use project_onboarding_opera.Api.{
  StorageClassQuota, ResourceQuotaLimitSpec, ResourceQuotaRequestSpec, ResourceQuotaSpec,
  ResourceAmountSpec, StorageAmountSpec, LimitRangePodSpec, LimitRangeContainerSpec,
  LimitRangePvcSpec, LimitRangeSpec,
}

pub record Quantity : Type 0 where
  pub text : String

abbrev pub ResourceList : Type 0
ResourceList = Dict Quantity

-- corev1.LimitRangeItem; a nil map is the empty one.
pub record LimitRangeItem : Type 0 where
  pub type : String
  pub max : ResourceList
  pub min : ResourceList
  pub default : ResourceList
  pub default_request : ResourceList

module _ (parse_error : String → Option String) where
  -- resource.MustParse
  unfoldable pub must_parse : String → Outcome Quantity
  must_parse text = elim (parse_error text) [
    | none ↦ ok (record { text = text })
    | some err ↦ panic ("cannot parse '" <> (text <> ("': " <> err)))
  ]

  -- The closure `setQuantity` of `buildResourceQuotaHard`.
  unfoldable pub set_quantity : String → Option String → ResourceList → Outcome ResourceList
  set_quantity name none hard = ok hard
  set_quantity name (some value) hard =
      if is_empty (trim_space value)
      then ok hard
      else (must_parse (normalize_quantity value) >>= λ q. ok (insert name q hard))

  -- The closure `setCount`.
  unfoldable pub set_count : String → Option ℤ → ResourceList → Outcome ResourceList
  set_count name none hard = ok hard
  set_count name (some value) hard =
      must_parse (decimal_signed value) >>= λ q. ok (insert name q hard)

  unfoldable pub set_limits : Option ResourceQuotaLimitSpec → ResourceList → Outcome ResourceList
  set_limits none hard = ok hard
  set_limits (some limits) hard = do
    h₁ ← set_quantity "limits.cpu" limits.cpu hard
    h₂ ← set_quantity "limits.memory" limits.memory h₁
    set_quantity "limits.ephemeral-storage" limits.ephemeral_storage h₂

  unfoldable pub set_requests :
      Option ResourceQuotaRequestSpec → ResourceList → Outcome ResourceList
  set_requests none hard = ok hard
  set_requests (some requests) hard = do
    h₁ ← set_quantity "requests.cpu" requests.cpu hard
    h₂ ← set_quantity "requests.memory" requests.memory h₁
    h₃ ← set_quantity "requests.storage" requests.storage h₂
    set_quantity "requests.ephemeral-storage" requests.ephemeral_storage h₃

  unfoldable pub set_storage_classes : List StorageClassQuota → ResourceList → Outcome ResourceList
  set_storage_classes [] hard = ok hard
  set_storage_classes (entry ∷ entries) hard =
      let skipped = set_storage_classes entries hard in
      let stored = must_parse (normalize_quantity entry.value) >>= λ q.
      set_storage_classes entries (insert entry.key q hard) in
      if is_empty entry.key then skipped else stored

  unfoldable pub build_resource_quota_hard : ResourceQuotaSpec → Outcome ResourceList
  build_resource_quota_hard spec = do
    h₁ ← set_count "pods" spec.pods []
    h₂ ← set_quantity "cpu" spec.cpu h₁
    h₃ ← set_quantity "memory" spec.memory h₂
    h₄ ← set_quantity "ephemeral-storage" spec.ephemeral_storage h₃
    h₅ ← set_count "replicationcontrollers" spec.replication_controllers h₄
    h₆ ← set_count "resourcequotas" spec.resource_quotas h₅
    h₇ ← set_count "services" spec.services h₆
    h₈ ← set_count "secrets" spec.secrets h₇
    h₉ ← set_count "configmaps" spec.config_maps h₈
    k₁ ← set_count "persistentvolumeclaims" spec.persistent_volume_claims h₉
    k₂ ← set_limits spec.limits k₁
    k₃ ← set_requests spec.requests k₂
    set_storage_classes spec.storage_classes k₃

  -- One entry of `resourceAmount`.
  put_amount : String → Option String → (String → String) → ResourceList → Outcome ResourceList
  put_amount name none spell out = ok out
  put_amount name (some value) spell out = must_parse (spell value) >>= λ q. ok (insert name q out)

  unfoldable pub resource_amount : Option ResourceAmountSpec → Outcome ResourceList
  unfolding put_amount
  resource_amount none = ok []
  resource_amount (some spec) = do
    out ← put_amount "cpu" spec.cpu (λ value. value) []
    put_amount "memory" spec.memory normalize_quantity out

  storage_bound : Option StorageAmountSpec → Outcome ResourceList
  unfolding put_amount
  storage_bound none = ok []
  storage_bound (some spec) = put_amount "storage" spec.storage normalize_quantity []

  pod_items : Option LimitRangePodSpec → Outcome (List LimitRangeItem)
  pod_items none = ok []
  pod_items (some pod) = do
    max ← resource_amount pod.max
    min ← resource_amount pod.min
    ok (record { type = "Pod"; max = max; min = min; default = []; default_request = [] } ∷ [])

  container_items : Option LimitRangeContainerSpec → Outcome (List LimitRangeItem)
  container_items none = ok []
  container_items (some container) = do
    max ← resource_amount container.max
    min ← resource_amount container.min
    default ← resource_amount container.default
    default_request ← resource_amount container.default_request
    ok (
        record {
          type = "Container";
          max = max;
          min = min;
          default = default;
          default_request = default_request;
        }
        ∷ [])

  pvc_items : Option LimitRangePvcSpec → Outcome (List LimitRangeItem)
  unfolding storage_bound
  pvc_items none = ok []
  pvc_items (some pvc) = do
    min ← storage_bound pvc.min
    max ← storage_bound pvc.max
    ok (
        record {
          type = "PersistentVolumeClaim";
          max = max;
          min = min;
          default = [];
          default_request = [];
        }
        ∷ [])

  unfoldable pub build_limit_range_items : LimitRangeSpec → Outcome (List LimitRangeItem)
  unfolding pod_items container_items pvc_items
  build_limit_range_items spec = do
    pod ← pod_items spec.pod
    container ← container_items spec.container
    pvc ← pvc_items spec.pvc
    ok (pod ++ (container ++ pvc))
