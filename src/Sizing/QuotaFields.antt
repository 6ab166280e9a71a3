-- ===== src/Sizing/QuotaFields.antt =====
-- The single limits that a resource quota holds, each under its name, and the law of the merge.
use project_onboarding_opera.Base.{String, ◌≡◌, Option, none, arith, or_else}
use project_onboarding_opera.Base.Text.{ℤ}
use project_onboarding_opera.Api.{
  ResourceQuotaLimitSpec, ResourceQuotaRequestSpec, ResourceQuotaSpec,
}
use project_onboarding_opera.Helpers.Maps.{MapOrder}
use project_onboarding_opera.Sizing.Fields.{within}
use project_onboarding_opera.Sizing.Merge.{
  merge_resource_quota_limits, merge_resource_quota_requests, merge_resource_quota_spec,
}

pub data QuotaName : Type 0 where
  cpu memory ephemeral_storage : QuotaName
  limits_cpu limits_memory limits_ephemeral_storage : QuotaName
  requests_cpu requests_memory requests_storage requests_ephemeral_storage : QuotaName

pub data CountName : Type 0 where
  pods replication_controllers resource_quotas services : CountName
  secrets config_maps persistent_volume_claims : CountName

abbrev limits_value : QuotaName → Option ResourceQuotaLimitSpec → Option String
limits_value limits_cpu o = within o (λ l. l.cpu)
limits_value limits_memory o = within o (λ l. l.memory)
limits_value limits_ephemeral_storage o = within o (λ l. l.ephemeral_storage)
limits_value _ o = none

abbrev requests_value : QuotaName → Option ResourceQuotaRequestSpec → Option String
requests_value requests_cpu o = within o (λ r. r.cpu)
requests_value requests_memory o = within o (λ r. r.memory)
requests_value requests_storage o = within o (λ r. r.storage)
requests_value requests_ephemeral_storage o = within o (λ r. r.ephemeral_storage)
requests_value _ o = none

abbrev own_value : QuotaName → Option ResourceQuotaSpec → Option String
own_value cpu o = within o (λ q. q.cpu)
own_value memory o = within o (λ q. q.memory)
own_value ephemeral_storage o = within o (λ q. q.ephemeral_storage)
own_value _ o = none

-- The limit of that name, wherever in the spec it is written.
unfoldable pub quota_value : QuotaName → Option ResourceQuotaSpec → Option String
quota_value name o = or_else (own_value name o) (
    or_else (limits_value name (within o (λ q. q.limits)))
      (requests_value name (within o (λ q. q.requests))))

unfoldable pub count_value : CountName → Option ResourceQuotaSpec → Option ℤ
count_value pods o = within o (λ q. q.pods)
count_value replication_controllers o = within o (λ q. q.replication_controllers)
count_value resource_quotas o = within o (λ q. q.resource_quotas)
count_value services o = within o (λ q. q.services)
count_value secrets o = within o (λ q. q.secrets)
count_value config_maps o = within o (λ q. q.config_maps)
count_value persistent_volume_claims o = within o (λ q. q.persistent_volume_claims)

limits_value-merge :
    (name : QuotaName) (base over : Option ResourceQuotaLimitSpec)
    → limits_value name (merge_resource_quota_limits base over)
      ≡ or_else (limits_value name over) (limits_value name base)
unfolding merge_resource_quota_limits
limits_value-merge limits_cpu base over = ground arith
limits_value-merge name base over = ground arith

requests_value-merge :
    (name : QuotaName) (base over : Option ResourceQuotaRequestSpec)
    → requests_value name (merge_resource_quota_requests base over)
      ≡ or_else (requests_value name over) (requests_value name base)
unfolding merge_resource_quota_requests
requests_value-merge requests_cpu base over = ground arith
requests_value-merge name base over = ground arith

module _ (order : MapOrder) where
  own_value-merge :
      (name : QuotaName) (base over : Option ResourceQuotaSpec)
      → own_value name (merge_resource_quota_spec order base over)
        ≡ or_else (own_value name over) (own_value name base)
  unfolding merge_resource_quota_spec
  own_value-merge cpu base over = ground arith
  own_value-merge name base over = ground arith

  merged_limits :
      (base over : Option ResourceQuotaSpec)
      → within (merge_resource_quota_spec order base over) (λ q. q.limits)
        ≡ merge_resource_quota_limits (within base (λ q. q.limits)) (within over (λ q. q.limits))
  unfolding merge_resource_quota_spec
  merged_limits base over = ground arith

  merged_requests :
      (base over : Option ResourceQuotaSpec)
      → within (merge_resource_quota_spec order base over) (λ q. q.requests)
        ≡ merge_resource_quota_requests
            (within base (λ q. q.requests))
            (within over (λ q. q.requests))
  unfolding merge_resource_quota_spec
  merged_requests base over = ground arith

  -- Every object count of the merged quota is the one of the namespace entry if the entry sets it,
  -- and the one of the T-shirt size if not.
  pub count_value-merge :
      (name : CountName) (base over : Option ResourceQuotaSpec)
      → count_value name (merge_resource_quota_spec order base over)
        ≡ or_else (count_value name over) (count_value name base)
  unfolding count_value merge_resource_quota_spec
  count_value-merge pods base over = ground arith
  count_value-merge name base over = ground arith

  -- Every limit of the merged quota is the one of the namespace entry if the entry sets it, and
  -- the one of the T-shirt size if not.
  pub quota_value-merge :
      (name : QuotaName) (base over : Option ResourceQuotaSpec)
      → quota_value name (merge_resource_quota_spec order base over)
        ≡ or_else (quota_value name over) (quota_value name base)
  unfolding quota_value
  quota_value-merge cpu base over = ground (arith, own_value-merge cpu base over)
  quota_value-merge name base over = ground (
    arith,
    own_value-merge name base over,
    merged_limits base over,
    merged_requests base over,
    limits_value-merge name (within base (λ q. q.limits)) (within over (λ q. q.limits)),
    requests_value-merge name (within base (λ q. q.requests)) (within over (λ q. q.requests)),
  )
