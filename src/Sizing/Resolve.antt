-- ===== src/Sizing/Resolve.antt =====
-- internal/onboarding/tshirt_merge.go: which quotas and limit ranges a namespace entry ends with.
use project_onboarding_opera.Base.{
  Bool, false, not, ◌&&◌, Option, none, some, if◌then◌else◌, is_some,
}
use project_onboarding_opera.Base.Text.{is_empty}
use project_onboarding_opera.Api.{ResourceQuotaSpec, LimitRangeSpec, TShirtSizeSpec, NamespaceSpec}
use project_onboarding_opera.Helpers.Maps.{MapOrder}
use project_onboarding_opera.Sizing.Merge.{
  ensure_quota_enabled, ensure_limit_range_enabled, merge_resource_quota_spec,
  merge_limit_range_spec,
}

unfoldable pub is_explicitly_enabled : Option Bool → Bool
is_explicitly_enabled none = false
is_explicitly_enabled (some b) = b

unfoldable pub is_overwrite_tshirt : Option Bool → Bool
is_overwrite_tshirt none = false
is_overwrite_tshirt (some b) = b

-- The `enabled` switch of a block that may be missing.
abbrev pub quota_switch : Option ResourceQuotaSpec → Option Bool
quota_switch none = none
quota_switch (some q) = q.enabled

abbrev pub limit_switch : Option LimitRangeSpec → Option Bool
limit_switch none = none
limit_switch (some lr) = lr.enabled

unfoldable pub should_apply_tshirt_resource_quotas : NamespaceSpec → Bool
unfolding is_explicitly_enabled
should_apply_tshirt_resource_quotas ns =
    not (is_empty ns.project_size)
    && is_some ns.resource_quotas
    && is_explicitly_enabled (quota_switch ns.resource_quotas)

unfoldable pub should_apply_tshirt_limit_ranges : NamespaceSpec → Bool
unfolding is_explicitly_enabled
should_apply_tshirt_limit_ranges ns =
    not (is_empty ns.project_size)
    && is_some ns.limit_ranges
    && is_explicitly_enabled (limit_switch ns.limit_ranges)

unfoldable pub should_merge_tshirt_overrides : NamespaceSpec → Bool
unfolding is_overwrite_tshirt
should_merge_tshirt_overrides ns = is_overwrite_tshirt ns.overwrite_tshirt

-- What `ResolveNamespaceSpec` answers once it has read the T-shirt size.
unfoldable pub apply_tshirt : MapOrder → TShirtSizeSpec → NamespaceSpec → NamespaceSpec
unfolding should_apply_tshirt_resource_quotas should_apply_tshirt_limit_ranges
    should_merge_tshirt_overrides
apply_tshirt order tshirt ns =
    let quota = should_apply_tshirt_resource_quotas ns in
    let limits = should_apply_tshirt_limit_ranges ns in
    if should_merge_tshirt_overrides ns
    then record ns {
      resource_quotas =
          if quota
          then merge_resource_quota_spec order tshirt.resource_quotas ns.resource_quotas
          else none;
      limit_ranges =
          if limits then merge_limit_range_spec tshirt.limit_ranges ns.limit_ranges else none;
    }
    else record ns {
      resource_quotas = if quota then ensure_quota_enabled tshirt.resource_quotas else none;
      limit_ranges = if limits then ensure_limit_range_enabled tshirt.limit_ranges else none;
    }
