-- ===== src/Sizing/Laws.antt =====
-- Resolving a sizing: what decides whether it is there, and what an entry can change without
-- `overwriteTshirt`.
use project_onboarding_opera.Base.{◌≡◌, ◌↔◌, ◌⊎◌, true, false, some, arith, is_some}
use project_onboarding_opera.Base.Text.{is_empty}
use project_onboarding_opera.Api.{ResourceQuotaSpec, LimitRangeSpec, TShirtSizeSpec, NamespaceSpec}
use project_onboarding_opera.Helpers.Maps.{MapOrder}
use project_onboarding_opera.Sizing.Merge.{merge_limit_range_spec, merge_resource_quota_spec}
use project_onboarding_opera.Sizing.Resolve.{
  is_overwrite_tshirt, quota_switch, limit_switch, apply_tshirt,
}

-- Without `overwriteTshirt: true` the sizing of a resolved entry comes from the catalogue alone: two
-- entries that agree on their switches get the same quotas and limit ranges, whatever their own
-- limits are.
pub apply_tshirt-inline :
    (order : MapOrder) (tshirt : TShirtSizeSpec) (ns : NamespaceSpec) (q r : ResourceQuotaSpec)
    (l k : LimitRangeSpec)
    → is_overwrite_tshirt ns.overwrite_tshirt ≡ false
    → q.enabled ≡ r.enabled
    → l.enabled ≡ k.enabled
    → let a =
        apply_tshirt order tshirt (record ns { resource_quotas = some q; limit_ranges = some l }) in
      let b =
        apply_tshirt order tshirt (record ns { resource_quotas = some r; limit_ranges = some k }) in
      (a.resource_quotas ≡ b.resource_quotas) × (a.limit_ranges ≡ b.limit_ranges)
unfolding apply_tshirt
apply_tshirt-inline order tshirt ns q r l k plain same same' = (ground arith, ground arith)

-- An entry with a project size, once it is resolved, has a resource quota exactly if its own quota block is there with
-- `enabled: true` and the catalogue provides a quota or the entry says `overwriteTshirt: true`.
pub apply_tshirt-quota_iff :
    (order : MapOrder) (tshirt : TShirtSizeSpec) (ns : NamespaceSpec)
    → is_empty ns.project_size ≡ false
    → (is_some (apply_tshirt order tshirt ns).resource_quotas ≡ true) ↔ (
        (quota_switch ns.resource_quotas ≡ some true)
        × ((is_some tshirt.resource_quotas ≡ true) ⊎ (ns.overwrite_tshirt ≡ some true)))
unfolding apply_tshirt merge_resource_quota_spec
apply_tshirt-quota_iff order tshirt ns sized = (λ h. ground arith, λ h. ground arith)

-- An entry with a project size, once it is resolved, has a limit range exactly if its own limit range block is there with
-- `enabled: true` and the catalogue provides a limit range or the entry says `overwriteTshirt: true`.
pub apply_tshirt-limit_iff :
    (order : MapOrder) (tshirt : TShirtSizeSpec) (ns : NamespaceSpec)
    → is_empty ns.project_size ≡ false
    → (is_some (apply_tshirt order tshirt ns).limit_ranges ≡ true) ↔ (
        (limit_switch ns.limit_ranges ≡ some true)
        × ((is_some tshirt.limit_ranges ≡ true) ⊎ (ns.overwrite_tshirt ≡ some true)))
unfolding apply_tshirt merge_limit_range_spec
apply_tshirt-limit_iff order tshirt ns sized = (λ h. ground arith, λ h. ground arith)
