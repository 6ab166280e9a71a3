-- ===== src/Reconcile/Tenant.antt =====
-- internal/onboarding: the objects inside a tenant namespace, created or brought up to date
-- (reconcile_quota.go, reconcile_netpol.go, the role binding of reconcile_openshift.go).
use project_onboarding_opera.Base.{String, ◌<>◌, false, Option, [], if◌then◌else◌}
use project_onboarding_opera.Base.Dict.{Dict, overlay}
use project_onboarding_opera.Api.{ResourceQuotaSpec, LimitRangeSpec, NamespaceSpec}
use project_onboarding_opera.Helpers.Names.{group_name, role_binding_name, cluster_role_name}
use project_onboarding_opera.Quota.{build_resource_quota_hard, build_limit_range_items}
use project_onboarding_opera.Content.{Content, quota_spec, limits_spec, policy_spec, binding_spec}
use project_onboarding_opera.NetworkPolicies.{
  NetworkPolicy, default_network_policies, active_network_policies,
}
use project_onboarding_opera.Effects.{
  Effect, Attempt, got, failed, raise, lift, attempt, ◌>>=◌, for_each,
}
use project_onboarding_opera.Cluster.{
  resource_quota, limit_range, network_policy, role_binding, Key, namespaced_key, Object, Client,
  is_not_found,
}
use project_onboarding_opera.Owners.{Machinery, ensure_tenant_namespace_owner_ref}

-- mergeStringMaps, of reconcile_openshift.go
unfoldable pub merge_string_maps : Dict String → Dict String → Dict String
unfolding overlay
merge_string_maps base over = overlay (overlay [] base) over

-- An object of the tenant as it is created.
abbrev pub new_object : Key → Dict String → Content → Object
new_object key labels content = record {
  key = key;
  labels = labels;
  annotations = [];
  owners = [];
  deleting = false;
  content = content;
}

module _ (client : Client) (machinery : Machinery) (scheme : Option machinery.Scheme) where
  -- Creates the object that is wanted, or brings the one that was read up to date.
  unfoldable pub write_owned :
      Option Object → Object → Attempt Object → Effect client.State (Unit {0})
  unfolding merge_string_maps
  write_owned tenant_ns desired (got current) =
      lift (
        ensure_tenant_namespace_owner_ref machinery scheme tenant_ns (record current {
          labels = merge_string_maps current.labels desired.labels;
          content = desired.content;
        }))
      >>= client.patch current
  write_owned tenant_ns desired (failed e) =
      if is_not_found e
      then lift (ensure_tenant_namespace_owner_ref machinery scheme tenant_ns desired)
        >>= client.create
      else raise e

  -- The common part of `reconcileResourceQuota` and its like, from the read on.
  unfoldable pub reconcile_owned : Option Object → Object → Effect client.State (Unit {0})
  unfolding write_owned
  reconcile_owned tenant_ns desired =
      attempt (client.get desired.key) >>= write_owned tenant_ns desired

  module _ (tenant_ns : Option Object) (ns_name : String) (labels : Dict String) where
    module _ (parse_error : String → Option String) where
      unfoldable pub reconcile_resource_quota : ResourceQuotaSpec → Effect client.State (Unit {0})
      unfolding reconcile_owned
      reconcile_resource_quota quota = do
        hard ← lift (build_resource_quota_hard parse_error quota)
        reconcile_owned tenant_ns (
            new_object (namespaced_key resource_quota ns_name (ns_name <> "-quota")) labels
              (quota_spec hard))

      unfoldable pub reconcile_limit_range : LimitRangeSpec → Effect client.State (Unit {0})
      unfolding reconcile_owned
      reconcile_limit_range limits = do
        items ← lift (build_limit_range_items parse_error limits)
        reconcile_owned tenant_ns (
            new_object (namespaced_key limit_range ns_name (ns_name <> "-limitrange")) labels
              (limits_spec items))

    -- The body of the loops over the network policies.
    unfoldable pub reconcile_network_policy : NetworkPolicy → Effect client.State (Unit {0})
    unfolding reconcile_owned
    reconcile_network_policy policy = reconcile_owned tenant_ns (
        new_object (namespaced_key network_policy ns_name policy.name) labels
          (policy_spec policy.spec))

    unfoldable pub reconcile_default_network_policies :
        NamespaceSpec → Effect client.State (Unit {0})
    unfolding reconcile_network_policy
    reconcile_default_network_policies ns_spec =
        for_each (default_network_policies ns_spec.default_policies) reconcile_network_policy

    unfoldable pub reconcile_custom_network_policies :
        NamespaceSpec → Effect client.State (Unit {0})
    unfolding reconcile_network_policy
    reconcile_custom_network_policies ns_spec =
        for_each (active_network_policies ns_spec.network_policies) reconcile_network_policy

    unfoldable pub reconcile_local_admin_role_binding :
        NamespaceSpec → Effect client.State (Unit {0})
    unfolding reconcile_owned
    reconcile_local_admin_role_binding ns_spec = reconcile_owned tenant_ns (
        new_object (namespaced_key role_binding ns_name (role_binding_name ns_spec)) labels (
          binding_spec record {
            subject_group = group_name ns_spec;
            cluster_role = cluster_role_name ns_spec;
          }))
