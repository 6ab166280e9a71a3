-- ===== src/Tests/Reconciles.antt =====
-- Reconciling entries and whole resources against the server with room for one object of each kind.
use project_onboarding_opera.Base.{
  String, ◌≡◌, ◌≢◌, refl, true, false, Option, none, some, [], ◌∷◌, Outcome, ok, inl, ap, ◌==◌,
}
use project_onboarding_opera.Base.Dict.{insert}
use project_onboarding_opera.Base.Lists.{Among}
use project_onboarding_opera.Base.Text.{replace_all, trim_space}
use project_onboarding_opera.Api.{NamespaceSpec, ResourceQuotaSpec, TShirtSizeSpec}
use project_onboarding_opera.Content.{Content, ingress_type, group_users, egress_spec, project_spec}
use project_onboarding_opera.Cluster.{
  namespace, network_policy, cluster_key, namespaced_key, Object,
}
use project_onboarding_opera.Owners.{
  Field, users, egress_ips, namespace_selector, project, Machinery,
}
use project_onboarding_opera.Owners.{
  ensure_project_onboarding_controller_ref, ensure_tenant_namespace_owner_ref,
}
use project_onboarding_opera.Helpers.{is_enabled, is_opt_in_enabled}
use project_onboarding_opera.Helpers.Names.{sanitize_name, normalize_quantity}
use project_onboarding_opera.Sizing.Catalogue.{resolve_namespace_spec}
use project_onboarding_opera.Quota.{
  ResourceList, build_resource_quota_hard, set_quantity, set_count, set_limits, set_requests,
  set_storage_classes, must_parse,
}
use project_onboarding_opera.Effects.{pure, raise, lift, attempt, wrapped, ◌>>=◌, for_each}
use project_onboarding_opera.Cluster.{is_not_found, is_no_match}
use project_onboarding_opera.Cleanup.{
  delete_managed_limit_range, delete_managed_role_binding, delete_managed_group,
  delete_managed_egress_ip, delete_managed, delete_app_projects_for_namespace, settle, wants_group,
  wants_egress,
}
use project_onboarding_opera.NetworkPolicies.{
  NetworkPolicy, empty_selector, opted, default_network_policies, active_network_policies,
}
use project_onboarding_opera.Reconcile.Policies.{wanted_policies, prune_namespace_resources-wanted}
use project_onboarding_opera.Reconcile.Tenant.{
  reconcile_resource_quota, reconcile_owned, write_owned, reconcile_default_network_policies,
  reconcile_custom_network_policies,
}
use project_onboarding_opera.Reconcile.Shared.{
  reconcile_namespace_object, write_namespace, ensure_controller, reconcile_argo_cd_projects,
}
use project_onboarding_opera.Reconcile.Prune.{
  prune_namespace_resources, wants_quota, wants_limits, prune_managed_network_policies,
  prune_app_projects_for_namespace,
}
use project_onboarding_opera.Reconcile.{
  resolve, quota_step, limits_step, group_step, egress_step, reconcile_beyond_quota,
  reconcile_contents, reconcile_namespace,
}
use project_onboarding_opera.Reconcile.Isolation.{reconcile_namespace-stored}
use project_onboarding_opera.Reconcile.Stored.{HasHard}
use project_onboarding_opera.Reconcile.Quotas.{reconcile_namespace-HasHard}
use project_onboarding_opera.Reconcile.Pruned.{quota_key}
use project_onboarding_opera.Tests.Samples.{as_added, team_a, teams, tenant, empty_quota, small}
use project_onboarding_opera.Tests.OneObject.{holds}
use project_onboarding_opera.Tests.Server.{Slots, set_slot, server, server_laws}

-- The content once a nested field was set.
abbrev pub with_field : Field → Content → Content
with_field (users us) content = group_users us
with_field (egress_ips ips) content = egress_spec ips []
with_field (namespace_selector pairs) (egress_spec ips old) = egress_spec ips pairs
with_field (namespace_selector pairs) content = content
with_field (project spec) content = project_spec spec

-- Functions of the libraries that leave the owners as they are.
abbrev pub plain : Machinery
plain = record {
  Scheme = Unit {0};
  is_controlled_by = λ o owner. false;
  set_controller_reference = λ owner o scheme. ok o.owners;
  set_owner_reference = λ owner o scheme. ok o.owners;
  set_nested = λ field content. ok (with_field field content);
  write_labels = λ old new. old;
}

abbrev pub no_objects : Slots
no_objects kind = none

-- The namespace of another tenant, alone in the cluster.
abbrev other_team : Slots
other_team = set_slot namespace (some (tenant "team-c")) no_objects

abbrev pub any_text : String → Option String
any_text text = none

abbrev pub read_small : String → Slots → Outcome TShirtSizeSpec
read_small name s = ok small

pub team_c_differs : "team-c" ≢ sanitize_name "team_a"
unfolding sanitize_name
team_c_differs e = cc (ap (λ s. s == "team-c") e)

reconcile_namespace-stored_example :
    holds
      ((reconcile_namespace server plain none any_text read_small as_added teams team_a
          other_team).1
        namespace)
      (cluster_key namespace "team-c")
    ≡ some (tenant "team-c")
reconcile_namespace-stored_example =
    reconcile_namespace-stored server server_laws plain none any_text read_small as_added teams
      team_a (cluster_key namespace "team-c") (tenant "team-c") other_team team_c_differs refl

abbrev cpu_quota : ResourceQuotaSpec
cpu_quota = record empty_quota { cpu = some "2" }

-- An entry with a quota of its own and no T-shirt size.
abbrev team_q : NamespaceSpec
team_q = record team_a { resource_quotas = some cpu_quota }

abbrev cpu_hard : ResourceList
cpu_hard = ("cpu", record { text = "2" }) ∷ []

cpu_quota-built : build_resource_quota_hard any_text cpu_quota ≡ ok cpu_hard
unfolding build_resource_quota_hard set_quantity set_count set_limits set_requests
    set_storage_classes must_parse normalize_quantity insert trim_space
cpu_quota-built = refl

team_q-resolved :
    resolve_namespace_spec (λ name. read_small name no_objects) as_added team_q ≡ ok team_q
unfolding resolve_namespace_spec
team_q-resolved = refl

cpu_quota-on : is_enabled cpu_quota.enabled ≡ true
unfolding is_enabled
cpu_quota-on = refl

reconcile_succeeds :
    (reconcile_namespace server plain none any_text read_small as_added teams team_q no_objects).0
    ≡ ok tt
unfolding reconcile_namespace resolve reconcile_contents reconcile_beyond_quota quota_step
    limits_step group_step egress_step resolve_namespace_spec reconcile_namespace_object
    write_namespace ensure_controller ensure_project_onboarding_controller_ref
    reconcile_resource_quota reconcile_owned write_owned ensure_tenant_namespace_owner_ref
    reconcile_default_network_policies reconcile_custom_network_policies default_network_policies
    active_network_policies reconcile_argo_cd_projects prune_namespace_resources wants_quota
    wants_limits prune_managed_network_policies prune_app_projects_for_namespace
    delete_managed_limit_range delete_managed_role_binding delete_managed_group
    delete_managed_egress_ip delete_managed delete_app_projects_for_namespace settle is_not_found
    is_no_match is_enabled is_opt_in_enabled sanitize_name replace_all build_resource_quota_hard
    set_quantity set_count set_limits set_requests set_storage_classes must_parse normalize_quantity
    insert trim_space pure raise lift attempt wrapped ◌>>=◌ for_each wants_group wants_egress
reconcile_succeeds = refl

reconcile_namespace-HasHard_example : HasHard cpu_hard (
    holds
      ((reconcile_namespace server plain none any_text read_small as_added teams team_q
          no_objects).1
        (quota_key (sanitize_name "team_a")).kind)
      (quota_key (sanitize_name "team_a")))
reconcile_namespace-HasHard_example =
    reconcile_namespace-HasHard server server_laws plain none any_text read_small as_added teams
      team_q team_q cpu_quota cpu_hard no_objects team_q-resolved refl cpu_quota-on cpu_quota-built
      reconcile_succeeds

-- An entry that asks for the policy of the ingress controller.
abbrev team_p : NamespaceSpec
team_p = record team_a {
  default_policies = some record {
    allow_from_ingress = some true;
    allow_from_monitoring = none;
    allow_kube_api_server = none;
    allow_to_dns = none;
    deny_all_egress = none;
    deny_all_ingress = none;
    allow_from_same_namespace = none;
  };
}

abbrev from_ingress : NetworkPolicy
from_ingress = record {
  name = "allow-from-openshift-ingress";
  spec = record {
    pod_selector = empty_selector;
    ingress =
        record {
          peers =
              record {
                pod_selector = none;
                namespace_selector = some record {
                  match_labels = ("policy-group.network.openshift.io/ingress", "") ∷ [];
                  match_expressions = [];
                };
                ip_block = none;
              }
              ∷ [];
          ports = [];
        }
        ∷ [];
    egress = [];
    policy_types = ingress_type ∷ [];
  };
}

from_ingress-wanted : Among from_ingress (wanted_policies team_p)
unfolding default_network_policies opted is_opt_in_enabled
from_ingress-wanted = inl refl

-- The policy as it is stored in the namespace of the entry.
abbrev stored_policy : Object
stored_policy = record (tenant "team-a") {
  key = namespaced_key network_policy (sanitize_name "team_a") "allow-from-openshift-ingress";
}

abbrev with_policy : Slots
with_policy = set_slot network_policy (some stored_policy) no_objects

with_policy-stored :
    server_laws.stored with_policy
      (namespaced_key network_policy (sanitize_name "team_a") "allow-from-openshift-ingress")
    ≡ some stored_policy
unfolding sanitize_name
with_policy-stored = refl

prune_namespace_resources-wanted_example :
    server_laws.stored
      (prune_namespace_resources server teams team_p team_p with_policy).1
      (namespaced_key network_policy (sanitize_name "team_a") "allow-from-openshift-ingress")
    ≡ some stored_policy
prune_namespace_resources-wanted_example =
    prune_namespace_resources-wanted server server_laws teams team_p team_p from_ingress
      stored_policy with_policy from_ingress-wanted with_policy-stored
