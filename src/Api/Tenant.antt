-- ===== src/Api/Tenant.antt =====
-- api/v1beta1/projectonboarding_types.go: a tenant namespace entry, the resource that lists the
-- entries, and its constants.
use project_onboarding_opera.Base.{String, Bool, Option, List, none, []}
use project_onboarding_opera.Base.Dict.{Dict}
use project_onboarding_opera.Api.Sizing.{ResourceQuotaSpec, LimitRangeSpec}
use project_onboarding_opera.Api.Policies.{DefaultPoliciesSpec, CustomNetworkPolicySpec}
use project_onboarding_opera.Api.GitOps.{GitOpsSpec, ArgoCdProjectSpec}

abbrev pub project_onboarding_label_key : String
project_onboarding_label_key = "onboarding.stderr.at/project-onboarding"

abbrev pub project_onboarding_namespace_key : String
project_onboarding_namespace_key = "onboarding.stderr.at/target-namespace"

abbrev pub project_onboarding_managed_by_key : String
project_onboarding_managed_by_key = "app.kubernetes.io/managed-by"

abbrev pub project_onboarding_managed_by_val : String
project_onboarding_managed_by_val = "project-onboarding-operator"

pub record NamespaceLabel : Type 0 where
  pub key : String
  pub value : String

pub record AdditionalSettingsSpec : Type 0 where
  pub pod_security_enforce : String
  pub pod_security_warn : String
  pub pod_security_audit : String
  pub enable_cluster_monitoring : Option Bool
  pub additional_labels : List NamespaceLabel

pub record LocalAdminGroupSpec : Type 0 where
  pub enabled : Option Bool
  pub group_name : String
  pub cluster_role : String
  pub users : List String

pub record EgressIpSpec : Type 0 where
  pub enabled : Option Bool
  pub ips : List String

pub record NamespaceSpec : Type 0 where
  pub name : String
  pub enabled : Option Bool
  pub offboard : Option Bool
  pub additional_settings : Option AdditionalSettingsSpec
  pub overwrite_tshirt : Option Bool
  pub resource_quotas : Option ResourceQuotaSpec
  pub limit_ranges : Option LimitRangeSpec
  pub default_policies : Option DefaultPoliciesSpec
  pub network_policies : List CustomNetworkPolicySpec
  pub local_admin_group : Option LocalAdminGroupSpec
  pub egress_ips : Option EgressIpSpec
  pub application_git_ops_namespace : String
  pub argo_cd_projects : List ArgoCdProjectSpec
  pub project_size : String
  pub labels : Dict String
  pub annotations : Dict String

-- NamespaceSpec{Name: name}
abbrev pub namespace_entry : String → NamespaceSpec
namespace_entry name = record {
  name = name;
  enabled = none;
  offboard = none;
  additional_settings = none;
  overwrite_tshirt = none;
  resource_quotas = none;
  limit_ranges = none;
  default_policies = none;
  network_policies = [];
  local_admin_group = none;
  egress_ips = none;
  application_git_ops_namespace = "";
  argo_cd_projects = [];
  project_size = "";
  labels = [];
  annotations = [];
}

-- A ProjectOnboarding: `name` and `annotations` of its metadata, and its spec.
pub record ProjectOnboarding : Type 0 where
  pub name : String
  pub annotations : Dict String
  pub git_ops : Option GitOpsSpec
  pub namespaces : List NamespaceSpec
