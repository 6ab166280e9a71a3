-- ===== src/Content.antt =====
-- What the objects of a tenant hold beside their metadata, as far as the operator sets it: the types
-- of networking/v1, rbac/v1 and of the Argo CD and OpenShift objects.
use project_onboarding_opera.Base.{String, Option, List}
use project_onboarding_opera.Base.Dict.{Dict}
use project_onboarding_opera.Base.Text.{ℤ}
use project_onboarding_opera.Api.{LabelSelector, IpBlockSpec}
use project_onboarding_opera.Quota.{ResourceList, LimitRangeItem}

pub record NetworkPolicyPeer : Type 0 where
  pub pod_selector : Option LabelSelector
  pub namespace_selector : Option LabelSelector
  pub ip_block : Option IpBlockSpec

pub record NetworkPolicyPort : Type 0 where
  pub protocol : Option String
  pub port : Option ℤ

-- NetworkPolicyIngressRule with its `From`, NetworkPolicyEgressRule with its `To`.
pub record NetworkPolicyRule : Type 0 where
  pub peers : List NetworkPolicyPeer
  pub ports : List NetworkPolicyPort

pub data PolicyType : Type 0 where
  ingress_type egress_type : PolicyType

pub record NetworkPolicySpec : Type 0 where
  pub pod_selector : LabelSelector
  pub ingress : List NetworkPolicyRule
  pub egress : List NetworkPolicyRule
  pub policy_types : List PolicyType

-- The group that a RoleBinding names as its subject, and the ClusterRole that it refers to.
pub record RoleBindingSpec : Type 0 where
  pub subject_group : String
  pub cluster_role : String

pub record Destination : Type 0 where
  pub name : String
  pub namespace : String
  pub server : String

pub record ProjectRole : Type 0 where
  pub name : String
  pub description : String
  pub groups : List String
  pub policies : List String

pub record AppProjectSpec : Type 0 where
  pub description : String
  pub cluster_resource_whitelist : List String
  pub roles : List ProjectRole
  pub source_namespaces : List String
  pub source_repos : List String
  pub destinations : List Destination

pub data Content : Type 0 where
  no_spec : Content
  quota_spec : ResourceList → Content
  limits_spec : List LimitRangeItem → Content
  policy_spec : NetworkPolicySpec → Content
  binding_spec : RoleBindingSpec → Content
  group_users : List String → Content
  egress_spec : List String → Dict String → Content
  project_spec : AppProjectSpec → Content
