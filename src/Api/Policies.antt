-- ===== src/Api/Policies.antt =====
-- api/v1beta1: the default and the custom network policies of a tenant.
use project_onboarding_opera.Base.{String, Bool, Option, List}
use project_onboarding_opera.Base.Dict.{Dict}
use project_onboarding_opera.Base.Text.{ℤ}

pub record DefaultPoliciesSpec : Type 0 where
  pub allow_from_ingress : Option Bool
  pub allow_from_monitoring : Option Bool
  pub allow_kube_api_server : Option Bool
  pub allow_to_dns : Option Bool
  pub deny_all_egress : Option Bool
  pub deny_all_ingress : Option Bool
  pub allow_from_same_namespace : Option Bool

-- metav1.LabelSelector: its labels, and its expressions as key, operator and values.
pub record LabelSelector : Type 0 where
  pub match_labels : Dict String
  pub match_expressions : List (String × String × List String)

pub record IpBlockSpec : Type 0 where
  pub cidr : String
  pub except : List String

pub record NetworkPolicyPeerSpec : Type 0 where
  pub pod_selector : Option LabelSelector
  pub namespace_selector : Option LabelSelector
  pub ip_block : Option IpBlockSpec

pub record NetworkPolicyPortSpec : Type 0 where
  pub protocol : Option String
  pub port : Option ℤ

pub record NetworkPolicyRuleSpec : Type 0 where
  pub selectors : List NetworkPolicyPeerSpec
  pub ports : List NetworkPolicyPortSpec

pub record CustomNetworkPolicySpec : Type 0 where
  pub name : String
  pub active : Option Bool
  pub pod_selector : Option LabelSelector
  pub ingress_rules : List NetworkPolicyRuleSpec
  pub egress_rules : List NetworkPolicyRuleSpec
