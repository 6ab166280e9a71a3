-- ===== src/NetworkPolicies.antt =====
-- internal/onboarding/reconcile_netpol.go: the default and the custom network policies of a tenant
-- namespace, as they are built. A NetworkPolicy is its name with its spec.
use project_onboarding_opera.Base.{
  String, Bool, Option, none, some, List, [], ◌∷◌, ◌++◌, if◌then◌else◌,
}
use project_onboarding_opera.Base.Dict.{Dict}
use project_onboarding_opera.Base.Lists.{is_nil}
use project_onboarding_opera.Base.Text.{ℤ, pos}
use project_onboarding_opera.Api.{
  DefaultPoliciesSpec, LabelSelector, NetworkPolicyPeerSpec, NetworkPolicyPortSpec,
  NetworkPolicyRuleSpec, CustomNetworkPolicySpec,
}
use project_onboarding_opera.Helpers.{is_enabled, is_opt_in_enabled}
use project_onboarding_opera.Helpers.Names.{sanitize_name}
use project_onboarding_opera.Content.{
  NetworkPolicyPeer, NetworkPolicyPort, NetworkPolicyRule, PolicyType, ingress_type, egress_type,
  NetworkPolicySpec,
}

pub record NetworkPolicy : Type 0 where
  pub name : String
  pub spec : NetworkPolicySpec

abbrev pub empty_selector : LabelSelector
empty_selector = record { match_labels = []; match_expressions = [] }

abbrev with_labels : Dict String → Option LabelSelector
with_labels labels = some (record { match_labels = labels; match_expressions = [] })

abbrev peer : Option LabelSelector → Option LabelSelector → NetworkPolicyPeer
peer pods namespaces = record {
  pod_selector = pods;
  namespace_selector = namespaces;
  ip_block = none;
}

-- A default policy that lets the peer in.
abbrev let_in : String → NetworkPolicyPeer → NetworkPolicy
let_in name from = record {
  name = name;
  spec = record {
    pod_selector = empty_selector;
    ingress = record { peers = from ∷ []; ports = [] } ∷ [];
    egress = [];
    policy_types = ingress_type ∷ [];
  };
}

-- A default policy without rules, which denies the traffic of its type.
abbrev deny : String → PolicyType → NetworkPolicy
deny name type = record {
  name = name;
  spec = record {
    pod_selector = empty_selector;
    ingress = [];
    egress = [];
    policy_types = type ∷ [];
  };
}

abbrev port_of : String → ℤ → NetworkPolicyPort
port_of protocol port = record { protocol = some protocol; port = some port }

-- The policy `allow-to-openshift-dns`.
abbrev allow_dns : NetworkPolicy
allow_dns = record {
  name = "allow-to-openshift-dns";
  spec = record {
    pod_selector = empty_selector;
    ingress = [];
    egress =
        record {
          peers =
              peer none (with_labels (("kubernetes.io/metadata.name", "openshift-dns") ∷ [])) ∷ [];
          ports =
              port_of "TCP" (pos 5353)
              ∷ port_of "TCP" (pos 53)
              ∷ port_of "UDP" (pos 53)
              ∷ port_of "UDP" (pos 5353)
              ∷ [];
        }
        ∷ [];
    policy_types = egress_type ∷ [];
  };
}

-- if IsOptInEnabled(switch) { policies = append(policies, policy) }
unfoldable pub opted : Option Bool → NetworkPolicy → List NetworkPolicy
unfolding is_opt_in_enabled
opted switch policy = if is_opt_in_enabled switch then policy ∷ [] else []

unfoldable pub default_network_policies : Option DefaultPoliciesSpec → List NetworkPolicy
unfolding opted
default_network_policies none = []
default_network_policies (some defaults) =
    opted defaults.allow_from_ingress (
      let_in "allow-from-openshift-ingress"
        (peer none (with_labels (("policy-group.network.openshift.io/ingress", "") ∷ []))))
    ++ (opted defaults.allow_from_monitoring (
          let_in "allow-from-openshift-monitoring"
            (peer none (with_labels (("network.openshift.io/policy-group", "monitoring") ∷ []))))
        ++ (opted defaults.allow_to_dns allow_dns
            ++ (opted defaults.allow_kube_api_server (
                  let_in "allow-from-kube-apiserver-operator" (
                    peer (with_labels (("app", "kube-apiserver-operator") ∷ [])) (
                      with_labels (
                        ("kubernetes.io/metadata.name", "openshift-kube-apiserver-operator")
                        ∷ []))))
                ++ (opted defaults.deny_all_egress (deny "deny-all-egress" egress_type)
                    ++ (opted defaults.deny_all_ingress (deny "deny-all-ingress" ingress_type)
                        ++ opted defaults.allow_from_same_namespace
                            (let_in "allow-same-namespace" (peer (some empty_selector) none)))))))

-- buildNetworkPolicyPeers, one selector
unfoldable pub build_network_policy_peer : NetworkPolicyPeerSpec → NetworkPolicyPeer
build_network_policy_peer selector = record {
  pod_selector = selector.pod_selector;
  namespace_selector = selector.namespace_selector;
  ip_block = selector.ip_block;
}

unfoldable pub build_network_policy_peers : List NetworkPolicyPeerSpec → List NetworkPolicyPeer
unfolding build_network_policy_peer
build_network_policy_peers [] = []
build_network_policy_peers (selector ∷ selectors) =
    build_network_policy_peer selector ∷ build_network_policy_peers selectors

unfoldable pub build_network_policy_ports : List NetworkPolicyPortSpec → List NetworkPolicyPort
build_network_policy_ports [] = []
build_network_policy_ports (port ∷ ports) =
    record { protocol = port.protocol; port = port.port } ∷ build_network_policy_ports ports

-- The loops over `IngressRules` and over `EgressRules`.
unfoldable pub build_rules : List NetworkPolicyRuleSpec → List NetworkPolicyRule
unfolding build_network_policy_peers build_network_policy_ports
build_rules [] = []
build_rules (rule ∷ rules) =
    record {
      peers = build_network_policy_peers rule.selectors;
      ports = build_network_policy_ports rule.ports;
    }
    ∷ build_rules rules

-- if len(rules) > 0 { PolicyTypes = append(PolicyTypes, type) }
unfoldable pub type_of_rules : PolicyType → List NetworkPolicyRule → List PolicyType
type_of_rules type rules = if is_nil rules then [] else type ∷ []

unfoldable pub pod_selector_or_empty : Option LabelSelector → LabelSelector
pod_selector_or_empty none = empty_selector
pod_selector_or_empty (some selector) = selector

unfoldable pub build_custom_network_policy : CustomNetworkPolicySpec → NetworkPolicy
unfolding build_rules type_of_rules pod_selector_or_empty sanitize_name
build_custom_network_policy spec =
    let ingress = build_rules spec.ingress_rules in
    let egress = build_rules spec.egress_rules in
    record {
      name = sanitize_name spec.name;
      spec = record {
        pod_selector = pod_selector_or_empty spec.pod_selector;
        ingress = ingress;
        egress = egress;
        policy_types = type_of_rules ingress_type ingress ++ type_of_rules egress_type egress;
      };
    }

-- What `reconcileCustomNetworkPolicies` builds: the policies that are active.
unfoldable pub active_network_policies : List CustomNetworkPolicySpec → List NetworkPolicy
unfolding is_enabled build_custom_network_policy
active_network_policies [] = []
active_network_policies (spec ∷ specs) =
    let rest = active_network_policies specs in
    if is_enabled spec.active then build_custom_network_policy spec ∷ rest else rest
