-- ===== src/Projects.antt =====
-- internal/onboarding/argocd.go: the content of the Argo CD projects of a tenant.
use project_onboarding_opera.Base.{String, ◌<>◌, Option, none, some, List, [], ◌∷◌, if◌then◌else◌}
use project_onboarding_opera.Base.Text.{is_empty, trim_space}
use project_onboarding_opera.Base.Lists.{is_nil}
use project_onboarding_opera.Api.{
  GitOpsDestinationSpec, GitOpsSpec, ArgoCdPolicySpec, ArgoCdRoleSpec, ArgoCdProjectSpec,
}
use project_onboarding_opera.Helpers.{is_opt_in_enabled}
use project_onboarding_opera.Helpers.Names.{sanitize_name}
use project_onboarding_opera.Content.{Destination, ProjectRole, AppProjectSpec}

-- The loop of `buildDestinations`.
unfoldable pub destinations_in : String → List GitOpsDestinationSpec → List Destination
destinations_in tenant_ns [] = []
destinations_in tenant_ns (dest ∷ destinations) =
    record { name = dest.name; namespace = tenant_ns; server = dest.server }
    ∷ destinations_in tenant_ns destinations

unfoldable pub git_ops_destinations : Option GitOpsSpec → List GitOpsDestinationSpec
git_ops_destinations none = []
git_ops_destinations (some git_ops) = git_ops.destinations

unfoldable pub build_destinations :
    Option GitOpsSpec → ArgoCdProjectSpec → String → List Destination
unfolding destinations_in git_ops_destinations
build_destinations git_ops project_spec tenant_ns = destinations_in tenant_ns (
    if is_nil project_spec.destinations
    then git_ops_destinations git_ops
    else project_spec.destinations)

-- A list of the GitOps block; without the block there is none.
abbrev pub git_ops_list : (GitOpsSpec → List String) → Option GitOpsSpec → List String
git_ops_list field none = []
git_ops_list field (some git_ops) = field git_ops

-- if len(values) > 0 { return values }; return fallback
abbrev pub or_nonempty : List String → List String → List String
or_nonempty values fallback = if is_nil values then fallback else values

unfoldable pub resolve_source_repos : Option GitOpsSpec → ArgoCdProjectSpec → List String
resolve_source_repos git_ops project_spec =
    or_nonempty project_spec.source_repos
      (or_nonempty (git_ops_list (λ spec. spec.allowed_source_repos) git_ops) ("*" ∷ []))

unfoldable pub resolve_source_namespaces : Option GitOpsSpec → ArgoCdProjectSpec → List String
resolve_source_namespaces git_ops project_spec =
    or_nonempty project_spec.source_namespaces
      (or_nonempty (git_ops_list (λ spec. spec.allowed_source_namespaces) git_ops) ("*" ∷ []))

unfoldable pub resolve_role_groups :
    Option GitOpsSpec → ArgoCdProjectSpec → ArgoCdRoleSpec → List String
resolve_role_groups git_ops project_spec role = or_nonempty role.oidc_groups (
    or_nonempty project_spec.oidc_groups
      (or_nonempty (git_ops_list (λ spec. spec.allowed_oidc_groups) git_ops) ("dummy-group" ∷ [])))

unfoldable pub casbin_project_prefix : String → ArgoCdPolicySpec → String
casbin_project_prefix tenant_name policy =
    let name = trim_space policy.app_project_name in
    if is_empty name then tenant_name else sanitize_name name

abbrev or_text : String → String → String
or_text value fallback = if is_empty value then fallback else value

-- fmt.Sprintf("p, proj:%s:%s, %s, %s, %s, %s", …)
unfoldable pub policy_line : String → String → String → String → String → String → String
policy_line prefix role resource action object permission =
    "p, proj:"
    <> (prefix
        <> (":"
            <> (role
                <> (", "
                    <> (resource
                        <> (", " <> (action <> (", " <> (object <> (", " <> permission))))))))))

unfoldable pub full_access_policies : String → String → String → List String
unfolding policy_line
full_access_policies project_name prefix role =
    let apps = project_name <> "/*" in
    policy_line prefix role "applications" "get" apps "allow"
    ∷ policy_line prefix role "applications" "create" apps "allow"
    ∷ policy_line prefix role "applications" "update" apps "allow"
    ∷ policy_line prefix role "applications" "delete" apps "allow"
    ∷ policy_line prefix role "applications" "sync" apps "allow"
    ∷ policy_line prefix role "applications" "override" apps "allow"
    ∷ policy_line prefix role "repositories" "create" "*" "allow"
    ∷ policy_line prefix role "repositories" "get" "*" "allow"
    ∷ policy_line prefix role "repositories" "update" "*" "allow"
    ∷ policy_line prefix role "repositories" "delete" "*" "allow"
    ∷ []

-- The loop of `buildRolePolicies`.
unfoldable pub listed_policies : String → String → String → List ArgoCdPolicySpec → List String
unfolding policy_line casbin_project_prefix
listed_policies project_name tenant_name role [] = []
listed_policies project_name tenant_name role (policy ∷ policies) =
    policy_line (casbin_project_prefix tenant_name policy) role
      (or_text policy.resource "applications") policy.action
      (project_name <> ("/" <> or_text policy.object "*")) (or_text policy.permission "allow")
    ∷ listed_policies project_name tenant_name role policies

unfoldable pub build_role_policies : String → String → ArgoCdRoleSpec → List String
unfolding full_access_policies listed_policies
build_role_policies project_name tenant_name role =
    if is_opt_in_enabled role.full_access
    then full_access_policies project_name tenant_name role.name
    else listed_policies project_name tenant_name role.name role.policies

-- The loop of `buildArgoCDRoles`.
unfoldable pub roles_of :
    Option GitOpsSpec → ArgoCdProjectSpec → String → List ArgoCdRoleSpec → List ProjectRole
unfolding build_role_policies resolve_role_groups
roles_of git_ops project_spec tenant_name [] = []
roles_of git_ops project_spec tenant_name (role ∷ roles) =
    record {
      name = role.name;
      description = role.description;
      groups = resolve_role_groups git_ops project_spec role;
      policies = build_role_policies (sanitize_name project_spec.name) tenant_name role;
    }
    ∷ roles_of git_ops project_spec tenant_name roles

unfoldable pub build_argo_cd_roles :
    Option GitOpsSpec → ArgoCdProjectSpec → String → List ProjectRole
unfolding roles_of
build_argo_cd_roles git_ops project_spec tenant_ns =
    roles_of git_ops project_spec (sanitize_name tenant_ns) project_spec.roles

-- `spec` of `reconcileAppProject`
unfoldable pub app_project_spec : Option GitOpsSpec → ArgoCdProjectSpec → String → AppProjectSpec
unfolding build_argo_cd_roles resolve_source_namespaces resolve_source_repos build_destinations
app_project_spec git_ops project_spec tenant_ns = record {
  description =
      or_text project_spec.description (sanitize_name project_spec.name <> " GitOps Project");
  cluster_resource_whitelist = [];
  roles = build_argo_cd_roles git_ops project_spec tenant_ns;
  source_namespaces = resolve_source_namespaces git_ops project_spec;
  source_repos = resolve_source_repos git_ops project_spec;
  destinations = build_destinations git_ops project_spec tenant_ns;
}
