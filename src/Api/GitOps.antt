-- ===== src/Api/GitOps.antt =====
-- api/v1beta1/gitops_types.go: the Argo CD projects of a tenant and their defaults.
use project_onboarding_opera.Base.{String, Bool, Option, List}

abbrev pub argo_cd_project_inherit_label : String
argo_cd_project_inherit_label = "argocd.argoproj.io/project-inherit"

pub record GitOpsDestinationSpec : Type 0 where
  pub name : String
  pub server : String

pub record GitOpsSpec : Type 0 where
  pub application_namespace : String
  pub destinations : List GitOpsDestinationSpec
  pub allowed_source_repos : List String
  pub allowed_oidc_groups : List String
  pub allowed_source_namespaces : List String

pub record ArgoCdPolicySpec : Type 0 where
  pub resource : String
  pub action : String
  pub object : String
  pub app_project_name : String
  pub permission : String

pub record ArgoCdRoleSpec : Type 0 where
  pub name : String
  pub description : String
  pub oidc_groups : List String
  pub full_access : Option Bool
  pub policies : List ArgoCdPolicySpec

pub record ArgoCdProjectSpec : Type 0 where
  pub enabled : Option Bool
  pub name : String
  pub description : String
  pub source_repos : List String
  pub source_namespaces : List String
  pub destinations : List GitOpsDestinationSpec
  pub oidc_groups : List String
  pub roles : List ArgoCdRoleSpec
