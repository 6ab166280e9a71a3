-- ===== src/Validation/Resources/Fallback.antt =====
-- The check for a GitOps namespace, on the spec as it is submitted and on the one that the
-- reconciler works on.
use project_onboarding_opera.Base.{
  ◌≡◌, ◌≢◌, refl, ap, ◌∙◌, sym, Bool, true, false, Option, none, some, List, [], ◌∷◌, ◌++◌, ok,
  if◌then◌else◌,
}
use project_onboarding_opera.Base.Text.{is_empty, trim_space}
use project_onboarding_opera.Base.Lists.{All, All-everywhere}
use project_onboarding_opera.Api.{GitOpsSpec, NamespaceSpec, ProjectOnboarding}
use project_onboarding_opera.Defaults.{
  merge_git_ops_defaults, merge_git_ops, merge_cluster_defaults,
}
use project_onboarding_opera.Validation.Resources.{
  is_enabled_ptr, has_projects, resolve_application_git_ops_namespace,
  validate_git_ops_requirements,
}
use project_onboarding_opera.Validation.Resources.GitOps.{
  NamesGitOps, validate_git_ops_requirements_iff,
}

All-at {ℓ κ} :
    {A : Type ℓ} (P : A → Type κ) (front : List A) (x : A) (rest : List A)
    → All P (front ++ x ∷ rest)
    → P x
All-at P [] x rest (h, t) = h
All-at P (y ∷ front) x rest (h, t) = All-at P front x rest t

merged-named :
    (defaults : GitOpsSpec) (own : Option GitOpsSpec)
    → is_empty (trim_space defaults.application_namespace) ≡ false
    → is_empty (trim_space (merge_git_ops defaults own).application_namespace) ≡ false
unfolding merge_git_ops_defaults
merged-named defaults none given = given
merged-named defaults (some own) given =
    branch (is_empty (trim_space own.application_namespace)) refl
  where
    branch :
        (b : Bool)
        → is_empty (trim_space own.application_namespace) ≡ b
        → is_empty
            (trim_space (if b then defaults.application_namespace else own.application_namespace))
          ≡ false
    branch true e = given
    branch false e = e

resolve-named :
    (spec : GitOpsSpec) (ns : NamespaceSpec)
    → is_empty (trim_space spec.application_namespace) ≡ false
    → is_empty (resolve_application_git_ops_namespace (some spec) ns) ≡ false
unfolding resolve_application_git_ops_namespace
resolve-named spec ns named = branch (is_empty (trim_space ns.application_git_ops_namespace)) refl
  where
    branch :
        (b : Bool)
        → is_empty (trim_space ns.application_git_ops_namespace) ≡ b
        → is_empty (
            if b
            then trim_space spec.application_namespace
            else trim_space ns.application_git_ops_namespace)
          ≡ false
    branch true e = named
    branch false e = e

-- The defaults of the cluster are no fallback for the admission: a spec in which an entry that is
-- enabled and has an enabled Argo CD project names no GitOps namespace, neither itself nor by the
-- spec, is refused, although the spec that the reconciler works on, into which defaults that name
-- such a namespace are merged, passes the same check.
pub validate_git_ops_requirements-defaults :
    (defaults : GitOpsSpec) (po : ProjectOnboarding) (front : List NamespaceSpec)
    (ns : NamespaceSpec) (rest : List NamespaceSpec)
    → po.namespaces ≡ front ++ ns ∷ rest
    → is_enabled_ptr ns.enabled ≡ true
    → has_projects ns.argo_cd_projects ≡ true
    → is_empty (resolve_application_git_ops_namespace po.git_ops ns) ≡ true
    → is_empty (trim_space defaults.application_namespace) ≡ false
    → (validate_git_ops_requirements po.git_ops po.namespaces ≢ ok tt)
      × (validate_git_ops_requirements
            (merge_cluster_defaults (some defaults) po).git_ops
            (merge_cluster_defaults (some defaults) po).namespaces
          ≡ ok tt)
unfolding merge_cluster_defaults
validate_git_ops_requirements-defaults defaults po front ns rest split enabled projects blank
      named =
    (refused, accepted)
  where
    refused : validate_git_ops_requirements po.git_ops po.namespaces ≢ ok tt
    refused h =
        let (forth, back) = validate_git_ops_requirements_iff po.git_ops (front ++ ns ∷ rest) in
        let all = forth (sym (ap (validate_git_ops_requirements po.git_ops) split) ∙ h) in
        let given = All-at (NamesGitOps po.git_ops) front ns rest all enabled projects in
        cc (blank, given)

    accepted :
        validate_git_ops_requirements (some (merge_git_ops defaults po.git_ops)) po.namespaces
        ≡ ok tt
    accepted =
        let (forth, back) =
          validate_git_ops_requirements_iff (some (merge_git_ops defaults po.git_ops))
            po.namespaces in
        back (
          All-everywhere (NamesGitOps (some (merge_git_ops defaults po.git_ops))) po.namespaces
            λ entry e p.
              resolve-named (merge_git_ops defaults po.git_ops) entry
                (merged-named defaults po.git_ops named))
