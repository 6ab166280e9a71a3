-- ===== src/Validation/Resources/GitOps.antt =====
-- The check for a GitOps namespace accepts exactly the specs that name one where it is needed.
use project_onboarding_opera.Base.{
  ◌≡◌, refl, Bool, true, false, not, Option, List, [], ◌∷◌, ok, fail, if◌then◌else◌, ◌↔◌, Error,
}
use project_onboarding_opera.Base.Text.{is_empty}
use project_onboarding_opera.Base.Lists.{All}
use project_onboarding_opera.Api.{GitOpsSpec, NamespaceSpec}
use project_onboarding_opera.Validation.Quantity.{Checked}
use project_onboarding_opera.Validation.Resources.{
  is_enabled_ptr, has_projects, resolve_application_git_ops_namespace,
  validate_git_ops_requirements,
}

-- An entry that is enabled and has an enabled Argo CD project names a GitOps namespace.
abbrev pub NamesGitOps : Option GitOpsSpec → NamespaceSpec → Type 0
NamesGitOps git_ops ns =
    is_enabled_ptr ns.enabled ≡ true
    → has_projects ns.argo_cd_projects ≡ true
    → is_empty (resolve_application_git_ops_namespace git_ops ns) ≡ false

module _ {r : Checked} (e : Error) where
  entry-accepted :
      (a b c : Bool)
      → (if not a then r else if not b then r else if c then fail e else r) ≡ ok tt
      → (a ≡ true → b ≡ true → c ≡ false) × (r ≡ ok tt)
  entry-accepted false b c h = (λ x y. absurd (cc x), h)
  entry-accepted true false c h = (λ x y. absurd (cc y), h)
  entry-accepted true true true h = absurd (cc h)
  entry-accepted true true false h = (λ x y. refl, h)

  accepted-entry :
      (a b c : Bool)
      → (a ≡ true → b ≡ true → c ≡ false)
      → r ≡ ok tt
      → (if not a then r else if not b then r else if c then fail e else r) ≡ ok tt
  accepted-entry false b c n h = h
  accepted-entry true false c n h = h
  accepted-entry true true true n h = absurd (cc (n refl refl))
  accepted-entry true true false n h = h

accepted-NamesGitOps :
    (git_ops : Option GitOpsSpec) (namespaces : List NamespaceSpec)
    → validate_git_ops_requirements git_ops namespaces ≡ ok tt
    → All (NamesGitOps git_ops) namespaces
unfolding validate_git_ops_requirements
accepted-NamesGitOps git_ops [] h = tt
accepted-NamesGitOps git_ops (ns ∷ namespaces) h =
    let (n, rest) =
      entry-accepted _ (is_enabled_ptr ns.enabled) (has_projects ns.argo_cd_projects) _ h in
    (n, accepted-NamesGitOps git_ops namespaces rest)

NamesGitOps-accepted :
    (git_ops : Option GitOpsSpec) (namespaces : List NamespaceSpec)
    → All (NamesGitOps git_ops) namespaces
    → validate_git_ops_requirements git_ops namespaces ≡ ok tt
unfolding validate_git_ops_requirements
NamesGitOps-accepted git_ops [] t = refl
NamesGitOps-accepted git_ops (ns ∷ namespaces) (n, t) =
    accepted-entry _ (is_enabled_ptr ns.enabled) (has_projects ns.argo_cd_projects) _ n
      (NamesGitOps-accepted git_ops namespaces t)

-- `validateGitOpsRequirements` accepts exactly the specs in which every entry that is enabled and
-- has an enabled Argo CD project names a GitOps namespace, itself or by the fallback of the spec.
pub validate_git_ops_requirements_iff :
    (git_ops : Option GitOpsSpec) (namespaces : List NamespaceSpec)
    → (validate_git_ops_requirements git_ops namespaces ≡ ok tt)
      ↔ All (NamesGitOps git_ops) namespaces
validate_git_ops_requirements_iff git_ops namespaces =
    (accepted-NamesGitOps git_ops namespaces, NamesGitOps-accepted git_ops namespaces)
