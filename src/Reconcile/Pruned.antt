-- ===== src/Reconcile/Pruned.antt =====
-- `PruneNamespaceResources` leaves alone what belongs to no tenant namespace of the entry.
use project_onboarding_opera.Base.{
  String, ◌<>◌, true, false, ◌≡◌, ◌≢◌, refl, ◌∙◌, ◌⊎◌, inl, not, Bool, some, List, Error,
}
use project_onboarding_opera.Base.Dict.{Dict}
use project_onboarding_opera.Base.Lists.{All, All-map, member}
use project_onboarding_opera.Api.{ArgoCdProjectSpec, NamespaceSpec, ProjectOnboarding}
use project_onboarding_opera.Helpers.Names.{sanitize_name, group_name}
use project_onboarding_opera.Validation.Resources.{resolve_application_git_ops_namespace}
use project_onboarding_opera.Effects.{Effect, when}
use project_onboarding_opera.Effects.Keeps.{
  Yields, Keeps, Keeps-pure, Keeps-when, Keeps-bind, Keeps-wrapped, Keeps-for_each, Yields-bind,
}
use project_onboarding_opera.Cluster.{
  resource_quota, limit_range, network_policy, role_binding, egress_ip, group, app_project, Key,
  cluster_key, namespaced_key, Object, Client, Lawful, Matches,
}
use project_onboarding_opera.Cleanup.{
  app_project_list_options, delete_object, delete_managed_resource_quota,
  delete_managed_limit_range, delete_managed_role_binding, delete_managed_group,
  delete_managed_egress_ip, delete_managed,
}
use project_onboarding_opera.Cleanup.Guards.{
  Stays, delete_object-Keeps, delete_managed-Keeps, delete_app_projects_for_namespace-Keeps,
}
use project_onboarding_opera.Reconcile.Prune.{
  prune_network_policy, prune_managed_network_policies, prune_app_projects_for_namespace,
  prune_namespace_resources, wants_quota,
}

-- The key of an Argo CD project of the entry.
abbrev pub project_key : ProjectOnboarding → NamespaceSpec → ArgoCdProjectSpec → Key
project_key po ns_spec project_spec =
    namespaced_key app_project (resolve_application_git_ops_namespace po.git_ops ns_spec)
      (sanitize_name project_spec.name)

abbrev pub quota_key : String → Key
quota_key ns_name = namespaced_key resource_quota ns_name (ns_name <> "-quota")

-- The key is that of no Argo CD project of the entry, and no list of the tenant's projects has the
-- object.
abbrev pub NoProject : ProjectOnboarding → NamespaceSpec → Key → Object → Type 0
NoProject po ns_spec k x =
    ((k.kind ≢ app_project)
      ⊎ (¬ Matches (app_project_list_options po (sanitize_name ns_spec.name)) x.labels))
    × All (λ project_spec. k ≢ project_key po ns_spec project_spec) ns_spec.argo_cd_projects

-- The key is none that `ReconcileNamespace` writes to or deletes beyond the namespace and its quota.
pub record Clear (po : ProjectOnboarding) (ns_spec : NamespaceSpec) (k : Key) (x : Object)
    : Type 0 where
  pub limits :
      k
      ≢ namespaced_key limit_range
          (sanitize_name ns_spec.name)
          (sanitize_name ns_spec.name <> "-limitrange")
  pub policy : (name : String) → k ≢ namespaced_key network_policy (sanitize_name ns_spec.name) name
  pub binding : (name : String) → k ≢ namespaced_key role_binding (sanitize_name ns_spec.name) name
  pub egress : k ≢ cluster_key egress_ip (sanitize_name ns_spec.name)
  pub admins : k ≢ cluster_key group (group_name ns_spec)
  pub projects : NoProject po ns_spec k x

module _ (client : Client) (L : Lawful client) (k : Key) (x : Object) (po : ProjectOnboarding)
    (ns_spec : NamespaceSpec) (clear : Clear po ns_spec k x) where
  abbrev Kept : Effect client.State (Unit {0}) → Type 0
  Kept m = Keeps (Stays client L k x) m

  abbrev Inside : String → Object → Type 0
  Inside ns_name o = o.key ≡ namespaced_key network_policy ns_name o.key.name

  policies-Yields :
      (selector : Dict String) (ns_name : String)
      → Yields
          (Stays client L k x)
          (All (Inside ns_name))
          (client.list network_policy (some ns_name) selector)
  policies-Yields selector ns_name = record {
    keeps = λ s h. L.list_keeps network_policy (some ns_name) selector s k ∙ h;
    result = λ s h os e.
        All-map _ (Inside ns_name) os (λ o (found, of_kind, inside, m). cc (of_kind, inside))
          (L.list_found network_policy (some ns_name) selector s os e);
  }

  prune_managed_network_policies-Kept :
      (keep : List String)
      → Kept (prune_managed_network_policies client po (sanitize_name ns_spec.name) keep)
  unfolding prune_managed_network_policies prune_network_policy
  prune_managed_network_policies-Kept keep =
      Yields-bind _ _ _ (policies-Yields _ (sanitize_name ns_spec.name)) λ items q.
        Keeps-for_each (Inside (sanitize_name ns_spec.name)) items _ q λ o at.
          Keeps-when (not (member o.key.name keep)) (delete_object client o)
            (delete_object-Keeps client L k x o λ e. clear.policy o.key.name (e ∙ at))

  prune_app_projects-Kept :
      Kept (prune_app_projects_for_namespace client po ns_spec (sanitize_name ns_spec.name))
  unfolding prune_app_projects_for_namespace
  prune_app_projects-Kept =
      delete_app_projects_for_namespace-Keeps client L k x po (sanitize_name ns_spec.name) _
        clear.projects.0

  managed-Kept :
      (absent : Error → Bool) (j : Key) → k ≢ j → Kept (delete_managed client po absent j)
  managed-Kept absent j ne = delete_managed-Keeps client L k x po absent j (inl ne)

  Kept-unless :
      (b : Bool) (m : Effect client.State (Unit {0})) → (b ≡ false → Kept m) → Kept (when (not b) m)
  Kept-unless true m h = Keeps-pure tt
  Kept-unless false m h = h refl

  -- The quota is deleted only where none is wanted.
  pub prune_namespace_resources-Kept :
      (resolved : NamespaceSpec)
      → (wants_quota resolved.resource_quotas ≡ false → k ≢ quota_key (sanitize_name ns_spec.name))
      → Kept (prune_namespace_resources client po ns_spec resolved)
  unfolding prune_namespace_resources delete_managed_resource_quota delete_managed_limit_range
      delete_managed_role_binding delete_managed_group delete_managed_egress_ip
  prune_namespace_resources-Kept resolved ne =
      Keeps-bind _ _
        (Kept-unless (wants_quota resolved.resource_quotas) _ λ off. managed-Kept _ _ (ne off))
        λ _. Keeps-bind _ _ (Keeps-when _ _ (managed-Kept _ _ clear.limits)) λ _.
          Keeps-bind _ _ (Keeps-wrapped _ _ (prune_managed_network_policies-Kept _)) λ _.
            Keeps-bind _ _
              (Keeps-when _ _ (
                Keeps-bind _ _ (managed-Kept _ _ (clear.binding _))
                  λ _. managed-Kept _ _ clear.admins))
              λ _.
                Keeps-bind _ _ (Keeps-when _ _ (managed-Kept _ _ clear.egress))
                  λ _. Keeps-wrapped _ _ prune_app_projects-Kept
