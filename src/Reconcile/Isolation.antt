-- ===== src/Reconcile/Isolation.antt =====
-- `ReconcileNamespace` writes to the tenant of its entry and to nothing else.
use project_onboarding_opera.Base.{
  String, ◌≡◌, ◌≢◌, refl, subst, inl, inr, Option, none, some, Outcome,
}
use project_onboarding_opera.Base.Dict.{Dict}
use project_onboarding_opera.Base.Lists.{All, All-everywhere}
use project_onboarding_opera.Api.{
  ResourceQuotaSpec, TShirtSizeSpec, NamespaceSpec, ProjectOnboarding,
}
use project_onboarding_opera.Helpers.{is_enabled}
use project_onboarding_opera.Helpers.Maps.{MapOrder}
use project_onboarding_opera.Helpers.Names.{sanitize_name, group_name}
use project_onboarding_opera.Effects.{Effect}
use project_onboarding_opera.Effects.Keeps.{
  Keeps-pure, Keeps-lift, Keeps-when, Keeps-bind, Keeps-wrapped,
}
use project_onboarding_opera.Content.{quota_spec}
use project_onboarding_opera.Cluster.{Kind, app_project, Matches, Key, Object, Client, Lawful}
use project_onboarding_opera.Owners.{Machinery}
use project_onboarding_opera.Reconcile.Tenant.{new_object, reconcile_resource_quota}
use project_onboarding_opera.Reconcile.Writes.{
  Kept, reconcile_owned-Kept, reconcile_namespace_object-Kept,
}
use project_onboarding_opera.Reconcile.Pruned.{project_key, quota_key, NoProject, Clear}
use project_onboarding_opera.Reconcile.Beyond.{reconcile_beyond_quota-Kept}
use project_onboarding_opera.Cleanup.{app_project_list_options}
use project_onboarding_opera.Reconcile.{
  resolve, quota_step, reconcile_contents, reconcile_namespace,
}

-- `Outside`, for an object of the kind.
abbrev pub OutsideFor : ProjectOnboarding → NamespaceSpec → Object → Key → Kind → Type 0
OutsideFor po ns_spec x k Kind.namespace = k.name ≢ sanitize_name ns_spec.name
OutsideFor po ns_spec x k Kind.resource_quota = k.namespace ≢ sanitize_name ns_spec.name
OutsideFor po ns_spec x k Kind.limit_range = k.namespace ≢ sanitize_name ns_spec.name
OutsideFor po ns_spec x k Kind.network_policy = k.namespace ≢ sanitize_name ns_spec.name
OutsideFor po ns_spec x k Kind.role_binding = k.namespace ≢ sanitize_name ns_spec.name
OutsideFor po ns_spec x k Kind.egress_ip = k.name ≢ sanitize_name ns_spec.name
OutsideFor po ns_spec x k Kind.group = k.name ≢ group_name ns_spec
OutsideFor po ns_spec x k Kind.app_project =
    (¬ Matches (app_project_list_options po (sanitize_name ns_spec.name)) x.labels)
    × All (λ project_spec. k ≢ project_key po ns_spec project_spec) ns_spec.argo_cd_projects

-- The object is not of the entry's tenant: another namespace, or an object in another namespace; an
-- egress IP or a group of another name; an Argo CD project without the labels of the tenant's
-- projects, and under the key of none that the entry lists.
abbrev pub Outside : ProjectOnboarding → NamespaceSpec → Object → Key → Type 0
Outside po ns_spec x k = OutsideFor po ns_spec x k k.kind

module _ (po : ProjectOnboarding) (ns_spec : NamespaceSpec) (k : Key) (x : Object) where
  pub Outside-at : (j : Key) → Outside po ns_spec x k → k ≡ j → Outside po ns_spec x j
  Outside-at j u e = subst (λ (i : Key). Outside po ns_spec x i) e u

  other_kind : k.kind ≢ app_project → NoProject po ns_spec k x
  other_kind ne = (inl ne, All-everywhere _ ns_spec.argo_cd_projects λ p e. ne (cc e))

  Outside-NoProject : Outside po ns_spec x k → NoProject po ns_spec k x
  Outside-NoProject u = branch k.kind refl u
    where
      branch :
          (kind : Kind) → k.kind ≡ kind → OutsideFor po ns_spec x k kind → NoProject po ns_spec k x
      branch Kind.namespace h v = other_kind (λ e. cc (h, e))
      branch Kind.resource_quota h v = other_kind (λ e. cc (h, e))
      branch Kind.limit_range h v = other_kind (λ e. cc (h, e))
      branch Kind.network_policy h v = other_kind (λ e. cc (h, e))
      branch Kind.role_binding h v = other_kind (λ e. cc (h, e))
      branch Kind.egress_ip h v = other_kind (λ e. cc (h, e))
      branch Kind.group h v = other_kind (λ e. cc (h, e))
      branch Kind.app_project h (unlisted, v) = (inr unlisted, v)

  elsewhere : Outside po ns_spec x k → (j : Key) → (Outside po ns_spec x j → ⊥) → k ≢ j
  elsewhere u j other e = other (Outside-at j u e)

  pub Outside-Clear : Outside po ns_spec x k → Clear po ns_spec k x
  Outside-Clear u = record {
    limits = elsewhere u _ (λ o. o refl);
    policy = λ name. elsewhere u _ (λ o. o refl);
    binding = λ name. elsewhere u _ (λ o. o refl);
    egress = elsewhere u _ (λ o. o refl);
    admins = elsewhere u _ (λ o. o refl);
    projects = Outside-NoProject u;
  }

module _ (client : Client) (L : Lawful client) (k : Key) (x : Object) (machinery : Machinery)
    (scheme : Option machinery.Scheme) (po : ProjectOnboarding) (ns_spec : NamespaceSpec)
    (u : Outside po ns_spec x k) where
  abbrev Spared : {A : Type 0} → Effect client.State A → Type 0
  Spared m = Kept client L k x machinery scheme m

  quota_step-Kept :
      (tenant_ns : Object) (labels : Dict String) (parse_error : String → Option String)
      (quota : Option ResourceQuotaSpec)
      → Spared (
          quota_step client machinery scheme tenant_ns
            (sanitize_name ns_spec.name)
            labels
            parse_error
            quota)
  unfolding quota_step reconcile_resource_quota
  quota_step-Kept tenant_ns labels parse_error none = Keeps-pure tt
  quota_step-Kept tenant_ns labels parse_error (some quota) =
      Keeps-when (is_enabled quota.enabled) _ (
        Keeps-wrapped _ _ (
          Keeps-bind _ _ (Keeps-lift _) λ hard.
            reconcile_owned-Kept client L k x machinery scheme (some tenant_ns)
              (new_object (quota_key (sanitize_name ns_spec.name)) labels (quota_spec hard))
              (elsewhere po ns_spec k x u _ (λ o. o refl))))

  pub reconcile_namespace-Kept :
      (parse_error : String → Option String)
      (read_tshirt : String → client.State → Outcome TShirtSizeSpec) (order : MapOrder)
      → Spared
          (reconcile_namespace client machinery scheme parse_error read_tshirt order po ns_spec)
  unfolding reconcile_namespace resolve reconcile_contents
  reconcile_namespace-Kept parse_error read_tshirt order =
      Keeps-bind _ _ record { keeps = λ s h. h }
        λ resolved.
          Keeps-bind _ _
            (Keeps-wrapped _ _ (
              reconcile_namespace_object-Kept client L k x machinery scheme po ns_spec _ _
                (elsewhere po ns_spec k x u _ (λ o. o refl))))
            λ tenant_ns. Keeps-bind _ _ (quota_step-Kept tenant_ns _ parse_error _) λ _.
              reconcile_beyond_quota-Kept client L k x machinery scheme po ns_spec
                (Outside-Clear po ns_spec k x u) tenant_ns _ parse_error resolved
                (λ _. elsewhere po ns_spec k x u _ (λ o. o refl))

-- `ReconcileNamespace` leaves every stored object as it is that is not of the entry's tenant: another
-- namespace, an object in another namespace, an egress IP or a group of another name, and an Argo CD
-- project without the labels of the tenant's projects, under the key of none that the entry lists.
pub reconcile_namespace-stored :
    (client : Client) (L : Lawful client) (machinery : Machinery) (scheme : Option machinery.Scheme)
    (parse_error : String → Option String)
    (read_tshirt : String → client.State → Outcome TShirtSizeSpec) (order : MapOrder)
    (po : ProjectOnboarding) (ns_spec : NamespaceSpec) (k : Key) (x : Object) (s : client.State)
    → Outside po ns_spec x k
    → L.stored s k ≡ some x
    → L.stored
        (reconcile_namespace client machinery scheme parse_error read_tshirt order po ns_spec s).1
        k
      ≡ some x
reconcile_namespace-stored client L machinery scheme parse_error read_tshirt order po ns_spec k x s
      u h =
    (reconcile_namespace-Kept client L k x machinery scheme po ns_spec u parse_error read_tshirt
        order).keeps
      s h
