-- ===== src/Controller/Foreign.antt =====
-- The objects that belong to none of the resource's entries, and what spares them in the loop over the
-- entries.
use project_onboarding_opera.Base.{String, ◌≡◌, ◌≢◌, inl, false, List, [], ◌∷◌, ok}
use project_onboarding_opera.Base.Lists.{All, All-everywhere}
use project_onboarding_opera.Api.{NamespaceSpec, ProjectOnboarding}
use project_onboarding_opera.Helpers.{is_enabled, is_offboard}
use project_onboarding_opera.Helpers.Names.{sanitize_name, group_name}
use project_onboarding_opera.Helpers.Status.{Bytes}
use project_onboarding_opera.Effects.{Effect}
use project_onboarding_opera.Effects.Keeps.{Keeps, Keeps-pure, Keeps-if, Keeps-bind, Keeps-attempt}
use project_onboarding_opera.Cluster.{Kind, app_project, Key, Object, Client, Lawful}
use project_onboarding_opera.Cleanup.{is_managed_by_project_onboarding}
use project_onboarding_opera.Cleanup.Foreign.{foreign, NotReleased, unmanaged}
use project_onboarding_opera.Prune.Frame.{SparedBy}
use project_onboarding_opera.Reconcile.Isolation.{OutsideFor, Outside}
use project_onboarding_opera.Controller.Subject.{Resource, Runtime}
use project_onboarding_opera.Controller.Entries.{Progress, note, reconcile_entry, reconcile_entries}

-- `OtherTenant`, for an object of the kind.
abbrev pub OtherTenantFor : NamespaceSpec → Key → Kind → Type 0
OtherTenantFor ns_spec k Kind.namespace = k.name ≢ sanitize_name ns_spec.name
OtherTenantFor ns_spec k Kind.resource_quota = k.namespace ≢ sanitize_name ns_spec.name
OtherTenantFor ns_spec k Kind.limit_range = k.namespace ≢ sanitize_name ns_spec.name
OtherTenantFor ns_spec k Kind.network_policy = k.namespace ≢ sanitize_name ns_spec.name
OtherTenantFor ns_spec k Kind.role_binding = k.namespace ≢ sanitize_name ns_spec.name
OtherTenantFor ns_spec k Kind.egress_ip = k.name ≢ sanitize_name ns_spec.name
OtherTenantFor ns_spec k Kind.group = k.name ≢ group_name ns_spec
OtherTenantFor ns_spec k Kind.app_project = ⊥

-- The key is none of the entry's tenant, and not that of an Argo CD project.
abbrev pub OtherTenant : Key → NamespaceSpec → Type 0
OtherTenant k ns_spec = OtherTenantFor ns_spec k k.kind

-- The object belongs to none of the entries, and is not labelled as managed for the resource.
pub record Foreign (po : ProjectOnboarding) (k : Key) (x : Object) : Type 0 where
  pub unlabelled : is_managed_by_project_onboarding x.labels po ≡ false
  pub no_project : k.kind ≢ app_project
  pub others : All (OtherTenant k) po.namespaces

pub OtherTenant-Outside :
    (po : ProjectOnboarding) (ns_spec : NamespaceSpec) (k : Key) (x : Object)
    → OtherTenant k ns_spec
    → Outside po ns_spec x k
OtherTenant-Outside po ns_spec k x o = branch k.kind o
  where
    branch : (kind : Kind) → OtherTenantFor ns_spec k kind → OutsideFor po ns_spec x k kind
    branch Kind.namespace h = h
    branch Kind.resource_quota h = h
    branch Kind.limit_range h = h
    branch Kind.network_policy h = h
    branch Kind.role_binding h = h
    branch Kind.egress_ip h = h
    branch Kind.group h = h
    branch Kind.app_project h = absurd h

-- The calls about ProjectOnboardings and the ConfigMap leave the objects of the tenants alone, and an
-- update answers the spec that it was sent.
pub record Quiet (client : Client) (L : Lawful client) (runtime : Runtime client.State)
    : Type 0 where
  pub get_keeps :
      (name : String) (s : client.State) (j : Key)
      → L.stored (runtime.get_resource name s).1 j ≡ L.stored s j
  pub update_keeps :
      (po : Resource) (s : client.State) (j : Key)
      → L.stored (runtime.update po s).1 j ≡ L.stored s j
  pub update_spec :
      (po : Resource) (s : client.State) (answer : Resource)
      → (runtime.update po s).0 ≡ ok answer
      → answer.spec ≡ po.spec
  pub update_status_keeps :
      (po : Resource) (s : client.State) (j : Key)
      → L.stored (runtime.update_status po s).1 j ≡ L.stored s j
  pub get_config_map_keeps :
      (ns name : String) (s : client.State) (j : Key)
      → L.stored (runtime.get_config_map ns name s).1 j ≡ L.stored s j

module _ {S : Type 0} (P : S → Type 0) (bytes_of : String → Bytes)
    (cleanup : NamespaceSpec → Effect S (Unit {0}))
    (reconcile_one : NamespaceSpec → Effect S (Unit {0})) where
  entry-Keeps :
      (ns_spec : NamespaceSpec)
      → Keeps P (cleanup ns_spec)
      → Keeps P (reconcile_one ns_spec)
      → Keeps P (reconcile_entry bytes_of cleanup reconcile_one ns_spec)
  unfolding reconcile_entry
  entry-Keeps ns_spec a b =
      Keeps-if (is_offboard ns_spec.offboard) _ _
        (λ _. Keeps-bind _ _ (Keeps-attempt _ a) λ r. Keeps-pure _)
        (λ _.
          Keeps-if (is_enabled ns_spec.enabled) _ _
            (λ _. Keeps-bind _ _ (Keeps-attempt _ b) λ r. Keeps-pure _) (λ _. Keeps-pure _))

  pub entries-Keeps :
      (namespaces : List NamespaceSpec) (progress : Progress)
      → All (λ ns_spec. Keeps P (cleanup ns_spec) × Keeps P (reconcile_one ns_spec)) namespaces
      → Keeps P (reconcile_entries bytes_of cleanup reconcile_one namespaces progress)
  unfolding reconcile_entries
  entries-Keeps [] progress t = Keeps-pure progress
  entries-Keeps (ns_spec ∷ namespaces) progress ((a, b), t) =
      Keeps-bind _ _ (entry-Keeps ns_spec a b)
        λ report. entries-Keeps namespaces (note progress report) t

module _ (po : ProjectOnboarding) (k : Key) (x : Object) (f : Foreign po k x) where
  pub Foreign-SparedBy : All (SparedBy po k x) po.namespaces
  Foreign-SparedBy =
      All-everywhere _ po.namespaces λ ns_spec off. foreign f.unlabelled (inl f.no_project)

  pub Foreign-NotReleased : NotReleased po k x
  Foreign-NotReleased = unmanaged f.unlabelled f.no_project
