-- ===== src/Reconcile/Stored.antt =====
-- A quota that is created or patched without an error is stored with the hard limits that were sent.
use project_onboarding_opera.Base.{
  ◌≡◌, refl, ap, subst, ◌∙◌, Bool, true, false, Option, none, some, ok, if◌then◌else◌,
}
use project_onboarding_opera.Quota.{ResourceList}
use project_onboarding_opera.Content.{
  Content, no_spec, quota_spec, limits_spec, policy_spec, binding_spec, group_users, egress_spec,
  project_spec,
}
use project_onboarding_opera.Effects.{Effect, Attempt, got, failed, raise, lift, ◌>>=◌}
use project_onboarding_opera.Effects.Leaves.{Leaves, Leaves-raise, Leaves-bind}
use project_onboarding_opera.Cluster.{Key, Object, Client, Lawful, SameHard, Holds, is_not_found}
use project_onboarding_opera.Owners.{Machinery, ensure_tenant_namespace_owner_ref}
use project_onboarding_opera.Cleanup.Released.{Read}
use project_onboarding_opera.Reconcile.Tenant.{merge_string_maps, write_owned}
use project_onboarding_opera.Reconcile.Keys.{key_of, ensure_tenant_namespace_owner_ref-same}

-- A quota is stored, with these hard limits.
abbrev pub HasHard : ResourceList → Option Object → Type 0
HasHard hard o = (x : Object) × (o ≡ some x) × (x.content ≡ quota_spec hard)

abbrev content_of : Object → Content
content_of o = o.content

Holds-HasHard :
    (hard : ResourceList) (o : Object) (r : Option Object)
    → o.content ≡ quota_spec hard
    → Holds o r
    → HasHard hard r
Holds-HasHard hard o none e h = absurd h
Holds-HasHard hard o (some x) e (m, same) = (x, refl, SameHard-eq o.content x.content e same)
  where
    SameHard-eq : (c d : Content) → c ≡ quota_spec hard → SameHard c d → d ≡ quota_spec hard
    SameHard-eq (quota_spec h) d e same = same ∙ e
    SameHard-eq no_spec d e same = absurd (cc e)
    SameHard-eq (limits_spec h) d e same = absurd (cc e)
    SameHard-eq (policy_spec h) d e same = absurd (cc e)
    SameHard-eq (binding_spec h) d e same = absurd (cc e)
    SameHard-eq (group_users h) d e same = absurd (cc e)
    SameHard-eq (egress_spec h l) d e same = absurd (cc e)
    SameHard-eq (project_spec h) d e same = absurd (cc e)

module _ (client : Client) (L : Lawful client) (machinery : Machinery)
    (scheme : Option machinery.Scheme) (k : Key) (hard : ResourceList) where
  abbrev pub Stored : client.State → Type 0
  Stored s = HasHard hard (L.stored s k)

  -- What is created or patched from here is the quota.
  abbrev pub Made : Object → Type 0
  Made o = (o.key ≡ k) × (o.content ≡ quota_spec hard)

  ensured-Made :
      (tenant_ns : Option Object) (o p : Object)
      → Made o
      → ensure_tenant_namespace_owner_ref machinery scheme tenant_ns o ≡ ok p
      → Made p
  ensured-Made tenant_ns o p (at, holds) e = (
    ensure_tenant_namespace_owner_ref-same key_of (λ _ _. refl) machinery scheme tenant_ns o p e
        ∙ at,
    ensure_tenant_namespace_owner_ref-same content_of (λ _ _. refl) machinery scheme tenant_ns o p e
        ∙ holds,
  )

  Holds-Stored : (o : Object) (s : client.State) → Made o → Holds o (L.stored s o.key) → Stored s
  Holds-Stored o s (at, holds) h =
      subst (λ j. HasHard hard (L.stored s j)) at (Holds-HasHard hard o _ holds h)

  create-Stored : (o : Object) → Leaves (λ s. Made o) Stored (client.create o)
  create-Stored o = record {
    leaves = λ s made u e. Holds-Stored o (client.create o s).1 made (L.create_done o s e);
  }

  patch-Stored :
      (base o : Object)
      → Leaves (λ s. Made o × (L.stored s k ≡ some base)) Stored (client.patch base o)
  patch-Stored base o = record {
    leaves = λ s (made, found) u e.
        Holds-Stored o (client.patch base o s).1 made
          (L.patch_done base o s (ap (L.stored s) made.0 ∙ found) e);
  }

  lift-Made :
      (Q : client.State → Type 0) (tenant_ns : Option Object) (o : Object)
      (next : Object → Effect client.State (Unit {0}))
      → Made o
      → ((p : Object) → Leaves (λ s. Made p × Q s) Stored (next p))
      → Leaves Q Stored
          (lift (ensure_tenant_namespace_owner_ref machinery scheme tenant_ns o) >>= next)
  unfolding lift
  lift-Made Q tenant_ns o next made l =
      Leaves-bind (λ p s. Made p × Q s) _ _ (λ s q p e. (ensured-Made tenant_ns o p made e, q)) l

  pub write_owned-Stored :
      (tenant_ns : Option Object) (desired : Object)
      → Made desired
      → (r : Attempt Object)
      → Leaves (Read client L k r) Stored (write_owned client machinery scheme tenant_ns desired r)
  unfolding write_owned
  write_owned-Stored tenant_ns desired made (got current) =
      let merged = record current {
        labels = merge_string_maps current.labels desired.labels;
        content = desired.content;
      } in
      record {
        leaves = λ s (at, found) u e.
            (lift-Made (λ t. L.stored t k ≡ some current) tenant_ns merged _ (at, made.1)
                (patch-Stored current)).leaves
              s found u e;
      }
  write_owned-Stored tenant_ns desired made (failed e) = branch (is_not_found e)
    where
      branch :
          (b : Bool)
          → Leaves (Read client L k (failed e)) Stored (
              if b
              then lift (ensure_tenant_namespace_owner_ref machinery scheme tenant_ns desired)
                >>= client.create
              else raise e)
      branch true =
          lift-Made _ tenant_ns desired _ made
            λ p. record { leaves = λ s (m, q) u f. (create-Stored p).leaves s m u f }
      branch false = Leaves-raise e
