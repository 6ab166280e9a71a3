-- ===== src/Deletion/Waiting.antt =====
-- The deletion of a ProjectOnboarding waits for every live tenant namespace that no entry releases.
use project_onboarding_opera.Base.{
  String, ◌≡◌, ◌⊎◌, inl, inr, true, false, none, some, List, [], ◌∷◌, refl, sym, ap, ◌∙◌, subst,
  Outcome, ok, fail, panic, Error, ◌==◌, eq_iff, arith, Bool-cases,
}
use project_onboarding_opera.Base.Text.{is_empty}
use project_onboarding_opera.Base.Lists.{All, Among, is_nil, member}
use project_onboarding_opera.Api.{NamespaceSpec, ProjectOnboarding}
use project_onboarding_opera.Helpers.{is_offboard}
use project_onboarding_opera.Helpers.Names.{sanitize_name}
use project_onboarding_opera.Helpers.Maps.{MapOrder}
use project_onboarding_opera.Effects.{Attempt, got, failed, attempt, recover}
use project_onboarding_opera.Effects.Keeps.{
  Yields, Yields-then, Yields-pure, Yields-raise, Yields-if, Yields-wrapped, Keeps-Yields,
}
use project_onboarding_opera.Cluster.{
  namespace, cluster_key, Object, Client, Matches, Lawful, is_not_found,
}
use project_onboarding_opera.Cleanup.{managed_list_options}
use project_onboarding_opera.Cleanup.Guards.{Stays}
use project_onboarding_opera.Cleanup.Foreign.{Matches-managed, other_namespace, is_namespace}
use project_onboarding_opera.Prune.{list_managed_namespaces}
use project_onboarding_opera.Prune.Frame.{SparedBy}
use project_onboarding_opera.Deletion.{
  answer_exists, is_live, managed_namespace_exists, settle_namespace_entry,
  finalize_namespace_entry, finalize_entries, cleanup_cluster_scoped_for_released_tenants,
  namespace_names_in_spec, Finalized, finalize_project_onboarding_deletion,
}
use project_onboarding_opera.Deletion.Frame.{
  finalize_namespace_entry-Keeps, finalize_entries-Keeps,
  cleanup_cluster_scoped_for_released_tenants-Keeps,
}
use project_onboarding_opera.Deletion.Pending.{
  is_nil-append, is_nil-pending, verdict-waits, unlisted_names-nonempty, KeptBy,
}

module _ (client : Client) (L : Lawful client) (x : Object) (name : String)
    (po : ProjectOnboarding) where
  abbrev Stored : client.State → Type 0
  Stored = Stays client L (cluster_key namespace name) x

  -- Reading the namespace finds it.
  abbrev Found : Attempt Object → Type 0
  Found (got o) = o ≡ x
  Found (failed e) = is_not_found e ≡ false

  present_or_missing :
      (s : client.State) (e f : Error)
      → Stored s
      → (client.get (cluster_key namespace name) s).0 ≡ fail e
      → e ≡ f
      → (is_not_found f ≡ true) ⊎ (is_not_found f ≡ false)
      → is_not_found f ≡ false
  present_or_missing s e f h r same (inl missing) =
      absurd
        (cc (h, L.get_missing (cluster_key namespace name) s e r (ap is_not_found same ∙ missing)))
  present_or_missing s e f h r same (inr present) = present

  recover-Found :
      (s : client.State) (m : Outcome Object)
      → Stored s
      → (client.get (cluster_key namespace name) s).0 ≡ m
      → (r : Attempt Object) → recover m ≡ ok r
      → Found r
  recover-Found s (ok o) h e (got o') f = cc (h, L.get_found (cluster_key namespace name) s o e, f)
  recover-Found s (ok o) h e (failed e') f = absurd (cc f)
  recover-Found s (fail e') h e (got o) f = absurd (cc f)
  recover-Found s (fail e') h e (failed e'') f =
      present_or_missing s e' e'' h e (cc f) (Bool-cases (is_not_found e''))
  recover-Found s (panic t) h e r f = absurd (cc f)

  read-Found : Yields Stored Found (attempt (client.get (cluster_key namespace name)))
  unfolding attempt
  read-Found = record {
    keeps = λ s h. L.get_keeps (cluster_key namespace name) s (cluster_key namespace name) ∙ h;
    result = λ s h r e. recover-Found s (client.get (cluster_key namespace name) s).0 h refl r e;
  }

  module _ (live : is_live client po x ≡ true) where
    answer_exists-true :
        (r : Attempt Object)
        → Found r
        → Yields Stored (λ b. b ≡ true) (answer_exists client (is_live client po) r)
    unfolding answer_exists
    answer_exists-true (got o) same = Yields-pure _ _ (ap (is_live client po) same ∙ live)
    answer_exists-true (failed e) present = rw present (Yields-raise _ e)

    managed_namespace_exists-true :
        Yields Stored (λ b. b ≡ true) (managed_namespace_exists client po name)
    unfolding managed_namespace_exists
    managed_namespace_exists-true = Yields-then Found _ _ _ read-Found answer_exists-true

    -- The entry of the name reports it as pending.
    named-pending :
        (ns_spec : NamespaceSpec)
        → KeptBy name ns_spec
        → sanitize_name ns_spec.name ≡ name
        → Yields Stored (λ p. p ≡ name) (finalize_namespace_entry client po ns_spec)
    unfolding finalize_namespace_entry settle_namespace_entry
    named-pending ns_spec kept same =
        Yields-then (λ b. b ≡ true) _ _ _
          (subst (λ n. Yields Stored (λ b. b ≡ true) (managed_namespace_exists client po n))
            (sym same) managed_namespace_exists-true)
          λ b e.
            Yields-if _ (is_offboard ns_spec.offboard) _ _ (λ off. absurd (kept off (sym same)))
              λ _. rw e (Yields-pure _ _ same)

    module _ (real : is_empty name ≡ false) where
      spared :
          (ns_spec : NamespaceSpec)
          → KeptBy name ns_spec
          → SparedBy po (cluster_key namespace name) x ns_spec
      spared ns_spec kept off = other_namespace refl (kept off)

      All-SparedBy :
          (namespaces : List NamespaceSpec)
          → All (KeptBy name) namespaces
          → All (SparedBy po (cluster_key namespace name) x) namespaces
      All-SparedBy [] t = tt
      All-SparedBy (ns_spec ∷ namespaces) (kept, t) =
          (spared ns_spec kept, All-SparedBy namespaces t)

      -- Some entry of the name keeps the list of the pending names from being empty.
      finalize_entries-pending :
          (namespaces : List NamespaceSpec)
          → All (KeptBy name) namespaces
          → member name (namespace_names_in_spec namespaces) ≡ true
          → Yields Stored (λ ps. is_nil ps ≡ false) (finalize_entries client po namespaces)
      unfolding finalize_entries namespace_names_in_spec member
      finalize_entries-pending [] t named = absurd (cc named)
      finalize_entries-pending (ns_spec ∷ namespaces) (kept, t) named =
          elim (Bool-cases (sanitize_name ns_spec.name == name)) [
            | inl same ↦
                Yields-then (λ p. p ≡ name) _ _ _
                  (named-pending ns_spec kept
                    (ground (arith, eq_iff (sanitize_name ns_spec.name) name)))
                  λ p e.
                    Yields-then _ _ _ _
                      (Keeps-Yields _ (
                        finalize_entries-Keeps client L (cluster_key namespace name) x po
                          (is_namespace refl) namespaces (All-SparedBy namespaces t)))
                      λ rest _. Yields-pure _ _ (is_nil-pending p rest (inl (ap is_empty e ∙ real)))
            | inr other ↦
                Yields-then _ _ _ _
                  (Keeps-Yields _ (
                    finalize_namespace_entry-Keeps client L (cluster_key namespace name) x po
                      (is_namespace refl) ns_spec (spared ns_spec kept)))
                  λ p _.
                    Yields-then _ _ _ _ (finalize_entries-pending namespaces t (ground (arith)))
                      λ rest q. Yields-pure _ _ (is_nil-pending p rest (inr q))
          ]

      -- Listing the managed namespaces finds the namespace.
      managed-listed :
          Matches (managed_list_options po) x.labels
          → Yields Stored (Among x) (list_managed_namespaces client po)
      unfolding list_managed_namespaces
      managed-listed fits = Yields-wrapped _ _ _ (record {
        keeps = λ s h.
            L.list_keeps namespace none (managed_list_options po) s (cluster_key namespace name)
            ∙ h;
        result = λ s h os e.
            L.list_complete namespace none (managed_list_options po) s os
              (cluster_key namespace name) x e h refl tt fits;
      })

      pub finalize-waits :
          (order : MapOrder)
          → x.key ≡ cluster_key namespace name
          → x.deleting ≡ false
          → Matches (managed_list_options po) x.labels
          → All (KeptBy name) po.namespaces
          → Yields Stored
              (λ r. r.complete ≡ false)
              (finalize_project_onboarding_deletion client order po)
      unfolding finalize_project_onboarding_deletion
      finalize-waits order at undeleted fits kept =
          elim (Bool-cases (member name (namespace_names_in_spec po.namespaces))) [
            | inl named ↦
                Yields-then _ _ _ _ (finalize_entries-pending po.namespaces kept named) λ pending q.
                  Yields-then _ _ _ _ (managed-listed fits) λ items _.
                    Yields-then _ _ _ _ released
                      λ _ _. Yields-pure _ _ (verdict-waits _ (is_nil-append pending _ (inl q)))
            | inr unnamed ↦
                Yields-then _ _ _ _
                  (Keeps-Yields _ (
                    finalize_entries-Keeps client L (cluster_key namespace name) x po
                      (is_namespace refl) po.namespaces (All-SparedBy po.namespaces kept)))
                  λ pending _. Yields-then _ _ _ _ (managed-listed fits) λ items m.
                    Yields-then _ _ _ _ released λ _ _. Yields-pure _ _ (
                      verdict-waits _ (
                        is_nil-append pending _
                          (inr (unlisted_names-nonempty x _ items m (rw at unnamed) undeleted))))
          ]
        where
          released :
              Yields Stored
                (λ _. Unit)
                (cleanup_cluster_scoped_for_released_tenants client order po)
          released = Keeps-Yields _ (
              cleanup_cluster_scoped_for_released_tenants-Keeps client L
                (cluster_key namespace name) x po (is_namespace refl) order)

pub is_live-managed :
    (client : Client) (x : Object) (po : ProjectOnboarding)
    → Matches (managed_list_options po) x.labels
    → x.deleting ≡ false
    → is_live client po x ≡ true
is_live-managed client x po fits undeleted =
    let managed = Matches-managed po x.labels fits in rw (managed, undeleted) refl

-- The deletion of a ProjectOnboarding waits: while a namespace with a name is stored that carries
-- the labels of the managed namespaces of the ProjectOnboarding, is not being deleted, and whose
-- name no entry marked `offboard` has, `FinalizeProjectOnboardingDeletion` never answers that it is
-- complete, and it leaves that namespace stored as it was.
pub finalize-incomplete :
    (client : Client) (L : Lawful client) (order : MapOrder) (po : ProjectOnboarding)
    (name : String) (x : Object) (s : client.State) (r : Finalized)
    → L.stored s (cluster_key namespace name) ≡ some x
    → x.deleting ≡ false
    → Matches (managed_list_options po) x.labels
    → is_empty name ≡ false
    → All (KeptBy name) po.namespaces
    → (finalize_project_onboarding_deletion client order po s).0 ≡ ok r
    → (r.complete ≡ false)
      × (L.stored
            (finalize_project_onboarding_deletion client order po s).1
            (cluster_key namespace name)
          ≡ some x)
finalize-incomplete client L order po name x s r h undeleted fits real kept e =
    let live = is_live-managed client x po fits undeleted in
    let at = L.stored_key s (cluster_key namespace name) x h in
    let waits = finalize-waits client L x name po live real order at undeleted fits kept in
    (waits.result s h r e, waits.keeps s h)
