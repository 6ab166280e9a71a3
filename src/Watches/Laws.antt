-- ===== src/Watches/Laws.antt =====
-- The watches and the checks agree on who uses a T-shirt size.
use Prim.Native.Nat.{suc}
use project_onboarding_opera.Base.{
  ◌+◌, String, ◌≡◌, refl, ◌∙◌, ◌↔◌, Bool, true, false, not, ◌&&◌, ◌||◌, some, List, [], ◌∷◌, arith,
  eq_iff, eq_refl, ◌==◌, if◌then◌else◌,
}
use project_onboarding_opera.Base.Dict.{
  Dict, lookup, overlay, NodupKeys, lookup-overlay, get-lookup,
}
use project_onboarding_opera.Base.Lists.{member}
use project_onboarding_opera.Base.Text.{is_empty}
use project_onboarding_opera.Api.{
  NamespaceSpec, ProjectOnboarding, project_onboarding_label_key, project_onboarding_managed_by_key,
  project_onboarding_managed_by_val,
}
use project_onboarding_opera.Reconcile.Tenant.{merge_string_maps}
use project_onboarding_opera.Helpers.Names.{managed_labels}
use project_onboarding_opera.Owners.{is_managed_resource}
use project_onboarding_opera.References.{count_entries, count_references}
use project_onboarding_opera.Watches.{
  uses_size, requests_for_size, sizes_onto, project_onboarding_to_tshirt_size, request_of_label,
  managed_resource_requests,
}

count_entries-uses_size :
    (size_name : String) (namespaces : List NamespaceSpec)
    → (count_entries size_name namespaces ≡ 0) ↔ (uses_size size_name namespaces ≡ false)
unfolding count_entries uses_size
count_entries-uses_size size_name [] = (λ h. refl, λ h. refl)
count_entries-uses_size size_name (ns ∷ namespaces) =
    let (forth, back) = count_entries-uses_size size_name namespaces in
    branch (ns.project_size == size_name) forth back
  where
    branch :
        (b : Bool)
        → (count_entries size_name namespaces ≡ 0 → uses_size size_name namespaces ≡ false)
        → (uses_size size_name namespaces ≡ false → count_entries size_name namespaces ≡ 0)
        → ((if b
              then suc (count_entries size_name namespaces)
              else count_entries size_name namespaces)
            ≡ 0)
          ↔ ((b || uses_size size_name namespaces) ≡ false)
    branch true f g = (λ h. absurd (omega (arith, h)), λ h. absurd (cc h))
    branch false f g = (f, g)

-- No namespace entry refers to a size, by the count that decides on its deletion, exactly if a change
-- of the size enqueues no ProjectOnboarding.
pub count_references-requests :
    (size_name : String) (items : List ProjectOnboarding)
    → (count_references size_name items ≡ 0) ↔ (requests_for_size size_name items ≡ [])
unfolding count_references requests_for_size
count_references-requests size_name [] = (λ h. refl, λ h. refl)
count_references-requests size_name (po ∷ items) =
    let (forth, back) = count_references-requests size_name items in
    let (own, own') = count_entries-uses_size size_name po.namespaces in
    branch (uses_size size_name po.namespaces) own own' forth back
  where
    branch :
        (b : Bool)
        → (count_entries size_name po.namespaces ≡ 0 → b ≡ false)
        → (b ≡ false → count_entries size_name po.namespaces ≡ 0)
        → (count_references size_name items ≡ 0 → requests_for_size size_name items ≡ [])
        → (requests_for_size size_name items ≡ [] → count_references size_name items ≡ 0)
        → ((count_entries size_name po.namespaces + count_references size_name items) ≡ 0) ↔ (
            (if b
              then po.name ∷ requests_for_size size_name items
              else requests_for_size size_name items)
            ≡ [])
    branch true own own' f g = (
      λ h.
          absurd
            (let z : count_entries size_name po.namespaces ≡ 0 = omega (arith, h) in cc (own z)),
      λ h. absurd (cc h),
    )
    branch false own own' f g =
        (λ h. f (omega (arith, h)), λ h. let a = own' refl in let b = g h in omega (arith, a, b))

-- A size that is not blank is enqueued for a ProjectOnboarding if an entry uses it and it was not
-- seen before.
sizes_onto-member :
    (size_name : String) (seen : List String) (namespaces : List NamespaceSpec)
    → is_empty size_name ≡ false
    → member size_name (sizes_onto seen namespaces)
      ≡ (uses_size size_name namespaces && not (member size_name seen))
unfolding sizes_onto uses_size member
sizes_onto-member size_name seen [] real = refl
sizes_onto-member size_name seen (ns ∷ namespaces) real = ground (
  arith,
  sizes_onto-member size_name seen namespaces real,
  sizes_onto-member size_name (ns.project_size ∷ seen) namespaces real,
  eq_iff ns.project_size size_name,
  real,
)

-- The two watches agree: a T-shirt size that is not blank is enqueued for a change of a
-- ProjectOnboarding exactly if the ProjectOnboarding, alone in the list, is enqueued for a change of
-- the size.
pub requests-agree :
    (size_name : String) (po : ProjectOnboarding)
    → is_empty size_name ≡ false
    → member size_name (project_onboarding_to_tshirt_size po)
      ≡ member po.name (requests_for_size size_name (po ∷ []))
unfolding project_onboarding_to_tshirt_size requests_for_size member
requests-agree size_name po real =
    sizes_onto-member size_name [] po.namespaces real ∙ branch (uses_size size_name po.namespaces)
  where
    branch :
        (b : Bool)
        → (b && not (member size_name [])) ≡ member po.name (if b then po.name ∷ [] else [])
    branch true = rw (eq_refl po.name) refl
    branch false = refl

lookup-merged :
    (k v : String) (base over : Dict String)
    → NodupKeys base
    → NodupKeys over
    → lookup k over ≡ some v
    → lookup k (merge_string_maps base over) ≡ some v
unfolding merge_string_maps
lookup-merged k v base over once once' found =
    lookup-overlay k (overlay [] base) over once' ∙ rw found refl

managed_labels-NodupKeys :
    (po : ProjectOnboarding) (ns_spec : NamespaceSpec) → NodupKeys (managed_labels po ns_spec)
unfolding managed_labels lookup
managed_labels-NodupKeys po ns_spec = (refl, (refl, (refl, tt)))

requests_of-lookup :
    (name : String) (labels : Dict String)
    → lookup project_onboarding_managed_by_key labels ≡ some project_onboarding_managed_by_val
    → lookup project_onboarding_label_key labels ≡ some name
    → is_empty name ≡ false
    → managed_resource_requests labels ≡ name ∷ []
unfolding managed_resource_requests is_managed_resource request_of_label
requests_of-lookup name labels by_operator by_name named =
    rw
      (
        get-lookup project_onboarding_managed_by_key project_onboarding_managed_by_val labels
            by_operator,
        get-lookup project_onboarding_label_key name labels by_name,
        named,
      )
      refl

-- Whatever labels an object of a tenant had, once the operator has laid those of `ManagedLabels` over
-- them a change of the object enqueues the ProjectOnboarding, where that has a name.
pub managed_resource_requests-merge_string_maps :
    (po : ProjectOnboarding) (ns_spec : NamespaceSpec) (base : Dict String)
    → NodupKeys base
    → is_empty po.name ≡ false
    → managed_resource_requests (merge_string_maps base (managed_labels po ns_spec)) ≡ po.name ∷ []
unfolding managed_labels lookup
managed_resource_requests-merge_string_maps po ns_spec base once named =
    let own = managed_labels-NodupKeys po ns_spec in
    requests_of-lookup po.name (merge_string_maps base (managed_labels po ns_spec))
      (lookup-merged project_onboarding_managed_by_key project_onboarding_managed_by_val base
        (managed_labels po ns_spec) once own refl)
      (lookup-merged project_onboarding_label_key po.name base (managed_labels po ns_spec) once own
        refl)
      named
