-- ===== src/Sizing/Catalogue/Admitted.antt =====
-- What admission promises to the reconciler: every entry of an admitted spec resolves.
use project_onboarding_opera.Base.{
  String, ◌≡◌, refl, Bool, true, false, Bool-cases, inl, inr, Option, List, [], ◌∷◌, Outcome, ok,
  fail, panic, Succeeds, >>-eq-ok, ◌<>◌, Error, if◌then◌else◌,
}
use project_onboarding_opera.Base.Text.{is_empty, quote}
use project_onboarding_opera.Base.Lists.{All}
use project_onboarding_opera.Api.{TShirtSizeSpec, NamespaceSpec, ProjectOnboarding}
use project_onboarding_opera.Helpers.Maps.{MapOrder}
use project_onboarding_opera.Cluster.{is_not_found}
use project_onboarding_opera.Sizing.Resolve.{apply_tshirt}
use project_onboarding_opera.Validation.Quantity.{
  Checked, validate_resource_quota_spec, validate_limit_range_spec,
}
use project_onboarding_opera.Validation.Resources.{
  validate_unique_namespace_names, validate_git_ops_requirements,
}
use project_onboarding_opera.Sizing.Catalogue.{
  use_tshirt, resolve_namespace_spec, check_tshirt, validate_namespace_spec,
  validate_namespace_specs, validate_project_onboarding,
}

else-accepted : (b : Bool) (k : Checked) → b ≡ false → (if b then ok tt else k) ≡ ok tt → k ≡ ok tt
else-accepted true k e h = absurd (cc e)
else-accepted false k e h = h

two-failures :
    (b : Bool) (e f : Error) → (r : Checked) → r ≡ (if b then fail e else fail f) → r ≡ ok tt → ⊥
two-failures true e f r g h = cc (g, h)
two-failures false e f r g h = cc (g, h)

module _ (read : String → Outcome TShirtSizeSpec) (order : MapOrder) where
  use_tshirt-Succeeds :
      (ns : NamespaceSpec) (r : Outcome TShirtSizeSpec)
      → check_tshirt read ns r ≡ ok tt
      → Succeeds (use_tshirt read order ns r)
  unfolding check_tshirt use_tshirt
  use_tshirt-Succeeds ns (ok tshirt) h = (apply_tshirt order tshirt ns, refl)
  use_tshirt-Succeeds ns (fail e) h = absurd (two-failures (is_not_found e) _ _ _ refl h)
  use_tshirt-Succeeds ns (panic t) h = absurd (cc h)

  module _ (parse_error : String → Option String) where
    resolve_namespace_spec-Succeeds :
        (ns : NamespaceSpec)
        → validate_namespace_spec read parse_error ns ≡ ok tt
        → Succeeds (resolve_namespace_spec read order ns)
    unfolding validate_namespace_spec resolve_namespace_spec
    resolve_namespace_spec-Succeeds ns h =
        let prefix = "spec.namespaces[" <> (quote ns.name <> "]") in
        let limits =
          (>>-eq-ok
            (validate_resource_quota_spec parse_error (prefix <> ".resourceQuotas")
              ns.resource_quotas)
            _ h).1 in
        let checked =
          (>>-eq-ok
            (validate_limit_range_spec parse_error (prefix <> ".limitRanges") ns.limit_ranges) _
            limits).1 in
        elim (Bool-cases (is_empty ns.project_size)) [
          | inl unsized ↦ (ns, rw unsized refl)
          | inr sized ↦
              let (a, e) =
                use_tshirt-Succeeds ns (read ns.project_size) (else-accepted _ _ sized checked) in
              (a, rw sized e)
        ]

    All-Succeeds :
        (namespaces : List NamespaceSpec)
        → validate_namespace_specs read parse_error namespaces ≡ ok tt
        → All (λ ns. Succeeds (resolve_namespace_spec read order ns)) namespaces
    unfolding validate_namespace_specs
    All-Succeeds [] h = tt
    All-Succeeds (ns ∷ namespaces) h =
        let ((u, own), rest) = >>-eq-ok (validate_namespace_spec read parse_error ns) _ h in
        (resolve_namespace_spec-Succeeds ns own, All-Succeeds namespaces rest)

    -- If a ProjectOnboarding passes its admission checks, then every one of its entries resolves
    -- without an error, as long as the T-shirt sizes read as they did on admission.
    pub validate_project_onboarding-resolves :
        (po : ProjectOnboarding)
        → validate_project_onboarding read parse_error po ≡ ok tt
        → All (λ ns. Succeeds (resolve_namespace_spec read order ns)) po.namespaces
    unfolding validate_project_onboarding
    validate_project_onboarding-resolves po h =
        let required = (>>-eq-ok (validate_unique_namespace_names po.namespaces) _ h).1 in
        let named =
          (>>-eq-ok (validate_git_ops_requirements po.git_ops po.namespaces) _ required).1 in
        All-Succeeds po.namespaces named
