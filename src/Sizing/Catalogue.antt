-- ===== src/Sizing/Catalogue.antt =====
-- internal/onboarding/tshirt_merge.go, `ResolveNamespaceSpec`, and internal/validation/validate.go,
-- the checks that read a T-shirt size. Both read the catalogue through the API server, which is the
-- parameter `read`: what `Get` answers for the name of a size.
pub mod Admitted
use project_onboarding_opera.Base.{
  String, ◌<>◌, Bool, true, false, Option, none, some, List, [], ◌∷◌, Error, Outcome, ok, fail,
  message, wrap, ◌>>◌, if◌then◌else◌,
}
use project_onboarding_opera.Base.Text.{is_empty, quote}
use project_onboarding_opera.Api.{TShirtSizeSpec, NamespaceSpec, ProjectOnboarding}
use project_onboarding_opera.Helpers.Maps.{MapOrder}
use project_onboarding_opera.Cluster.{is_not_found}
use project_onboarding_opera.Sizing.Resolve.{apply_tshirt}
use project_onboarding_opera.Validation.Quantity.{
  Checked, validate_resource_quota_spec, validate_limit_range_spec,
}
use project_onboarding_opera.Validation.Resources.{
  tshirt_size_spec_has_sizing, validate_unique_namespace_names, validate_git_ops_requirements,
}

module _ (read : String → Outcome TShirtSizeSpec) where
  -- What `ResolveNamespaceSpec` makes of the answer of `Get`.
  unfoldable pub use_tshirt :
      MapOrder → NamespaceSpec → Outcome TShirtSizeSpec → Outcome NamespaceSpec
  use_tshirt order ns_spec (ok tshirt) = ok (apply_tshirt order tshirt ns_spec)
  use_tshirt order ns_spec (fail e) =
      if is_not_found e
      then fail (message ("TShirtSize " <> (quote ns_spec.project_size <> " not found")))
      else fail (wrap ("get TShirtSize " <> quote ns_spec.project_size) e)
  use_tshirt order ns_spec (Outcome.panic t) = Outcome.panic t

  unfoldable pub resolve_namespace_spec : MapOrder → NamespaceSpec → Outcome NamespaceSpec
  unfolding use_tshirt
  resolve_namespace_spec order ns_spec =
      if is_empty ns_spec.project_size
      then ok ns_spec
      else use_tshirt order ns_spec (read ns_spec.project_size)

  -- What `validateNamespaceSpec` makes of the answer of `Get`.
  unfoldable pub check_tshirt : NamespaceSpec → Outcome TShirtSizeSpec → Checked
  check_tshirt ns (ok tshirt) =
      if tshirt_size_spec_has_sizing tshirt
      then ok tt
      else fail
          (message ("TShirtSize " <> (quote ns.project_size <> " has no quota or limit values")))
  check_tshirt ns (fail e) =
      if is_not_found e
      then fail (
          message (
            "TShirtSize "
            <> (quote ns.project_size
                <> (" not found (referenced by namespace entry " <> (quote ns.name <> ")")))))
      else fail (wrap ("get TShirtSize " <> quote ns.project_size) e)
  check_tshirt ns (Outcome.panic t) = Outcome.panic t

  module _ (parse_error : String → Option String) where
    unfoldable pub validate_namespace_spec : NamespaceSpec → Checked
    unfolding check_tshirt
    validate_namespace_spec ns =
        let prefix = "spec.namespaces[" <> (quote ns.name <> "]") in
        validate_resource_quota_spec parse_error (prefix <> ".resourceQuotas") ns.resource_quotas
        >> (validate_limit_range_spec parse_error (prefix <> ".limitRanges") ns.limit_ranges
            >> (if is_empty ns.project_size then ok tt else check_tshirt ns (read ns.project_size)))

    unfoldable pub validate_namespace_specs : List NamespaceSpec → Checked
    unfolding validate_namespace_spec
    validate_namespace_specs [] = ok tt
    validate_namespace_specs (ns ∷ namespaces) =
        let rest = validate_namespace_specs namespaces in validate_namespace_spec ns >> rest

    unfoldable pub validate_project_onboarding : ProjectOnboarding → Checked
    unfolding validate_namespace_specs
    validate_project_onboarding po =
        validate_unique_namespace_names po.namespaces
        >> (validate_git_ops_requirements po.git_ops po.namespaces
            >> validate_namespace_specs po.namespaces)

-- The checks of `ValidateTShirtSize` after the one on the name.
unfoldable pub validate_sizing : (String → Option String) → TShirtSizeSpec → Checked
validate_sizing parse_error spec =
    if tshirt_size_spec_has_sizing spec
    then validate_resource_quota_spec parse_error "spec.resourceQuotas" spec.resource_quotas
      >> validate_limit_range_spec parse_error "spec.limitRanges" spec.limit_ranges
    else fail
        (message "spec must define resourceQuotas and/or limitRanges with at least one limit value")

-- ValidateTShirtSize; `dns_errors` is what `validation.IsDNS1123Subdomain` reports for the name,
-- joined, if it reports anything.
unfoldable pub validate_tshirt_size :
    (String → Option String) → (String → Option String) → String → TShirtSizeSpec → Checked
unfolding validate_sizing
validate_tshirt_size dns_errors parse_error name spec = elim (dns_errors name) [
  | some errs ↦ fail (
      message
        ("metadata.name " <> (quote name <> (" is not a valid DNS-1123 subdomain: " <> errs))))
  | none ↦ validate_sizing parse_error spec
]
