-- ===== src/Quota/Parsing.antt =====
-- The two outcomes of `resource.MustParse`, and that building a quota reports no error.
use project_onboarding_opera.Base.{
  String, ◌<>◌, ◌≡◌, refl, inl, inr, Bool-cases, Option, none, some, ok, Ends, Panics, Ends-bind,
  Option-cases,
}
use project_onboarding_opera.Base.Text.{ℤ, is_empty, trim_space, decimal_signed}
use project_onboarding_opera.Helpers.Names.{normalize_quantity}
use project_onboarding_opera.Api.{ResourceQuotaLimitSpec, ResourceQuotaRequestSpec}
use project_onboarding_opera.Quota.{
  ResourceList, must_parse, set_quantity, set_count, set_limits, set_requests,
}

module _ (parse_error : String → Option String) where
  pub must_parse_accepted :
      (v : String) → parse_error v ≡ none → must_parse parse_error v ≡ ok (record { text = v })
  unfolding must_parse
  must_parse_accepted v h = rw (h, must_parse)

  pub must_parse_rejected :
      (v : String) {err : String} → parse_error v ≡ some err → Panics (must_parse parse_error v)
  unfolding must_parse
  must_parse_rejected v {err} h = ("cannot parse '" <> (v <> ("': " <> err)), rw (h, must_parse))

  pub must_parse-Ends : (v : String) → Ends (must_parse parse_error v)
  must_parse-Ends v = elim (Option-cases (parse_error v)) [
    | inl accepted ↦ inl (_, must_parse_accepted v accepted)
    | inr (err, rejected) ↦ inr (must_parse_rejected v rejected)
  ]

  pub set_count-Ends :
      (name : String) (value : Option ℤ) (hard : ResourceList)
      → Ends (set_count parse_error name value hard)
  unfolding set_count
  set_count-Ends name none hard = inl (hard, refl)
  set_count-Ends name (some n) hard =
      Ends-bind _ _ (must_parse-Ends (decimal_signed n)) λ q. inl (_, refl)

  pub set_quantity-Ends :
      (name : String) (value : Option String) (hard : ResourceList)
      → Ends (set_quantity parse_error name value hard)
  unfolding set_quantity
  set_quantity-Ends name none hard = inl (hard, refl)
  set_quantity-Ends name (some v) hard = elim (Bool-cases (is_empty (trim_space v))) [
    | inl blank ↦ rw blank (inl (hard, refl))
    | inr filled ↦
        rw filled (Ends-bind _ _ (must_parse-Ends (normalize_quantity v)) λ q. inl (_, refl))
  ]

  pub set_limits-Ends :
      (limits : Option ResourceQuotaLimitSpec) (hard : ResourceList)
      → Ends (set_limits parse_error limits hard)
  unfolding set_limits
  set_limits-Ends none hard = inl (hard, refl)
  set_limits-Ends (some l) hard =
      Ends-bind _ _ (set_quantity-Ends _ _ _)
        λ a. Ends-bind _ _ (set_quantity-Ends _ _ _) λ b. set_quantity-Ends _ _ _

  pub set_requests-Ends :
      (requests : Option ResourceQuotaRequestSpec) (hard : ResourceList)
      → Ends (set_requests parse_error requests hard)
  unfolding set_requests
  set_requests-Ends none hard = inl (hard, refl)
  set_requests-Ends (some r) hard = Ends-bind _ _ (set_quantity-Ends _ _ _) λ a.
      Ends-bind _ _ (set_quantity-Ends _ _ _)
        λ b. Ends-bind _ _ (set_quantity-Ends _ _ _) λ c. set_quantity-Ends _ _ _
