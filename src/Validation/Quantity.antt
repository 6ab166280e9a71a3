-- ===== src/Validation/Quantity.antt =====
-- internal/validation/quantity.go. `resource.ParseQuantity` is the parameter `parse_error`: the text
-- of the error that it reports for a text, if it reports one.
use Prim.Native.Char.{code}
use Prim.Native.String.{[], ◌∷◌}
use project_onboarding_opera.Base.{
  ℕ, suc, String, ◌<>◌, Bool, true, ◌&&◌, ◌||◌, Option, none, some, List, Outcome, ok, fail,
  message, ◌>>◌, leb, ◌=ℕ◌, if◌then◌else◌,
}
use project_onboarding_opera.Base.Text.{is_empty, trim_space, to_lower, contains, decimal, quote}
use project_onboarding_opera.Helpers.Names.{normalize_quantity}
use project_onboarding_opera.Api.{
  StorageClassQuota, ResourceQuotaLimitSpec, ResourceQuotaRequestSpec, ResourceQuotaSpec,
  ResourceAmountSpec, StorageAmountSpec, LimitRangePodSpec, LimitRangeContainerSpec,
  LimitRangePvcSpec, LimitRangeSpec,
}

abbrev pub Checked : Type 0
Checked = Outcome (Unit {0})

digits_or_dots : String → Bool
digits_or_dots [] = true
digits_or_dots (c ∷ s) =
    (leb b'0' (code c) && leb (code c) b'9' || code c =ℕ b'.') && digits_or_dots s

-- bareNumberQuantity.MatchString, with the expression `^[\d.]+$`
unfoldable pub is_bare_number : String → Bool
unfolding digits_or_dots
is_bare_number [] = Bool.false
is_bare_number (c ∷ s) = digits_or_dots (c ∷ s)

-- if p != nil { check(*p) }
abbrev pub on_some {ℓ} : {A : Type ℓ} → Option A → (A → Checked) → Checked
on_some none check = ok tt
on_some (some a) check = check a

module _ (parse_error : String → Option String) where
  -- `if _, err := resource.ParseQuantity(text); err != nil { return … }`
  parsed : String → String → Checked
  parsed text report = elim (parse_error text) [
    | none ↦ ok tt
    | some err ↦ fail (message (report <> err))
  ]

  unfoldable pub validate_cpu_quantity : String → String → Checked
  unfolding parsed
  validate_cpu_quantity field_path value =
      let trimmed = trim_space value in
      if is_empty trimmed
      then ok tt
      else parsed trimmed (field_path <> (": invalid CPU quantity " <> (quote value <> ": ")))

  unfoldable pub validate_byte_quantity : String → String → Checked
  unfolding parsed
  validate_byte_quantity field_path value =
      let trimmed = trim_space value in
      if is_empty trimmed
      then ok tt
      else if is_bare_number trimmed
      then fail (
          message (
            field_path
            <> (": quantity "
                <> (quote value
                    <> " must include a unit suffix (e.g. 4Gi, 500Mi); plain numbers are interpreted as bytes by Kubernetes"))))
      else parsed (normalize_quantity trimmed)
          (field_path <> (": invalid quantity " <> (quote value <> ": ")))

  unfoldable pub validate_storage_class_quota_value : String → String → String → Checked
  unfolding parsed validate_byte_quantity
  validate_storage_class_quota_value field_path key value =
      let trimmed = trim_space value in
      let key_lower = to_lower key in
      let counted = parsed trimmed (field_path <> (": invalid count " <> (quote value <> ": "))) in
      if is_empty trimmed
      then ok tt
      else if contains key_lower "persistentvolumeclaims" && is_bare_number trimmed
      then counted
      else if contains key_lower "storage"
      then validate_byte_quantity field_path trimmed
      else if is_bare_number trimmed
      then counted
      else validate_byte_quantity field_path trimmed

  unfoldable pub validate_resource_amount_spec : String → Option ResourceAmountSpec → Checked
  validate_resource_amount_spec prefix none = ok tt
  validate_resource_amount_spec prefix (some spec) =
      on_some spec.cpu (validate_cpu_quantity (prefix <> ".cpu"))
      >> on_some spec.memory (validate_byte_quantity (prefix <> ".memory"))

  unfoldable pub validate_storage_amount_spec : String → Option StorageAmountSpec → Checked
  validate_storage_amount_spec prefix none = ok tt
  validate_storage_amount_spec prefix (some spec) =
      on_some spec.storage (validate_byte_quantity (prefix <> ".storage"))

  unfoldable pub validate_resource_quota_limit_spec :
      String → Option ResourceQuotaLimitSpec → Checked
  validate_resource_quota_limit_spec prefix none = ok tt
  validate_resource_quota_limit_spec prefix (some spec) =
      on_some spec.cpu (validate_cpu_quantity (prefix <> ".cpu"))
      >> (on_some spec.memory (validate_byte_quantity (prefix <> ".memory"))
          >> on_some spec.ephemeral_storage
              (validate_byte_quantity (prefix <> ".ephemeralStorage")))

  unfoldable pub validate_resource_quota_request_spec :
      String → Option ResourceQuotaRequestSpec → Checked
  validate_resource_quota_request_spec prefix none = ok tt
  validate_resource_quota_request_spec prefix (some spec) =
      on_some spec.cpu (validate_cpu_quantity (prefix <> ".cpu"))
      >> (on_some spec.memory (validate_byte_quantity (prefix <> ".memory"))
          >> (on_some spec.ephemeral_storage
                (validate_byte_quantity (prefix <> ".ephemeralStorage"))
              >> on_some spec.storage (validate_byte_quantity (prefix <> ".storage"))))

  -- The loop over `spec.StorageClasses`, from index `i`.
  unfoldable pub validate_storage_classes : String → ℕ → List StorageClassQuota → Checked
  validate_storage_classes prefix i List.[] = ok tt
  validate_storage_classes prefix i (List.◌∷◌ entry entries) =
      let rest = validate_storage_classes prefix (suc i) entries in
      validate_storage_class_quota_value
        (prefix <> (".storageClasses[" <> (decimal i <> "].value"))) entry.key entry.value
      >> rest

  unfoldable pub validate_resource_quota_spec : String → Option ResourceQuotaSpec → Checked
  validate_resource_quota_spec prefix none = ok tt
  validate_resource_quota_spec prefix (some spec) =
      on_some spec.cpu (validate_cpu_quantity (prefix <> ".cpu"))
      >> (on_some spec.memory (validate_byte_quantity (prefix <> ".memory"))
          >> (on_some spec.ephemeral_storage
                (validate_byte_quantity (prefix <> ".ephemeralStorage"))
              >> (validate_resource_quota_limit_spec (prefix <> ".limits") spec.limits
                  >> (validate_resource_quota_request_spec (prefix <> ".requests") spec.requests
                      >> validate_storage_classes prefix 0 spec.storage_classes))))

  validate_pod : String → LimitRangePodSpec → Checked
  validate_pod prefix pod =
      validate_resource_amount_spec (prefix <> ".pod.max") pod.max
      >> validate_resource_amount_spec (prefix <> ".pod.min") pod.min

  validate_container : String → LimitRangeContainerSpec → Checked
  validate_container prefix container =
      validate_resource_amount_spec (prefix <> ".container.max") container.max
      >> (validate_resource_amount_spec (prefix <> ".container.min") container.min
          >> (validate_resource_amount_spec (prefix <> ".container.default") container.default
              >> validate_resource_amount_spec (prefix <> ".container.defaultRequest")
                  container.default_request))

  validate_pvc : String → LimitRangePvcSpec → Checked
  validate_pvc prefix pvc =
      validate_storage_amount_spec (prefix <> ".pvc.min") pvc.min
      >> validate_storage_amount_spec (prefix <> ".pvc.max") pvc.max

  unfoldable pub validate_limit_range_spec : String → Option LimitRangeSpec → Checked
  unfolding validate_pod validate_container validate_pvc
  validate_limit_range_spec prefix none = ok tt
  validate_limit_range_spec prefix (some spec) =
      on_some spec.pod (validate_pod prefix)
      >> (on_some spec.container (validate_container prefix)
          >> on_some spec.pvc (validate_pvc prefix))
