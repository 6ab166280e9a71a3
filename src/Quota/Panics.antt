-- ===== src/Quota/Panics.antt =====
-- Which specs that pass the admission checks can be built, and which make `MustParse` panic.
use project_onboarding_opera.Base.{
  ℕ, suc, String, ◌<>◌, ◌≡◌, refl, ◌⊎◌, inl, inr, true, false, Bool-cases, Option, none, some, List,
  [], ◌∷◌, ok, Succeeds, Succeeds-bind, >>-eq-ok, arith,
}
use project_onboarding_opera.Base.Dict.{insert}
use project_onboarding_opera.Base.Lists.{All}
use project_onboarding_opera.Base.Text.{ℤ, is_empty, trim_space, decimal_signed}
use project_onboarding_opera.Helpers.Names.{normalize_quantity}
use project_onboarding_opera.Api.{
  StorageClassQuota, ResourceQuotaLimitSpec, ResourceQuotaRequestSpec, ResourceQuotaSpec,
}
use project_onboarding_opera.Validation.Quantity.{
  on_some, validate_cpu_quantity, validate_byte_quantity, validate_storage_class_quota_value,
  validate_resource_quota_limit_spec, validate_resource_quota_request_spec,
  validate_storage_classes, validate_resource_quota_spec,
}
use project_onboarding_opera.Quota.Parsing.{must_parse_accepted}
use project_onboarding_opera.Quota.{
  ResourceList, set_quantity, set_count, set_limits, set_requests, set_storage_classes,
  build_resource_quota_hard,
}

-- A text that `strings.TrimSpace` leaves alone.
abbrev pub IsTrimmed : String → Type 0
IsTrimmed v = trim_space v ≡ v

abbrev pub OnSome : (String → Type 0) → Option String → Type 0
OnSome P none = Unit
OnSome P (some v) = P v

abbrev pub TrimmedLimits : Option ResourceQuotaLimitSpec → Type 0
TrimmedLimits none = Unit
TrimmedLimits (some l) =
    OnSome IsTrimmed l.cpu × OnSome IsTrimmed l.memory × OnSome IsTrimmed l.ephemeral_storage

abbrev pub TrimmedRequests : Option ResourceQuotaRequestSpec → Type 0
TrimmedRequests none = Unit
TrimmedRequests (some r) =
    OnSome IsTrimmed r.cpu
    × OnSome IsTrimmed r.memory
    × OnSome IsTrimmed r.storage
    × OnSome IsTrimmed r.ephemeral_storage

-- No text of the spec has blanks around it, and every storage class quota has a value.
pub record IsTidy (q : ResourceQuotaSpec) : Type 0 where
  pub cpu : OnSome IsTrimmed q.cpu
  pub memory : OnSome IsTrimmed q.memory
  pub ephemeral_storage : OnSome IsTrimmed q.ephemeral_storage
  pub limits : TrimmedLimits q.limits
  pub requests : TrimmedRequests q.requests
  pub storage_classes : All (λ e. IsTrimmed e.value × (is_empty e.value ≡ false)) q.storage_classes

-- What the code relies on in resource.ParseQuantity: it accepts every decimal integer, and the
-- operator's respelling of units never spoils a text that it accepts.
pub record IsQuantityParser (parse_error : String → Option String) : Type 0 where
  pub counts : (n : ℤ) → parse_error (decimal_signed n) ≡ none
  pub spellings : (v : String) → parse_error v ≡ none → parse_error (normalize_quantity v) ≡ none

module _ (parse_error : String → Option String) (parser : IsQuantityParser parse_error) where
  -- The value is empty, or it parses once its units are respelt.
  abbrev Usable : String → Type 0
  Usable v = (is_empty v ≡ true) ⊎ (parse_error (normalize_quantity v) ≡ none)

  validate_cpu_quantity-Usable :
      (path v : String)
      → IsTrimmed v
      → Succeeds (validate_cpu_quantity parse_error path v)
      → Usable v
  unfolding validate_cpu_quantity
  validate_cpu_quantity-Usable path v t (_, h) = ground (arith, parser.spellings v)

  validate_byte_quantity-Usable :
      (path v : String)
      → IsTrimmed v
      → Succeeds (validate_byte_quantity parse_error path v)
      → Usable v
  unfolding validate_byte_quantity
  validate_byte_quantity-Usable path v t (_, h) = ground arith

  validate_storage_class_quota_value-Usable :
      (path key v : String)
      → IsTrimmed v
      → Succeeds (validate_storage_class_quota_value parse_error path key v)
      → Usable v
  unfolding validate_storage_class_quota_value
  validate_storage_class_quota_value-Usable path key v t (_, h) = ground (arith, parser.spellings v)

  set_quantity-Succeeds :
      (name : String) (value : Option String) (hard : ResourceList)
      → OnSome IsTrimmed value
      → OnSome Usable value
      → Succeeds (set_quantity parse_error name value hard)
  unfolding set_quantity
  set_quantity-Succeeds name none hard t u = (hard, refl)
  set_quantity-Succeeds name (some v) hard t (inl blank) = (hard, ground arith)
  set_quantity-Succeeds name (some v) hard t (inr parses) = elim (Bool-cases (is_empty v)) [
    | inl blank ↦ (hard, ground arith)
    | inr filled ↦ (
      insert name (record { text = normalize_quantity v }) hard,
      rw (t, filled, must_parse_accepted parse_error _ parses),
    )
  ]

  set_count-Succeeds :
      (name : String) (value : Option ℤ) (hard : ResourceList)
      → Succeeds (set_count parse_error name value hard)
  unfolding set_count
  set_count-Succeeds name none hard = (hard, refl)
  set_count-Succeeds name (some n) hard = (
    insert name (record { text = decimal_signed n }) hard,
    rw (must_parse_accepted parse_error _ (parser.counts n)),
  )

  abbrev Good : Option String → Type 0
  Good value = OnSome IsTrimmed value × OnSome Usable value

  cpu-Good :
      (path : String) (value : Option String)
      → OnSome IsTrimmed value
      → Succeeds (on_some value (validate_cpu_quantity parse_error path))
      → Good value
  cpu-Good path none t h = (t, tt)
  cpu-Good path (some v) t h = (t, validate_cpu_quantity-Usable path v t h)

  bytes-Good :
      (path : String) (value : Option String)
      → OnSome IsTrimmed value
      → Succeeds (on_some value (validate_byte_quantity parse_error path))
      → Good value
  bytes-Good path none t h = (t, tt)
  bytes-Good path (some v) t h = (t, validate_byte_quantity-Usable path v t h)

  set_limits-Succeeds :
      (path : String) (limits : Option ResourceQuotaLimitSpec) (hard : ResourceList)
      → TrimmedLimits limits
      → Succeeds (validate_resource_quota_limit_spec parse_error path limits)
      → Succeeds (set_limits parse_error limits hard)
  unfolding set_limits validate_resource_quota_limit_spec
  set_limits-Succeeds path none hard t h = (hard, refl)
  set_limits-Succeeds path (some l) hard (t, u, v) (_, h) =
      let (c, h₁) = >>-eq-ok _ _ h in
      let (m, e) = >>-eq-ok _ _ h₁ in
      let (t₁, u₁) = cpu-Good (path <> ".cpu") l.cpu t c in
      let (t₂, u₂) = bytes-Good (path <> ".memory") l.memory u m in
      let (t₃, u₃) = bytes-Good (path <> ".ephemeralStorage") l.ephemeral_storage v (_, e) in
      Succeeds-bind _ _ (set_quantity-Succeeds "limits.cpu" l.cpu hard t₁ u₁) λ h₁.
        Succeeds-bind _ _ (set_quantity-Succeeds "limits.memory" l.memory h₁ t₂ u₂)
          λ h₂. set_quantity-Succeeds "limits.ephemeral-storage" l.ephemeral_storage h₂ t₃ u₃

  set_requests-Succeeds :
      (path : String) (requests : Option ResourceQuotaRequestSpec) (hard : ResourceList)
      → TrimmedRequests requests
      → Succeeds (validate_resource_quota_request_spec parse_error path requests)
      → Succeeds (set_requests parse_error requests hard)
  unfolding set_requests validate_resource_quota_request_spec
  set_requests-Succeeds path none hard t h = (hard, refl)
  set_requests-Succeeds path (some r) hard (t, u, v, w) (_, h) =
      let (c, h₁) = >>-eq-ok _ _ h in
      let (m, h₂) = >>-eq-ok _ _ h₁ in
      let (e, s) = >>-eq-ok _ _ h₂ in
      let (t₁, u₁) = cpu-Good (path <> ".cpu") r.cpu t c in
      let (t₂, u₂) = bytes-Good (path <> ".memory") r.memory u m in
      let (t₃, u₃) = bytes-Good (path <> ".storage") r.storage v (_, s) in
      let (t₄, u₄) = bytes-Good (path <> ".ephemeralStorage") r.ephemeral_storage w e in
      Succeeds-bind _ _ (set_quantity-Succeeds "requests.cpu" r.cpu hard t₁ u₁) λ k₁.
        Succeeds-bind _ _ (set_quantity-Succeeds "requests.memory" r.memory k₁ t₂ u₂) λ k₂.
          Succeeds-bind _ _ (set_quantity-Succeeds "requests.storage" r.storage k₂ t₃ u₃)
            λ k₃. set_quantity-Succeeds "requests.ephemeral-storage" r.ephemeral_storage k₃ t₄ u₄

  set_storage_classes-Succeeds :
      (path : String) (i : ℕ) (entries : List StorageClassQuota) (hard : ResourceList)
      → All (λ e. IsTrimmed e.value × (is_empty e.value ≡ false)) entries
      → Succeeds (validate_storage_classes parse_error path i entries)
      → Succeeds (set_storage_classes parse_error entries hard)
  unfolding set_storage_classes validate_storage_classes
  set_storage_classes-Succeeds path i [] hard t h = (hard, refl)
  set_storage_classes-Succeeds path i (e ∷ es) hard ((t, filled), ts) (_, h) =
      let (own, rest) = >>-eq-ok _ _ h in
      let later =
        λ (k : ResourceList). set_storage_classes-Succeeds path (suc i) es k ts (_, rest) in
      elim (Bool-cases (is_empty e.key)) [
        | inl skipped ↦ rw skipped (later hard)
        | inr keyed ↦ elim (validate_storage_class_quota_value-Usable _ e.key e.value t own) [
          | inl blank ↦ absurd (cc (blank, filled))
          | inr parses ↦ rw (keyed, must_parse_accepted parse_error _ parses) (later _)
        ]
      ]

  -- The admission checks are enough for a tidy spec: if they pass, the quota is built, and no
  -- `MustParse` on the way panics.
  pub build_resource_quota_hard-Succeeds :
      (prefix : String) (q : ResourceQuotaSpec)
      → IsTidy q
      → validate_resource_quota_spec parse_error prefix (some q) ≡ ok tt
      → Succeeds (build_resource_quota_hard parse_error q)
  unfolding build_resource_quota_hard validate_resource_quota_spec
  build_resource_quota_hard-Succeeds prefix q tidy h =
      let (c, h₁) = >>-eq-ok _ _ h in
      let (m, h₂) = >>-eq-ok _ _ h₁ in
      let (e, h₃) = >>-eq-ok _ _ h₂ in
      let (l, h₄) = >>-eq-ok _ _ h₃ in
      let (r, s) = >>-eq-ok _ _ h₄ in
      let (t₁, u₁) = cpu-Good (prefix <> ".cpu") q.cpu tidy.cpu c in
      let (t₂, u₂) = bytes-Good (prefix <> ".memory") q.memory tidy.memory m in
      let (t₃, u₃) =
        bytes-Good (prefix <> ".ephemeralStorage") q.ephemeral_storage tidy.ephemeral_storage e in
      Succeeds-bind _ _ (set_count-Succeeds "pods" q.pods []) λ k₁.
        Succeeds-bind _ _ (set_quantity-Succeeds "cpu" q.cpu k₁ t₁ u₁) λ k₂.
          Succeeds-bind _ _ (set_quantity-Succeeds "memory" q.memory k₂ t₂ u₂) λ k₃.
            Succeeds-bind _ _
              (set_quantity-Succeeds "ephemeral-storage" q.ephemeral_storage k₃ t₃ u₃)
              λ k₄.
                Succeeds-bind _ _
                  (set_count-Succeeds "replicationcontrollers" q.replication_controllers k₄)
                  λ k₅.
                    Succeeds-bind _ _ (set_count-Succeeds "resourcequotas" q.resource_quotas k₅)
                      λ k₆. Succeeds-bind _ _ (set_count-Succeeds "services" q.services k₆) λ k₇.
                        Succeeds-bind _ _ (set_count-Succeeds "secrets" q.secrets k₇) λ k₈.
                          Succeeds-bind _ _ (set_count-Succeeds "configmaps" q.config_maps k₈) λ k₉.
                            Succeeds-bind _ _
                              (set_count-Succeeds "persistentvolumeclaims"
                                q.persistent_volume_claims k₉)
                              λ l₁.
                                Succeeds-bind _ _
                                  (set_limits-Succeeds (prefix <> ".limits") q.limits l₁ tidy.limits
                                    l)
                                  λ l₂.
                                    Succeeds-bind _ _
                                      (set_requests-Succeeds (prefix <> ".requests") q.requests l₂
                                        tidy.requests r)
                                      λ l₃.
                                        set_storage_classes-Succeeds prefix 0 q.storage_classes l₃
                                          tidy.storage_classes (_, s)
