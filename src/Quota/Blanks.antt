-- ===== src/Quota/Blanks.antt =====
-- Values that the admission checks let through and that `MustParse` panics on: a blank value of a
-- storage class quota, and a text of a limit range that parses only once it is trimmed.
use project_onboarding_opera.Base.{
  ℕ, suc, String, ◌<>◌, ◌≡◌, inl, inr, true, false, Bool-cases, Option, none, some, List, [], ◌∷◌,
  ◌++◌, ok, Panics, Panics-bind, >>-eq-ok, >>-ok, >>-map, arith,
}
use project_onboarding_opera.Base.Text.{is_empty, trim_space}
use project_onboarding_opera.Helpers.Names.{normalize_quantity}
use project_onboarding_opera.Api.{StorageClassQuota, ResourceQuotaSpec, LimitRangeSpec}
use project_onboarding_opera.Validation.Quantity.{
  on_some, validate_cpu_quantity, validate_byte_quantity, validate_storage_class_quota_value,
  validate_storage_classes, validate_resource_quota_spec, validate_resource_quota_limit_spec,
  validate_resource_quota_request_spec, validate_resource_amount_spec, validate_limit_range_spec,
}
use project_onboarding_opera.Quota.Parsing.{
  must_parse_rejected, must_parse-Ends, set_count-Ends, set_quantity-Ends, set_limits-Ends,
  set_requests-Ends,
}
use project_onboarding_opera.Quota.{
  ResourceList, set_storage_classes, build_resource_quota_hard, resource_amount,
  build_limit_range_items,
}

-- The quota spec with one more storage class entry at the end.
abbrev pub with_storage_class : ResourceQuotaSpec → StorageClassQuota → ResourceQuotaSpec
with_storage_class q e = record q { storage_classes = q.storage_classes ++ e ∷ [] }

-- The limit range with that text as the only limit on pods.
abbrev pub with_pod_cpu : LimitRangeSpec → String → LimitRangeSpec
with_pod_cpu lr v = record lr {
  pod = some (record { max = some (record { cpu = some v; memory = none }); min = none });
}

module _ (parse_error : String → Option String) where
  set_storage_classes-Panics :
      (es : List StorageClassQuota) (e : StorageClassQuota) {err : String} (hard : ResourceList)
      → is_empty e.key ≡ false
      → parse_error (normalize_quantity e.value) ≡ some err
      → Panics (set_storage_classes parse_error (es ++ e ∷ []) hard)
  unfolding set_storage_classes
  set_storage_classes-Panics [] e hard keyed bad =
      rw keyed (let (t, p) = must_parse_rejected parse_error _ bad in (t, rw p))
  set_storage_classes-Panics (d ∷ es) e hard keyed bad = elim (Bool-cases (is_empty d.key)) [
    | inl skipped ↦ rw skipped (set_storage_classes-Panics es e hard keyed bad)
    | inr counted ↦ rw counted (
        Panics-bind _ _ (must_parse-Ends parse_error _)
          λ q. set_storage_classes-Panics es e _ keyed bad)
  ]

  validate_storage_classes-append :
      (path : String) (i : ℕ) (es : List StorageClassQuota) (e : StorageClassQuota)
      → is_empty (trim_space e.value) ≡ true
      → validate_storage_classes parse_error path i es ≡ ok tt
      → validate_storage_classes parse_error path i (es ++ e ∷ []) ≡ ok tt
  unfolding validate_storage_classes validate_storage_class_quota_value
  validate_storage_classes-append path i [] e blank h = rw blank
  validate_storage_classes-append path i (d ∷ es) e blank h =
      let (own, rest) = >>-eq-ok _ _ h in
      >>-ok _ _ own (validate_storage_classes-append path (suc i) es e blank rest)

  -- A storage class quota with a blank value is a trap: added to any quota that passes the
  -- admission checks it leaves them passing, and building the quota panics, if the parser rejects
  -- the blank text.
  pub blank_storage_class-Panics :
      (prefix : String) (q : ResourceQuotaSpec) (e : StorageClassQuota) {err : String}
      → is_empty e.key ≡ false
      → is_empty (trim_space e.value) ≡ true
      → parse_error (normalize_quantity e.value) ≡ some err
      → validate_resource_quota_spec parse_error prefix (some q) ≡ ok tt
      → (validate_resource_quota_spec parse_error prefix (some (with_storage_class q e)) ≡ ok tt)
        × Panics (build_resource_quota_hard parse_error (with_storage_class q e))
  unfolding validate_resource_quota_spec build_resource_quota_hard
  blank_storage_class-Panics prefix q e keyed blank bad h = (
    >>-map (on_some q.cpu (validate_cpu_quantity parse_error (prefix <> ".cpu")))
        (>>-map (on_some q.memory (validate_byte_quantity parse_error (prefix <> ".memory"))) (
          >>-map
            (on_some q.ephemeral_storage
              (validate_byte_quantity parse_error (prefix <> ".ephemeralStorage")))
            (>>-map (validate_resource_quota_limit_spec parse_error (prefix <> ".limits") q.limits)
              (>>-map
                (validate_resource_quota_request_spec parse_error (prefix <> ".requests")
                  q.requests)
                (validate_storage_classes-append prefix 0 q.storage_classes e blank)))))
        h,
    Panics-bind _ _ (set_count-Ends parse_error _ _ _) λ k₁.
        Panics-bind _ _ (set_quantity-Ends parse_error _ _ _) λ k₂.
          Panics-bind _ _ (set_quantity-Ends parse_error _ _ _) λ k₃.
            Panics-bind _ _ (set_quantity-Ends parse_error _ _ _) λ k₄.
              Panics-bind _ _ (set_count-Ends parse_error _ _ _) λ k₅.
                Panics-bind _ _ (set_count-Ends parse_error _ _ _) λ k₆.
                  Panics-bind _ _ (set_count-Ends parse_error _ _ _) λ k₇.
                    Panics-bind _ _ (set_count-Ends parse_error _ _ _) λ k₈.
                      Panics-bind _ _ (set_count-Ends parse_error _ _ _) λ k₉.
                        Panics-bind _ _ (set_count-Ends parse_error _ _ _) λ l₁.
                          Panics-bind _ _ (set_limits-Ends parse_error _ _) λ l₂.
                            Panics-bind _ _ (set_requests-Ends parse_error _ _)
                              λ l₃. set_storage_classes-Panics q.storage_classes e l₃ keyed bad,
  )

  -- A CPU limit of a limit range is checked trimmed and built as it stands. A text that passes the
  -- check and does not parse as it stands, put into any admitted limit range, leaves it admitted and
  -- makes building it panic.
  pub padded_cpu-Panics :
      (prefix : String) (lr : LimitRangeSpec) (v : String) {err : String}
      → validate_cpu_quantity parse_error ((prefix <> ".pod.max") <> ".cpu") v ≡ ok tt
      → parse_error v ≡ some err
      → validate_limit_range_spec parse_error prefix (some lr) ≡ ok tt
      → (validate_limit_range_spec parse_error prefix (some (with_pod_cpu lr v)) ≡ ok tt)
        × Panics (build_limit_range_items parse_error (with_pod_cpu lr v))
  unfolding validate_limit_range_spec build_limit_range_items resource_amount
      validate_resource_amount_spec
  padded_cpu-Panics prefix lr v fine bad h =
      let (t, p) = must_parse_rejected parse_error v bad in
      let rest = (>>-eq-ok (on_some lr.pod _) _ h).1 in (ground (arith, fine, rest), (t, rw p))
