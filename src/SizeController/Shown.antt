-- ===== src/SizeController/Shown.antt =====
-- What the status of a T-shirt size shows of its spec and of the references to it.
use project_onboarding_opera.Base.{
  ℕ, ◌<◌, ◌-◌, ◌%◌, String, arith, ◌≡◌, refl, sym, ◌∙◌, ◌↔◌, Bool, true, false, List, ok, ltb,
  if◌then◌else◌,
}
use project_onboarding_opera.Base.Text.{pos, negsuc}
use project_onboarding_opera.Api.{ProjectOnboarding}
use project_onboarding_opera.Helpers.Status.{Bytes}
use project_onboarding_opera.Validation.Resources.{tshirt_size_spec_has_sizing}
use project_onboarding_opera.Effects.{Effect, pure, attempt, ◌>>=◌}
use project_onboarding_opera.References.{
  count_references, count_project_onboarding_references, validate_tshirt_size_delete,
}
use project_onboarding_opera.SizeController.{
  to_int32, TShirtSizeStatus, TShirtSize, size_status, conclude_size, after_count, after_size,
  reconcile_size,
}
use project_onboarding_opera.Watches.Deletions.{validate_tshirt_size_delete-read}

to_int32-zero : (n : ℕ) → n < 4294967296 → (to_int32 n ≡ pos 0) ↔ (n ≡ 0)
unfolding to_int32
to_int32-zero n small =
    branch (ltb (n % 4294967296) 2147483648) (omega (arith, small)) (λ at. ground (arith, at))
  where
    branch :
        (b : Bool)
        → n % 4294967296 ≡ n
        → (n ≡ 0 → b ≡ true)
        → ((if b then pos (n % 4294967296) else negsuc (4294967295 - n % 4294967296)) ≡ pos 0)
          ↔ (n ≡ 0)
    branch true same first = (λ h. cc (h, same), λ h. cc (h, same))
    branch false same first = (λ h. absurd (cc h), λ h. let apart = first h in absurd (cc apart))

size_status-phase :
    (now : ℕ) (bytes_of : String → Bytes) (size : TShirtSize) (refs : ℕ)
    → ((size_status now bytes_of size refs).phase ≡ "Ready")
      ↔ (tshirt_size_spec_has_sizing size.spec ≡ true)
unfolding size_status
size_status-phase now bytes_of size refs =
    branch (tshirt_size_spec_has_sizing size.spec) _ _ refl (λ h. cc h)
  where
    branch :
        (b : Bool) (x y : TShirtSizeStatus)
        → x.phase ≡ "Ready"
        → (y.phase ≡ "Ready" → ⊥)
        → ((if b then x else y).phase ≡ "Ready") ↔ (b ≡ true)
    branch true x y ready other = (λ h. refl, λ h. ready)
    branch false x y ready other = (λ h. absurd (other h), λ h. absurd (cc h))

size_status-referenced_by :
    (now : ℕ) (bytes_of : String → Bytes) (size : TShirtSize) (refs : ℕ)
    → (size_status now bytes_of size refs).referenced_by ≡ to_int32 refs
unfolding size_status
size_status-referenced_by now bytes_of size refs =
    branch (tshirt_size_spec_has_sizing size.spec) _ _ refl refl
  where
    branch :
        (b : Bool) (x y : TShirtSizeStatus)
        → x.referenced_by ≡ to_int32 refs
        → y.referenced_by ≡ to_int32 refs
        → (if b then x else y).referenced_by ≡ to_int32 refs
    branch true x y here there = here
    branch false x y here there = there

module _ (now : ℕ) (bytes_of : String → Bytes) {S : Type 0}
    (get_size : String → Effect S TShirtSize) (list : Effect S (List ProjectOnboarding))
    (update_status : TShirtSize → Effect S (Unit {0})) where
  -- Where the T-shirt size and the list of the ProjectOnboardings can be read, and fewer than 2^32
  -- namespace entries refer to the size, the reconciler asks the API server for one update of the
  -- status: it shows no reference exactly if the deletion of the size would be admitted, and is ready
  -- exactly if the size gives a quota or a limit range a value.
  pub reconcile_size-Shows :
      (name : String) (size : TShirtSize) (items : List ProjectOnboarding) (s t u : S)
      → get_size name s ≡ (ok size, t)
      → list t ≡ (ok items, u)
      → count_references size.name items < 4294967296
      → (written : TShirtSize) × (reconcile_size now bytes_of get_size list update_status name s
          ≡ (attempt (update_status written) >>= λ r. pure (conclude_size now bytes_of r)) u)
        × ((written.status.referenced_by ≡ pos 0)
            ↔ ((validate_tshirt_size_delete list size.name t).0 ≡ ok tt))
        × ((written.status.phase ≡ "Ready") ↔ (tshirt_size_spec_has_sizing size.spec ≡ true))
  unfolding reconcile_size after_size after_count count_project_onboarding_references attempt ◌>>=◌
      pure
  reconcile_size-Shows name size items s t u read listed small =
      let refs = count_references size.name items in
      let (none_shown, none_shown') = to_int32-zero refs small in
      let (admitted, admitted') =
        validate_tshirt_size_delete-read list size.name items t u listed in
      let shown = size_status-referenced_by now bytes_of size refs in
      (
        record size { status = size_status now bytes_of size refs },
        rw (read, listed) refl,
        (λ h. admitted' (none_shown (sym shown ∙ h)), λ h. shown ∙ none_shown' (admitted h)),
        size_status-phase now bytes_of size refs,
      )
