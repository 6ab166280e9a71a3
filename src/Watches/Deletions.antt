-- ===== src/Watches/Deletions.antt =====
-- Whether a T-shirt size may be deleted, and whom a watch tells of its changes.
use project_onboarding_opera.Base.{
  ℕ, arith, String, ◌≡◌, refl, sym, ap, ◌∙◌, ◌↔◌, List, [], Bool, true, false, Error, ok, ltb,
  if◌then◌else◌,
}
use project_onboarding_opera.Api.{ProjectOnboarding}
use project_onboarding_opera.Effects.{Effect, pure, raise, attempt, ◌>>=◌}
use project_onboarding_opera.References.{
  count_references, count_project_onboarding_references, validate_tshirt_size_delete,
}
use project_onboarding_opera.Watches.{
  requests_for_size, use_list, find_project_onboardings_for_tshirt_size,
}
use project_onboarding_opera.Watches.Laws.{count_references-requests}

below : (n : ℕ) → ltb 0 n ≡ false → n ≡ 0
below n at = ground (arith, at)

guard_iff :
    {S : Type 0} (e : Error) (n : ℕ) (s : S)
    → (((if ltb 0 n then raise e else pure (tt {0})) s).0 ≡ ok tt) ↔ (n ≡ 0)
unfolding raise pure
guard_iff {S = S} e n s = branch (ltb 0 n) (below n) (λ at. rw at refl)
  where
    branch :
        (b : Bool)
        → (b ≡ false → n ≡ 0)
        → (n ≡ 0 → b ≡ false)
        → (((if b then raise e else pure (tt {0})) s).0 ≡ ok tt) ↔ (n ≡ 0)
    branch true f g = (λ h. absurd (cc h), λ h. let apart = g h in absurd (cc apart))
    branch false f g = (λ h. f refl, λ h. refl)

module _ {S : Type 0} (list : Effect S (List ProjectOnboarding)) (size_name : String)
    (items : List ProjectOnboarding) (s t : S) where
  pub validate_tshirt_size_delete-read :
      list s ≡ (ok items, t)
      → ((validate_tshirt_size_delete list size_name s).0 ≡ ok tt)
        ↔ (count_references size_name items ≡ 0)
  unfolding validate_tshirt_size_delete count_project_onboarding_references pure ◌>>=◌
  validate_tshirt_size_delete-read read = rw read (guard_iff _ (count_references size_name items) t)

  find_project_onboardings-read :
      list s ≡ (ok items, t)
      → (find_project_onboardings_for_tshirt_size list size_name s).0
        ≡ ok (requests_for_size size_name items)
  unfolding find_project_onboardings_for_tshirt_size use_list pure attempt ◌>>=◌
  find_project_onboardings-read read = rw read refl

  -- Where the list of the ProjectOnboardings can be read, the deletion of a T-shirt size is admitted
  -- exactly if the watch of the sizes enqueues no ProjectOnboarding for it.
  pub validate_tshirt_size_delete_iff :
      list s ≡ (ok items, t)
      → ((validate_tshirt_size_delete list size_name s).0 ≡ ok tt)
        ↔ ((find_project_onboardings_for_tshirt_size list size_name s).0 ≡ ok [])
  validate_tshirt_size_delete_iff read =
      let (forth, back) = count_references-requests size_name items in
      let (down, up) = validate_tshirt_size_delete-read read in
      let found = find_project_onboardings-read read in
      (λ h. found ∙ ap ok (forth (down h)), λ h. up (back (ok-injective (sym found ∙ h))))
    where
      ok-injective : {a b : List String} → ok a ≡ ok b → a ≡ b
      ok-injective h = cc h
